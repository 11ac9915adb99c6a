-- ===== src/Translations/AcceptLanguage.antt =====
-- What `DetectLanguage` reads from an Accept-Language header.
use tracks.Common.{
  ℕ, String, ◌≡◌, refl, sym, ap, ◌∙◌, ◌≢◌, inl, inr, Bool, true, false, not, ◌&&◌, ◌||◌, Option,
  none, List, [], ◌∷◌, arith, nat_beq, Bool-cases, ◌==◌, string_eq,
}
use Prim.Native.Char.{Char, code}
use Prim.Native.String.{◌++◌ as append}
use Prim.Native.String as Text
use text.Mathlib.TextLemmas.{nil-append, cons-append, append-nil}
use tracks.Common.Split.{
  split_on, first_part, in_front, is_space, trim_left, trim_right, trim_space,
}
use tracks.Common.Splitting.{Avoids}
use tracks.Http.{Request}
use tracks.Session.Data.{SessionData}
use tracks.Translations.Paths.{cons-ne}
use tracks.Translations.Language.{language_code, detect_language, session_language}

-- The text ends here or goes on with a character of the kind.
abbrev pub Starts : (ℕ → Bool) → String → Type 0
Starts p Text.[] = Unit
Starts p (Text.◌∷◌ c s) = p (code c) ≡ true

abbrev pub part : ℕ → String → String
part sep s = first_part (split_on sep s)

first_part-in_front :
    (c : Char) (ps : List String) → first_part (in_front c ps) ≡ Text.◌∷◌ c (first_part ps)
first_part-in_front c [] = refl
first_part-in_front c (p ∷ ps) = refl

part-append :
    (sep : ℕ) (s t : String)
    → Avoids (λ n. nat_beq n sep) s
    → part sep (append s t) ≡ append s (part sep t)
unfolding split_on
part-append sep Text.[] t h = rw (nil-append t, nil-append (part sep t))
part-append sep (Text.◌∷◌ c s) t h =
    rw (cons-append c s t, split_on, h.0)
      (first_part-in_front c (split_on sep (append s t))
        ∙ ap (Text.◌∷◌ c) (part-append sep s t h.1)
        ∙ sym (cons-append c s (part sep t)))

abbrev without : ℕ → (ℕ → Bool) → ℕ → Bool
without sep p n = p n && not (nat_beq n sep)

part-Starts :
    (sep : ℕ) (p : ℕ → Bool) (s : String) → Starts p s → Starts (without sep p) (part sep s)
unfolding split_on
part-Starts sep p Text.[] h = tt
part-Starts sep p (Text.◌∷◌ c s) h = elim (Bool-cases (nat_beq (code c) sep)) [
  | inl e ↦ rw e tt
  | inr e ↦ rw (e, first_part-in_front c (split_on sep s)) (rw (h, e) refl)
]

trim_right-append :
    (s t : String)
    → Avoids is_space s
    → Starts (λ n. not (is_space n)) t
    → trim_right (append s t) ≡ append s (trim_right t)
unfolding trim_right
trim_right-append Text.[] t h k = rw (nil-append t, nil-append (trim_right t))
trim_right-append (Text.◌∷◌ c s) t h k =
    rw (cons-append c s t, trim_right, h.0)
      (ap (Text.◌∷◌ c) (trim_right-append s t h.1 k) ∙ sym (cons-append c s (trim_right t)))

trim_left_lem : (t : String) → Starts (λ n. not (is_space n)) t → trim_left t ≡ t
unfolding trim_left
trim_left_lem Text.[] k = refl
trim_left_lem (Text.◌∷◌ c t) k = ground arith

trim_left-append :
    (s t : String)
    → Avoids is_space s
    → Starts (λ n. not (is_space n)) t
    → trim_left (append s t) ≡ append s t
unfolding trim_left
trim_left-append Text.[] t h k = rw (nil-append t) (trim_left_lem t k)
trim_left-append (Text.◌∷◌ c s) t h k = rw (cons-append c s t, trim_left, h.0) refl

trim_right-Starts :
    (p : ℕ → Bool) (t : String)
    → ((n : ℕ) → p n ≡ true → is_space n ≡ false)
    → Starts p t
    → Starts p (trim_right t)
unfolding trim_right
trim_right-Starts p Text.[] f k = tt
trim_right-Starts p (Text.◌∷◌ c t) f k = rw (f (code c) k) k

Starts-imp :
    (p q : ℕ → Bool) (t : String) → ((n : ℕ) → p n ≡ true → q n ≡ true) → Starts p t → Starts q t
Starts-imp p q Text.[] f k = tt
Starts-imp p q (Text.◌∷◌ c t) f k = f (code c) k

empty_of_Starts : (p : ℕ → Bool) (t : String) → ((n : ℕ) → p n ≡ false) → Starts p t → t ≡ ""
empty_of_Starts p Text.[] f k = refl
empty_of_Starts p (Text.◌∷◌ c t) f k = cc (f (code c), k)

Avoids-imp :
    (p q : ℕ → Bool) (t : String) → ((n : ℕ) → p n ≡ false → q n ≡ false) → Avoids p t → Avoids q t
Avoids-imp p q Text.[] f k = tt
Avoids-imp p q (Text.◌∷◌ c t) f k = (f (code c) k.0, Avoids-imp p q t f k.1)

-- What may follow the code of a language: its region, its weight, the next language.
abbrev pub is_mark : ℕ → Bool
is_mark n = nat_beq n b',' || nat_beq n b';' || nat_beq n b'-'

is_mark_visible : (n : ℕ) → is_mark n ≡ true → is_space n ≡ false
is_mark_visible n h = ground arith

-- A mark that is no comma and no semicolon.
abbrev is_dash : ℕ → Bool
is_dash = without b';' (without b',' is_mark)

is_dash_visible : (n : ℕ) → is_dash n ≡ true → not (is_space n) ≡ true
is_dash_visible n h = rw (is_mark_visible n (ground arith))

abbrev pub in_code : ℕ → Bool
in_code n = is_mark n || is_space n

-- The first language is read up to its region, its weight or the next language.
pub language_code-append :
    (lang rest : String)
    → Avoids in_code lang
    → Starts is_mark rest
    → language_code (append lang rest) ≡ lang
unfolding language_code trim_space
language_code-append lang rest h k =
    let comma = part b',' rest in
    let semi = part b';' comma in
    let trimmed = trim_right semi in
    let semi_Starts : Starts is_dash semi =
      part-Starts b';' (without b',' is_mark) comma (part-Starts b',' is_mark rest k) in
    let trimmed_Starts : Starts is_dash trimmed =
      trim_right-Starts is_dash semi (λ n p. is_mark_visible n (ground arith)) semi_Starts in
    let visible : Avoids is_space lang = Avoids-imp in_code is_space lang (λ n p. ground arith) h in
    let apart : (sep : ℕ) → is_mark sep ≡ true → Avoids (λ n. nat_beq n sep) lang =
      λ sep m. Avoids-imp in_code (λ n. nat_beq n sep) lang (λ n p. ground arith) h in
    ap (λ s. part b'-' (trim_space (part b';' s))) (part-append b',' lang rest (apart b',' refl))
    ∙ ap (λ s. part b'-' (trim_space s)) (part-append b';' lang comma (apart b';' refl))
    ∙ ap (λ s. part b'-' (trim_left s))
        (trim_right-append lang semi visible
          (Starts-imp is_dash _ semi is_dash_visible semi_Starts))
    ∙ ap (part b'-') (
        trim_left-append lang trimmed visible
          (Starts-imp is_dash _ trimmed is_dash_visible trimmed_Starts))
    ∙ part-append b'-' lang trimmed (apart b'-' refl)
    ∙ ap (append lang) (
        empty_of_Starts (without b'-' is_dash) (part b'-' trimmed) (λ n. ground arith)
          (part-Starts b'-' is_dash trimmed trimmed_Starts))
    ∙ append-nil lang

append-ne : (s t : String) → s ≢ "" → (append s t == "") ≡ false
append-ne Text.[] t h = absurd (h refl)
append-ne (Text.◌∷◌ c s) t h = rw (cons-append c s t) (cons-ne c _)

-- A request that names no language otherwise, neither in its query nor by a cookie or a session, gets
-- the first language of its Accept-Language header, up to its region, its weight or the next language:
-- for a code without spaces, commas, semicolons and dashes that is not empty, followed by nothing or by
-- one of these three marks and any text.
pub detect_language-header :
    (r : Request) (session : Option SessionData) (default_lang lang rest : String)
    → r.query "locale" ≡ ""
    → r.cookie "locale" ≡ none
    → session_language session ≡ none
    → r.header "Accept-Language" ≡ append lang rest
    → lang ≢ ""
    → Avoids in_code lang
    → Starts is_mark rest
    → detect_language r session default_lang ≡ lang
unfolding detect_language
detect_language-header r session default_lang lang rest q c s h ne a k =
    rw (q, c, s, h, append-ne lang rest ne) (language_code-append lang rest a k)
