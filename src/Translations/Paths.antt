-- ===== src/Translations/Paths.antt =====
-- Paths through nested texts and the dotted keys that stand for them.
use tracks.Common.{
  ◌≡◌, refl, sym, ap, ◌∙◌, ◌≢◌, inl, inr, true, false, Option, none, some, List, [], ◌∷◌, ◌++◌,
  arith, eq_iff, nat_beq, if◌then◌else◌, Bool-cases, ◌==◌, string_eq, beq_self, All,
}
use tracks.Common.Dict.{Dict, get, put, get-put}
use tracks.Common.Split.{split_on}
use tracks.Common.Splitting.{Avoids}
use tracks.Common.Joining.{Apart, split_on-join, join-split_on}
use tracks.Common.Text.{join}
use Prim.Native.String.{String, ◌++◌ as append}
use mathlib.Core.List.{append-nil}
use Prim.Native.String as Text
use Prim.Native.Char.{Char}
use package.text.Mathlib.TextLemmas.{cons-append, append_assoc, length-cons}
use tracks.Translations.{new_key}

-- A key that is a name: not empty, and without a dot.
abbrev pub IsName : String → Type 0
IsName key = ((key == "") ≡ false) × Avoids (λ n. nat_beq n b'.') key

abbrev pub or_else : Option String → Option String → Option String
or_else none o = o
or_else (some s) o = some s

-- A path without its first parts.
unfoldable pub strip : List String → List String → Option (List String)
strip [] path = some path
strip (r ∷ prefix) [] = none
strip (r ∷ prefix) (part ∷ path) = if r == part then strip prefix path else none

strip_lem : (prefix path rest : List String) → strip prefix path ≡ some rest → prefix ++ rest ≡ path
unfolding strip
strip_lem [] path rest h = cc
strip_lem (r ∷ prefix) [] rest h = cc
strip_lem (r ∷ prefix) (part ∷ path) rest h =
    ground (arith, eq_iff r part, strip_lem prefix path rest)

strip_self : (path : List String) → strip path path ≡ some []
unfolding strip
strip_self [] = refl
strip_self (p ∷ path) = rw (beq_self p) (strip_self path)

abbrev pub strip_one : String → List String → Option (List String)
strip_one key [] = none
strip_one key (part ∷ path) = if key == part then some path else none

pub strip-snoc :
    (prefix : List String) (key : String) (path : List String)
    → strip (prefix ++ key ∷ []) path
      ≡ elim (strip prefix path) [ none ↦ none | some rest ↦ strip_one key rest ]
unfolding strip
strip-snoc [] key [] = refl
strip-snoc [] key (p ∷ path) = refl
strip-snoc (r ∷ prefix) key [] = refl
strip-snoc (r ∷ prefix) key (p ∷ path) = elim (Bool-cases (r == p)) [
  | inl e ↦ rw e (strip-snoc prefix key path)
  | inr e ↦ rw e
]

join-snoc :
    (r : String) (prefix : List String) (key : String)
    → append (join "." (r ∷ prefix)) (append "." key) ≡ join "." (r ∷ (prefix ++ key ∷ []))
unfolding join
join-snoc r [] key = refl
join-snoc r (p ∷ prefix) key =
    append_assoc r (append "." (join "." (p ∷ prefix))) (append "." key)
    ∙ ap (append r) (
        append_assoc "." (join "." (p ∷ prefix)) (append "." key)
        ∙ ap (append ".") (join-snoc p prefix key))

pub cons-ne : (c : Char) (s : String) → ((Text.◌∷◌ c s) == "") ≡ false
cons-ne c s = elim (Bool-cases ((Text.◌∷◌ c s) == "")) [
  | inl e ↦ absurd (omega (arith, ap Text.count ((eq_iff _ _).0 e), length-cons c s))
  | inr e ↦ e
]

join-ne :
    (r : String) (prefix : List String) → (r == "") ≡ false → (join "." (r ∷ prefix) == "") ≡ false
unfolding join
join-ne r [] h = h
join-ne Text.[] (p ∷ prefix) h = cc
join-ne (Text.◌∷◌ c r) (p ∷ prefix) h = rw cons-append (cons-ne c _)

pub new_key-join :
    (prefix : List String) (key : String)
    → All IsName prefix
    → new_key (join "." prefix) key ≡ join "." (prefix ++ key ∷ [])
unfolding new_key join
new_key-join [] key h = refl
new_key-join (r ∷ prefix) key h = rw (join-ne r prefix h.0.0) (join-snoc r prefix key)

All-IsName-Apart : (path : List String) → All IsName path → Apart b'.' path
All-IsName-Apart [] h = tt
All-IsName-Apart (p ∷ path) h = (h.0.1, All-IsName-Apart path h.1)

-- A dotted key is that of a path only if it splits into the path.
join-split_lem :
    (prefix : List String) (key : String)
    → All IsName prefix
    → prefix ≢ []
    → (join "." prefix == key) ≡ true
    → prefix ≡ split_on b'.' key
join-split_lem [] key h ne e = absurd (ne refl)
join-split_lem (r ∷ prefix) key h ne e =
    sym (split_on-join "." r prefix (All-IsName-Apart (r ∷ prefix) h))
    ∙ ap (split_on b'.') ((eq_iff _ key).0 e)

-- What a write under the dotted key of a path changes: `at` is the part of a text at a path.
module _ (at : List String → Option String) where
  abbrev pub below : List String → List String → Option String
  below prefix path = elim (strip prefix path) [ none ↦ none | some rest ↦ at rest ]

  pub write_lem :
      (prefix : List String) (key s : String) (cache : Dict String String)
      → All IsName prefix
      → prefix ≢ []
      → at [] ≡ some s
      → ((p : String) (ps : List String) → at (p ∷ ps) ≡ none)
      → get key (put (join "." prefix) s cache)
        ≡ or_else (below prefix (split_on b'.' key)) (get key cache)
  write_lem prefix key s cache h ne here deeper =
      get-put (join "." prefix) key s cache ∙ elim (Bool-cases (join "." prefix == key)) [
        | inl e ↦ rw (e, ← join-split_lem prefix key h ne e, below, strip_self prefix, here)
        | inr e ↦ rw e (missed (strip prefix (split_on b'.' key)) refl e)
      ]
    where
      missed :
          (o : Option (List String))
          → strip prefix (split_on b'.' key) ≡ o
          → (join "." prefix == key) ≡ false
          → get key cache ≡ or_else (elim o [ none ↦ none | some rest ↦ at rest ]) (get key cache)
      missed none f e = refl
      missed (some []) f e =
          let same : join "." prefix ≡ key =
            ap (join ".") (sym (append-nil prefix) ∙ strip_lem prefix (split_on b'.' key) [] f)
            ∙ join-split_on "." key in
          absurd (ground (arith, eq_iff (join "." prefix) key, same, e))
      missed (some (p ∷ ps)) f e = rw (deeper p ps)

pub below_cong :
    (f g : List String → Option String) (prefix path : List String)
    → ((p : List String) → f p ≡ g p)
    → below f prefix path ≡ below g prefix path
below_cong f g prefix path h = go (strip prefix path)
  where
    go :
        (o : Option (List String))
        → elim o [ none ↦ none | some rest ↦ f rest ] ≡ elim o [ none ↦ none | some rest ↦ g rest ]
    go none = refl
    go (some rest) = h rest

-- Where nothing is, the cache decides.
pub below-none :
    (f : List String → Option String) (prefix path : List String) (o : Option String)
    → ((p : List String) → f p ≡ none)
    → o ≡ or_else (below f prefix path) o
below-none f prefix path o h = go (strip prefix path)
  where
    go : (s : Option (List String)) → o ≡ or_else (elim s [ none ↦ none | some rest ↦ f rest ]) o
    go none = refl
    go (some rest) = rw (h rest)

pub snoc-ne : (prefix : List String) (key : String) → prefix ++ key ∷ [] ≢ []
snoc-ne [] key e = cc e
snoc-ne (p ∷ prefix) key e = cc e
