-- ===== src/Actions/Accept.antt =====
-- The reading of the Accept header in `determineContentType` of action.go.
use tracks.Common.{
  ℕ, String, ◌≡◌, refl, sym, ap, ◌∙◌, ◌≢◌, inl, inr, Bool, false, List, [], ◌∷◌, map, arith, eq_iff,
  nat_beq, Bool-cases, ◌==◌, string_eq,
}
use Prim.Native.String
use text.Mathlib.TextLemmas.{length-append}
use tracks.Common.Text.{join}
use tracks.Common.Split.{split_on, first_part, is_space, trim_space}
use tracks.Common.Splitting.{
  Avoids, Avoids-append, trim_space-Avoids, split_on-Avoids, split_on-separator,
}
use tracks.Http.{Request}
use tracks.Actions.{determine_content_type}

-- A media type with its parameters, as a client sends it.
pub record MediaRange : Type 0 where
  pub content_type : String
  pub parameters : String

abbrev pub print : MediaRange → String
print m = String.◌++◌ m.content_type (String.◌++◌ ";" m.parameters)

abbrev pub Lacks : ℕ → String → Type 0
Lacks sep s = Avoids (λ n. nat_beq n sep) s

-- No white space, no comma, and no semicolon in the type.
pub record IsRange (m : MediaRange) : Type 0 where
  pub type_spaces : Avoids is_space m.content_type
  pub type_commas : Lacks b',' m.content_type
  pub type_semicolons : Lacks b';' m.content_type
  pub parameter_spaces : Avoids is_space m.parameters
  pub parameter_commas : Lacks b',' m.parameters

abbrev pub AreRanges : List MediaRange → Type 0
AreRanges [] = Unit
AreRanges (m ∷ ms) = IsRange m × AreRanges ms

print-Avoids :
    (p : ℕ → Bool) (m : MediaRange)
    → Avoids p m.content_type
    → Avoids p m.parameters
    → p b';' ≡ false
    → Avoids p (print m)
print-Avoids p m h k e =
    Avoids-append p m.content_type _ h (Avoids-append p ";" m.parameters (e, tt) k)

print-commas : (m : MediaRange) → IsRange m → Lacks b',' (print m)
print-commas m h = print-Avoids (λ n. nat_beq n b',') m h.type_commas h.parameter_commas refl

print-spaces : (m : MediaRange) → IsRange m → Avoids is_space (print m)
print-spaces m h = print-Avoids is_space m h.type_spaces h.parameter_spaces refl

join-spaces :
    (m : MediaRange) (ms : List MediaRange)
    → AreRanges (m ∷ ms)
    → Avoids is_space (join "," (map print (m ∷ ms)))
unfolding join
join-spaces m [] h = print-spaces m h.0
join-spaces m (n ∷ ms) h =
    Avoids-append is_space (print m) _ (print-spaces m h.0)
      (Avoids-append is_space "," _ (refl, tt) (join-spaces n ms h.1))

split_on-join :
    (m : MediaRange) (ms : List MediaRange)
    → AreRanges (m ∷ ms)
    → split_on b',' (join "," (map print (m ∷ ms))) ≡ map print (m ∷ ms)
unfolding join
split_on-join m [] h = split_on-Avoids b',' (print m) (print-commas m h.0)
split_on-join m (n ∷ ms) h =
    split_on-separator b',' (print m) "," (join "," (map print (n ∷ ms))) (print-commas m h.0) refl
    ∙ ap (◌∷◌ (print m)) (split_on-join n ms h.1)

print_ne : (m : MediaRange) → print m ≢ ""
print_ne m e = absurd (
    omega (
      arith,
      ap String.count e,
      length-append m.content_type (String.◌++◌ ";" m.parameters),
      length-append ";" m.parameters,
    ))

first_of : {s : String} {ps : List String} → s ∷ ps ≡ split_on b',' "" → s ≡ ""
unfolding split_on
first_of e = ap first_part e

type_of_print :
    (m : MediaRange)
    → IsRange m
    → trim_space (first_part (split_on b';' (print m))) ≡ m.content_type
type_of_print m h =
    ap (λ parts. trim_space (first_part parts))
      (split_on-separator b';' m.content_type ";" m.parameters h.type_semicolons refl)
    ∙ trim_space-Avoids m.content_type h.type_spaces

types_of_print :
    (ms : List MediaRange)
    → AreRanges ms
    → map (λ t. trim_space (first_part (split_on b';' t))) (map print ms)
      ≡ map (λ m. m.content_type) ms
types_of_print [] h = refl
types_of_print (m ∷ ms) h = λ i. type_of_print m h.0 i ∷ types_of_print ms h.1 i

join_ne :
    (m : MediaRange) (ms : List MediaRange)
    → AreRanges (m ∷ ms)
    → (join "," (map print (m ∷ ms)) == "") ≡ false
join_ne m ms h = elim (Bool-cases (join "," (map print (m ∷ ms)) == "")) [
  | inl e ↦
      absurd
        (print_ne m (first_of (sym (split_on-join m ms h) ∙ ap (split_on b',') ((eq_iff _ _).0 e))))
  | inr e ↦ e
]

-- From an Accept header that lists media types with parameters, without white space, come the types in
-- their order; the parameters, and so the weights, count for nothing.
pub determine_content_type-print :
    (r : Request) (m : MediaRange) (ms : List MediaRange)
    → AreRanges (m ∷ ms)
    → r.header "Accept" ≡ join "," (map print (m ∷ ms))
    → determine_content_type r ≡ map (λ m. m.content_type) (m ∷ ms)
unfolding determine_content_type
determine_content_type-print r m ms h e =
    rw (e, trim_space-Avoids _ (join-spaces m ms h), join_ne m ms h)
      (ap (map (λ t. trim_space (first_part (split_on b';' t)))) (split_on-join m ms h)
        ∙ types_of_print (m ∷ ms) h)
