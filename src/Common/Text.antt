-- ===== src/Common/Text.antt =====
-- Go's strings package, as far as the components use it, over the native text.
use Prim.Native.Nat.{ℕ, ◌+◌}
use Prim.Native.Char.{Char, code}
use Prim.Native.String.{String, [], ◌∷◌, ◌++◌, count}
use mathlib.Core.Path.{◌≡◌, refl, sym, ap, ◌∙◌}
use mathlib.Core.Logic.{inl, inr, ◌≢◌}
use mathlib.Core.Bool.{Bool, true, ◌||◌}
use mathlib.Core.List
use native.Mathlib.Omega.{arith}
use text.Mathlib.Text.{◌==◌}
use text.Mathlib.TextEquality.{eq_iff}
use text.Mathlib.TextPositions.{eq_refl}
use text.Mathlib.TextLemmas.{nil-append, cons-append, length-append, length-cons}
use package.tracks.Common.Tests.{if◌then◌else◌, Bool-cases, nat_beq}

-- `strings.HasSuffix(s, t)`
unfoldable pub has_suffix : String → String → Bool
has_suffix [] t = [] == t
has_suffix (c ∷ s) t = (c ∷ s) == t || has_suffix s t

-- `strings.TrimSuffix(s, t)`
unfoldable pub trim_suffix : String → String → String
trim_suffix [] t = []
trim_suffix (c ∷ s) t = let rest = trim_suffix s t in if (c ∷ s) == t then [] else c ∷ rest

-- `strings.Join(parts, sep)`
unfoldable pub join : String → List.List String → String
join sep List.[] = []
join sep (List.◌∷◌ p List.[]) = p
join sep (List.◌∷◌ p (List.◌∷◌ q ps)) = p ++ (sep ++ join sep (List.◌∷◌ q ps))

pub has_suffix-append : (p t : String) → has_suffix (p ++ t) t ≡ true
unfolding has_suffix
has_suffix-append [] t = rw nil-append (go t)
  where
    go : (t : String) → has_suffix t t ≡ true
    go [] = refl
    go (c ∷ t) = rw eq_refl
has_suffix-append (c ∷ p) t =
    rw (cons-append, has_suffix, has_suffix-append p t)
      (elim (Bool-cases (c ∷ (p ++ t) == t)) [ inl e ↦ rw e | inr e ↦ rw e ])

-- A text is not its own proper suffix.
longer : (c : Char) (p t : String) → c ∷ (p ++ t) ≢ t
longer c p t e = absurd (omega (arith, ap count e, length-cons c (p ++ t), length-append p t))

pub trim_suffix-append : (p t : String) → trim_suffix (p ++ t) t ≡ p
unfolding trim_suffix
trim_suffix-append [] t = rw nil-append (go t)
  where
    go : (t : String) → trim_suffix t t ≡ []
    go [] = refl
    go (c ∷ t) = rw eq_refl
trim_suffix-append (c ∷ p) t =
    rw (cons-append, trim_suffix, trim_suffix-append p t)
      (elim (Bool-cases (c ∷ (p ++ t) == t)) [
        | inl e ↦ absurd (longer c p t ((eq_iff _ _).0 e))
        | inr e ↦ rw e
      ])

pub append-trim_suffix : (s t : String) → has_suffix s t ≡ true → trim_suffix s t ++ t ≡ s
unfolding has_suffix trim_suffix
append-trim_suffix [] t h = rw nil-append (sym ((eq_iff [] t).0 h))
append-trim_suffix (c ∷ s) t h = elim (Bool-cases (c ∷ s == t)) [
  | inl e ↦ rw (e, trim_suffix) (nil-append t ∙ sym ((eq_iff _ _).0 e))
  | inr e ↦
      rw (e, trim_suffix)
        (cons-append c (trim_suffix s t) t ∙ ap (◌∷◌ c) (append-trim_suffix s t (ground arith)))
]

-- How many "?" a text holds: the placeholders of an SQL statement.
abbrev pub marks : String → ℕ
marks [] = 0
marks (c ∷ s) = (if nat_beq (code c) b'?' then 1 else 0) + marks s

pub marks-append : (s t : String) → marks (s ++ t) ≡ marks s + marks t
marks-append [] t = rw nil-append (omega arith)
marks-append (c ∷ s) t = rw (cons-append, marks) (omega (arith, marks-append s t))

abbrev pub marks_all : List.List String → ℕ
marks_all List.[] = 0
marks_all (List.◌∷◌ p ps) = marks p + marks_all ps

pub marks-join :
    (sep : String) (ps : List.List String) → marks sep ≡ 0 → marks (join sep ps) ≡ marks_all ps
unfolding join
marks-join sep List.[] h = refl
marks-join sep (List.◌∷◌ p List.[]) h = omega arith
marks-join sep (List.◌∷◌ p (List.◌∷◌ q ps)) h = omega (
  arith,
  marks-append p (sep ++ join sep (List.◌∷◌ q ps)),
  marks-append sep (join sep (List.◌∷◌ q ps)),
  marks-join sep (List.◌∷◌ q ps) h,
)
