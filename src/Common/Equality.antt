-- ===== src/Common/Equality.antt =====
-- Go's `==` on comparable types, as an instance argument.
use Prim.Native.Nat.{ℕ, zero, suc, ◌≤◌}
use Prim.Native.String.{String}
use mathlib.Core.Path.{◌≡◌, refl}
use mathlib.Core.Logic.{◌↔◌}
use mathlib.Core.Bool.{Bool, true, false, ◌||◌}
use mathlib.Core.List.{List, [], ◌∷◌, ◌++◌}
use native.Mathlib.Omega.{arith}
use text.Mathlib.Text.{◌==◌ as str_eq}
use text.Mathlib.TextEquality.{eq_iff}
use package.tracks.Common.Lists.{length, drop}
use package.tracks.Common.Tests.{nat_beq, nat_beq_iff}

pub record Comparable {ℓ} (A : Type ℓ) : Type ℓ where
  pub equal : (a b : A) → Bool
  pub equal_iff : (a b : A) → (equal a b ≡ true) ↔ (a ≡ b)

-- Texts are compared as the library does, numbers by a test of this library.
instance abbrev pub string_eq : Comparable String
string_eq = record { equal_iff = eq_iff; equal = str_eq }

instance abbrev pub nat_eq : Comparable ℕ
nat_eq = record { equal_iff = nat_beq_iff; equal = nat_beq }

module _ {ℓ} {A : Type ℓ} ⦃type : Comparable A⦄ where
  infix 50 ◌==◌
  abbrev pub ◌==◌ : A → A → Bool
  a == b = type.equal a b

pub beq_self {ℓ} : {A : Type ℓ} ⦃e : Comparable A⦄ (a : A) → (a == a) ≡ true
beq_self ⦃e⦄ a = (e.equal_iff a a).1 refl

module _ {ℓ} {A : Type ℓ} ⦃e : Comparable A⦄ where
  -- `slices.Contains(xs, a)`, as a loop that compares with `==`.
  abbrev pub contains : A → List A → Bool
  contains a [] = false
  contains a (x ∷ xs) = x == a || contains a xs

  pub contains-append :
      (a : A) (xs ys : List A) → contains a (xs ++ ys) ≡ contains a xs || contains a ys
  contains-append a [] ys = refl
  contains-append a (x ∷ xs) ys = ground (arith, contains-append a xs ys)

  -- No element occurs twice.
  abbrev pub Distinct : List A → Type 0
  Distinct [] = Unit
  Distinct (x ∷ xs) = (contains x xs ≡ false) × Distinct xs

  pub Distinct-snoc :
      (xs : List A) (a : A) → Distinct xs → contains a xs ≡ false → Distinct (xs ++ a ∷ [])
  Distinct-snoc [] a d h = (refl, tt)
  Distinct-snoc (x ∷ xs) a d h = (
    ground (arith, contains-append x xs (a ∷ []), e.equal_iff x a, e.equal_iff a x),
    Distinct-snoc xs a d.1 (ground arith),
  )

  pub contains-drop :
      (a : A) (n : ℕ) (xs : List A) → contains a (drop n xs) ≡ true → contains a xs ≡ true
  contains-drop a zero xs h = h
  contains-drop a (suc n) [] h = h
  contains-drop a (suc n) (x ∷ xs) h = ground (arith, contains-drop a n xs h)

  -- What stays when all but the last few are dropped holds the last one.
  pub contains-drop_last :
      (a : A) (n : ℕ) (xs : List A) → n ≤ length xs → contains a (drop n (xs ++ a ∷ [])) ≡ true
  contains-drop_last a zero xs h = ground (arith, contains-append a xs (a ∷ []), beq_self a)
  contains-drop_last a (suc n) [] h = absurd (omega arith)
  contains-drop_last a (suc n) (x ∷ xs) h = contains-drop_last a n xs (omega arith)
