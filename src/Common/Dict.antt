-- ===== src/Common/Dict.antt =====
-- Go's `map[K]V` as an association list: a read, a write `m[k] = v`, and `delete(m, k)`.
-- Laws in `if` form, which have no side condition.
use mathlib.Core.Path.{◌≡◌, refl}
use mathlib.Core.Logic.{◌≢◌, ◌↔◌, inl, inr}
use mathlib.Core.List.{List, [], ◌∷◌}
use Prim.Native.Nat.{◌+◌}
use package.tracks.Common.Lists.{length}
use mathlib.Core.Bool.{Bool, true, false, not, ◌&&◌, ◌||◌}
use mathlib.Core.Option.{Option, none, some}
use native.Mathlib.Omega.{arith}
use package.tracks.Common.Tests.{if◌then◌else◌, Bool-cases}
use package.tracks.Common.Equality.{Comparable, ◌==◌, beq_self}

abbrev pub Dict {ℓ κ} : Type ℓ → Type κ → Type (ℓ ⊔ κ)
Dict K V = List (K × V)

module _ {ℓ κ} {K : Type ℓ} {V : Type κ} ⦃e : Comparable K⦄ where
  unfoldable pub get : K → Dict K V → Option V
  get k [] = none
  get k ((j, v) ∷ m) = if j == k then some v else get k m

  unfoldable pub put : K → V → Dict K V → Dict K V
  put k v [] = (k, v) ∷ []
  put k v ((j, w) ∷ m) = let rest = put k v m in if j == k then (k, v) ∷ m else (j, w) ∷ rest

  unfoldable pub delete : K → Dict K V → Dict K V
  delete k [] = []
  delete k ((j, w) ∷ m) = let rest = delete k m in if j == k then rest else (j, w) ∷ rest

  pub get-put :
      (k j : K) (v : V) (m : Dict K V) → get j (put k v m) ≡ (if k == j then some v else get j m)
  unfolding get put
  get-put k j v [] = refl
  get-put k j v ((i, w) ∷ m) =
      ground (arith, e.equal_iff k j, e.equal_iff i k, e.equal_iff i j, get-put k j v m)

  pub get-delete :
      (k j : K) (m : Dict K V) → get j (delete k m) ≡ (if k == j then none else get j m)
  unfolding get delete
  get-delete k j [] = ground arith
  get-delete k j ((i, w) ∷ m) =
      ground (arith, e.equal_iff k j, e.equal_iff i k, e.equal_iff i j, get-delete k j m)

  pub get-put_self : (k : K) (v : V) (m : Dict K V) → get k (put k v m) ≡ some v
  get-put_self k v m = ground (arith, get-put k k v m, beq_self k)

  pub get-put_ne : (k j : K) (v : V) (m : Dict K V) → k ≢ j → get j (put k v m) ≡ get j m
  get-put_ne k j v m h = ground (arith, get-put k j v m, e.equal_iff k j)

  -- `_, ok := m[k]`
  abbrev pub has : K → Dict K V → Bool
  has k [] = false
  has k ((j, _) ∷ m) = j == k || has k m

  -- The keys of a map are distinct.
  abbrev pub IsMap : Dict K V → Type 0
  IsMap [] = Unit
  IsMap ((j, _) ∷ m) = (has j m ≡ false) × IsMap m

  pub has-eq-false_iff : (k : K) (m : Dict K V) → (get k m ≡ none) ↔ (has k m ≡ false)
  unfolding get
  has-eq-false_iff k [] = ground arith
  has-eq-false_iff k ((j, v) ∷ m) = ground (arith, has-eq-false_iff k m)

  pub has-put : (k j : K) (v : V) (m : Dict K V) → has j (put k v m) ≡ (k == j) || has j m
  unfolding put
  has-put k j v [] = ground arith
  has-put k j v ((i, w) ∷ m) =
      ground (arith, e.equal_iff k j, e.equal_iff i k, e.equal_iff i j, has-put k j v m)

  pub has-delete : (k j : K) (m : Dict K V) → has j (delete k m) ≡ not (k == j) && has j m
  unfolding delete
  has-delete k j [] = ground arith
  has-delete k j ((i, w) ∷ m) =
      ground (arith, e.equal_iff k j, e.equal_iff i k, e.equal_iff i j, has-delete k j m)

  pub put-IsMap : (k : K) (v : V) (m : Dict K V) → IsMap m → IsMap (put k v m)
  unfolding put
  put-IsMap k v [] h = ground arith
  put-IsMap k v ((i, w) ∷ m) h = elim (Bool-cases (i == k)) [
    | inl same ↦ let here : i ≡ k = (e.equal_iff i k).0 same in rw (same, ← here) (h.0, h.1)
    | inr other ↦
        rw other
          (ground (arith, has-put k i v m, e.equal_iff k i, e.equal_iff i k), put-IsMap k v m h.1)
  ]

  pub delete-IsMap : (k : K) (m : Dict K V) → IsMap m → IsMap (delete k m)
  unfolding delete
  delete-IsMap k [] h = h
  delete-IsMap k ((i, w) ∷ m) h = ground (arith, has-delete k i m, delete-IsMap k m h.1)

  pub length-put :
      (k : K) (v : V) (m : Dict K V)
      → length (put k v m) ≡ (if has k m then length m else length m + 1)
  unfolding put
  length-put k v [] = ground arith
  length-put k v ((i, w) ∷ m) = ground (arith, length-put k v m)

  delete_absent : (k : K) (m : Dict K V) → has k m ≡ false → delete k m ≡ m
  unfolding delete
  delete_absent k [] h = refl
  delete_absent k ((i, w) ∷ m) h = ground (arith, delete_absent k m)

  pub length-delete :
      (k : K) (m : Dict K V) → IsMap m → has k m ≡ true → length (delete k m) + 1 ≡ length m
  unfolding delete
  length-delete k [] d h = cc
  length-delete k ((i, w) ∷ m) d h =
      ground (arith, e.equal_iff i k, delete_absent k m, length-delete k m d.1)
