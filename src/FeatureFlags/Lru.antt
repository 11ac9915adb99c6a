-- ===== src/FeatureFlags/Lru.antt =====
-- modules/featureflags/cache.go: the least-recently-used cache. Keys are of any comparable type, as
-- the code uses its `cacheKey` struct only by `==`; times are nanoseconds; the mutex makes each call
-- one step.
pub mod Links
pub mod Bound
use tracks.Common.{
  ◌+◌, ℕ, Option, none, some, List, [], ◌∷◌, ◌++◌, ltb, leb, if◌then◌else◌, Comparable, ◌==◌,
  string_eq, length,
}
use tracks.Common.Dict
use tracks.Common.Dict.{Dict}

pub record CacheEntry (V : Type 0) : Type 0 where
  pub at : ℕ
  pub value : V

-- `order` has the least recently used key first.
pub record LruCache (K V : Type 0) : Type 0 where
  pub items : Dict K (CacheEntry V)
  pub order : List K
  pub ttl : ℕ
  pub cap : ℕ

unfoldable pub new_lru : {K V : Type 0} → ℕ → ℕ → LruCache K V
new_lru ttl cap = record { items = []; order = []; ttl = ttl; cap = cap }

module _ {K : Type 0} ⦃e : Comparable K⦄ where
  unfoldable pub remove_from_order : K → List K → List K
  remove_from_order k [] = []
  remove_from_order k (kk ∷ ks) =
      let rest = remove_from_order k ks in if kk == k then ks else kk ∷ rest

  unfoldable pub touch : K → List K → List K
  unfolding remove_from_order
  touch k order = remove_from_order k order ++ k ∷ []

module _ {K V : Type 0} ⦃e : Comparable K⦄ where
  unfoldable pub get : LruCache K V → K → ℕ → LruCache K V × Option V
  get c k now = elim (Dict.get k c.items) [
    | none ↦ (c, none)
    | some entry ↦
        if leb now (entry.at + c.ttl)
        then (record c { order = touch k c.order }, some entry.value)
        else (record c { items = Dict.delete k c.items; order = remove_from_order k c.order }, none)
  ]

  -- `for len(c.items) > c.cap { … }`; `none` is the panic of `c.order[0]` on an empty slice.
  unfoldable pub evict :
      ℕ → Dict K (CacheEntry V) → List K → Option (Dict K (CacheEntry V) × List K)
  evict cap items [] = if ltb cap (length items) then none else some (items, [])
  evict cap items (oldest ∷ order) =
      let rest = evict cap (Dict.delete oldest items) order in
      if ltb cap (length items) then rest else some (items, oldest ∷ order)

  abbrev pub with_contents :
      LruCache K V → Option (Dict K (CacheEntry V) × List K) → Option (LruCache K V)
  with_contents c none = none
  with_contents c (some (items, order)) = some (record c { items = items; order = order })

  unfoldable pub set : LruCache K V → K → V → ℕ → Option (LruCache K V)
  unfolding evict
  set c k value now =
      let order = if Dict.has k c.items then touch k c.order else c.order ++ k ∷ [] in
      with_contents c (evict c.cap (Dict.put k (record { at = now; value = value }) c.items) order)
