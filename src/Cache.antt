-- ===== src/Cache.antt =====
-- cache.go: the in-memory cache with expiry and tags. Times are nanoseconds, `UnixNano`; a value
-- of type `any` is of an abstract type; the mutex makes each call one step, at a given clock.
pub mod Lookup
pub mod Tags
mod Tests
use tracks.Common.{
  ◌+◌, ℕ, String, Bool, ◌&&◌, Option, none, some, List, [], ◌∷◌, ◌++◌, ltb, if◌then◌else◌,
  string_eq,
}
use tracks.Common.Dict
use tracks.Common.Dict.{Dict}

pub record CacheEntry {ℓ} (V : Type ℓ) : Type ℓ where
  pub value : V
  pub expiration : ℕ
  pub tags : List String

-- `tags` holds, for each tag, the keys that were ever stored under it.
pub record MemoryCache {ℓ} (V : Type ℓ) : Type ℓ where
  pub items : Dict String (CacheEntry V)
  pub tags : Dict String (List String)

abbrev pub keys_or_nil : Option (List String) → List String
keys_or_nil none = []
keys_or_nil (some ks) = ks

-- `for _, tag := range tags { c.tags[tag] = append(c.tags[tag], key) }`
unfoldable pub link : String → List String → Dict String (List String) → Dict String (List String)
link key [] m = m
link key (tag ∷ tags) m = link key tags (Dict.put tag (keys_or_nil (Dict.get tag m) ++ key ∷ []) m)

module _ {ℓ} {V : Type ℓ} where
  -- `for _, key := range keys { delete(c.items, key) }`
  unfoldable pub delete_all : List String → Dict String (CacheEntry V) → Dict String (CacheEntry V)
  delete_all [] m = m
  delete_all (key ∷ keys) m = delete_all keys (Dict.delete key m)

  unfoldable pub new_memory_cache : MemoryCache V
  new_memory_cache = record { items = []; tags = [] }

  abbrev pub is_expired : ℕ → CacheEntry V → Bool
  is_expired now item = ltb 0 item.expiration && ltb item.expiration now

  abbrev pub value_unless_expired : ℕ → Option (CacheEntry V) → Option V
  value_unless_expired now none = none
  value_unless_expired now (some item) = if is_expired now item then none else some item.value

  unfoldable pub get : MemoryCache V → String → ℕ → Option V
  get c key now = value_unless_expired now (Dict.get key c.items)

  -- A `ttl` of zero or less stores no expiration; durations below zero are not told from zero.
  abbrev pub new_entry : V → List String → ℕ → ℕ → CacheEntry V
  new_entry value tags ttl now = record {
    value = value;
    expiration = if ltb 0 ttl then now + ttl else 0;
    tags = tags;
  }

  unfoldable pub set_with_tags : MemoryCache V → String → V → List String → ℕ → ℕ → MemoryCache V
  set_with_tags c key value tags ttl now = record {
    items = Dict.put key (new_entry value tags ttl now) c.items;
    tags = link key tags c.tags;
  }

  unfoldable pub set : MemoryCache V → String → V → ℕ → ℕ → MemoryCache V
  unfolding set_with_tags
  set c key value ttl now = set_with_tags c key value [] ttl now

  unfoldable pub delete : MemoryCache V → String → MemoryCache V
  delete c key = record c { items = Dict.delete key c.items }

  unfoldable pub invalidate_tag : MemoryCache V → String → MemoryCache V
  invalidate_tag c tag = elim (Dict.get tag c.tags) [
    | none ↦ c
    | some keys ↦ record { items = delete_all keys c.items; tags = Dict.delete tag c.tags }
  ]

  unfoldable pub invalidate_all : MemoryCache V → MemoryCache V
  invalidate_all c = record { items = []; tags = [] }
