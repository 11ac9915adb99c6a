-- ===== src/FeatureFlags/Serving/Freshness.antt =====
-- How long `WithFlags` serves what it computed, and what `RequireFlag` makes of an override.
use tracks.Common.{
  ◌+◌, ◌<◌, ℕ, String, ◌≡◌, refl, sym, ap, ◌∙◌, inl, inr, Bool, true, false, Option, none, some,
  List, leb, if◌then◌else◌, Bool-cases, nat_eq, string_eq,
}
use mathlib.Core.Path.{subst}
use mathlib.Core.Option.{some-injective}
use tracks.Common.Dict
use tracks.Common.Dict.{Dict}
use tracks.Common.Result.{Result}
use tracks.FeatureFlags.Lru
use tracks.FeatureFlags.Lru.{LruCache, CacheEntry}
use tracks.FeatureFlags.Lru.Bound.{IsValid, set-Stored, get-IsValid, get-set}
use tracks.FeatureFlags.Registry.{Registry}
use tracks.FeatureFlags.Effective.{Override, compute_effective}
use tracks.FeatureFlags.Overrides.{Principals}
use tracks.FeatureFlags.Serving.{
  Cache, CacheKey, cache_key_eq, make_cache_key, list_keys, found_overrides, with_cache, cached_or,
  with_flags,
}

get-ttl :
    (c : Cache) (k : CacheKey) (now : ℕ)
    → ((Lru.get c k now).0.ttl ≡ c.ttl) × ((Lru.get c k now).0.cap ≡ c.cap)
unfolding Lru.get
get-ttl c k now = go (Dict.get k c.items)
  where
    go :
        (o : Option (CacheEntry (Dict String Bool)))
        → let g : Cache × Option (Dict String Bool) = elim o [
          | none ↦ (c, none)
          | some entry ↦
              if leb now (entry.at + c.ttl)
              then (record c { order = Lru.touch k c.order }, some entry.value)
              else (
                record c { items = Dict.delete k c.items; order = Lru.remove_from_order k c.order },
                none,
              )
        ] in
          (g.0.ttl ≡ c.ttl) × (g.0.cap ≡ c.cap)
    go none = (refl, refl)
    go (some entry) = elim (Bool-cases (leb now (entry.at + c.ttl))) [
      | inl fresh ↦ rw fresh (refl, refl)
      | inr stale ↦ rw stale (refl, refl)
    ]

abbrev pub flags_of : Option (Cache × Dict String Bool) → Option (Dict String Bool)
flags_of none = none
flags_of (some (cache, flags)) = some flags

abbrev pub value_or : Option (Dict String Bool) → Dict String Bool → Dict String Bool
value_or (some flags) _ = flags
value_or none computed = computed

module _ (reg : Registry) (p : Principals) where
  abbrev pub computed : Result String (List Override) → Dict String Bool
  computed overrides = compute_effective reg (list_keys reg) (found_overrides overrides)

  set-some :
      (c : Cache) (flags : Dict String Bool) (now : ℕ)
      → IsValid c
      → flags_of (with_cache (Lru.set c (make_cache_key reg p) flags now) flags) ≡ some flags
  set-some c flags now h =
      let (c', done, stored) = set-Stored c (make_cache_key reg p) flags now h in rw done

  -- A request never panics for its flags, and gets those of the cache or else computed ones.
  with_flags-served :
      (cache : Cache) (overrides : Result String (List Override)) (now at : ℕ)
      → IsValid cache
      → flags_of (with_flags reg cache p overrides now at)
        ≡ some (value_or (Lru.get cache (make_cache_key reg p) now).1 (computed overrides))
  unfolding with_flags
  with_flags-served cache overrides now at h =
      go (Lru.get cache (make_cache_key reg p) now) (get-IsValid cache (make_cache_key reg p) now h)
    where
      go :
          (g : Cache × Option (Dict String Bool))
          → IsValid g.0
          → flags_of (cached_or reg p overrides at g) ≡ some (value_or g.1 (computed overrides))
      go (c, some flags) v = refl
      go (c, none) v = set-some c (computed overrides) at v

  -- What a miss stores.
  miss :
      (cache c' : Cache) (overrides : Result String (List Override)) (now at : ℕ)
      (flags : Dict String Bool)
      → (Lru.get cache (make_cache_key reg p) now).1 ≡ none
      → with_flags reg cache p overrides now at ≡ some (c', flags)
      → (Lru.set (Lru.get cache (make_cache_key reg p) now).0 (make_cache_key reg p) flags at
          ≡ some c')
        × (flags ≡ computed overrides)
  unfolding with_flags
  miss cache c' overrides now at flags m e = go (Lru.get cache (make_cache_key reg p) now) m e
    where
      stored :
          (o : Option Cache)
          → with_cache o (computed overrides) ≡ some (c', flags)
          → (o ≡ some c') × (flags ≡ computed overrides)
      stored none e = cc e
      stored (some c) e = (cc e, cc e)

      go :
          (g : Cache × Option (Dict String Bool))
          → g.1 ≡ none
          → cached_or reg p overrides at g ≡ some (c', flags)
          → (Lru.set g.0 (make_cache_key reg p) flags at ≡ some c') × (flags ≡ computed overrides)
      go (c, some f) m e = cc m
      go (c, none) m e =
          let (done, same) = stored (Lru.set c (make_cache_key reg p) (computed overrides) at) e in
          (rw same done, same)

  -- After a request that found nothing in the cache, the next one of the same principals gets the same
  -- flags until the time to live is over, from the moment of the entry, whatever the overrides are by then, and after it the flags
  -- that the overrides of that time give.
  pub with_flags-again :
      (cache c' : Cache) (overrides later_overrides : Result String (List Override))
      (now at later later_at : ℕ) (flags : Dict String Bool)
      → IsValid cache
      → 0 < cache.cap
      → (Lru.get cache (make_cache_key reg p) now).1 ≡ none
      → with_flags reg cache p overrides now at ≡ some (c', flags)
      → flags_of (with_flags reg c' p later_overrides later later_at)
        ≡ some (if leb later (at + cache.ttl) then flags else computed later_overrides)
  with_flags-again cache c' overrides later_overrides now at later later_at flags h room m e =
      let key = make_cache_key reg p in
      let c = (Lru.get cache key now).0 in
      let (done, same) = miss cache c' overrides now at flags m e in
      let valid : IsValid c = get-IsValid cache key now h in
      let (kept_ttl, kept_cap) = get-ttl cache key now in
      let (c'', d, stored) = set-Stored c key flags at valid in
      let valid' : IsValid c' = subst IsValid (some-injective c'' c' (sym d ∙ done)) stored.valid in
      let room' : 0 < c.cap = subst (λ n. 0 < n) (sym kept_cap) room in
      with_flags-served c' later_overrides later later_at valid'
      ∙ ap (λ o. some (value_or o (computed later_overrides)))
          (get-set c key flags at later valid room' done
            ∙ ap (λ t. if leb later (at + t) then some flags else none) kept_ttl)
      ∙ choose (leb later (at + cache.ttl))
    where
      choose :
          (b : Bool)
          → some (value_or (if b then some flags else none) (computed later_overrides))
            ≡ some (if b then flags else computed later_overrides)
      choose true = refl
      choose false = refl
