-- ===== src/FeatureFlags/Serving.antt =====
-- The middlewares of modules/featureflags: `WithFlags` and `RequireFlag`, with the principals of a
-- request and the key of the cache.
pub mod Freshness
use tracks.Common.{
  ℕ, String, ◌≡◌, ◌↔◌, Bool, true, false, ◌&&◌, Option, none, some, List, [], ◌∷◌, map, arith,
  eq_iff, nat_beq, nat_beq_iff, Comparable, ◌==◌, nat_eq, string_eq,
}
use Prim.Native.String.{compare}
use Prim.Native.Nat.{Ordering}
use tracks.Common.Dict
use tracks.Common.Dict.{Dict}
use tracks.Common.Result.{Result, ok, err, panicked}
use tracks.Common.Text.{join}
use tracks.Http.{Request, Effect, http_error, serve, panics}
use tracks.FeatureFlags.Lru
use tracks.FeatureFlags.Lru.{LruCache}
use tracks.FeatureFlags.Registry.{Registry, Flags, enabled}
use tracks.FeatureFlags.Effective.{Override, compute_effective}
use tracks.FeatureFlags.Overrides.{Principals}
use tracks.FeatureFlags.Table.{Row, overrides_of}

-- `cacheKey`
pub record CacheKey : Type 0 where
  pub user : String
  pub tenant : String
  pub roles : String
  pub ver : ℕ

abbrev pub same_key : CacheKey → CacheKey → Bool
same_key a b = a.user == b.user && a.tenant == b.tenant && a.roles == b.roles && nat_beq a.ver b.ver

pub same_key_iff : (a b : CacheKey) → (same_key a b ≡ true) ↔ (a ≡ b)
same_key_iff a b = ground (
  arith,
  eq_iff a.user b.user,
  eq_iff a.tenant b.tenant,
  eq_iff a.roles b.roles,
  nat_beq_iff a.ver b.ver,
)

instance abbrev pub cache_key_eq : Comparable CacheKey
cache_key_eq = record { equal = same_key; equal_iff = same_key_iff }

-- `sort.Strings`
unfoldable pub insert_sorted : String → List String → List String
insert_sorted s [] = s ∷ []
insert_sorted s (t ∷ ts) =
    let rest = insert_sorted s ts in elim (compare s t) [ Ordering.gt ↦ t ∷ rest | _ ↦ s ∷ t ∷ ts ]

unfoldable pub sort_strings : List String → List String
unfolding insert_sorted
sort_strings [] = []
sort_strings (s ∷ ss) = insert_sorted s (sort_strings ss)

abbrev pub or_empty : Option String → String
or_empty none = ""
or_empty (some s) = s

-- `makeCacheKey`
unfoldable pub make_cache_key : Registry → Principals → CacheKey
unfolding sort_strings join
make_cache_key reg p = record {
  user = or_empty p.user_id;
  tenant = or_empty p.tenant_id;
  roles = join "," (sort_strings p.role_ids);
  ver = reg.reg_ver;
}

-- `listKeys`
abbrev pub list_keys : Registry → List String
list_keys reg = map (λ f. f.0) reg.registered

-- `loadRoles`: rows that cannot be scanned are passed over.
unfoldable pub load_roles : Option (List (Option String)) → List String
load_roles none = []
load_roles (some []) = []
load_roles (some (none ∷ rows)) = load_roles (some rows)
load_roles (some (some role ∷ rows)) = role ∷ load_roles (some rows)

-- The principals of a request: of its tenant, and of its session, if that is of a user.
unfoldable pub principals_of :
    (tenant authenticated : Option String)
    → (String → String → Option (List (Option String)))
    → Principals
unfolding load_roles
principals_of tenant none roles = record { user_id = none; tenant_id = tenant; role_ids = [] }
principals_of none (some uid) roles = record { user_id = some uid; tenant_id = none; role_ids = [] }
principals_of (some tid) (some uid) roles = record {
  user_id = some uid;
  tenant_id = some tid;
  role_ids = load_roles (roles uid tid);
}

abbrev pub Cache : Type 0
Cache = LruCache CacheKey (Dict String Bool)

-- The overrides that are read; an error of the database is not looked at.
abbrev pub found_overrides : Result String (List Override) → List Override
found_overrides (ok overrides) = overrides
found_overrides (err _) = []
found_overrides panicked = []

-- What `set` leaves, with the flags; `none` is a panic.
abbrev pub with_cache : Option Cache → Dict String Bool → Option (Cache × Dict String Bool)
with_cache none flags = none
with_cache (some cache) flags = some (cache, flags)

abbrev pub cached_or :
    Registry
    → Principals
    → Result String (List Override)
    → ℕ
    → Cache × Option (Dict String Bool)
    → Option (Cache × Dict String Bool)
cached_or reg p overrides now (cache, some flags) = some (cache, flags)
cached_or reg p overrides now (cache, none) =
    let effective = compute_effective reg (list_keys reg) (found_overrides overrides) in
    with_cache (Lru.set cache (make_cache_key reg p) effective now) effective

-- `WithFlags` of one request: the cache afterwards, and the flags in its context. The clock is read for
-- the look into the cache, at `now`, and again for the entry, at `stored_at`.
unfoldable pub with_flags :
    Registry
    → Cache
    → Principals
    → Result String (List Override)
    → (now stored_at : ℕ) → Option (Cache × Dict String Bool)
unfolding make_cache_key compute_effective
with_flags reg cache p overrides now stored_at =
    cached_or reg p overrides stored_at (Lru.get cache (make_cache_key reg p) now)

-- `RequireFlag`: 404 where the flag is off.
abbrev pub guarded : Option Bool → Request → List Effect
guarded none r = panics ∷ []
guarded (some true) r = serve r ∷ []
guarded (some false) r = http_error "404 page not found" 404 ∷ []

unfoldable pub require_flag : (dev : Bool) → Registry → Flags → String → Request → List Effect
unfolding enabled
require_flag dev reg flags key r = guarded (enabled dev reg flags key) r
