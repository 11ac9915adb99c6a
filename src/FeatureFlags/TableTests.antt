-- ===== src/FeatureFlags/TableTests.antt =====
-- Runs of the overrides and of the middlewares of modules/featureflags.
use tracks.Common.{
  ◌+◌, String, ◌≡◌, refl, Bool, true, false, Option, none, some, List, [], ◌∷◌, ◌++◌, arith, leb,
  if◌then◌else◌, nat_eq, string_eq,
}
use tracks.Common.Dict
use tracks.Common.Dict.{Dict}
use tracks.Common.Result.{ok, err}
use tracks.FeatureFlags.Lru
use tracks.FeatureFlags.Lru.{LruCache, new_lru}
use tracks.FeatureFlags.Lru.Bound.{new_lru-IsValid}
use tracks.FeatureFlags.Registry.{Registry}
use tracks.FeatureFlags.Effective.{global, tenant, role, user, compute_effective}
use tracks.FeatureFlags.Overrides.{Principals}
use tracks.FeatureFlags.Table.{Principal, Row, delete_override, set_override, overrides_of}
use tracks.FeatureFlags.Table.Laws.{compute_effective-set_override}
use tracks.FeatureFlags.Table.Frame.{compute_effective-other_flag}
use tracks.FeatureFlags.Serving.{
  Cache, CacheKey, cache_key_eq, make_cache_key, list_keys, with_flags, sort_strings, principals_of,
}
use tracks.FeatureFlags.Serving.Freshness.{flags_of, computed, with_flags-again}

abbrev ann : Principals
ann = record { user_id = some "ann"; tenant_id = some "7"; role_ids = "staff" ∷ [] }

abbrev rows : List Row
rows =
    record { flag_key = "beta"; principal_type = global; principal_id = none; value = false }
    ∷ record {
      flag_key = "beta";
      principal_type = role;
      principal_id = some "staff";
      value = false;
    }
    ∷ record { flag_key = "old"; principal_type = tenant; principal_id = some "7"; value = true }
    ∷ []

abbrev ann_row : Row
ann_row = record {
  flag_key = "beta";
  principal_type = user;
  principal_id = some "ann";
  value = true;
}

abbrev of_ann : Principal
of_ann = record { type = user; id = "ann" }

-- The row is inserted once, and updated after that.
set_new : set_override (λ _. true) true "beta" of_ann true rows ≡ ok (rows ++ ann_row ∷ [])
unfolding set_override
set_new = refl

set_again :
    set_override (λ _. false) true "beta" of_ann false (rows ++ ann_row ∷ [])
    ≡ ok (rows ++ record ann_row { value = false } ∷ [])
unfolding set_override
set_again = refl

set_refused : set_override (λ _. false) true "beta" of_ann true rows ≡ err "insert"
unfolding set_override
set_refused = refl

-- The global override is stored without an id.
delete_global : delete_override "beta" (record { type = global; id = "" }) rows ≡ (
    record { flag_key = "beta"; principal_type = role; principal_id = some "staff"; value = false }
    ∷ record { flag_key = "old"; principal_type = tenant; principal_id = some "7"; value = true }
    ∷ [])
unfolding delete_override
delete_global = refl

abbrev reg : Registry
reg = record {
  registered =
      ("beta", record { key = "beta"; description = ""; default = false })
      ∷ ("old", record { key = "old"; description = ""; default = false })
      ∷ [];
  reg_ver = 2;
}

ann_sees_override :
    Dict.get "beta" (
      compute_effective reg
        ("beta" ∷ "old" ∷ [])
        (overrides_of ("beta" ∷ "old" ∷ []) ann (rows ++ ann_row ∷ [])))
    ≡ some true
ann_sees_override =
    compute_effective-set_override (λ _. true) true reg ("beta" ∷ "old" ∷ []) ann "beta" "ann" true
      rows (rows ++ ann_row ∷ []) set_new refl refl refl

abbrev keys : List String
keys = "beta" ∷ "old" ∷ []

abbrev old_of : List Row → Option Bool
old_of rows = Dict.get "old" (compute_effective reg keys (overrides_of keys ann rows))

compute_effective-other_flag_example :
    (old_of (rows ++ ann_row ∷ []) ≡ old_of rows)
    × (old_of (delete_override "beta" of_ann rows) ≡ old_of rows)
compute_effective-other_flag_example =
    compute_effective-other_flag (λ _. true) true reg ("beta" ∷ "old" ∷ []) ann "old" "beta" of_ann
      true rows (rows ++ ann_row ∷ []) refl set_new

sorted : sort_strings ("b" ∷ "c" ∷ "a" ∷ []) ≡ "a" ∷ "b" ∷ "c" ∷ []
unfolding sort_strings
sorted = refl

roles_of_tenant :
    principals_of (some "7") (some "ann") (λ _ _. some (some "staff" ∷ none ∷ [])) ≡ ann
unfolding principals_of
roles_of_tenant = refl

abbrev cold : Cache
cold = record { items = []; order = []; ttl = 60; cap = 1024 }

abbrev ann_key : CacheKey
ann_key = record { user = "ann"; tenant = "7"; roles = "staff"; ver = 2 }

abbrev ann_flags : Dict String Bool
ann_flags = ("beta", true) ∷ ("old", true) ∷ []

abbrev warm : Cache
warm = record cold {
  items = (ann_key, record { at = 5; value = ann_flags }) ∷ [];
  order = ann_key ∷ [];
}

first_request :
    with_flags reg cold ann (ok (overrides_of (list_keys reg) ann (rows ++ ann_row ∷ []))) 5 5
    ≡ some (warm, ann_flags)
unfolding with_flags Lru.get Lru.set Dict.get Dict.put overrides_of
first_request = refl

with_flags-again_example :
    flags_of (with_flags reg warm ann (ok []) 66 66)
    ≡ some (if leb 66 (5 + 60) then ann_flags else computed reg ann (ok []))
unfolding make_cache_key Lru.get Dict.get new_lru
with_flags-again_example =
    with_flags-again reg ann cold warm
      (ok (overrides_of (list_keys reg) ann (rows ++ ann_row ∷ []))) (ok []) 5 5 66 66 ann_flags
      (new_lru-IsValid {K = CacheKey} 60 1024) (omega arith) refl first_request

-- An error of the database gives the defaults, which are then in the cache like any flags.
error_is_stored :
    flags_of (with_flags reg cold ann (err "locked") 5 5)
    ≡ some (("beta", false) ∷ ("old", false) ∷ [])
unfolding with_flags Lru.get Lru.set Dict.get Dict.put
error_is_stored = refl
