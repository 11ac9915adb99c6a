-- ===== src/FeatureFlags/Tests.antt =====
-- Runs of modules/featureflags.
use tracks.Common.{ℕ, String, ◌≡◌, refl, true, false, none, some, List, [], ◌∷◌, arith, string_eq}
use tracks.Common.Dict
use tracks.FeatureFlags.Lru.{LruCache, new_lru, remove_from_order, touch, evict, set}
use tracks.FeatureFlags.Lru.Bound.{IsValid, Stored, set-Stored, new_lru-IsValid}
use tracks.FeatureFlags.Registry.{
  Flag, Registry, register_flag, register_flags, get_default, enabled, get_flag,
}
use tracks.FeatureFlags.Registry.Version.{reg_ver_sound}
use tracks.FeatureFlags.Effective.{global, tenant, role, Override, compute_effective}
use tracks.FeatureFlags.Effective.Precedence.{compute_effective-precedence}
use tracks.Common.Text.{join}
use tracks.FeatureFlags.Overrides.{Principals, marks_of, roles_part}

abbrev empty_lru : LruCache String ℕ
empty_lru = record { items = []; order = []; ttl = 30; cap = 1 }

abbrev one_entry : LruCache String ℕ
one_entry = record {
  items = ("a", record { at = 5; value = 7 }) ∷ [];
  order = "a" ∷ [];
  ttl = 30;
  cap = 1;
}

empty_lru-IsValid : IsValid empty_lru
unfolding new_lru
empty_lru-IsValid = new_lru-IsValid {K = String} 30 1

set-empty_lru : set empty_lru "a" 7 5 ≡ some one_entry
unfolding set evict touch remove_from_order Dict.has Dict.get Dict.put
set-empty_lru = refl

-- The second key takes the place of the first.
set-one_entry :
    set one_entry "b" 8 6
    ≡ some (record one_entry { items = ("b", record { at = 6; value = 8 }) ∷ []; order = "b" ∷ [] })
unfolding set evict touch remove_from_order Dict.has Dict.get Dict.put Dict.delete
set-one_entry = refl

set-Stored_example :
    (c' : LruCache String ℕ) × (set empty_lru "a" 7 5 ≡ some c') × Stored empty_lru "a" 7 5 c'
set-Stored_example = set-Stored empty_lru "a" 7 5 empty_lru-IsValid

abbrev beta : Flag
beta = record { key = "beta"; description = ""; default = false }

abbrev with_beta : Registry
with_beta = record { registered = ("beta", beta) ∷ []; reg_ver = 1 }

register_flags-beta :
    register_flags true (record { registered = []; reg_ver = 0 }) (beta ∷ []) ≡ some with_beta
unfolding register_flags register_flag Dict.has Dict.get Dict.put
register_flags-beta = refl

register_flags-again : register_flags false with_beta (beta ∷ []) ≡ some with_beta
unfolding register_flags register_flag Dict.has Dict.get Dict.put
register_flags-again = refl

reg_ver_sound_example : get_default with_beta "beta" ≡ get_default with_beta "beta"
reg_ver_sound_example =
    reg_ver_sound false with_beta with_beta (beta ∷ []) "beta" (omega arith) (omega arith)
      register_flags-again refl

enabled-beta : enabled false with_beta none "beta" ≡ some false
unfolding enabled get_default Dict.get
enabled-beta = refl

get_flag-beta : get_flag false with_beta none "beta" ≡ some (false, false)
unfolding get_flag get_default Dict.get
get_flag-beta = refl

abbrev some_overrides : List Override
some_overrides =
    record { flag_key = "beta"; principal_type = global; value = true }
    ∷ record { flag_key = "beta"; principal_type = role; value = false }
    ∷ record { flag_key = "beta"; principal_type = role; value = true }
    ∷ record { flag_key = "beta"; principal_type = tenant; value = false }
    ∷ []

compute_effective-precedence_example :
    Dict.get "beta" (compute_effective with_beta ("beta" ∷ []) some_overrides) ≡ some true
unfolding get_default
compute_effective-precedence_example =
    compute_effective-precedence with_beta ("beta" ∷ []) some_overrides "beta"

abbrev ann : Principals
ann = record { user_id = some "7"; tenant_id = none; role_ids = "admin" ∷ "staff" ∷ [] }

roles_part-ann :
    roles_part ann.role_ids
    ≡ (" OR (principal_type='role' AND principal_id IN (?,?))", "admin" ∷ "staff" ∷ [])
unfolding roles_part marks_of join
roles_part-ann = refl
