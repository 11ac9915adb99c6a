-- ===== src/FeatureFlags/Effective/Precedence.antt =====
-- The precedence that modules/featureflags/middleware.go states, read off the overrides.
use tracks.Common.{
  String, ◌≡◌, refl, sym, ◌∙◌, Bool, true, false, ◌&&◌, ◌||◌, Option, none, some, List, [], ◌∷◌,
  ◌++◌, arith, eq_iff, if◌then◌else◌, ◌==◌, string_eq, contains,
}
use tracks.Common.Dict
use mathlib.Core.List.{append-nil, append_assoc}
use tracks.Common.Dict.{Dict}
use tracks.FeatureFlags.Registry.{Registry, get_default}
use tracks.FeatureFlags.Effective.{
  PrincipalType, global, tenant, role, user, Override, Index, bools_or_nil, index_overrides, val_of,
  any_true, pick, effective_value, effective_values, compute_effective,
}

abbrev pub is_type : PrincipalType → PrincipalType → Bool
is_type global global = true
is_type tenant tenant = true
is_type role role = true
is_type user user = true
is_type _ _ = false

-- The value of the last override of a flag for a kind of principal.
abbrev pub last_value : PrincipalType → String → List Override → Option Bool
last_value p k [] = none
last_value p k (o ∷ os) = elim (last_value p k os) [
  | some v ↦ some v
  | none ↦ if is_type p o.principal_type && o.flag_key == k then some o.value else none
]

-- The values of the overrides of a flag for roles.
abbrev pub role_values : String → List Override → List Bool
role_values k [] = []
role_values k (o ∷ os) =
    let rest = role_values k os in
    if is_type role o.principal_type && o.flag_key == k then o.value ∷ rest else rest

abbrev pub or_else : Option Bool → Bool → Bool
or_else (some v) d = v
or_else none d = d

abbrev pub any_of : List Bool → Option Bool
any_of [] = none
any_of (v ∷ vs) = some (v || or_else (any_of vs) false)

-- user > role (any) > tenant > global > default
abbrev pub precedence : Registry → List Override → String → Bool
precedence reg os k = or_else (last_value user k os) (
    or_else (any_of (role_values k os))
      (or_else (last_value tenant k os) (or_else (last_value global k os) (get_default reg k).0)))

-- What is read of an index, with a later value in front.
abbrev later : Option Bool → Option Bool → Option Bool
later (some v) old = some v
later none old = old

users-index :
    (k : String) (os : List Override) (ix : Index)
    → val_of (Dict.get k (index_overrides ix os).users)
      ≡ later (last_value user k os) (val_of (Dict.get k ix.users))
unfolding index_overrides
users-index k [] ix = refl
users-index k (o ∷ os) ix =
    users-index k os _
    ∙ ground (arith, Dict.get-put o.flag_key k (record { has = true; val = o.value }) ix.users)

tenant-index :
    (k : String) (os : List Override) (ix : Index)
    → val_of (Dict.get k (index_overrides ix os).ten)
      ≡ later (last_value tenant k os) (val_of (Dict.get k ix.ten))
unfolding index_overrides
tenant-index k [] ix = refl
tenant-index k (o ∷ os) ix =
    tenant-index k os _
    ∙ ground (arith, Dict.get-put o.flag_key k (record { has = true; val = o.value }) ix.ten)

global-index :
    (k : String) (os : List Override) (ix : Index)
    → val_of (Dict.get k (index_overrides ix os).glob)
      ≡ later (last_value global k os) (val_of (Dict.get k ix.glob))
unfolding index_overrides
global-index k [] ix = refl
global-index k (o ∷ os) ix =
    global-index k os _
    ∙ ground (arith, Dict.get-put o.flag_key k (record { has = true; val = o.value }) ix.glob)

roles-index :
    (k : String) (os : List Override) (ix : Index)
    → bools_or_nil (Dict.get k (index_overrides ix os).roles)
      ≡ bools_or_nil (Dict.get k ix.roles) ++ role_values k os
unfolding index_overrides
roles-index k [] ix = sym (append-nil _)
roles-index k (o ∷ os) ix =
    let old = bools_or_nil (Dict.get o.flag_key ix.roles) in
    roles-index k os _
    ∙ ground (
      arith,
      Dict.get-put o.flag_key k (old ++ o.value ∷ []) ix.roles,
      append_assoc (bools_or_nil (Dict.get k ix.roles)) (o.value ∷ []) (role_values k os),
      eq_iff o.flag_key k,
    )

any_true-any_of : (v : Bool) (vs : List Bool) → any_true (v ∷ vs) ≡ (v || or_else (any_of vs) false)
unfolding any_true
any_true-any_of v [] = ground arith
any_true-any_of v (w ∷ vs) = ground (arith, any_true-any_of w vs)

abbrev no_overrides : Index
no_overrides = record { glob = []; ten = []; roles = []; users = [] }

later-none : (o : Option Bool) → later o none ≡ o
later-none none = refl
later-none (some v) = refl

pick-or_else :
    (u : Option Bool) (rs : List Bool) (t g : Option Bool) (def : Bool)
    → pick u rs t g def ≡ or_else u (or_else (any_of rs) (or_else t (or_else g def)))
unfolding pick
pick-or_else (some v) rs t g def = refl
pick-or_else none (v ∷ vs) t g def = ground (arith, any_true-any_of v vs)
pick-or_else none [] (some v) g def = refl
pick-or_else none [] none (some v) def = refl
pick-or_else none [] none none def = refl

effective_value-precedence :
    (reg : Registry) (os : List Override) (k : String)
    → effective_value reg (index_overrides no_overrides os) k ≡ precedence reg os k
unfolding effective_value Dict.get
effective_value-precedence reg os k =
    rw (users-index, roles-index, tenant-index, global-index, later-none, later-none, later-none)
      (pick-or_else (last_value user k os) (role_values k os) (last_value tenant k os)
        (last_value global k os) (get_default reg k).0)

get-effective_values :
    (reg : Registry) (ix : Index) (ks : List String) (out : Dict String Bool) (k : String)
    → Dict.get k (effective_values reg ix ks out)
      ≡ (if contains k ks then some (effective_value reg ix k) else Dict.get k out)
unfolding effective_values
get-effective_values reg ix [] out k = refl
get-effective_values reg ix (j ∷ ks) out k =
    get-effective_values reg ix ks _ k
    ∙ ground (arith, Dict.get-put j k (effective_value reg ix j) out, eq_iff j k)

-- Every requested key, and no other, has a value. It is that of the last override for the user, else
-- true exactly when some role's override is true, else that of the last override for the tenant, else
-- that of the last global one, else the registered default.
pub compute_effective-precedence :
    (reg : Registry) (keys : List String) (overrides : List Override) (k : String)
    → Dict.get k (compute_effective reg keys overrides)
      ≡ (if contains k keys then some (precedence reg overrides k) else none)
unfolding compute_effective Dict.get
compute_effective-precedence reg keys overrides k =
    get-effective_values reg (index_overrides no_overrides overrides) keys [] k
    ∙ rw effective_value-precedence refl
