-- ===== src/FeatureFlags/Effective.antt =====
-- modules/featureflags/middleware.go and repo.go: the value of every flag for one request, from the
-- overrides that apply to it.
pub mod Precedence
use tracks.Common.{
  String, Bool, true, false, Option, none, some, List, [], ◌∷◌, ◌++◌, if◌then◌else◌, string_eq,
}
use tracks.Common.Dict
use tracks.Common.Dict.{Dict}
use tracks.FeatureFlags.Registry.{Registry, get_default}

-- The four constants of the type, and any other text.
pub data PrincipalType : Type 0 where
  global tenant role user : PrincipalType
  other : String → PrincipalType

pub record Override : Type 0 where
  pub flag_key : String
  pub principal_type : PrincipalType
  pub value : Bool

pub record Entry : Type 0 where
  pub has : Bool
  pub val : Bool

pub record Index : Type 0 where
  pub glob : Dict String Entry
  pub ten : Dict String Entry
  pub roles : Dict String (List Bool)
  pub users : Dict String Entry

abbrev pub bools_or_nil : Option (List Bool) → List Bool
bools_or_nil none = []
bools_or_nil (some bs) = bs

abbrev index_as : Index → PrincipalType → String → Bool → Index
index_as ix global k v = record ix { glob = Dict.put k (record { has = true; val = v }) ix.glob }
index_as ix tenant k v = record ix { ten = Dict.put k (record { has = true; val = v }) ix.ten }
index_as ix role k v = record ix {
  roles = Dict.put k (bools_or_nil (Dict.get k ix.roles) ++ v ∷ []) ix.roles;
}
index_as ix user k v = record ix { users = Dict.put k (record { has = true; val = v }) ix.users }
index_as ix (other _) k v = ix

-- The loop over the overrides.
unfoldable pub index_overrides : Index → List Override → Index
index_overrides ix [] = ix
index_overrides ix (o ∷ os) = index_overrides (index_as ix o.principal_type o.flag_key o.value) os

abbrev pub val_of : Option Entry → Option Bool
val_of none = none
val_of (some entry) = if entry.has then some entry.val else none

-- `anyTrue`, with its loop left at the first true value.
unfoldable pub any_true : List Bool → Bool
any_true [] = false
any_true (v ∷ vs) = let rest = any_true vs in if v then true else rest

-- The `if`s of the loop over the keys, each of which ends in `continue` or is passed over.
unfoldable pub pick : Option Bool → List Bool → Option Bool → Option Bool → Bool → Bool
unfolding any_true
pick (some v) rs t g def = v
pick none (v ∷ vs) t g def = if any_true (v ∷ vs) then true else false
pick none [] (some v) g def = v
pick none [] none (some v) def = v
pick none [] none none def = def

unfoldable pub effective_value : Registry → Index → String → Bool
unfolding pick get_default
effective_value reg ix k =
    pick (val_of (Dict.get k ix.users)) (bools_or_nil (Dict.get k ix.roles))
      (val_of (Dict.get k ix.ten)) (val_of (Dict.get k ix.glob)) (get_default reg k).0

unfoldable pub effective_values :
    Registry → Index → List String → Dict String Bool → Dict String Bool
effective_values reg ix [] out = out
effective_values reg ix (k ∷ ks) out =
    effective_values reg ix ks (Dict.put k (effective_value reg ix k) out)

unfoldable pub compute_effective : Registry → List String → List Override → Dict String Bool
unfolding effective_values effective_value index_overrides
compute_effective reg keys overrides =
    let ix = index_overrides (record { glob = []; ten = []; roles = []; users = [] }) overrides in
    effective_values reg ix keys []
