-- ===== src/FeatureFlags/Registry.antt =====
-- modules/featureflags/registry.go and context.go: the flags that the code registers, and the read
-- of one flag. The package's variables are a record; `isDevOrTest` reads the environment, and is an
-- argument.
pub mod Version
use tracks.Common.{
  ◌+◌, ◌%◌, ◌^◌, ℕ, String, Bool, true, false, not, ◌&&◌, ◌||◌, Option, none, some, List, [], ◌∷◌,
  if◌then◌else◌, ◌==◌, string_eq,
}
use tracks.Common.Dict
use tracks.Common.Dict.{Dict}

pub record Flag : Type 0 where
  pub key : String
  pub description : String
  pub default : Bool

-- `reg_ver` is a `uint64`.
pub record Registry : Type 0 where
  pub registered : Dict String Flag
  pub reg_ver : ℕ

abbrev pub bool_eq : Bool → Bool → Bool
bool_eq true b = b
bool_eq false b = not b

-- `prev, ok := registered[f.Key]; !ok || prev.Description != f.Description || …`
abbrev pub is_change : Option Flag → Flag → Bool
is_change none f = true
is_change (some prev) f =
    not (prev.description == f.description) || not (bool_eq prev.default f.default)

unfoldable pub register_flag : Registry → Flag → Registry
register_flag r f = record {
  registered = Dict.put f.key f r.registered;
  reg_ver =
      if is_change (Dict.get f.key r.registered) f then (r.reg_ver + 1) % 2 ^ 64 else r.reg_ver;
}

-- `none` is a panic, which dev and test mode raise on an empty or a duplicate key.
unfoldable pub register_flags : Bool → Registry → List Flag → Option Registry
unfolding register_flag
register_flags dev r [] = some r
register_flags dev r (f ∷ fs) =
    let skipped = register_flags dev r fs in
    let added = register_flags dev (register_flag r f) fs in
    if f.key == ""
    then (if dev then none else skipped)
    else if Dict.has f.key r.registered && dev
    then none
    else added

-- The default of a registered key, and whether it is registered.
unfoldable pub get_default : Registry → String → Bool × Bool
get_default r key = elim (Dict.get key r.registered) [
  | none ↦ (false, false)
  | some f ↦ (f.default, true)
]

-- The flags of a context: none where nothing has computed them.
abbrev pub Flags : Type 0
Flags = Option (Dict String Bool)

-- `Enabled`; `none` is the panic of dev and test mode on an unknown key.
unfoldable pub enabled : Bool → Registry → Flags → String → Option Bool
unfolding get_default
enabled dev r flags key =
    let (default, known) = get_default r key in
    if known
    then (elim flags [
      | none ↦ some default
      | some m ↦ elim (Dict.get key m) [ none ↦ some default | some v ↦ some v ]
    ])
    else if dev
    then none
    else some false

-- `Get`
unfoldable pub get_flag : Bool → Registry → Flags → String → Option (Bool × Bool)
unfolding get_default
get_flag dev r flags key =
    if (get_default r key).1
    then (elim flags [
      | none ↦ some (false, false)
      | some m ↦ elim (Dict.get key m) [ none ↦ some (false, false) | some v ↦ some (v, true) ]
    ])
    else if dev
    then none
    else some (false, false)
