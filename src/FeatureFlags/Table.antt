-- ===== src/FeatureFlags/Table.antt =====
-- modules/featureflags/repo.go over the rows of the table of overrides: `SetOverride`,
-- `DeleteOverride`, and the rows that the statement of `ListOverrides` selects.
pub mod Laws
pub mod Frame
use tracks.Common.{
  ◌+◌, ℕ, String, ◌≡◌, Bool, true, false, not, ◌&&◌, Option, none, some, List, [], ◌∷◌, ◌++◌, map,
  ltb, if◌then◌else◌, ◌==◌, string_eq, keep, contains,
}
use tracks.Common.Result.{Result, ok, err}
use tracks.FeatureFlags.Effective.{PrincipalType, global, tenant, role, user, other, Override}
use tracks.FeatureFlags.Overrides.{Principals}

pub record Principal : Type 0 where
  pub type : PrincipalType
  pub id : String

-- A row; `none` is NULL.
pub record Row : Type 0 where
  pub flag_key : String
  pub principal_type : PrincipalType
  pub principal_id : Option String
  pub value : Bool

-- A principal type is a text: two are compared as texts.
abbrev pub type_eq : PrincipalType → PrincipalType → Bool
type_eq global global = true
type_eq tenant tenant = true
type_eq role role = true
type_eq user user = true
type_eq (other s) (other t) = s == t
type_eq _ _ = false

-- `nullIfEmpty`, and `IFNULL(…, '')`
abbrev pub null_if_empty : String → Option String
null_if_empty s = if s == "" then none else some s

abbrev pub if_null : Option String → String
if_null none = ""
if_null (some s) = s

-- The condition of the UPDATE and the DELETE.
unfoldable pub is_of : String → Principal → Row → Bool
is_of flag_key principal r =
    r.flag_key == flag_key
    && type_eq r.principal_type principal.type
    && if_null r.principal_id == if_null (null_if_empty principal.id)

-- The number of rows that the UPDATE affects, and the rows afterwards.
unfoldable pub update_value : String → Principal → Bool → List Row → ℕ × List Row
unfolding is_of
update_value flag_key principal value [] = (0, [])
update_value flag_key principal value (r ∷ rows) =
    let (n, rest) = update_value flag_key principal value rows in
    if is_of flag_key principal r then (n + 1, record r { value = value } ∷ rest) else (n, r ∷ rest)

abbrev pub new_row : String → Principal → Bool → Row
new_row flag_key principal value = record {
  flag_key = flag_key;
  principal_type = principal.type;
  principal_id = null_if_empty principal.id;
  value = value;
}

-- `DeleteOverride`
unfoldable pub delete_override : String → Principal → List Row → List Row
unfolding is_of
delete_override flag_key principal rows = keep (λ r. not (is_of flag_key principal r)) rows

abbrev is_some_of : Option String → Option String → Bool
is_some_of none _ = false
is_some_of (some _) none = false
is_some_of (some id) (some s) = s == id

abbrev is_one_of : List String → Option String → Bool
is_one_of ids none = false
is_one_of ids (some s) = contains s ids

-- The parts of the condition that `ListOverrides` writes; a comparison with NULL does not hold.
abbrev pub is_principal : Principals → PrincipalType → Option String → Bool
is_principal p global id = true
is_principal p tenant id = is_some_of p.tenant_id id
is_principal p role id = is_one_of p.role_ids id
is_principal p user id = is_some_of p.user_id id
is_principal p (other _) id = false

unfoldable pub is_selected : List String → Principals → Row → Bool
is_selected keys p r = contains r.flag_key keys && is_principal p r.principal_type r.principal_id

abbrev pub scan : Row → Override
scan r = record { flag_key = r.flag_key; principal_type = r.principal_type; value = r.value }

-- What `ListOverrides` gives; without keys it sends no statement.
unfoldable pub overrides_of : List String → Principals → List Row → List Override
unfolding is_selected
overrides_of keys p rows = map scan (keep (is_selected keys p) rows)

-- Whether the database takes a new row.
module _ (accepts : Row → Bool) where
  abbrev pub insert_row : Row → List Row → Result String (List Row)
  insert_row r rows = if accepts r then ok (rows ++ r ∷ []) else err "insert"

  -- What follows an UPDATE: the INSERT, where it affected no row.
  abbrev pub updated_or_inserted :
      String → Principal → Bool → List Row → ℕ × List Row → Result String (List Row)
  updated_or_inserted flag_key principal value rows (n, updated) =
      if ltb 0 n then ok updated else insert_row (new_row flag_key principal value) rows

  -- `SetOverride`; `updates` says whether the database runs the UPDATE.
  unfoldable pub set_override :
      (updates : Bool) → String → Principal → Bool → List Row → Result String (List Row)
  unfolding update_value
  set_override updates flag_key principal value rows =
      if updates
      then updated_or_inserted flag_key principal value rows
          (update_value flag_key principal value rows)
      else err "update"

  pub set_override-ok :
      (updates : Bool) (k : String) (principal : Principal) (value : Bool) (rows rows' : List Row)
      → set_override updates k principal value rows ≡ ok rows'
      → updated_or_inserted k principal value rows (update_value k principal value rows) ≡ ok rows'
  unfolding set_override
  set_override-ok true k principal value rows rows' e = e
  set_override-ok false k principal value rows rows' e = cc e
