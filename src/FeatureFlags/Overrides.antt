-- ===== src/FeatureFlags/Overrides.antt =====
-- modules/featureflags/repo.go: the statement of `ListOverrides`. The loops that write the placeholders
-- are joins.
pub mod Placeholders
use tracks.Common.{String, Option, none, some, List, [], ◌∷◌}
use Prim.Native.String.{◌++◌}
use mathlib.Core.List
use tracks.Common.Text.{join}

pub record Principals : Type 0 where
  pub user_id : Option String
  pub tenant_id : Option String
  pub role_ids : List String

unfoldable pub marks_of : List String → List String
marks_of [] = []
marks_of (_ ∷ keys) = "?" ∷ marks_of keys

-- A part of the text with its arguments.
abbrev pub Part : Type 0
Part = String × List String

abbrev pub and_part : Part → Part → Part
and_part (q, args) (q', args') = (q ++ q', List.◌++◌ args args')

abbrev pub tenant_part : Option String → Part
tenant_part none = ("", [])
tenant_part (some id) = (" OR (principal_type='tenant' AND principal_id=?)", id ∷ [])

abbrev pub user_part : Option String → Part
user_part none = ("", [])
user_part (some id) = (" OR (principal_type='user' AND principal_id=?)", id ∷ [])

unfoldable pub roles_part : List String → Part
unfolding marks_of join
roles_part [] = ("", [])
roles_part (id ∷ ids) = (
  " OR (principal_type='role' AND principal_id IN (" ++ (join "," (marks_of (id ∷ ids)) ++ "))"),
  id ∷ ids,
)

abbrev pub overrides_head : String
overrides_head =
    "SELECT flag_key, principal_type, principal_id, value FROM feature_flag_overrides WHERE flag_key IN ("

unfoldable pub keys_part : List String → Part
unfolding marks_of join
keys_part keys =
    (overrides_head ++ (join "," (marks_of keys) ++ ") AND (principal_type='global'"), keys)

-- `none` where there are no keys, and no statement is sent.
unfoldable pub list_overrides : List String → Principals → Option Part
unfolding keys_part roles_part
list_overrides [] p = none
list_overrides (k ∷ ks) p = some (
    and_part (keys_part (k ∷ ks)) (
      and_part (tenant_part p.tenant_id)
        (and_part (roles_part p.role_ids) (and_part (user_part p.user_id) (")", [])))))
