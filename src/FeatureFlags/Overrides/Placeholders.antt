-- ===== src/FeatureFlags/Overrides/Placeholders.antt =====
-- The placeholders of `ListOverrides` of modules/featureflags/repo.go.
use tracks.Common.{
  String, ◌≡◌, refl, Option, none, some, List, [], ◌∷◌, arith, length, length-append,
}
use Prim.Native.String.{◌++◌}
use tracks.Common.Text.{join, marks, marks_all, marks-append, marks-join}
use tracks.FeatureFlags.Overrides.{
  Principals, marks_of, Part, and_part, tenant_part, user_part, roles_part, keys_part,
  overrides_head, list_overrides,
}

abbrev pub IsBalanced : Part → Type 0
IsBalanced part = marks part.0 ≡ length part.1

marks_all-marks_of : (keys : List String) → marks_all (marks_of keys) ≡ length keys
unfolding marks_of
marks_all-marks_of [] = refl
marks_all-marks_of (k ∷ ks) = omega (arith, marks_all-marks_of ks)

and_part-IsBalanced : (a b : Part) → IsBalanced a → IsBalanced b → IsBalanced (and_part a b)
and_part-IsBalanced (q, args) (q', args') h k =
    omega (arith, marks-append q q', length-append args args')

marked :
    (head : String) (keys : List String) (end : String)
    → marks head ≡ 0
    → marks end ≡ 0
    → marks (head ++ (join "," (marks_of keys) ++ end)) ≡ length keys
marked head keys end h k = omega (
  arith,
  marks-append head (join "," (marks_of keys) ++ end),
  marks-append (join "," (marks_of keys)) end,
  marks-join "," (marks_of keys) refl,
  marks_all-marks_of keys,
)

tenant_part-IsBalanced : (id : Option String) → IsBalanced (tenant_part id)
tenant_part-IsBalanced none = refl
tenant_part-IsBalanced (some id) = refl

user_part-IsBalanced : (id : Option String) → IsBalanced (user_part id)
user_part-IsBalanced none = refl
user_part-IsBalanced (some id) = refl

roles_part-IsBalanced : (ids : List String) → IsBalanced (roles_part ids)
unfolding roles_part
roles_part-IsBalanced [] = refl
roles_part-IsBalanced (id ∷ ids) = marked _ (id ∷ ids) "))" refl refl

keys_part-IsBalanced : (keys : List String) → IsBalanced (keys_part keys)
unfolding keys_part
keys_part-IsBalanced keys = marked overrides_head keys ") AND (principal_type='global'" refl refl

-- Whatever principals a request has, the statement that looks up at least one key has exactly as many
-- placeholders as arguments.
pub list_overrides_balanced :
    (k : String) (ks : List String) (p : Principals)
    → (part : Part) × (list_overrides (k ∷ ks) p ≡ some part) × (marks part.0 ≡ length part.1)
unfolding list_overrides
list_overrides_balanced k ks p = (
  _,
  refl,
  and_part-IsBalanced (keys_part (k ∷ ks)) _ (keys_part-IsBalanced (k ∷ ks)) (
      and_part-IsBalanced _ _ (tenant_part-IsBalanced p.tenant_id) (
        and_part-IsBalanced _ _ (roles_part-IsBalanced p.role_ids)
          (and_part-IsBalanced _ (")", []) (user_part-IsBalanced p.user_id) refl))),
)
