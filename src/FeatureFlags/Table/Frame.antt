-- ===== src/FeatureFlags/Table/Frame.antt =====
-- What `SetOverride` and `DeleteOverride` leave as it was: the values of the other flags.
use tracks.Common.{
  String, ◌≡◌, refl, sym, ap, ◌∙◌, inl, inr, Bool, true, false, ◌&&◌, Option, none, some, List, [],
  ◌∷◌, ◌++◌, arith, eq_iff, ltb, if◌then◌else◌, Bool-cases, ◌==◌, string_eq, keep, contains,
}
use tracks.Common.Dict
use tracks.Common.Result.{ok}
use mathlib.Core.Path.{subst}
use tracks.FeatureFlags.Registry.{Registry, get_default}
use tracks.FeatureFlags.Effective.{PrincipalType, global, tenant, user, Override, compute_effective}
use tracks.FeatureFlags.Effective.Precedence.{
  last_value, role_values, or_else, any_of, precedence, compute_effective-precedence,
}
use tracks.FeatureFlags.Overrides.{Principals}
use tracks.FeatureFlags.Table.Laws.{last_value_lem, last_or-false}
use tracks.FeatureFlags.Table.{
  Principal, Row, is_of, update_value, new_row, delete_override, is_selected, scan, overrides_of,
  insert_row, set_override, set_override-ok,
}

-- The overrides of one flag.
abbrev for_flag : String → List Override → List Override
for_flag j = keep (λ o. o.flag_key == j)

and_false : (b : Bool) → b && false ≡ false
and_false true = refl
and_false false = refl

last_value-for_flag :
    (q : PrincipalType) (j : String) (os : List Override)
    → last_value q j os ≡ last_value q j (for_flag j os)
last_value-for_flag q j [] = refl
last_value-for_flag q j (o ∷ os) = elim (Bool-cases (o.flag_key == j)) [
  | inl e ↦ rw (e, last_value-for_flag q j os)
  | inr e ↦
      last_value_lem q j o os
      ∙ rw (e, and_false)
          (sym (last_or-false (last_value q j os) o.value) ∙ last_value-for_flag q j os)
]

role_values-for_flag :
    (j : String) (os : List Override) → role_values j os ≡ role_values j (for_flag j os)
role_values-for_flag j [] = refl
role_values-for_flag j (o ∷ os) = ground (arith, role_values-for_flag j os)

abbrev combine : Bool → Option Bool → List Bool → Option Bool → Option Bool → Bool
combine d u rs t g = or_else u (or_else (any_of rs) (or_else t (or_else g d)))

precedence-for_flag :
    (reg : Registry) (j : String) (os os' : List Override)
    → for_flag j os ≡ for_flag j os'
    → precedence reg os j ≡ precedence reg os' j
precedence-for_flag reg j os os' e =
    let d = (get_default reg j).0 in
    let same : (q : PrincipalType) → last_value q j os ≡ last_value q j os' =
      λ q. last_value-for_flag q j os ∙ ap (last_value q j) e ∙ sym (last_value-for_flag q j os') in
    let roles : role_values j os ≡ role_values j os' =
      role_values-for_flag j os ∙ ap (role_values j) e ∙ sym (role_values-for_flag j os') in
    ap (λ u. combine d u (role_values j os) (last_value tenant j os) (last_value global j os))
      (same user)
    ∙ ap
        (λ rs.
          combine d (last_value user j os') rs (last_value tenant j os) (last_value global j os))
        roles
    ∙ ap (λ t. combine d (last_value user j os') (role_values j os') t (last_value global j os))
        (same tenant)
    ∙ ap (λ g. combine d (last_value user j os') (role_values j os') (last_value tenant j os') g)
        (same global)

module _ (keys : List String) (p : Principals) (j k : String) (principal : Principal) (value : Bool)
    (differ : (k == j) ≡ false) where
  -- The overrides of another flag, row by row.
  kept : List Row → List Override
  kept rows = for_flag j (overrides_of keys p rows)

  kept_cons :
      (r : Row) (rows : List Row)
      → kept (r ∷ rows)
        ≡ (if is_selected keys p r && r.flag_key == j then scan r ∷ kept rows else kept rows)
  unfolding kept overrides_of
  kept_cons r rows = ground arith

  dropped : (r : Row) (rows : List Row) → (r.flag_key == j) ≡ false → kept (r ∷ rows) ≡ kept rows
  dropped r rows h = kept_cons r rows ∙ rw (h, and_false)

  is_of-flag : (r : Row) → is_of k principal r ≡ true → (r.flag_key == j) ≡ false
  unfolding is_of
  is_of-flag r h = ground (arith, eq_iff r.flag_key k, differ)

  kept-update_value : (rows : List Row) → kept (update_value k principal value rows).1 ≡ kept rows
  unfolding update_value
  kept-update_value [] = refl
  kept-update_value (r ∷ rows) = elim (Bool-cases (is_of k principal r)) [
    | inl e ↦ rw e (
        dropped (record r { value = value }) (update_value k principal value rows).1
          (is_of-flag r e)
        ∙ kept-update_value rows
        ∙ sym (dropped r rows (is_of-flag r e)))
    | inr e ↦ rw e (
        kept_cons r (update_value k principal value rows).1
        ∙ ap (λ l. if is_selected keys p r && r.flag_key == j then scan r ∷ l else l)
            (kept-update_value rows)
        ∙ sym (kept_cons r rows))
  ]

  kept-snoc :
      (rows : List Row) (r : Row) → (r.flag_key == j) ≡ false → kept (rows ++ r ∷ []) ≡ kept rows
  kept-snoc [] r h = dropped r [] h
  kept-snoc (s ∷ rows) r h =
      kept_cons s (rows ++ r ∷ [])
      ∙ ap (λ l. if is_selected keys p s && s.flag_key == j then scan s ∷ l else l)
          (kept-snoc rows r h)
      ∙ sym (kept_cons s rows)

  kept-set_override :
      (accepts : Row → Bool) (updates : Bool) (rows rows' : List Row)
      → set_override accepts updates k principal value rows ≡ ok rows'
      → kept rows' ≡ kept rows
  unfolding set_override
  kept-set_override accepts updates rows rows' e =
      go (ltb 0 (update_value k principal value rows).0)
        (set_override-ok accepts updates k principal value rows rows' e)
    where
      go :
          (b : Bool)
          → (if b
              then ok (update_value k principal value rows).1
              else insert_row accepts (new_row k principal value) rows)
            ≡ ok rows'
          → kept rows' ≡ kept rows
      go true e =
          let same : (update_value k principal value rows).1 ≡ rows' = cc e in
          subst (λ l. kept l ≡ kept rows) same (kept-update_value rows)
      go false e =
          let same : rows ++ new_row k principal value ∷ [] ≡ rows' = ground arith in
          subst (λ l. kept l ≡ kept rows) same (kept-snoc rows (new_row k principal value) differ)

  kept-delete_override : (rows : List Row) → kept (delete_override k principal rows) ≡ kept rows
  unfolding delete_override
  kept-delete_override [] = refl
  kept-delete_override (r ∷ rows) = elim (Bool-cases (is_of k principal r)) [
    | inl e ↦ rw e (kept-delete_override rows ∙ sym (dropped r rows (is_of-flag r e)))
    | inr e ↦ rw e (
        kept_cons r (delete_override k principal rows)
        ∙ ap (λ l. if is_selected keys p r && r.flag_key == j then scan r ∷ l else l)
            (kept-delete_override rows)
        ∙ sym (kept_cons r rows))
  ]

-- Setting or deleting an override of one flag leaves what every request gets for each other flag.
pub compute_effective-other_flag :
    (accepts : Row → Bool) (updates : Bool) (reg : Registry) (keys : List String) (p : Principals)
    (j k : String) (principal : Principal) (value : Bool) (rows rows' : List Row)
    → (k == j) ≡ false
    → set_override accepts updates k principal value rows ≡ ok rows'
    → let before = Dict.get j (compute_effective reg keys (overrides_of keys p rows)) in
      (Dict.get j (compute_effective reg keys (overrides_of keys p rows')) ≡ before)
      × (Dict.get j
            (compute_effective reg keys (overrides_of keys p (delete_override k principal rows)))
          ≡ before)
unfolding kept
compute_effective-other_flag accepts updates reg keys p j k principal value rows rows' d e = (
  same rows' (kept-set_override keys p j k principal value d accepts updates rows rows' e),
  same (delete_override k principal rows) (kept-delete_override keys p j k principal value d rows),
)
  where
    same :
        (rows' : List Row)
        → for_flag j (overrides_of keys p rows') ≡ for_flag j (overrides_of keys p rows)
        → Dict.get j (compute_effective reg keys (overrides_of keys p rows'))
          ≡ Dict.get j (compute_effective reg keys (overrides_of keys p rows))
    same rows' e =
        compute_effective-precedence reg keys (overrides_of keys p rows') j
        ∙ ap (λ v. if contains j keys then some v else none)
            (precedence-for_flag reg j (overrides_of keys p rows') (overrides_of keys p rows) e)
        ∙ sym (compute_effective-precedence reg keys (overrides_of keys p rows) j)
