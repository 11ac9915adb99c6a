-- ===== src/FeatureFlags/Table/Laws.antt =====
-- What `SetOverride` does to the values that a request gets.
use tracks.Common.{
  ◌+◌, ℕ, String, ◌≡◌, refl, sym, ap, ◌∙◌, inl, inr, Bool, true, false, ◌&&◌, Option, none, some,
  List, [], ◌∷◌, ◌++◌, map, arith, eq_iff, ltb, if◌then◌else◌, Bool-cases, ◌==◌, string_eq,
  beq_self, keep, contains,
}
use mathlib.Core.Path.{subst}
use tracks.Common.Dict
use tracks.Common.Result.{ok}
use tracks.FeatureFlags.Registry.{Registry}
use tracks.FeatureFlags.Effective.{
  PrincipalType, global, tenant, role, user, other, Override, compute_effective,
}
use tracks.FeatureFlags.Effective.Precedence.{is_type, last_value, compute_effective-precedence}
use tracks.FeatureFlags.Overrides.{Principals}
use tracks.FeatureFlags.Table.{
  Principal, Row, is_of, update_value, new_row, is_selected, scan, overrides_of, insert_row,
  set_override, set_override-ok, is_principal, type_eq, if_null, null_if_empty,
}

abbrev of_user : String → Principal
of_user id = record { type = user; id = id }

abbrev pub last_or : Option Bool → Bool → Bool → Option Bool
last_or (some v) here w = some v
last_or none here w = if here then some w else none

-- The value of the last row with a property.
last_row : (Row → Bool) → List Row → Option Bool
last_row f [] = none
last_row f (r ∷ rows) = last_or (last_row f rows) (f r) r.value

pub last_value_lem :
    (q : PrincipalType) (k : String) (o : Override) (os : List Override)
    → last_value q k (o ∷ os)
      ≡ last_or (last_value q k os) (is_type q o.principal_type && o.flag_key == k) o.value
last_value_lem q k o os = go (last_value q k os)
  where
    go :
        (z : Option Bool)
        → elim z [
          | some v ↦ some v
          | none ↦ if is_type q o.principal_type && o.flag_key == k then some o.value else none
        ]
          ≡ last_or z (is_type q o.principal_type && o.flag_key == k) o.value
    go none = refl
    go (some v) = refl

pub last_or-false : (o : Option Bool) (w : Bool) → o ≡ last_or o false w
last_or-false none w = refl
last_or-false (some v) w = refl

module _ (q : PrincipalType) (k : String) (keys : List String) (p : Principals) where
  abbrev counts : Row → Bool
  counts r = is_selected keys p r && (is_type q r.principal_type && r.flag_key == k)

  last_value-overrides_of :
      (rows : List Row) → last_value q k (overrides_of keys p rows) ≡ last_row counts rows
  unfolding overrides_of last_row
  last_value-overrides_of [] = refl
  last_value-overrides_of (r ∷ rows) = elim (Bool-cases (is_selected keys p r)) [
    | inl taken ↦ rw taken (
        last_value_lem q k (scan r) (map scan (keep (is_selected keys p) rows))
        ∙ ap (λ o. last_or o (is_type q r.principal_type && r.flag_key == k) r.value)
            (last_value-overrides_of rows))
    | inr left ↦
        rw left (last_value-overrides_of rows ∙ last_or-false (last_row counts rows) r.value)
  ]

counts_user :
    (k id : String) (keys : List String) (p : Principals) (r : Row)
    → contains k keys ≡ true
    → p.user_id ≡ some id
    → (id == "") ≡ false
    → counts user k keys p r ≡ is_of k (of_user id) r
unfolding is_selected is_of
counts_user k id keys p r c u ne = rw (u, ne) (go r.flag_key r.principal_type r.principal_id)
  where
    go :
        (f : String) (t : PrincipalType) (i : Option String)
        → (contains f keys
            && is_principal (record p { user_id = some id }) t i
            && (is_type user t && f == k))
          ≡ (f == k && type_eq t user && if_null i == id)
    go f user none = ground (arith, eq_iff "" id, eq_iff id "")
    go f user (some s) = elim (Bool-cases (f == k)) [
      | inl e ↦ rw (e, (eq_iff f k).0 e, c) (ground arith)
      | inr e ↦ rw e (ground arith)
    ]
    go f global i = ground arith
    go f tenant i = ground arith
    go f role i = ground arith
    go f (other s) i = ground arith

last_row-ext :
    (f g : Row → Bool) (rows : List Row)
    → ((r : Row) → f r ≡ g r)
    → last_row f rows ≡ last_row g rows
unfolding last_row
last_row-ext f g [] h = refl
last_row-ext f g (r ∷ rows) h = rw (h r, last_row-ext f g rows h)

module _ (k : String) (principal : Principal) (value : Bool) where
  settle :
      (n : ℕ) (o : Option Bool) (here : Bool)
      → here ≡ true
      → o ≡ (if ltb 0 n then some value else none)
      → last_or o here value ≡ (if ltb 0 (n + 1) then some value else none)
  settle n o here h e =
      rw (e, h)
        (elim (Bool-cases (ltb 0 n)) [
          | inl some_ ↦ rw some_ (ground arith)
          | inr none_ ↦ rw none_ (ground arith)
        ])

  -- If the UPDATE affects a row, the last row of the principal has the value.
  last_row-update_value :
      (rows : List Row)
      → let (n, updated) = update_value k principal value rows in
        last_row (is_of k principal) updated ≡ (if ltb 0 n then some value else none)
  unfolding last_row update_value is_of
  last_row-update_value [] = refl
  last_row-update_value (r ∷ rows) = elim (Bool-cases (is_of k principal r)) [
    | inl e ↦
        rw e (settle (update_value k principal value rows).0 _ _ e (last_row-update_value rows))
    | inr e ↦ rw (e, e) (sym (last_or-false _ r.value) ∙ last_row-update_value rows)
  ]

  last_row-snoc :
      (f : Row → Bool) (rows : List Row) (r : Row)
      → f r ≡ true
      → last_row f (rows ++ r ∷ []) ≡ some r.value
  unfolding last_row
  last_row-snoc f [] r h = rw h
  last_row-snoc f (s ∷ rows) r h = rw (last_row-snoc f rows r h)

  type_eq_self : (t : PrincipalType) → type_eq t t ≡ true
  type_eq_self global = refl
  type_eq_self tenant = refl
  type_eq_self role = refl
  type_eq_self user = refl
  type_eq_self (other s) = beq_self s

  is_of-new_row : is_of k principal (new_row k principal value) ≡ true
  unfolding is_of
  is_of-new_row =
      rw (beq_self k, type_eq_self principal.type, beq_self (if_null (null_if_empty principal.id)))

  last_row-set_override :
      (accepts : Row → Bool) (updates : Bool) (rows rows' : List Row)
      → set_override accepts updates k principal value rows ≡ ok rows'
      → last_row (is_of k principal) rows' ≡ some value
  unfolding set_override
  last_row-set_override accepts updates rows rows' e =
      go (ltb 0 (update_value k principal value rows).0) refl
        (set_override-ok accepts updates k principal value rows rows' e)
    where
      go :
          (b : Bool)
          → ltb 0 (update_value k principal value rows).0 ≡ b
          → (if b
              then ok (update_value k principal value rows).1
              else insert_row accepts (new_row k principal value) rows)
            ≡ ok rows'
          → last_row (is_of k principal) rows' ≡ some value
      go true some_ e =
          let same : (update_value k principal value rows).1 ≡ rows' = cc e in
          subst (λ l. last_row (is_of k principal) l ≡ some value) same
            (last_row-update_value rows ∙ rw some_)
      go false none_ e =
          let same : rows ++ new_row k principal value ∷ [] ≡ rows' = ground arith in
          subst (λ l. last_row (is_of k principal) l ≡ some value) same
            (last_row-snoc (is_of k principal) rows (new_row k principal value) is_of-new_row)

-- The value that is set for a user is the one that the user's requests get for the flag, whatever the
-- overrides of others, of the user's roles and tenant, and the global one, say: where the database
-- takes the row, and the flag is among those that are asked for.
pub compute_effective-set_override :
    (accepts : Row → Bool) (updates : Bool) (reg : Registry) (keys : List String) (p : Principals)
    (k id : String) (value : Bool) (rows rows' : List Row)
    → set_override accepts updates k (record { type = user; id = id }) value rows ≡ ok rows'
    → contains k keys ≡ true
    → p.user_id ≡ some id
    → (id == "") ≡ false
    → Dict.get k (compute_effective reg keys (overrides_of keys p rows')) ≡ some value
compute_effective-set_override accepts updates reg keys p k id value rows rows' e c u ne =
    let last : last_value user k (overrides_of keys p rows') ≡ some value =
      last_value-overrides_of user k keys p rows'
      ∙ last_row-ext _ (is_of k (of_user id)) rows' (λ r. counts_user k id keys p r c u ne)
      ∙ last_row-set_override k (of_user id) value accepts updates rows rows' e in
    compute_effective-precedence reg keys (overrides_of keys p rows') k ∙ rw (c, last)
