-- ===== src/Authentication/Table.antt =====
-- The table of users of modules/authentication: an insertion and an update.
use tracks.Common.{
  String, ◌≡◌, refl, sym, ap, ◌∙◌, inl, inr, false, List, [], ◌∷◌, ◌++◌, map, arith, eq_iff,
  if◌then◌else◌, Bool-cases, ◌==◌, string_eq, keep, All, All-append, contains, Distinct,
  Distinct-snoc,
}
use mathlib.Core.Path.{subst}
use mathlib.Core.List.{map-append}
use tracks.Authentication.{User, update_row}

abbrev pub emails : List User → List String
emails users = map (λ u. u.email) users

abbrev pub IdIsEmail : User → Type 0
IdIsEmail u = u.id ≡ u.email

-- Every id is an email, and no two users share one.
pub record IsTable (users : List User) : Type 0 where
  pub ids : All IdIsEmail users
  pub distinct : Distinct (emails users)

pub keep_nil :
    (email : String) (users : List User)
    → keep (λ u. u.email == email) users ≡ []
    → contains email (emails users) ≡ false
keep_nil email [] h = refl
keep_nil email (u ∷ users) h = elim (Bool-cases (u.email == email)) [
  | inl same ↦ absurd (
      cc (
        h,
        ap
            (λ t.
              if t
              then u ∷ keep (λ u. u.email == email) users
              else keep (λ u. u.email == email) users)
            same,
      ))
  | inr other ↦ rw other (keep_nil email users (ground (arith, h)))
]

pub snoc-IsTable :
    (users : List User) (u : User)
    → IsTable users
    → IdIsEmail u
    → contains u.email (emails users) ≡ false
    → IsTable (users ++ u ∷ [])
snoc-IsTable users u t id new = record {
  ids = All-append IdIsEmail users (u ∷ []) t.ids (id, tt);
  distinct =
      subst Distinct (sym (map-append (λ u. u.email) users (u ∷ [])))
        (Distinct-snoc (emails users) u.email t.distinct new);
}

emails-update_row :
    (u : User) (users : List User)
    → IdIsEmail u
    → All IdIsEmail users
    → emails (update_row u users) ≡ emails users
emails-update_row u [] id h = refl
emails-update_row u (v ∷ users) id h = elim (Bool-cases (v.id == u.id)) [
  | inl same ↦
      rw same
        (λ i. (sym id ∙ sym ((eq_iff _ _).0 same) ∙ h.0) i ∷ emails-update_row u users id h.1 i)
  | inr other ↦ rw other (ap (◌∷◌ v.email) (emails-update_row u users id h.1))
]

ids-update_row :
    (u : User) (users : List User)
    → IdIsEmail u
    → All IdIsEmail users
    → All IdIsEmail (update_row u users)
ids-update_row u [] id h = tt
ids-update_row u (v ∷ users) id h = elim (Bool-cases (v.id == u.id)) [
  | inl same ↦ rw same (id, ids-update_row u users id h.1)
  | inr other ↦ rw other (h.0, ids-update_row u users id h.1)
]

pub update_row-IsTable :
    (u : User) (users : List User) → IdIsEmail u → IsTable users → IsTable (update_row u users)
update_row-IsTable u users id t = record {
  ids = ids-update_row u users id t.ids;
  distinct = subst Distinct (sym (emails-update_row u users id t.ids)) t.distinct;
}
