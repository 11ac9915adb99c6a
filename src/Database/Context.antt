-- ===== src/Database/Context.antt =====
-- database/db.go: what the package keeps in a `context.Context`. A value that is not set reads as
-- nil, "" or false.
use tracks.Common.{
  String, ◌≡◌, refl, Bool, true, false, not, ◌&&◌, Option, none, some, arith, if◌then◌else◌,
}

pub record Context (D : Type 0) : Type 0 where
  pub db : Option D
  pub central_db : Option D
  pub domain : Option String
  pub domain_filter : Option Bool
  pub skip_domain_scope_key : Option Bool
  pub skip_hooks_key : Option Bool

abbrev pub background : {D : Type 0} → Context D
background = record {
  db = none;
  central_db = none;
  domain = none;
  domain_filter = none;
  skip_domain_scope_key = none;
  skip_hooks_key = none;
}

abbrev true_or_unset : Option Bool → Bool
true_or_unset none = false
true_or_unset (some b) = b

module _ {D : Type 0} where
  abbrev pub with_db : Context D → D → Context D
  with_db ctx db = record ctx { db = some db }

  abbrev pub from_context : Context D → Option D
  from_context ctx = ctx.db

  abbrev pub with_central_db : Context D → D → Context D
  with_central_db ctx db = record ctx { central_db = some db }

  abbrev pub with_domain : Context D → String → Context D
  with_domain ctx domain = record ctx { domain = some domain }

  abbrev pub domain_from_context : Context D → String
  domain_from_context ctx = elim ctx.domain [ none ↦ "" | some d ↦ d ]

  abbrev pub with_domain_filtering : Context D → Bool → Context D
  with_domain_filtering ctx enabled = record ctx { domain_filter = some enabled }

  abbrev pub is_domain_filtering_enabled : Context D → Bool
  is_domain_filtering_enabled ctx = true_or_unset ctx.domain_filter

  abbrev pub skip_domain_scope : Context D → Context D
  skip_domain_scope ctx = record ctx { skip_domain_scope_key = some true }

  abbrev pub should_skip_domain_scope : Context D → Bool
  should_skip_domain_scope ctx = true_or_unset ctx.skip_domain_scope_key

  abbrev pub skip_hooks : Context D → Context D
  skip_hooks ctx = record ctx { skip_hooks_key = some true }

  abbrev pub should_skip_hooks : Context D → Bool
  should_skip_hooks ctx = true_or_unset ctx.skip_hooks_key

  -- The domain that a statement on a model is scoped by, "" if it is not: the test that `Build`,
  -- `AtomicUpdate`, `Update` and `Delete` repeat.
  unfoldable pub scope : Context D → (scoped : Bool) → String
  scope ctx scoped =
      if is_domain_filtering_enabled ctx && not (should_skip_domain_scope ctx) && scoped
      then domain_from_context ctx
      else ""

  pub scope-skip : (ctx : Context D) (scoped : Bool) → scope (skip_domain_scope ctx) scoped ≡ ""
  unfolding scope
  scope-skip ctx scoped = ground arith

  pub scope_filtering :
      (ctx : Context D) (scoped : Bool)
      → is_domain_filtering_enabled ctx ≡ true
      → should_skip_domain_scope ctx ≡ false
      → scoped ≡ true
      → scope ctx scoped ≡ domain_from_context ctx
  unfolding scope
  scope_filtering ctx scoped e s m = rw (e, s, m) refl
