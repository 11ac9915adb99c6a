-- ===== src/Database/Query/Scope.antt =====
-- The scoping by domain of database/query.go.
use tracks.Common.{String, ◌≡◌, refl, ◌≢◌, true, false, [], ◌∷◌, arith, eq_iff, ◌==◌, string_eq}
use tracks.Common.Int.{ℤ}
use tracks.Database.Context.{
  Context, skip_domain_scope, is_domain_filtering_enabled, should_skip_domain_scope,
  domain_from_context, scope-skip, scope_filtering,
}
use tracks.Database.Query.{QueryBuilder, where_, build}

-- In a context that filters by domain, names one and does not skip the scoping, a query on a scoped model is the unscoped query with the
-- condition `domain = ?` and that domain added at the end, and nothing else is changed.
pub build-where_domain :
    {A D : Type 0} (of_string : String → A) (itoa : ℤ → String) (ctx : Context D)
    (q : QueryBuilder A)
    → is_domain_filtering_enabled ctx ≡ true
    → should_skip_domain_scope ctx ≡ false
    → q.scoped ≡ true
    → domain_from_context ctx ≢ ""
    → build of_string itoa ctx q
      ≡ build of_string itoa
          (skip_domain_scope ctx)
          (where_ q "domain = ?" (of_string (domain_from_context ctx) ∷ []))
unfolding build where_
build-where_domain of_string itoa ctx q e s m h =
    let named : (domain_from_context ctx == "") ≡ false =
      ground (arith, eq_iff (domain_from_context ctx) "") in
    rw (scope-skip ctx, scope_filtering ctx q.scoped e s m, named) refl
