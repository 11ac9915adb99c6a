-- ===== src/Database/Repository/Creation.antt =====
-- database/repository.go: `Create`, as the calls that it makes and its result. The fields that reflection
-- finds to be tagged `unique_per_domain` are given with their names in lower case and their values.
pub mod Uniqueness
use tracks.Common.{String, Bool, not, ◌&&◌, Option, List, [], ◌∷◌, if◌then◌else◌, ◌==◌, string_eq}
use tracks.Common.Result.{Result, ok, err, panicked}
use mathlib.Core.List
use tracks.Database.Context.{
  Context, should_skip_hooks, is_domain_filtering_enabled, should_skip_domain_scope,
  domain_from_context,
}
use tracks.Database.Repository.{
  ModelType, Model, Statement, RepositoryError, duplicate, external, insert_statement,
}
use tracks.Database.Repository.Operations.{
  Event, before_hook, after_hook, exists_query, last_insert_id, find, run_hook, run_exec, and_then,
}

-- A model before the insertion: `with_domain d` is the model after `SetDomain(d)`.
pub record NewModel (A : Type 0) : Type 0 where
  pub model : Model A
  pub domain : String
  pub with_domain : String → Model A
  pub unique : List (String × A)

-- The outcomes of the calls; `exists` is that of `Exists` for a field, and `found` that of `FindByID`,
-- with the value that it reads, of type `T`.
pub record CreateOutcomes (A E T : Type 0) : Type 0 where
  pub before : Option (Option E)
  pub exists : String → Result E Bool
  pub inserted : Option E
  pub last_id : Result E A
  pub found : Result E T
  pub after : Option (Option E)

-- A call with a result.
abbrev pub run_call :
    {A E B : Type 0} → Event A → Result E B → List (Event A) × Result (RepositoryError E) B
run_call event (ok b) = (event ∷ [], ok b)
run_call event (err e) = (event ∷ [], err (external e))
run_call event panicked = (event ∷ [], panicked)

-- `if exists { return r.zero, ErrDuplicate }`
abbrev pub unless_exists :
    {A E : Type 0} → Bool → List (Event A) × Result (RepositoryError E) (Unit {0})
unless_exists exists = if exists then ([], err duplicate) else ([], ok tt)

-- The loop over the fields.
unfoldable pub check_unique :
    {A E : Type 0}
    → (String → Result E Bool)
    → List (String × A)
    → List (Event A) × Result (RepositoryError E) (Unit {0})
check_unique exists [] = ([], ok tt)
check_unique exists ((field, value) ∷ fields) =
    and_then (run_call (exists_query field value) (exists field))
      λ old. and_then (unless_exists old) λ _. check_unique exists fields

-- `IsDomainFilteringEnabled(ctx) && !shouldSkipDomainScope(ctx)`, on a model that is `DomainScoped`.
abbrev pub is_scoped : {D : Type 0} → Context D → ModelType → Bool
is_scoped ctx ty =
    is_domain_filtering_enabled ctx && not (should_skip_domain_scope ctx) && ty.domain_scoped

-- The id to read back.
abbrev pub created_id :
    {A E : Type 0} → ModelType → A → Result E A → List (Event A) × Result (RepositoryError E) A
created_id ty id last_id =
    if ty.has_auto_increment_id then run_call last_insert_id last_id else ([], ok id)

module _ {A D : Type 0} where
  -- The model with its domain set, where it has none.
  abbrev pub filled : Context D → ModelType → NewModel A → Model A
  filled ctx ty m =
      if is_scoped ctx ty && not (domain_from_context ctx == "") && m.domain == ""
      then m.with_domain (domain_from_context ctx)
      else m.model

  unfoldable pub create :
      {E T : Type 0}
      → Context D
      → ModelType
      → NewModel A
      → CreateOutcomes A E T
      → List (Event A) × Result (RepositoryError E) T
  unfolding check_unique
  create ctx ty m o = and_then (run_hook (should_skip_hooks ctx) o.before before_hook) λ _.
      and_then (if is_scoped ctx ty then check_unique o.exists m.unique else ([], ok tt)) λ _.
        and_then (run_exec o.inserted (insert_statement ty (filled ctx ty m))) λ _.
          and_then (created_id ty (filled ctx ty m).id o.last_id) λ id.
            and_then (run_call (find id) o.found) λ created.
              and_then (run_hook (should_skip_hooks ctx) o.after after_hook) λ _. ([], ok created)
