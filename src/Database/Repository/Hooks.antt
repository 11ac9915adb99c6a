-- ===== src/Database/Repository/Hooks.antt =====
-- The hooks of database/repository.go: when `Update` and `Delete` run them.
use tracks.Common.{
  String, ◌≡◌, refl, Bool, true, false, Option, none, some, List, [], ◌∷◌, ◌++◌, length,
}
use tracks.Common.Result.{Result, ok, err}
use mathlib.Core.List
use tracks.Database.Context.{Context, should_skip_hooks}
use tracks.Database.Repository.{
  ModelType, Model, Statement, RepositoryError, external, delete_statement,
}
use tracks.Database.Repository.Statements.{assignments, update_statement-assignments}
use tracks.Database.Repository.Operations.{
  Event, before_hook, exec, after_hook, Outcomes, run_hook, run_exec, and_then, update, delete,
}

-- The call of a hook, with its error if it gives one: none if the model has no such hook or the
-- context skips it.
abbrev pub hook_call :
    {A E : Type 0} → Bool → Option (Option E) → Event A → List (Event A × Option E)
hook_call true hook event = []
hook_call false none event = []
hook_call false (some r) event = (event, r) ∷ []

abbrev pub calls : {A E : Type 0} → Bool → Outcomes E → Statement A → List (Event A × Option E)
calls skip o st =
    List.◌++◌ (hook_call skip o.before before_hook)
      ((exec st, o.executed) ∷ hook_call skip o.after after_hook)

-- The calls up to the first that fails, and its error.
abbrev pub until_failure :
    {A E : Type 0}
    → List (Event A × Option E)
    → List (Event A) × Result (RepositoryError E) (Unit {0})
until_failure [] = ([], ok tt)
until_failure ((event, some e) ∷ cs) = (event ∷ [], err (external e))
until_failure ((event, none) ∷ cs) = (event ∷ (until_failure cs).0, (until_failure cs).1)

module _ {A E : Type 0} where
  run_hook-until_failure :
      (skip : Bool) (hook : Option (Option E)) (event : Event A)
      → run_hook skip hook event ≡ until_failure (hook_call skip hook event)
  run_hook-until_failure true hook event = refl
  run_hook-until_failure false none event = refl
  run_hook-until_failure false (some none) event = refl
  run_hook-until_failure false (some (some e)) event = refl

  run_exec-until_failure :
      (executed : Option E) (st : Statement A) (rest : List (Event A × Option E))
      → and_then (run_exec executed st) (λ _. until_failure rest)
        ≡ until_failure ((exec st, executed) ∷ rest)
  run_exec-until_failure none st rest = refl
  run_exec-until_failure (some e) st rest = refl

  and_then-until_failure :
      (skip : Bool) (hook : Option (Option E)) (event : Event A) (rest : List (Event A × Option E))
      → and_then (run_hook skip hook event) (λ _. until_failure rest)
        ≡ until_failure (List.◌++◌ (hook_call skip hook event) rest)
  and_then-until_failure true hook event rest = refl
  and_then-until_failure false none event rest = refl
  and_then-until_failure false (some none) event rest = refl
  and_then-until_failure false (some (some e)) event rest = refl

  until_failure-calls :
      (skip : Bool) (o : Outcomes E) (st : Statement A)
      → (and_then
          (run_hook skip o.before before_hook)
          λ _. and_then (run_exec o.executed st) λ _. run_hook skip o.after after_hook)
        ≡ until_failure (calls skip o st)
  until_failure-calls skip o st =
      rw
        (
          run_hook-until_failure skip o.after after_hook,
          run_exec-until_failure o.executed st (hook_call skip o.after after_hook),
        )
        (and_then-until_failure skip o.before before_hook _)

module _ {A D : Type 0} (of_string : String → A) (ctx : Context D) (ty : ModelType) where
  -- `Delete` calls the before-hook, the statement and the after-hook in this order, up to the first
  -- call that fails, whose error it returns; a hook that the model does not have or that the
  -- context skips is no call.
  pub delete-until_failure :
      {E : Type 0} (m : Model A) (o : Outcomes E)
      → delete of_string ctx ty m o
        ≡ until_failure (calls (should_skip_hooks ctx) o (delete_statement of_string ctx ty m))
  unfolding delete
  delete-until_failure m o = until_failure-calls (should_skip_hooks ctx) o _

  -- `Update` does the same, with a statement that sets every field to its value, if the model gives
  -- as many values as its type has fields.
  pub update-until_failure :
      {E : Type 0} (m : Model A) (o : Outcomes E)
      → length m.values ≡ length ty.fields
      → update of_string ctx ty m o
        ≡ until_failure (calls (should_skip_hooks ctx) o (assignments of_string ctx ty m))
  unfolding update
  update-until_failure {E = E} m o e =
      rw (update_statement-assignments {E = E} of_string ctx ty m e)
        (until_failure-calls (should_skip_hooks ctx) o (assignments of_string ctx ty m))
