-- ===== src/Database/Repository/Operations.antt =====
-- database/repository.go: the calls that `Update` and `Delete` make, hooks included, and their result.
use tracks.Common.{String, Bool, true, false, Option, none, some, List, [], ◌∷◌, ◌++◌}
use tracks.Common.Result.{Result, ok, err, panicked}
use mathlib.Core.List
use tracks.Database.Context.{Context, should_skip_hooks}
use tracks.Database.Repository.{
  ModelType, Model, Statement, RepositoryError, external, update_statement, delete_statement,
}

-- What an operation calls, in order.
pub data Event (A : Type 0) : Type 0 where
  before_hook : Event A
  exec : Statement A → Event A
  after_hook : Event A
  exists_query : (field : String) (value : A) → Event A
  last_insert_id : Event A
  find : (id : A) → Event A

-- The outcomes of the calls that an operation makes: a hook that the model does not have is `none`, a
-- call that returns nil is `some none` or `none`.
pub record Outcomes (E : Type 0) : Type 0 where
  pub before : Option (Option E)
  pub executed : Option E
  pub after : Option (Option E)

-- `if !shouldSkipHooks(ctx) { if h, ok := …; ok { if err := h.…(ctx); err != nil { return err } } }`
abbrev pub run_hook :
    {A E : Type 0}
    → Bool
    → Option (Option E)
    → Event A
    → List (Event A) × Result (RepositoryError E) (Unit {0})
run_hook true hook event = ([], ok tt)
run_hook false none event = ([], ok tt)
run_hook false (some none) event = (event ∷ [], ok tt)
run_hook false (some (some e)) event = (event ∷ [], err (external e))

abbrev pub run_exec :
    {A E : Type 0} → Option E → Statement A → List (Event A) × Result (RepositoryError E) (Unit {0})
run_exec none st = (exec st ∷ [], ok tt)
run_exec (some e) st = (exec st ∷ [], err (external e))

-- A step, and the next one unless it fails.
abbrev pub and_then :
    {A B C F : Type 0}
    → List (Event A) × Result F B
    → (B → List (Event A) × Result F C)
    → List (Event A) × Result F C
and_then (events, ok b) next = (List.◌++◌ events (next b).0, (next b).1)
and_then (events, err e) next = (events, err e)
and_then (events, panicked) next = (events, panicked)

module _ {A D E : Type 0} (of_string : String → A) where
  unfoldable pub update :
      Context D
      → ModelType
      → Model A
      → Outcomes E
      → List (Event A) × Result (RepositoryError E) (Unit {0})
  update ctx ty m o = and_then (run_hook (should_skip_hooks ctx) o.before before_hook) λ _.
      and_then ([], update_statement of_string ctx ty m)
        λ st.
          and_then (run_exec o.executed st) λ _. run_hook (should_skip_hooks ctx) o.after after_hook

  unfoldable pub delete :
      Context D
      → ModelType
      → Model A
      → Outcomes E
      → List (Event A) × Result (RepositoryError E) (Unit {0})
  delete ctx ty m o = and_then (run_hook (should_skip_hooks ctx) o.before before_hook) λ _.
      and_then (run_exec o.executed (delete_statement of_string ctx ty m))
        λ _. run_hook (should_skip_hooks ctx) o.after after_hook
