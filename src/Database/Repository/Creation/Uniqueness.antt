-- ===== src/Database/Repository/Creation/Uniqueness.antt =====
-- When `Create` of database/repository.go inserts.
use tracks.Common.{
  String, ◌≡◌, refl, sym, ap, ◌∙◌, Bool, true, false, not, ◌&&◌, ◌||◌, Option, none, some, List, [],
  ◌∷◌, arith, if◌then◌else◌, ◌==◌, string_eq,
}
use tracks.Common.Result.{Result, ok, err, panicked}
use tracks.Database.Context.{Context, domain_from_context, should_skip_hooks, scope}
use tracks.Database.Repository.{ModelType, Model, Statement, RepositoryError, insert_statement}
use tracks.Database.Repository.Operations.{
  Event, before_hook, exec, after_hook, exists_query, last_insert_id, find, run_hook, run_exec,
  and_then,
}
use tracks.Database.Repository.Creation.{
  NewModel, CreateOutcomes, run_call, unless_exists, check_unique, is_scoped, filled, create,
}

-- The statements among the calls.
abbrev pub statements : {A : Type 0} → List (Event A) → List (Statement A)
statements [] = []
statements (exec st ∷ events) = st ∷ statements events
statements (_ ∷ events) = statements events

-- No value of a unique field is there already.
abbrev pub is_answer_no : {E : Type 0} → Result E Bool → Bool
is_answer_no (ok b) = not b
is_answer_no (err e) = false
is_answer_no panicked = false

abbrev pub all_new : {A E : Type 0} → (String → Result E Bool) → List (String × A) → Bool
all_new exists [] = true
all_new exists ((field, _) ∷ fields) = is_answer_no (exists field) && all_new exists fields

-- The before-hook passes or is not called.
abbrev pub hook_passes : {E : Type 0} → Bool → Option (Option E) → Bool
hook_passes true hook = true
hook_passes false none = true
hook_passes false (some none) = true
hook_passes false (some (some e)) = false

abbrev pub inserts :
    {A D E T : Type 0} → Context D → ModelType → NewModel A → CreateOutcomes A E T → Bool
inserts ctx ty m o =
    hook_passes (should_skip_hooks ctx) o.before
    && (not (is_scoped ctx ty) || all_new o.exists m.unique)

-- Steps with no statement in them, that let the next ones run exactly if `passes`.
record IsGuard {A F : Type 0} (C : Type 0) (step : List (Event A) × Result F (Unit {0}))
    (passes : Bool) : Type 0 where
  guards :
      (next : Unit {0} → List (Event A) × Result F C)
      → statements (and_then step next).0 ≡ (if passes then statements (next tt).0 else [])

statements-and_then :
    {A C F : Type 0} (field : String) (value : A) (step : List (Event A) × Result F (Unit {0}))
    (next : Unit {0} → List (Event A) × Result F C)
    → statements (and_then (exists_query field value ∷ step.0, step.1) next).0
      ≡ statements (and_then step next).0
statements-and_then field value (events, ok u) next = refl
statements-and_then field value (events, err e) next = refl
statements-and_then field value (events, panicked) next = refl

module _ {A E C : Type 0} where
  run_hook-IsGuard :
      (skip : Bool) (hook : Option (Option E))
      → IsGuard {A = A} C (run_hook skip hook before_hook) (hook_passes skip hook)
  run_hook-IsGuard true hook = record { guards = λ next. refl }
  run_hook-IsGuard false none = record { guards = λ next. refl }
  run_hook-IsGuard false (some none) = record { guards = λ next. refl }
  run_hook-IsGuard false (some (some e)) = record { guards = λ next. refl }

  check_unique-IsGuard :
      (exists : String → Result E Bool) (fields : List (String × A))
      → IsGuard C (check_unique exists fields) (all_new exists fields)
  unfolding check_unique
  check_unique-IsGuard exists [] = record { guards = λ next. refl }
  check_unique-IsGuard exists ((field, value) ∷ fields) =
      answered (exists field) (check_unique-IsGuard exists fields)
    where
      answered :
          (r : Result E Bool)
          → IsGuard C (check_unique exists fields) (all_new exists fields)
          → IsGuard C
              (and_then
                (run_call (exists_query field value) r)
                λ old. and_then (unless_exists old) λ _. check_unique exists fields)
              (is_answer_no r && all_new exists fields)
      answered (err e) h = record { guards = λ next. refl }
      answered panicked h = record { guards = λ next. refl }
      answered (ok true) h = record { guards = λ next. refl }
      answered (ok false) h = record {
        guards = λ next.
            statements-and_then field value (check_unique exists fields) next ∙ h.guards next;
      }

  guarded_by :
      (b : Bool) {step : List (Event A) × Result (RepositoryError E) (Unit {0})} {passes : Bool}
      → IsGuard C step passes
      → IsGuard C (if b then step else ([], ok tt)) (not b || passes)
  guarded_by true h = h
  guarded_by false h = record { guards = λ next. refl }

both :
    {B : Type 0} (p q : Bool) {x y z w : List B}
    → x ≡ (if p then y else [])
    → y ≡ (if q then z else [])
    → z ≡ w
    → x ≡ (if p && q then w else [])
both p q f g h = ground arith

abbrev done : {A E T : Type 0} → T → List (Event A) × Result (RepositoryError E) T
done t = ([], ok t)

-- What comes after the statement holds no other.
module _ {A E T : Type 0} (skip : Bool) (after : Option (Option E)) where
  statements_after :
      (skip : Bool) (after : Option (Option E)) (t : T)
      → statements {A = A} (and_then (run_hook skip after after_hook) λ _. done {E = E} t).0 ≡ []
  statements_after true after t = refl
  statements_after false none t = refl
  statements_after false (some none) t = refl
  statements_after false (some (some e)) t = refl

  statements_found :
      (id : A) (found : Result E T)
      → statements
          (and_then
            (run_call (find id) found)
            λ t. and_then (run_hook skip after after_hook) λ _. done {E = E} t).0
        ≡ []
  statements_found id (ok t) = statements_after skip after t
  statements_found id (err e) = refl
  statements_found id panicked = refl

  statements_created :
      (auto : Bool) (id : A) (last_id : Result E A) (found : Result E T)
      → statements
          (and_then (if auto then run_call last_insert_id last_id else ([], ok id)) λ id'.
            and_then
              (run_call (find id') found)
              λ t. and_then (run_hook skip after after_hook) λ _. done {E = E} t).0
        ≡ []
  statements_created true id (ok n) found = statements_found n found
  statements_created true id (err e) found = refl
  statements_created true id panicked found = refl
  statements_created false id last_id found = statements_found id found

  statements_executed :
      (auto : Bool) (id : A) (inserted : Option E) (last_id : Result E A) (found : Result E T)
      (st : Statement A)
      → statements
          (and_then (run_exec inserted st) λ _.
            and_then (if auto then run_call last_insert_id last_id else ([], ok id)) λ id'.
              and_then
                (run_call (find id') found)
                λ t. and_then (run_hook skip after after_hook) λ _. done {E = E} t).0
        ≡ st ∷ []
  statements_executed auto id none last_id found st =
      ap (◌∷◌ st) (statements_created auto id last_id found)
  statements_executed auto id (some e) last_id found st = refl

-- The model of which the row is to be: where statements are scoped by a domain, and the model has none of
-- its own, with that domain.
abbrev pub model_to_insert : {A : Type 0} → (domain : String) → NewModel A → Model A
model_to_insert domain m =
    if domain == "" then m.model else if m.domain == "" then m.with_domain domain else m.model

filled_by :
    {A : Type 0} (scoped : Bool) (domain : String) (m : NewModel A)
    → (if scoped && not (domain == "") && m.domain == "" then m.with_domain domain else m.model)
      ≡ model_to_insert (if scoped then domain else "") m
filled_by true domain m = ground arith
filled_by false domain m = refl

filled_lem :
    {A D : Type 0} (ctx : Context D) (ty : ModelType) (m : NewModel A)
    → filled ctx ty m ≡ model_to_insert (scope ctx ty.domain_scoped) m
unfolding scope
filled_lem ctx ty m = filled_by (is_scoped ctx ty) (domain_from_context ctx) m

module _ {A D E T : Type 0} where
  -- Of the calls of `Create` other than `Exists` and `FindByID`, which are events of their own, exactly one
  -- is a statement, the INSERT of the model, if the before-hook passes and, in a context that filters a
  -- scoped model by domain, no value of a unique field is there; otherwise none is. Where that context has
  -- a domain and the model has none, the model is inserted with the domain of the context.
  pub create-inserts :
      (ctx : Context D) (ty : ModelType) (m : NewModel A) (o : CreateOutcomes A E T)
      → statements (create ctx ty m o).0 ≡ (
          if inserts ctx ty m o
          then insert_statement ty (model_to_insert (scope ctx ty.domain_scoped) m) ∷ []
          else [])
  unfolding create
  create-inserts ctx ty m o = rw (sym (filled_lem ctx ty m)) (
      both (hook_passes (should_skip_hooks ctx) o.before)
        (not (is_scoped ctx ty) || all_new o.exists m.unique)
        ((run_hook-IsGuard (should_skip_hooks ctx) o.before).guards _)
        ((guarded_by (is_scoped ctx ty) (check_unique-IsGuard o.exists m.unique)).guards _)
        (statements_executed (should_skip_hooks ctx) o.after ty.has_auto_increment_id _ o.inserted
          o.last_id o.found _))
