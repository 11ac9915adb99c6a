-- ===== src/Database/Repository/Statements.antt =====
-- The statements of database/repository.go: which fields they name, and their placeholders.
use tracks.Common.{
  ◌+◌, String, ◌≡◌, refl, ap, ◌∙◌, inl, inr, true, Option, none, some, List, [], ◌∷◌, map, arith,
  eq_iff, if◌then◌else◌, Bool-cases, ◌==◌, string_eq, length, length-append, contains,
}
use tracks.Common.Result.{Result, ok, err, ◌>>=◌}
use tracks.Common.Text.{join, marks, marks_all, marks-append, marks-join}
use Prim.Native.String.{◌++◌}
use mathlib.Core.List
use mathlib.Core.List.{append-nil, append_assoc}
use tracks.Database.Context.{Context, scope}
use tracks.Database.Repository.{
  ModelType, Model, AtomicOp, Statement, RepositoryError, invalid_field, atomic_set, update_set,
  scoped_statement, update_text, atomic_update_statement, update_statement,
}

marks_of_contains :
    (f : String) (fields : List String)
    → contains f fields ≡ true
    → marks_all fields ≡ 0
    → marks f ≡ 0
marks_of_contains f [] h e = cc
marks_of_contains f (g ∷ fields) h e = elim (Bool-cases (g == f)) [
  | inl same ↦ rw (← (eq_iff g f).0 same) (omega arith)
  | inr other ↦ marks_of_contains f fields (ground arith) (omega arith)
]

marks-update_text :
    (ty : ModelType) (set_clause : List String)
    → marks ty.table_name ≡ 0
    → marks (update_text ty set_clause) ≡ marks_all set_clause + 1
marks-update_text ty set_clause h = omega (
  arith,
  marks-append "UPDATE " (ty.table_name ++ (" SET " ++ (join ", " set_clause ++ " WHERE id = ?"))),
  marks-append ty.table_name (" SET " ++ (join ", " set_clause ++ " WHERE id = ?")),
  marks-append " SET " (join ", " set_clause ++ " WHERE id = ?"),
  marks-append (join ", " set_clause) " WHERE id = ?",
  marks-join ", " set_clause refl,
)

marks-scoped_statement :
    {A : Type 0} (of_string : String → A) (query : String) (args : List A) (id : A)
    (domain : String)
    → marks query ≡ length args + 1
    → marks (scoped_statement of_string query args id domain).query
      ≡ length (scoped_statement of_string query args id domain).args
unfolding scoped_statement
marks-scoped_statement of_string query args id domain h = ground (
  arith,
  marks-append query " AND domain = ?",
  length-append args (id ∷ []),
  length-append (List.◌++◌ args (id ∷ [])) (of_string domain ∷ []),
)

-- The first operation whose field the model does not list.
abbrev pub first_invalid : {A : Type 0} → List String → List (AtomicOp A) → Option String
first_invalid fields [] = none
first_invalid fields (op ∷ ops) =
    let rest = first_invalid fields ops in if contains op.field fields then rest else some op.field

abbrev pub assignment : {A : Type 0} → AtomicOp A → String
assignment op = op.field ++ (" = " ++ (op.field ++ " + ?"))

abbrev pub delta_of : {A : Type 0} → AtomicOp A → A
delta_of op = op.delta

-- The result `b`, unless there is a field that is not listed.
abbrev pub unless_invalid : {B E : Type 0} → Option String → B → Result (RepositoryError E) B
unless_invalid none b = ok b
unless_invalid (some f) b = err (invalid_field f)

module _ {A E : Type 0} where
  -- Stops at the first field that is not listed, and otherwise keeps the order of the operations.
  atomic_set-first_invalid :
      (fields set_clause : List String) (args : List A) (ops : List (AtomicOp A))
      → atomic_set {E = E} fields set_clause args ops
        ≡ unless_invalid
            (first_invalid fields ops)
            (List.◌++◌ set_clause (map assignment ops), List.◌++◌ args (map delta_of ops))
  unfolding atomic_set
  atomic_set-first_invalid fields set_clause args [] =
      rw (append-nil set_clause, append-nil args) refl
  atomic_set-first_invalid fields set_clause args (op ∷ ops) =
      let next : List String × List A = (
        List.◌++◌ (List.◌++◌ set_clause (assignment op ∷ [])) (map assignment ops),
        List.◌++◌ (List.◌++◌ args (op.delta ∷ [])) (map delta_of ops),
      ) in
      let same : next ≡ (
        List.◌++◌ set_clause (map assignment (op ∷ ops)),
        List.◌++◌ args (map delta_of (op ∷ ops)),
      ) =
        λ i. (
          append_assoc set_clause (assignment op ∷ []) (map assignment ops) i,
          append_assoc args (op.delta ∷ []) (map delta_of ops) i,
        ) in
      elim (Bool-cases (contains op.field fields)) [
        | inl listed ↦ rw listed (
            atomic_set-first_invalid fields (List.◌++◌ set_clause (assignment op ∷ []))
              (List.◌++◌ args (op.delta ∷ [])) ops
            ∙ ap (λ p. unless_invalid (first_invalid fields ops) p) same)
        | inr unlisted ↦ rw unlisted refl
      ]

marks-assignments :
    {A : Type 0} (fields : List String) (ops : List (AtomicOp A))
    → marks_all fields ≡ 0
    → first_invalid fields ops ≡ none
    → marks_all (map assignment ops) ≡ length (map delta_of ops)
marks-assignments fields [] plain valid = refl
marks-assignments fields (op ∷ ops) plain valid = elim (Bool-cases (contains op.field fields)) [
  | inl listed ↦ omega (
    arith,
    marks_of_contains op.field fields listed plain,
    marks-append op.field (" = " ++ (op.field ++ " + ?")),
    marks-append " = " (op.field ++ " + ?"),
    marks-append op.field " + ?",
    marks-assignments fields ops plain (ground arith),
  )
  | inr unlisted ↦ ground arith
]

-- What `AtomicUpdate` sends to the database if it accepts the operations.
abbrev pub increments :
    {A D : Type 0} → (String → A) → Context D → ModelType → A → List (AtomicOp A) → Statement A
increments of_string ctx ty id ops =
    scoped_statement of_string (update_text ty (map assignment ops)) (map delta_of ops) id
      (scope ctx ty.domain_scoped)

module _ {A D : Type 0} (of_string : String → A) (ctx : Context D) (ty : ModelType) where
  -- `AtomicUpdate` of at least one operation fails with the first field that the model does not
  -- list, and otherwise increments every field, in order, in one statement.
  pub atomic_update_statement-first_invalid :
      {E : Type 0} (id : A) (op : AtomicOp A) (ops : List (AtomicOp A))
      → atomic_update_statement of_string {E = E} ctx ty id (op ∷ ops)
        ≡ unless_invalid
            (first_invalid ty.fields (op ∷ ops))
            (some (increments of_string ctx ty id (op ∷ ops)))
  unfolding atomic_update_statement
  atomic_update_statement-first_invalid id op ops =
      rw (atomic_set-first_invalid ty.fields [] [] (op ∷ ops))
        (next (first_invalid ty.fields (op ∷ ops)))
    where
      next :
          {F : Type 0} (r : Option String)
          → (unless_invalid {E = F} r (map assignment (op ∷ ops), map delta_of (op ∷ ops))
              >>= λ (set_clause, args). ok (
                  some (
                    scoped_statement of_string
                      (update_text ty set_clause)
                      args
                      id
                      (scope ctx ty.domain_scoped))))
            ≡ unless_invalid r (some (increments of_string ctx ty id (op ∷ ops)))
      next none = refl
      next (some f) = refl

  -- The statement of accepted increments has exactly as many placeholders as arguments, with and
  -- without the condition on the domain, if the table and the fields have none in their names.
  pub increments_balanced :
      (id : A) (ops : List (AtomicOp A))
      → marks ty.table_name ≡ 0
      → marks_all ty.fields ≡ 0
      → first_invalid ty.fields ops ≡ none
      → marks (increments of_string ctx ty id ops).query
        ≡ length (increments of_string ctx ty id ops).args
  increments_balanced id ops plain_table plain_fields valid =
      marks-scoped_statement of_string _ (map delta_of ops) id _ (
        omega (
          arith,
          marks-update_text ty (map assignment ops) plain_table,
          marks-assignments ty.fields ops plain_fields valid,
        ))

-- What `Update` sends to the database.
abbrev pub field_is : String → String
field_is field = field ++ " = ?"

abbrev pub assignments :
    {A D : Type 0} → (String → A) → Context D → ModelType → Model A → Statement A
assignments of_string ctx ty m =
    scoped_statement of_string (update_text ty (map field_is ty.fields)) m.values m.id
      (scope ctx ty.domain_scoped)

update_set-field_is :
    {A E : Type 0} (set_clause : List String) (args : List A) (fields : List String)
    (values : List A)
    → length values ≡ length fields
    → update_set {E = E} set_clause args fields values
      ≡ ok (List.◌++◌ set_clause (map field_is fields), List.◌++◌ args values)
unfolding update_set
update_set-field_is set_clause args [] [] e = rw (append-nil set_clause, append-nil args) refl
update_set-field_is set_clause args [] (v ∷ vs) e = absurd (omega (arith, e))
update_set-field_is set_clause args (f ∷ fs) [] e = absurd (omega (arith, e))
update_set-field_is set_clause args (f ∷ fs) (v ∷ vs) e =
    update_set-field_is (List.◌++◌ set_clause (field_is f ∷ [])) (List.◌++◌ args (v ∷ [])) fs vs
      (omega (arith, e))
    ∙ λ i. ok (
      append_assoc set_clause (field_is f ∷ []) (map field_is fs) i,
      append_assoc args (v ∷ []) vs i,
    )

pub update_statement-assignments :
    {A D E : Type 0} (of_string : String → A) (ctx : Context D) (ty : ModelType) (m : Model A)
    → length m.values ≡ length ty.fields
    → update_statement of_string {E = E} ctx ty m ≡ ok (assignments of_string ctx ty m)
unfolding update_statement
update_statement-assignments {E = E} of_string ctx ty m e =
    rw (update_set-field_is {E = E} [] [] ty.fields m.values e) refl
