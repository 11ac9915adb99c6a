-- ===== src/Database/Repository.antt =====
-- database/repository.go: the statements of a repository and the order of its hooks. A model type is
-- what the code reads of the zero value, a model what it reads of one value; an argument of type `any`
-- is of an abstract type `A`, and an error of an abstract type `E`. `FindBy` and `Exists` take the
-- criteria in the order in which Go's map gives them.
pub mod Statements
pub mod Operations
pub mod Hooks
pub mod Creation
use tracks.Common.{
  String, Bool, Option, none, some, List, [], ◌∷◌, if◌then◌else◌, ◌==◌, string_eq, contains,
}
use tracks.Common.Result.{Result, ok, err, panicked, ◌>>=◌}
use tracks.Common.Text.{join}
use Prim.Native.String.{◌++◌}
use mathlib.Core.List
use tracks.Database.Context.{Context, scope}
use tracks.Database.Query.{QueryBuilder, where_}

pub record ModelType : Type 0 where
  pub table_name : String
  pub fields : List String
  pub has_auto_increment_id : Bool
  pub domain_scoped : Bool

pub record Model (A : Type 0) : Type 0 where
  pub id : A
  pub values : List A

pub record AtomicOp (A : Type 0) : Type 0 where
  pub field : String
  pub delta : A

pub record Statement (A : Type 0) : Type 0 where
  pub query : String
  pub args : List A

pub data RepositoryError (E : Type 0) : Type 0 where
  invalid_field : String → RepositoryError E
  duplicate : RepositoryError E
  external : E → RepositoryError E

abbrev snoc {ℓ} : {X : Type ℓ} → List X → X → List X
snoc xs x = List.◌++◌ xs (x ∷ [])

module _ {A : Type 0} where
  -- `Select`: the fields of the type if none are given.
  unfoldable pub select : ModelType → List String → QueryBuilder A
  select ty fields = record {
    scoped = ty.domain_scoped;
    fields = elim fields [ [] ↦ ty.fields | f ∷ fs ↦ f ∷ fs ];
    table_name = ty.table_name;
    conditions = [];
    args = [];
    order_by = [];
    limit = none;
    offset = none;
  }

  -- The loop of `FindBy` and `Exists` over the criteria.
  unfoldable pub where_criteria : QueryBuilder A → List (String × A) → QueryBuilder A
  where_criteria q [] = q
  where_criteria q ((field, value) ∷ criteria) =
      where_criteria (where_ q (field ++ " = ?") (value ∷ [])) criteria

  unfoldable pub find_by : ModelType → List (String × A) → QueryBuilder A
  unfolding where_criteria select
  find_by ty criteria = where_criteria (select ty []) criteria

  -- The loop of `AtomicUpdate` over the operations.
  unfoldable pub atomic_set :
      {E : Type 0}
      → List String
      → List String
      → List A
      → List (AtomicOp A)
      → Result (RepositoryError E) (List String × List A)
  atomic_set allowed set_clause args [] = ok (set_clause, args)
  atomic_set allowed set_clause args (op ∷ ops) =
      let rest =
        atomic_set allowed (snoc set_clause (op.field ++ (" = " ++ (op.field ++ " + ?"))))
          (snoc args op.delta) ops in
      if contains op.field allowed then rest else err (invalid_field op.field)

  -- The loop of `Update` over the fields; `values[i]` out of range panics.
  unfoldable pub update_set :
      {E : Type 0}
      → List String
      → List A
      → List String
      → List A
      → Result (RepositoryError E) (List String × List A)
  update_set set_clause args [] values = ok (set_clause, args)
  update_set set_clause args (field ∷ fields) [] = panicked
  update_set set_clause args (field ∷ fields) (value ∷ values) =
      update_set (snoc set_clause (field ++ " = ?")) (snoc args value) fields values

-- `placeholders` of `Create`.
unfoldable pub question_marks : List String → List String
question_marks [] = []
question_marks (_ ∷ fields) = "?" ∷ question_marks fields

-- `UPDATE … WHERE id = ?` or `DELETE … WHERE id = ?`, with the condition on the domain.
unfoldable pub scoped_statement :
    {A : Type 0} → (String → A) → String → List A → A → String → Statement A
scoped_statement of_string query args id domain =
    if domain == "" then record { query = query; args = snoc args id } else record {
      query = query ++ " AND domain = ?";
      args = snoc (snoc args id) (of_string domain);
    }

abbrev pub update_text : ModelType → List String → String
update_text ty set_clause =
    "UPDATE " ++ (ty.table_name ++ (" SET " ++ (join ", " set_clause ++ " WHERE id = ?")))

abbrev pub insert_text : ModelType → List String → String
insert_text ty fields =
    "INSERT INTO "
    ++ (ty.table_name
        ++ (" ("
            ++ (join ", " fields ++ (") VALUES (" ++ (join ", " (question_marks fields) ++ ")")))))

module _ {A D : Type 0} (of_string : String → A) where
  -- `none` where there is nothing to do.
  unfoldable pub atomic_update_statement :
      {E : Type 0}
      → Context D
      → ModelType
      → A
      → List (AtomicOp A)
      → Result (RepositoryError E) (Option (Statement A))
  unfolding atomic_set scoped_statement join
  atomic_update_statement ctx ty id [] = ok none
  atomic_update_statement ctx ty id (op ∷ ops) =
      atomic_set ty.fields [] [] (op ∷ ops) >>= λ (set_clause, args). ok (
        some (
          scoped_statement of_string (update_text ty set_clause) args id
            (scope ctx ty.domain_scoped)))

  unfoldable pub update_statement :
      {E : Type 0} → Context D → ModelType → Model A → Result (RepositoryError E) (Statement A)
  unfolding update_set scoped_statement join
  update_statement ctx ty m = update_set [] [] ty.fields m.values >>= λ (set_clause, args). ok (
      scoped_statement of_string (update_text ty set_clause) args m.id (scope ctx ty.domain_scoped))

  unfoldable pub delete_statement : Context D → ModelType → Model A → Statement A
  unfolding scoped_statement
  delete_statement ctx ty m =
      scoped_statement of_string ("DELETE FROM " ++ (ty.table_name ++ " WHERE id = ?")) [] m.id
        (scope ctx ty.domain_scoped)

module _ {A : Type 0} where
  unfoldable pub insert_statement : ModelType → Model A → Statement A
  unfolding question_marks join
  insert_statement ty m =
      if ty.has_auto_increment_id
      then record { query = insert_text ty ty.fields; args = m.values }
      else record { query = insert_text ty ("id" ∷ ty.fields); args = m.id ∷ m.values }
