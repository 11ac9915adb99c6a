-- ===== src/Database/Tests.antt =====
-- Statements and transactions of the database package.
use tracks.Common.{ℕ, String, ◌≡◌, refl, true, false, none, some, [], ◌∷◌, arith, eq_iff}
use tracks.Common.Int.{ℤ, pos}
use tracks.Common.Result.{ok, err}
use tracks.Common.Text.{join, marks, marks_all}
use tracks.Database.Context.{Context, background, scope, skip_domain_scope}
use tracks.Database.Query.{
  QueryBuilder, desc, where_, order, set_limit, select_list, select_text, direction_text, build,
  first, count,
}
use tracks.Database.Query.Placeholders.{IsBalanced}
use tracks.Database.Query.Scope.{build-where_domain}
use tracks.Database.Repository.{
  ModelType, Model, AtomicOp, duplicate, select, where_criteria, find_by, atomic_set,
  scoped_statement, question_marks, atomic_update_statement, insert_statement,
}
use tracks.Database.Repository.Operations.{exists_query, Outcomes}
use tracks.Database.Repository.Creation.{NewModel, CreateOutcomes, check_unique, create}
use tracks.Database.Repository.Creation.Uniqueness.{statements, create-inserts}
use tracks.Database.Transaction.{Handle, sql_db, call, TxFunc, Driver}

abbrev in_domain : Context ℕ
in_domain = record background { domain = some "a.example"; domain_filter = some true }

abbrev users : ModelType
users = record {
  table_name = "users";
  fields = "name" ∷ "age" ∷ [];
  has_auto_increment_id = true;
  domain_scoped = true;
}

abbrev adults : QueryBuilder String
adults = record {
  scoped = true;
  fields = "name" ∷ [];
  table_name = "users";
  conditions = "age > ?" ∷ [];
  args = "17" ∷ [];
  order_by = "age DESC" ∷ [];
  limit = some (pos 5);
  offset = none;
}

-- The driver's text of a number, for tests.
abbrev itoa : ℤ → String
itoa n = "5"

build-adults : build (λ s. s) itoa in_domain adults ≡ (
  "SELECT id, name FROM users WHERE age > ? AND domain = ? ORDER BY age DESC LIMIT 5",
  "17" ∷ "a.example" ∷ [],
)
unfolding build select_text select_list join scope
build-adults = refl

count-adults :
    (count {D = ℕ} (λ s. s) itoa background adults).0
    ≡ "SELECT COUNT(*) FROM users WHERE age > ? ORDER BY age DESC LIMIT 5"
unfolding count build select_text select_list join scope
count-adults = refl

first-adults : (first (λ s. s) itoa in_domain adults).0 ≡ adults
unfolding first
first-adults = refl

adults-find_by :
    set_limit (order (find_by users (("name", "Ann") ∷ [])) "age" desc) (pos 5) ≡ record adults {
      fields = "name" ∷ "age" ∷ [];
      conditions = "name = ?" ∷ [];
      args = "Ann" ∷ [];
    }
unfolding find_by select where_criteria where_ order direction_text set_limit
adults-find_by = refl

adults-IsBalanced : IsBalanced adults
adults-IsBalanced = record {
  balanced = refl;
  plain_fields = refl;
  plain_table = refl;
  plain_order = refl;
}

itoa_plain : (n : ℤ) → marks (itoa n) ≡ 0
itoa_plain n = refl

build-where_domain_example :
    build (λ s. s) itoa in_domain adults
    ≡ build
        (λ s. s)
        itoa
        (skip_domain_scope in_domain)
        (where_ adults "domain = ?" ("a.example" ∷ []))
build-where_domain_example =
    build-where_domain (λ s. s) itoa in_domain adults refl refl refl
      (ground (arith, eq_iff "a.example" ""))

abbrev older : AtomicOp String
older = record { field = "age"; delta = "1" }

increments-older :
    atomic_update_statement (λ s. s) {E = ℕ} in_domain users "7" (older ∷ [])
    ≡ ok (
        some (record {
          query = "UPDATE users SET age = age + ? WHERE id = ? AND domain = ?";
          args = "1" ∷ "7" ∷ "a.example" ∷ [];
        }))
unfolding atomic_update_statement atomic_set scoped_statement join scope
increments-older = refl

users_plain : marks_all users.fields ≡ 0
users_plain = refl

abbrev ann : Model String
ann = record { id = "7"; values = "Ann" ∷ "30" ∷ [] }

insert-ann :
    insert_statement users ann
    ≡ record { query = "INSERT INTO users (name, age) VALUES (?, ?)"; args = "Ann" ∷ "30" ∷ [] }
unfolding insert_statement question_marks join
insert-ann = refl

-- A model whose domain is not set, and of which another row has the name.
abbrev new_ann : NewModel String
new_ann = record {
  model = ann;
  domain = "";
  with_domain = λ d. record { id = "7"; values = "Ann" ∷ "30" ∷ d ∷ [] };
  unique = ("name", "Ann") ∷ [];
}

abbrev name_taken : CreateOutcomes String ℕ String
name_taken = record {
  before = none;
  exists = λ field. ok true;
  inserted = none;
  last_id = ok "8";
  found = ok "Ann";
  after = none;
}

create-name_taken :
    create in_domain users new_ann name_taken ≡ (exists_query "name" "Ann" ∷ [], err duplicate)
unfolding create check_unique
create-name_taken = refl

-- With the name free, the row that is inserted has the domain of the context.
abbrev name_free : CreateOutcomes String ℕ String
name_free = record name_taken { exists = λ field. ok false }

create-inserts_example :
    statements (create in_domain users new_ann name_free).0
    ≡ insert_statement users (record { id = "7"; values = "Ann" ∷ "30" ∷ "a.example" ∷ [] }) ∷ []
unfolding scope
create-inserts_example = create-inserts in_domain users new_ann name_free

-- A statement that fails, between two hooks that would not.
abbrev refused : Outcomes ℕ
refused = record { before = some none; executed = some 5; after = some none }

abbrev on_sql_db : Context (Handle ℕ)
on_sql_db = record background { db = some sql_db }

abbrev starts : {E : Type 0} → Driver ℕ E
starts = record { begins = ok 1; commits = none }

abbrev failing : TxFunc ℕ String String
failing c = (call "insert" ∷ [], err "duplicate")
