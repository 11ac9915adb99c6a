-- ===== src/Database/Reading.antt =====
-- The reading of rows: `Execute`, `First` and `Count` of database/query.go, and the finders of
-- database/repository.go over them.
pub mod Statements
pub mod Tables
mod Tests
use tracks.Common.{String, Bool, false, Option, none, some, List, [], ◌∷◌, ltb, if◌then◌else◌}
use tracks.Common.Int.{ℤ, pos, negsuc}
use tracks.Common.Result.{Result, ok, err, panicked, ◌>>=◌}
use tracks.Database.Context.{Context}
use tracks.Database.Query.{QueryBuilder, where_, build, first, count}
use tracks.Database.Repository.{ModelType, select, find_by}

-- What `QueryContext` gives: an error, or the rows that `Next` reaches with the error that ended them,
-- which only `Err` would tell.
pub data Answer (Row E : Type 0) : Type 0 where
  query_error : E → Answer Row E
  rows : List Row → (ending : Option E) → Answer Row E

-- The driver and the model type. `query_row` gives a row whose reading fails with `sql.ErrNoRows` where
-- there is none; `scan` is `Scan` of the model type, which gives a model also where it fails, and
-- `scan_int` the reading of one number.
pub record Driver (A Row T E : Type 0) : Type 0 where
  pub query : String × List A → Answer Row E
  pub query_row : String × List A → Row
  pub scan : Row → T × Option E
  pub is_no_rows : E → Bool
  pub scan_int : Row → Option ℤ

pub data ReadError (E : Type 0) : Type 0 where
  failed : E → ReadError E
  no_count : (table_name : String) → ReadError E

module _ {A Row T E : Type 0} (d : Driver A Row T E) where
  -- One round of the loop of `Execute`, with what the later rounds give.
  abbrev pub append_model :
      T × Option E → Result (ReadError E) (List T) → Result (ReadError E) (List T)
  append_model (model, none) rest = rest >>= λ models. ok (model ∷ models)
  append_model (model, some e) rest = err (failed e)

  unfoldable pub scan_rows : List Row → Result (ReadError E) (List T)
  scan_rows [] = ok []
  scan_rows (r ∷ rs) = let rest = scan_rows rs in append_model (d.scan r) rest

  abbrev pub scan_answer : Answer Row E → Result (ReadError E) (List T)
  scan_answer (query_error e) = err (failed e)
  scan_answer (rows rs ending) = scan_rows rs

  abbrev pub scan_first : T × Option E → Result (ReadError E) T
  scan_first (model, none) = ok model
  scan_first (model, some e) = if d.is_no_rows e then ok model else err (failed e)

  abbrev pub scan_count : Option ℤ → Result (ReadError E) ℤ
  scan_count none = panicked
  scan_count (some n) = ok n

  abbrev pub count_answer : String → Answer Row E → Result (ReadError E) ℤ
  count_answer table_name (query_error e) = err (failed e)
  count_answer table_name (rows [] ending) = err (no_count table_name)
  count_answer table_name (rows (r ∷ rs) ending) = scan_count (d.scan_int r)

abbrev pub is_positive : ℤ → Bool
is_positive (pos n) = ltb 0 n
is_positive (negsuc n) = false

module _ {A Row T E D : Type 0} (of_string : String → A) (itoa : ℤ → String) (d : Driver A Row T E)
    (ctx : Context D) where
  unfoldable pub execute : QueryBuilder A → Result (ReadError E) (List T)
  unfolding scan_rows
  execute q = scan_answer d (d.query (build of_string itoa ctx q))

  unfoldable pub execute_first : QueryBuilder A → Result (ReadError E) T
  unfolding first
  execute_first q = scan_first d (d.scan (d.query_row (first of_string itoa ctx q).1))

  unfoldable pub execute_count : QueryBuilder A → Result (ReadError E) ℤ
  unfolding count
  execute_count q = count_answer d q.table_name (d.query (count of_string itoa ctx q))

  -- `FindBy`
  unfoldable pub find_models : ModelType → List (String × A) → Result (ReadError E) (List T)
  unfolding execute find_by
  find_models ty criteria = execute (find_by ty criteria)

  unfoldable pub find_all : ModelType → Result (ReadError E) (List T)
  unfolding execute select
  find_all ty = execute (select ty [])

  unfoldable pub find_by_id : ModelType → A → Result (ReadError E) T
  unfolding execute_first select where_
  find_by_id ty id = execute_first (where_ (select ty []) "id = ?" (id ∷ []))

  unfoldable pub count_all : ModelType → Result (ReadError E) ℤ
  unfolding execute_count select
  count_all ty = execute_count (select ty [])

  unfoldable pub exists : ModelType → List (String × A) → Result (ReadError E) Bool
  unfolding execute_count find_by
  exists ty criteria = execute_count (find_by ty criteria) >>= λ n. ok (is_positive n)
