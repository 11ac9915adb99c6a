-- ===== src/Database/Reading/Tables.antt =====
-- What the finders of database/repository.go give over a table, where the driver answers a SELECT with
-- conditions `field = ?` by the rows that have these values.
use tracks.Common.{
  String, ◌≡◌, refl, ap, inl, inr, Bool, true, false, ◌&&◌, ◌||◌, Option, none, some, List, [], ◌∷◌,
  arith, Bool-cases, Comparable, ◌==◌, string_eq, length, keep,
}
use tracks.Common.Int.{ℤ, pos}
use tracks.Common.Result.{Result, ok, err}
use Prim.Native.String.{◌++◌}
use tracks.Database.Context.{Context}
use tracks.Database.Query.{where_, set_limit, first, count}
use tracks.Database.Repository.{ModelType, select}
use tracks.Database.Reading.{
  rows, Driver, ReadError, failed, scan_rows, scan_first, is_positive, execute, execute_first,
  execute_count, find_models, find_by_id, exists,
}
use tracks.Database.Reading.Statements.{
  scoped, select_where, columns_text, HasFields, statement_lem, count_text, fields_text,
  find_by_lem, build-select,
}

-- Whether there is an element that passes a test.
abbrev pub any : {X : Type 0} → (X → Bool) → List X → Bool
any p [] = false
any p (x ∷ xs) = p x || any p xs

is_positive-length :
    {X : Type 0} (p : X → Bool) (xs : List X) → is_positive (pos (length (keep p xs))) ≡ any p xs
is_positive-length p [] = refl
is_positive-length p (x ∷ xs) = elim (Bool-cases (p x)) [
  | inl passes ↦ rw passes (ground arith)
  | inr fails ↦ rw fails (is_positive-length p xs)
]

module _ {A Row T E : Type 0} (d : Driver A Row T E) where
  -- What the caller is to get where these rows are there: the model of the first, or the error of reading
  -- it; and without a row a model, `zero_model`. An error that says that there is no row is no error.
  pub data IsFirst (zero_model : T) : List Row → Result (ReadError E) T → Type 0 where
    no_row : IsFirst zero_model [] (ok zero_model)
    readable :
        {row : Row} {later : List Row} {model : T}
        → d.scan row ≡ (model, none)
        → IsFirst zero_model (row ∷ later) (ok model)
    unreadable :
        {row : Row} {later : List Row} {model : T} {e : E}
        → d.scan row ≡ (model, some e)
        → d.is_no_rows e ≡ false
        → IsFirst zero_model (row ∷ later) (err (failed e))
    read_as_no_row :
        {row : Row} {later : List Row} {model : T} {e : E}
        → d.scan row ≡ (model, some e)
        → d.is_no_rows e ≡ true
        → IsFirst zero_model (row ∷ later) (ok model)

module _ {A Row T E D : Type 0} ⦃e : Comparable A⦄ (of_string : String → A) (itoa : ℤ → String)
    (d : Driver A Row T E) (value : Row → String → A) (ctx : Context D) (ty : ModelType)
    (table : List Row) where
  -- Whether a row has the values of the criteria.
  abbrev pub meets : List (String × A) → Row → Bool
  meets [] row = true
  meets ((field, a) ∷ criteria) row = value row field == a && meets criteria row

  -- The rows of the table that have the values of the criteria, those of the domain alone where the
  -- context filters by one.
  abbrev pub meeting : List (String × A) → List Row
  meeting criteria = keep (meets (scoped of_string itoa ctx ty criteria)) table

  -- FindBy gives the models of the rows of the table that have the values of the criteria, and where
  -- the context filters by a domain those of this domain only, in the order of the table; it ends
  -- with the error of the first row that cannot be read. The driver is to answer
  -- `SELECT id, f, … FROM t WHERE f = ? AND …` by these rows.
  pub find_models-meeting :
      (criteria : List (String × A)) (ending : Option E)
      → HasFields ty
      → d.query (
          select_where
            ("id" ++ columns_text ty.fields)
            ty.table_name
            (scoped of_string itoa ctx ty criteria)
            "")
        ≡ rows (meeting criteria) ending
      → find_models of_string itoa d ctx ty criteria ≡ scan_rows d (meeting criteria)
  unfolding find_models execute
  find_models-meeting criteria ending named answered =
      rw
        (
          find_by_lem ty criteria,
          build-select of_string itoa ctx ty ty.fields none criteria,
          statement_lem itoa ty ty.fields _ none "" (scoped of_string itoa ctx ty criteria)
              (fields_text ty named) refl,
          answered,
        )
        refl

  -- Exists says whether there is a row in the table that has the values of the criteria, and that is of
  -- the domain of the context where it filters by one. The driver is to answer
  -- `SELECT COUNT(*) FROM t WHERE f = ? AND …` by the number of these rows.
  pub exists-any :
      (criteria : List (String × A)) (row : Row) (ending : Option E)
      → d.query (select_where "COUNT(*)" ty.table_name (scoped of_string itoa ctx ty criteria) "")
        ≡ rows (row ∷ []) ending
      → d.scan_int row ≡ some (pos (length (meeting criteria)))
      → exists of_string itoa d ctx ty criteria
        ≡ ok (any (meets (scoped of_string itoa ctx ty criteria)) table)
  unfolding exists execute_count count
  exists-any criteria row ending answered read =
      rw
        (
          find_by_lem ty criteria,
          build-select of_string itoa ctx ty ("COUNT(*)" ∷ []) none criteria,
          count_text itoa ty (scoped of_string itoa ctx ty criteria),
          answered,
          read,
        )
        (ap ok (is_positive-length (meets (scoped of_string itoa ctx ty criteria)) table))

  abbrev pub row_of : (blank : Row) → List Row → Row
  row_of blank [] = blank
  row_of blank (row ∷ later) = row

  scan_first-row :
      (zero_model : T) (row : Row) (later : List Row) (scanned : T × Option E)
      → d.scan row ≡ scanned
      → IsFirst d zero_model (row ∷ later) (scan_first d scanned)
  scan_first-row zero_model row later (model, none) read = readable read
  scan_first-row zero_model row later (model, some e) read = elim (Bool-cases (d.is_no_rows e)) [
    | inl no_rows ↦ rw no_rows (read_as_no_row read no_rows)
    | inr other ↦ rw other (unreadable read other)
  ]

  scan_first-row_of :
      (blank : Row) (zero_model : T) (missing : E) (found : List Row)
      → d.scan blank ≡ (zero_model, some missing)
      → d.is_no_rows missing ≡ true
      → IsFirst d zero_model found (scan_first d (d.scan (row_of blank found)))
  scan_first-row_of blank zero_model missing [] scanned no_rows = rw (scanned, no_rows) no_row
  scan_first-row_of blank zero_model missing (row ∷ later) scanned no_rows =
      scan_first-row zero_model row later (d.scan row) refl

  -- FindByID gives the model of the first row with this id, of the domain of the context where it filters
  -- by one, or the error of reading that row, unless the error is sql.ErrNoRows; and where there is no
  -- such row it gives the model that Scan gives for no row, without an error. The driver is to answer
  -- `SELECT id, f, … FROM t WHERE id = ? LIMIT 1`, with the condition on the domain, by the first of
  -- these rows, and by a row that cannot be read, with sql.ErrNoRows, where there is none.
  pub find_by_id-IsFirst :
      (id : A) (blank : Row) (zero_model : T) (missing : E)
      → HasFields ty
      → itoa (pos 1) ≡ "1"
      → d.scan blank ≡ (zero_model, some missing)
      → d.is_no_rows missing ≡ true
      → d.query_row (
          select_where
            ("id" ++ columns_text ty.fields)
            ty.table_name
            (scoped of_string itoa ctx ty (("id", id) ∷ []))
            " LIMIT 1")
        ≡ row_of blank (meeting (("id", id) ∷ []))
      → IsFirst d zero_model (meeting (("id", id) ∷ [])) (find_by_id of_string itoa d ctx ty id)
  unfolding find_by_id execute_first first select where_ set_limit
  find_by_id-IsFirst id blank zero_model missing named one scanned no_rows answered =
      rw
        (
          build-select of_string itoa ctx ty ty.fields (some (pos 1)) (("id", id) ∷ []),
          statement_lem itoa ty ty.fields _ (some (pos 1)) " LIMIT 1"
              (scoped of_string itoa ctx ty (("id", id) ∷ [])) (fields_text ty named)
              (ap (λ s. " LIMIT " ++ s) one),
          answered,
        )
        (scan_first-row_of blank zero_model missing (meeting (("id", id) ∷ [])) scanned no_rows)
