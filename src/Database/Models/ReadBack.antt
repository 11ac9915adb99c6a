-- ===== src/Database/Models/ReadBack.antt =====
-- A model that is inserted is read back by the `Scan` of its type.
use tracks.Common.{String, Option, none, some, List, [], ◌∷◌, if◌then◌else◌, string_eq}
use mathlib.Core.Option
use tracks.Common.Int.{ℤ}
use tracks.Common.Dict
use tracks.Common.Dict.{Dict}
use tracks.Database.Repository.{ModelType, Model, insert_statement}
use tracks.Database.Models.{Column, number}

-- The row that an INSERT of the columns with the arguments makes.
abbrev pub row_of : List String → List Column → Dict String Column
row_of [] args = []
row_of (column ∷ columns) [] = []
row_of (column ∷ columns) (arg ∷ args) = (column, arg) ∷ row_of columns args

-- The values of the columns of a row, unless one is missing.
abbrev pub columns_of : List String → Dict String Column → Option (List Column)
columns_of [] row = some []
columns_of (column ∷ columns) row = elim (Dict.get column row) [
  | none ↦ none
  | some value ↦ Option.map (λ values. value ∷ values) (columns_of columns row)
]

-- The row of the statement that Create sends for a model, where the database assigns `new_id` to a
-- table that numbers its rows.
abbrev pub inserted_row : ModelType → ℤ → Model Column → Dict String Column
inserted_row ty new_id m =
    if ty.has_auto_increment_id
    then ("id", number new_id) ∷ row_of ty.fields (insert_statement ty m).args
    else row_of ("id" ∷ ty.fields) (insert_statement ty m).args

-- What `Scan` gives for the columns of a SELECT: the id and the fields of the type.
abbrev pub read_back :
    {M : Type 0} → ModelType → (List Column → Option M) → ℤ → Model Column → Option M
read_back ty scan new_id m = elim (columns_of ("id" ∷ ty.fields) (inserted_row ty new_id m)) [
  | none ↦ none
  | some columns ↦ scan columns
]
