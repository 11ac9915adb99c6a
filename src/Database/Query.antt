-- ===== src/Database/Query.antt =====
-- database/query.go: the query builder. A builder is a pointer that each method changes and gives
-- back, here a state that is passed on. An argument of type `any` is of an abstract type `A`, with
-- `of_string` for a text; `itoa` is `fmt.Sprintf("%d", _)`.
pub mod Placeholders
pub mod Scope
use tracks.Common.{String, Bool, Option, none, some, List, [], ◌∷◌, if◌then◌else◌, ◌==◌, string_eq}
use tracks.Common.Int.{ℤ, pos}
use tracks.Common.Text.{join}
use Prim.Native.String.{◌++◌}
use mathlib.Core.List
use text.Mathlib.Text.{starts_with}
use tracks.Database.Context.{Context, scope}

pub data OrderDirection : Type 0 where
  asc desc : OrderDirection

unfoldable pub direction_text : OrderDirection → String
direction_text asc = "ASC"
direction_text desc = "DESC"

-- `limit` and `offset` stand for the pairs `limit`, `hasLimit` and `offset`, `hasOffset`; `scoped`
-- says whether the repository's model is `DomainScoped`.
pub record QueryBuilder (A : Type 0) : Type 0 where
  pub scoped : Bool
  pub fields : List String
  pub table_name : String
  pub conditions : List String
  pub args : List A
  pub order_by : List String
  pub limit : Option ℤ
  pub offset : Option ℤ

module _ {A : Type 0} where
  unfoldable pub where_ : QueryBuilder A → String → List A → QueryBuilder A
  where_ q condition args = record q {
    conditions = List.◌++◌ q.conditions (condition ∷ []);
    args = List.◌++◌ q.args args;
  }

  unfoldable pub order : QueryBuilder A → String → OrderDirection → QueryBuilder A
  unfolding direction_text
  order q order_by direction = record q {
    order_by = List.◌++◌ q.order_by ((order_by ++ (" " ++ direction_text direction)) ∷ []);
  }

  unfoldable pub set_limit : QueryBuilder A → ℤ → QueryBuilder A
  set_limit q limit = record q { limit = some limit }

  unfoldable pub set_offset : QueryBuilder A → ℤ → QueryBuilder A
  set_offset q offset = record q { offset = some offset }

-- The list of fields behind SELECT.
unfoldable pub select_list : List String → String
select_list [] = "*"
select_list (f ∷ fs) = if starts_with f "COUNT" then f else "id, " ++ join ", " (f ∷ fs)

-- A clause that is left out where it has no parts.
abbrev pub clause : String → String → List String → String
clause head sep [] = ""
clause head sep (p ∷ ps) = head ++ join sep (p ∷ ps)

abbrev pub number_clause : (ℤ → String) → String → Option ℤ → String
number_clause itoa head none = ""
number_clause itoa head (some n) = head ++ itoa n

-- The scoping at the end of `conditions` and `args`.
abbrev pub add_scope :
    {A : Type 0} → (String → A) → List String → List A → String → List String × List A
add_scope of_string conditions args domain =
    if domain == ""
    then (conditions, args)
    else (List.◌++◌ conditions ("domain = ?" ∷ []), List.◌++◌ args (of_string domain ∷ []))

-- The text of a SELECT statement.
unfoldable pub select_text :
    (ℤ → String)
    → (fields : List String) (table_name : String) (conditions order_by : List String)
      (limit offset : Option ℤ)
    → String
unfolding select_list join
select_text itoa fields table_name conditions order_by limit offset =
    "SELECT "
    ++ (select_list fields
        ++ (" FROM "
            ++ (table_name
                ++ (clause " WHERE " " AND " conditions
                    ++ (clause " ORDER BY " ", " order_by
                        ++ (number_clause itoa " LIMIT " limit
                            ++ number_clause itoa " OFFSET " offset))))))

module _ {A D : Type 0} (of_string : String → A) (itoa : ℤ → String) where
  unfoldable pub build : Context D → QueryBuilder A → String × List A
  unfolding select_text
  build ctx q =
      let (conditions, args) = add_scope of_string q.conditions q.args (scope ctx q.scoped) in
      (select_text itoa q.fields q.table_name conditions q.order_by q.limit q.offset, args)

  -- The statement that `First` runs, and the builder that it leaves: it sets a limit if there is none.
  unfoldable pub first : Context D → QueryBuilder A → QueryBuilder A × (String × List A)
  unfolding build set_limit
  first ctx q =
      let q' : QueryBuilder A = elim q.limit [ none ↦ set_limit q (pos 1) | some _ ↦ q ] in
      (q', build ctx q')

  -- The statement that `Count` runs on a shallow copy of the builder.
  unfoldable pub count : Context D → QueryBuilder A → String × List A
  unfolding build
  count ctx q = build ctx (record q { fields = "COUNT(*)" ∷ [] })
