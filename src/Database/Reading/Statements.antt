-- ===== src/Database/Reading/Statements.antt =====
-- The statements of the finders of database/repository.go, spelled criterion by criterion.
use tracks.Common.{
  String, ◌≡◌, refl, sym, ap, ◌∙◌, inl, inr, false, Option, none, List, [], ◌∷◌, map, if◌then◌else◌,
  Bool-cases, ◌==◌, string_eq,
}
use tracks.Common.Int.{ℤ}
use Prim.Native.String.{◌++◌}
use mathlib.Core.List
use text.Mathlib.Text.{starts_with}
use text.Mathlib.TextLemmas.{
  nil-append, append-nil as append-nil_text, append_assoc as append_assoc_text,
}
use tracks.Common.Text.{join}
use mathlib.Core.List.{append-nil, append_assoc, map-append}
use tracks.Database.Context.{Context, scope}
use tracks.Database.Query.{
  QueryBuilder, where_, select_list, clause, number_clause, select_text, build,
}
use tracks.Database.Repository.{ModelType, select, where_criteria, find_by}

abbrev pub condition : {A : Type 0} → String × A → String
condition (field, value) = field ++ " = ?"

abbrev pub argument : {A : Type 0} → String × A → A
argument (field, value) = value

-- The criteria, and that on the domain where the context filters by it.
abbrev pub scoped_by : {A : Type 0} → (String → A) → String → List (String × A) → List (String × A)
scoped_by of_string domain criteria =
    if domain == "" then criteria else List.◌++◌ criteria (("domain", of_string domain) ∷ [])

where_criteria_lem :
    {A : Type 0} (q : QueryBuilder A) (criteria : List (String × A))
    → where_criteria q criteria ≡ record q {
      conditions = List.◌++◌ q.conditions (map condition criteria);
      args = List.◌++◌ q.args (map argument criteria);
    }
unfolding where_criteria where_
where_criteria_lem q [] =
    λ i. record q { conditions = sym (append-nil q.conditions) i; args = sym (append-nil q.args) i }
where_criteria_lem q ((field, value) ∷ criteria) =
    where_criteria_lem (where_ q (field ++ " = ?") (value ∷ [])) criteria ∙ λ i. record q {
      conditions = append_assoc q.conditions ((field ++ " = ?") ∷ []) (map condition criteria) i;
      args = append_assoc q.args (value ∷ []) (map argument criteria) i;
    }

pub find_by_lem :
    {A : Type 0} (ty : ModelType) (criteria : List (String × A))
    → find_by ty criteria
      ≡ record (select ty []) { conditions = map condition criteria; args = map argument criteria }
unfolding find_by select
find_by_lem ty criteria = where_criteria_lem (select ty []) criteria

-- The SQL of a SELECT, spelled criterion by criterion.
abbrev pub where_text : {A : Type 0} → (head : String) → List (String × A) → String
where_text head [] = ""
where_text head ((field, value) ∷ criteria) =
    head ++ (field ++ (" = ?" ++ where_text " AND " criteria))

abbrev pub columns_text : List String → String
columns_text [] = ""
columns_text (field ∷ fields) = ", " ++ (field ++ columns_text fields)

abbrev pub select_where :
    {A : Type 0}
    → (columns table_name : String) → List (String × A)
    → (tail : String) → String × List A
select_where columns table_name criteria tail = (
  "SELECT " ++ (columns ++ (" FROM " ++ (table_name ++ (where_text " WHERE " criteria ++ tail)))),
  map argument criteria,
)

-- A model type has fields, and the first is not spelled like a count.
abbrev pub HasFields : ModelType → Type 0
HasFields ty =
    (field : String) × (fields : List String) × (ty.fields ≡ field ∷ fields)
    × (starts_with field "COUNT" ≡ false)

clause-where_text :
    {A : Type 0} (head : String) (criteria : List (String × A))
    → clause head " AND " (map condition criteria) ≡ where_text head criteria
unfolding join
clause-where_text head [] = refl
clause-where_text head ((field, value) ∷ []) =
    ap (λ s. head ++ (field ++ s)) (sym (append-nil_text " = ?"))
clause-where_text head ((field, value) ∷ (other, x) ∷ criteria) =
    ap (λ s. head ++ s)
      (append_assoc_text field " = ?" _
        ∙ ap (λ s. field ++ (" = ?" ++ s)) (clause-where_text " AND " ((other, x) ∷ criteria)))

select_list-columns_text :
    (field : String) (fields : List String)
    → starts_with field "COUNT" ≡ false
    → select_list (field ∷ fields) ≡ "id" ++ columns_text (field ∷ fields)
unfolding select_list join
select_list-columns_text field fields h =
    rw h (ap (λ s. "id, " ++ s) (go field fields) ∙ append_assoc_text "id" ", " _)
  where
    go :
        (field : String) (fields : List String)
        → join ", " (field ∷ fields) ≡ field ++ columns_text fields
    go field [] = sym (append-nil_text field)
    go field (other ∷ fields) = ap (λ s. field ++ (", " ++ s)) (go other fields)

module _ {A D : Type 0} (of_string : String → A) (itoa : ℤ → String) (ctx : Context D)
    (ty : ModelType) where
  -- The criteria with that on the domain of the context.
  abbrev pub scoped : List (String × A) → List (String × A)
  scoped criteria = scoped_by of_string (scope ctx ty.domain_scoped) criteria

  -- The statement `SELECT … FROM … WHERE f = ? AND …` with its arguments.
  abbrev pub selecting : List String → Option ℤ → List (String × A) → String × List A
  selecting fields limit criteria = (
    select_text itoa fields ty.table_name (map condition criteria) [] limit none,
    map argument criteria,
  )

  pub build-select :
      (fields : List String) (limit : Option ℤ) (criteria : List (String × A))
      → build of_string itoa ctx (record (select ty []) {
        fields = fields;
        limit = limit;
        conditions = map condition criteria;
        args = map argument criteria;
      })
        ≡ selecting fields limit (scoped criteria)
  unfolding build select
  build-select fields limit criteria = elim (Bool-cases (scope ctx ty.domain_scoped == "")) [
    | inl none_given ↦ rw none_given refl
    | inr given ↦
        rw
          (
            given,
            map-append condition criteria (("domain", of_string (scope ctx ty.domain_scoped)) ∷ []),
            map-append argument criteria (("domain", of_string (scope ctx ty.domain_scoped)) ∷ []),
          )
          refl
  ]

module _ {A : Type 0} (itoa : ℤ → String) (ty : ModelType) where
  pub statement_lem :
      (fields : List String) (columns : String) (limit : Option ℤ) (tail : String)
      (criteria : List (String × A))
      → select_list fields ≡ columns
      → number_clause itoa " LIMIT " limit ≡ tail
      → ◌≡◌ {A = String × List A}
          (
            select_text itoa fields ty.table_name (map condition criteria) [] limit none,
            map argument criteria,
          )
          (select_where columns ty.table_name criteria tail)
  unfolding select_text
  statement_lem fields columns limit tail criteria named limited =
      rw (named, limited, clause-where_text, append-nil_text, nil-append) refl

  pub count_text :
      (criteria : List (String × A))
      → ◌≡◌ {A = String × List A}
          (
            select_text itoa ("COUNT(*)" ∷ []) ty.table_name (map condition criteria) [] none none,
            map argument criteria,
          )
          (select_where "COUNT(*)" ty.table_name criteria "")
  unfolding select_list
  count_text criteria = statement_lem ("COUNT(*)" ∷ []) "COUNT(*)" none "" criteria refl refl

pub fields_text :
    (ty : ModelType) → HasFields ty → select_list ty.fields ≡ "id" ++ columns_text ty.fields
fields_text ty (field, fields, e, h) = rw e (select_list-columns_text field fields h)
