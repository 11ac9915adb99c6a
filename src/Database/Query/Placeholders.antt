-- ===== src/Database/Query/Placeholders.antt =====
-- The placeholders and the arguments of the statements of database/query.go.
use tracks.Common.{
  ◌+◌, String, ◌≡◌, refl, ◌∙◌, Option, none, some, List, [], ◌∷◌, arith, length, length-append,
}
use tracks.Common.Int.{ℤ}
use tracks.Common.Text.{join, marks, marks_all, marks-append, marks-join}
use Prim.Native.String.{◌++◌}
use mathlib.Core.List
use tracks.Database.Context.{Context, scope}
use tracks.Database.Query.{
  OrderDirection, asc, desc, direction_text, QueryBuilder, where_, order, select_list, clause,
  number_clause, add_scope, select_text, build,
}

pub marks_all-append :
    (ps qs : List String) → marks_all (List.◌++◌ ps qs) ≡ marks_all ps + marks_all qs
marks_all-append [] qs = omega arith
marks_all-append (p ∷ ps) qs = omega (arith, marks_all-append ps qs)

marks-clause :
    (head sep : String) (ps : List String)
    → marks head ≡ 0
    → marks sep ≡ 0
    → marks (clause head sep ps) ≡ marks_all ps
marks-clause head sep [] h k = refl
marks-clause head sep (p ∷ ps) h k =
    omega (arith, marks-append head (join sep (p ∷ ps)), marks-join sep (p ∷ ps) k)

marks-select_list : (fs : List String) → marks_all fs ≡ 0 → marks (select_list fs) ≡ 0
unfolding select_list
marks-select_list [] h = refl
marks-select_list (f ∷ fs) h =
    ground (arith, marks-append "id, " (join ", " (f ∷ fs)), marks-join ", " (f ∷ fs) refl)

-- A builder whose conditions have as many placeholders as it has arguments, and which has none
-- elsewhere.
pub record IsBalanced {A : Type 0} (q : QueryBuilder A) : Type 0 where
  pub balanced : marks_all q.conditions ≡ length q.args
  pub plain_fields : marks_all q.fields ≡ 0
  pub plain_table : marks q.table_name ≡ 0
  pub plain_order : marks_all q.order_by ≡ 0

marks-direction_text : (d : OrderDirection) → marks (direction_text d) ≡ 0
unfolding direction_text
marks-direction_text asc = refl
marks-direction_text desc = refl

module _ {A : Type 0} where
  pub where-IsBalanced :
      (q : QueryBuilder A) (condition : String) (args : List A)
      → IsBalanced q
      → marks condition ≡ length args
      → IsBalanced (where_ q condition args)
  unfolding where_
  where-IsBalanced q condition args h e = record {
    balanced = omega (
      arith,
      marks_all-append q.conditions (condition ∷ []),
      length-append q.args args,
      h.balanced,
    );
    plain_fields = h.plain_fields;
    plain_table = h.plain_table;
    plain_order = h.plain_order;
  }

  pub order-IsBalanced :
      (q : QueryBuilder A) (order_by : String) (direction : OrderDirection)
      → IsBalanced q
      → marks order_by ≡ 0
      → IsBalanced (order q order_by direction)
  unfolding order
  order-IsBalanced q order_by direction h e = record {
    balanced = h.balanced;
    plain_fields = h.plain_fields;
    plain_table = h.plain_table;
    plain_order = omega (
      arith,
      marks_all-append q.order_by ((order_by ++ (" " ++ direction_text direction)) ∷ []),
      marks-append order_by (" " ++ direction_text direction),
      marks-append " " (direction_text direction),
      marks-direction_text direction,
      h.plain_order,
    );
  }

module _ (itoa : ℤ → String) (itoa_plain : (n : ℤ) → marks (itoa n) ≡ 0) where
  marks-number_clause :
      (head : String) (n : Option ℤ) → marks head ≡ 0 → marks (number_clause itoa head n) ≡ 0
  marks-number_clause head none h = refl
  marks-number_clause head (some n) h = omega (arith, marks-append head (itoa n), itoa_plain n)

  marks-select_text :
      (fields : List String) (table_name : String) (conditions order_by : List String)
      (limit offset : Option ℤ)
      → marks_all fields ≡ 0
      → marks table_name ≡ 0
      → marks_all order_by ≡ 0
      → marks (select_text itoa fields table_name conditions order_by limit offset)
        ≡ marks_all conditions
  unfolding select_text
  marks-select_text fields table_name conditions order_by limit offset f t o =
      let fs = select_list fields in
      let ws = clause " WHERE " " AND " conditions in
      let os = clause " ORDER BY " ", " order_by in
      let ls = number_clause itoa " LIMIT " limit in
      let ns = number_clause itoa " OFFSET " offset in
      omega (
        arith,
        marks-append "SELECT " (fs ++ (" FROM " ++ (table_name ++ (ws ++ (os ++ (ls ++ ns)))))),
        marks-append fs (" FROM " ++ (table_name ++ (ws ++ (os ++ (ls ++ ns))))),
        marks-append " FROM " (table_name ++ (ws ++ (os ++ (ls ++ ns)))),
        marks-append table_name (ws ++ (os ++ (ls ++ ns))),
        marks-append ws (os ++ (ls ++ ns)),
        marks-append os (ls ++ ns),
        marks-append ls ns,
        marks-select_list fields f,
        marks-clause " WHERE " " AND " conditions refl refl,
        marks-clause " ORDER BY " ", " order_by refl refl,
        marks-number_clause " LIMIT " limit refl,
        marks-number_clause " OFFSET " offset refl,
      )

marks-add_scope :
    {A : Type 0} (of_string : String → A) (conditions : List String) (args : List A)
    (domain : String)
    → marks_all conditions ≡ length args
    → marks_all (add_scope of_string conditions args domain).0
      ≡ length (add_scope of_string conditions args domain).1
marks-add_scope of_string conditions args domain h = ground (
  arith,
  marks_all-append conditions ("domain = ?" ∷ []),
  length-append args (of_string domain ∷ []),
)

-- A statement built from a balanced builder has exactly as many placeholders as arguments, with
-- and without the condition on the domain; numbers print with no placeholder.
pub build_balanced :
    {A D : Type 0} (of_string : String → A) (itoa : ℤ → String)
    → ((n : ℤ) → marks (itoa n) ≡ 0)
    → (ctx : Context D) (q : QueryBuilder A) → IsBalanced q
    → marks (build of_string itoa ctx q).0 ≡ length (build of_string itoa ctx q).1
unfolding build
build_balanced of_string itoa itoa_plain ctx q h =
    marks-select_text itoa itoa_plain q.fields q.table_name _ q.order_by q.limit q.offset
      h.plain_fields h.plain_table h.plain_order
    ∙ marks-add_scope of_string q.conditions q.args (scope ctx q.scoped) h.balanced
