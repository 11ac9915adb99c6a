-- ===== src/FeatureFlags/Lru/Links.antt =====
-- The link between the entries and the order of modules/featureflags/cache.go.
use tracks.Common.{
  ◌+◌, ◌≡◌, refl, ◌∙◌, true, false, not, ◌&&◌, none, some, List, [], ◌∷◌, ◌++◌, arith, Comparable,
  ◌==◌, string_eq, beq_self, length, length-append, contains, contains-append, Distinct,
  Distinct-snoc,
}
use tracks.Common.Dict
use tracks.Common.Dict.{Dict}
use tracks.FeatureFlags.Lru.{remove_from_order, touch}

module _ {K : Type 0} ⦃e : Comparable K⦄ where
  contains-remove :
      (k j : K) (xs : List K)
      → Distinct xs
      → contains j (remove_from_order k xs) ≡ not (k == j) && contains j xs
  unfolding remove_from_order
  contains-remove k j [] d = ground arith
  contains-remove k j (x ∷ xs) d =
      ground (arith, e.equal_iff x k, e.equal_iff x j, e.equal_iff k j, contains-remove k j xs d.1)

  remove-Distinct : (k : K) (xs : List K) → Distinct xs → Distinct (remove_from_order k xs)
  unfolding remove_from_order
  remove-Distinct k [] d = d
  remove-Distinct k (x ∷ xs) d =
      ground (arith, contains-remove k x xs d.1, remove-Distinct k xs d.1)

  length-remove :
      (k : K) (xs : List K) → contains k xs ≡ true → length (remove_from_order k xs) + 1 ≡ length xs
  unfolding remove_from_order
  length-remove k [] h = cc
  length-remove k (x ∷ xs) h = ground (arith, length-remove k xs)

  pub remove_absent : (k : K) (xs : List K) → contains k xs ≡ false → remove_from_order k xs ≡ xs
  unfolding remove_from_order
  remove_absent k [] h = refl
  remove_absent k (x ∷ xs) h = ground (arith, remove_absent k xs)

module _ {K V : Type 0} ⦃e : Comparable K⦄ where
  -- Every key with an entry stands exactly once in the order, and no other key does.
  pub record Linked (items : Dict K V) (order : List K) : Type 0 where
    pub is_map : Dict.IsMap items
    pub distinct : Distinct order
    pub same : (k : K) → Dict.has k items ≡ contains k order
    pub count : length items ≡ length order

  pub Linked-nil : Linked [] []
  Linked-nil = record { is_map = tt; distinct = tt; same = λ k. refl; count = refl }

  pub Linked-drop :
      (oldest : K) (items : Dict K V) (order : List K)
      → Linked items (oldest ∷ order)
      → Linked (Dict.delete oldest items) order
  Linked-drop oldest items order h = record {
    is_map = Dict.delete-IsMap oldest items h.is_map;
    distinct = h.distinct.1;
    same = λ k.
        ground
          (arith, Dict.has-delete oldest k items, h.same k, h.distinct.0, e.equal_iff oldest k);
    count = omega (
      arith,
      Dict.length-delete oldest items h.is_map (h.same oldest ∙ ground (arith, beq_self oldest)),
      h.count,
    );
  }

  pub Linked-touch :
      (k : K) (items : Dict K V) (order : List K)
      → Linked items order
      → Dict.has k items ≡ true
      → Linked items (touch k order)
  unfolding touch
  Linked-touch k items order h old = record {
    is_map = h.is_map;
    distinct =
        Distinct-snoc (remove_from_order k order) k (remove-Distinct k order h.distinct)
          (ground (arith, contains-remove k k order h.distinct, beq_self k));
    same = λ j. ground (
      arith,
      e.equal_iff k j,
      h.same j,
      contains-append j (remove_from_order k order) (k ∷ []),
      contains-remove k j order h.distinct,
    );
    count = ground (
      arith,
      length-append (remove_from_order k order) (k ∷ []),
      length-remove k order,
      h.same k,
      h.count,
    );
  }

  pub Linked-put :
      (k : K) (v : V) (items : Dict K V) (order : List K)
      → Linked items order
      → Dict.has k items ≡ true
      → Linked (Dict.put k v items) order
  Linked-put k v items order h old = record {
    is_map = Dict.put-IsMap k v items h.is_map;
    distinct = h.distinct;
    same = λ j. ground (arith, e.equal_iff k j, Dict.has-put k j v items, h.same j);
    count = ground (arith, Dict.length-put k v items, h.count);
  }

  pub get_of_absent :
      (items : Dict K V) (order : List K) (k : K)
      → Linked items order
      → contains k order ≡ false
      → Dict.get k items ≡ none
  get_of_absent items order k h absent = ground (arith, h.same k, Dict.has-eq-false_iff k items)

  pub has_of_get :
      (items : Dict K V) (k : K) (v : V) → Dict.get k items ≡ some v → Dict.has k items ≡ true
  has_of_get items k v h = ground (arith, Dict.has-eq-false_iff k items)

  pub Linked-push :
      (k : K) (v : V) (items : Dict K V) (order : List K)
      → Linked items order
      → Dict.has k items ≡ false
      → Linked (Dict.put k v items) (order ++ k ∷ [])
  Linked-push k v items order h new = record {
    is_map = Dict.put-IsMap k v items h.is_map;
    distinct = Distinct-snoc order k h.distinct (ground (arith, h.same k));
    same =
        λ j. ground (arith, Dict.has-put k j v items, h.same j, contains-append j order (k ∷ []));
    count = ground (arith, Dict.length-put k v items, length-append order (k ∷ []), h.count);
  }

  pub Linked-remove :
      (k : K) (items : Dict K V) (order : List K)
      → Linked items order
      → Dict.has k items ≡ true
      → Linked (Dict.delete k items) (remove_from_order k order)
  Linked-remove k items order h old = record {
    is_map = Dict.delete-IsMap k items h.is_map;
    distinct = remove-Distinct k order h.distinct;
    same = λ j.
        ground (arith, Dict.has-delete k j items, h.same j, contains-remove k j order h.distinct);
    count =
        ground
          (arith, Dict.length-delete k items h.is_map, length-remove k order, h.same k, h.count);
  }
