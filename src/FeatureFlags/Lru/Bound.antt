-- ===== src/FeatureFlags/Lru/Bound.antt =====
-- The bound, the freshness and the order of eviction of modules/featureflags/cache.go.
use tracks.Common.{
  suc, ◌+◌, ◌-◌, ◌≤◌, ◌<◌, ℕ, ◌≡◌, refl, sym, ap, ◌∙◌, inl, inr, true, none, some, List, [], ◌∷◌,
  ◌++◌, arith, ltb, leb, if◌then◌else◌, Bool-cases, Option-cases, Comparable, ◌==◌, string_eq,
  beq_self, length, length-append, contains, drop, contains-drop, contains-drop_last,
}
use tracks.Common.Dict
use mathlib.Core.Option.{some-injective}
use mathlib.Core.Path.{subst}
use tracks.Common.Dict.{Dict}
use tracks.FeatureFlags.Lru.{
  CacheEntry, LruCache, new_lru, remove_from_order, touch, get, evict, with_contents, set,
}
use tracks.FeatureFlags.Lru.Links.{
  Linked, Linked-nil, Linked-drop, Linked-touch, Linked-push, Linked-remove, Linked-put,
  get_of_absent, has_of_get, remove_absent,
}

module _ {K V : Type 0} ⦃e : Comparable K⦄ where
  pub record IsValid (c : LruCache K V) : Type 0 where
    pub linked : Linked c.items c.order
    pub bounded : length c.items ≤ c.cap

  -- What `evict` leaves: the last `cap` keys of the order, and their entries as they were.
  record Evicted (cap : ℕ) (items : Dict K (CacheEntry V)) (order : List K)
      (items' : Dict K (CacheEntry V)) (order' : List K) : Type 0 where
    linked : Linked items' order'
    bounded : length items' ≤ cap
    last : order' ≡ drop (length order - cap) order
    values : (j : K) → Dict.get j items' ≡ (if contains j order' then Dict.get j items else none)

  Evicted-stop :
      (cap : ℕ) (items : Dict K (CacheEntry V)) (order : List K)
      → Linked items order
      → length items ≤ cap
      → Evicted cap items order items order
  Evicted-stop cap items order h fits =
      let zero_left : length order - cap ≡ 0 = omega (arith, h.count) in
      record {
        linked = h;
        bounded = fits;
        last = rw zero_left refl;
        values = λ j. elim (Bool-cases (contains j order)) [
          | inl here ↦ rw here refl
          | inr absent ↦ rw absent (get_of_absent items order j h absent)
        ];
      }

  Evicted-drop :
      (cap : ℕ) (o : K) (items : Dict K (CacheEntry V)) (order : List K)
      {items' : Dict K (CacheEntry V)} {order' : List K}
      → Linked items (o ∷ order)
      → cap < length items
      → Evicted cap (Dict.delete o items) order items' order'
      → Evicted cap items (o ∷ order) items' order'
  Evicted-drop cap o items order {items'} {order'} h over w =
      let n = length order - cap in
      let next : suc (length order) - cap ≡ suc n = omega (arith, h.count) in
      record {
        linked = w.linked;
        bounded = w.bounded;
        last = rw next w.last;
        values = λ j. ground (
          arith,
          w.values j,
          w.last,
          contains-drop j n order,
          Dict.get-delete o j items,
          h.distinct.0,
          e.equal_iff o j,
        );
      }

  evict-Evicted :
      (cap : ℕ) (items : Dict K (CacheEntry V)) (order : List K)
      → Linked items order
      → (items' : Dict K (CacheEntry V)) × (order' : List K) × (evict cap items order
          ≡ some (items', order'))
        × Evicted cap items order items' order'
  unfolding evict
  evict-Evicted cap items [] h =
      let fits : length items ≤ cap = omega (arith, h.count) in
      (items, [], ground arith, Evicted-stop cap items [] h fits)
  evict-Evicted cap items (o ∷ order) h = elim (Bool-cases (ltb cap (length items))) [
    | inl over ↦
        let (items', order', done, w) =
          evict-Evicted cap (Dict.delete o items) order (Linked-drop o items order h) in
        (items', order', rw (over, evict) done, Evicted-drop cap o items order h (ground arith) w)
    | inr fits ↦ (
      items,
      o ∷ order,
      rw (fits, evict) refl,
      Evicted-stop cap items (o ∷ order) h (ground arith),
    )
  ]

  -- The order after a store, before anything is evicted.
  stored_order :
      (c : LruCache K V) (k : K)
      → Linked c.items c.order
      → (if Dict.has k c.items then touch k c.order else c.order ++ k ∷ []) ≡ touch k c.order
  unfolding touch
  stored_order c k h = ground (arith, h.same k, remove_absent k c.order)

  stored-Linked :
      (c : LruCache K V) (k : K) (entry : CacheEntry V)
      → Linked c.items c.order
      → Linked (Dict.put k entry c.items) (touch k c.order)
  unfolding touch
  stored-Linked c k entry h = elim (Bool-cases (Dict.has k c.items)) [
    | inl old ↦ Linked-put k entry c.items _ (Linked-touch k c.items c.order h old) old
    | inr new ↦
        rw (remove_absent k c.order (sym (h.same k) ∙ new))
          (Linked-push k entry c.items c.order h new)
  ]

  pub record Stored (c : LruCache K V) (k : K) (value : V) (now : ℕ) (c' : LruCache K V)
      : Type 0 where
    pub valid : IsValid c'
    pub last : c'.order ≡ drop (length (touch k c.order) - c.cap) (touch k c.order)
    pub values :
        (j : K)
        → Dict.get j c'.items ≡ (
            if contains j c'.order
            then (if k == j then some (record { at = now; value = value }) else Dict.get j c.items)
            else none)
    pub same_ttl : c'.ttl ≡ c.ttl
    pub same_cap : c'.cap ≡ c.cap

-- Storing never panics on a valid cache, and ends in a valid cache, with at most `cap` entries. The
-- stored key becomes the most recently used, only the least recently used keys beyond `cap` are
-- evicted, and every other entry stays as it was.
pub set-Stored :
    {K V : Type 0} ⦃e : Comparable K⦄ (c : LruCache K V) (k : K) (value : V) (now : ℕ)
    → IsValid c
    → (c' : LruCache K V) × (set c k value now ≡ some c') × Stored c k value now c'
unfolding set
set-Stored c k value now h =
    let entry : CacheEntry _ = record { at = now; value = value } in
    let (items, order, evicted, w) =
      evict-Evicted c.cap (Dict.put k entry c.items) (touch k c.order)
        (stored-Linked c k entry h.linked) in
    (
      record c { items = items; order = order },
      rw (stored_order c k h.linked) (ap (with_contents c) evicted),
      record {
        valid = record { linked = w.linked; bounded = w.bounded };
        last = w.last;
        values = λ j. rw (w.values j, Dict.get-put k j entry c.items) refl;
        same_ttl = refl;
        same_cap = refl;
      },
    )

get_hit-IsValid :
    {K V : Type 0} ⦃e : Comparable K⦄ (c : LruCache K V) (k : K)
    → IsValid c
    → Dict.has k c.items ≡ true
    → IsValid (record c { order = touch k c.order })
get_hit-IsValid c k h old = record {
  linked = Linked-touch k c.items c.order h.linked old;
  bounded = h.bounded;
}

get_expired-IsValid :
    {K V : Type 0} ⦃e : Comparable K⦄ (c : LruCache K V) (k : K)
    → IsValid c
    → Dict.has k c.items ≡ true
    → IsValid (record c { items = Dict.delete k c.items; order = remove_from_order k c.order })
get_expired-IsValid c k h old = record {
  linked = Linked-remove k c.items c.order h.linked old;
  bounded = omega (arith, Dict.length-delete k c.items h.linked.is_map old, h.bounded);
}

-- A read keeps the cache valid, on a hit, on a miss and where it drops an expired entry.
pub get-IsValid :
    {K V : Type 0} ⦃e : Comparable K⦄ (c : LruCache K V) (k : K) (now : ℕ)
    → IsValid c
    → IsValid (get c k now).0
unfolding get
get-IsValid c k now h = elim (Option-cases (Dict.get k c.items)) [
  | inl missing ↦ rw (missing, get) h
  | inr (entry, found) ↦
      let old = has_of_get c.items k entry found in
      rw (found, get)
        (elim (Bool-cases (leb now (entry.at + c.ttl))) [
          | inl fresh ↦ rw fresh (get_hit-IsValid c k h old)
          | inr stale ↦ rw stale (get_expired-IsValid c k h old)
        ])
]

Stored-newest :
    {K V : Type 0} ⦃e : Comparable K⦄ (c c' : LruCache K V) (k : K) (value : V) (now : ℕ)
    → 0 < c.cap
    → Stored c k value now c'
    → Dict.get k c'.items ≡ some (record { at = now; value = value })
unfolding touch
Stored-newest c c' k value now room w =
    let rest = remove_from_order k c.order in
    let n = length (rest ++ k ∷ []) - c.cap in
    let few : n ≤ length rest = omega (arith, length-append rest (k ∷ [])) in
    let kept : contains k c'.order ≡ true = rw w.last (contains-drop_last k n rest few) in
    w.values k ∙ rw (kept, beq_self k) refl

Stored-get :
    {K V : Type 0} ⦃e : Comparable K⦄ (c c' : LruCache K V) (k : K) (value : V) (now later : ℕ)
    → 0 < c.cap
    → Stored c k value now c'
    → (get c' k later).1 ≡ (if leb later (now + c.ttl) then some value else none)
unfolding get
Stored-get c c' k value now later room w =
    rw (Stored-newest c c' k value now room w, get) (ground (arith, w.same_ttl))

-- With room for at least one entry, what was stored last is read back until its time to live is
-- over, and reads as absent after that.
pub get-set :
    {K V : Type 0} ⦃e : Comparable K⦄ (c : LruCache K V) (k : K) (value : V) (now later : ℕ)
    {c' : LruCache K V}
    → IsValid c
    → 0 < c.cap
    → set c k value now ≡ some c'
    → (get c' k later).1 ≡ (if leb later (now + c.ttl) then some value else none)
get-set c k value now later {c' = c'} h room stored =
    let (c'', done, w) = set-Stored c k value now h in
    let same = some-injective c'' c' (sym done ∙ stored) in
    subst (λ x. (get x k later).1 ≡ (if leb later (now + c.ttl) then some value else none)) same
      (Stored-get c c'' k value now later room w)

pub new_lru-IsValid :
    {K V : Type 0} ⦃e : Comparable K⦄ (ttl cap : ℕ) → IsValid {K = K} {V = V} (new_lru ttl cap)
unfolding new_lru
new_lru-IsValid ttl cap = record { linked = Linked-nil; bounded = omega arith }
