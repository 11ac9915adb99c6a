-- ===== src/Cache/Tags.antt =====
-- The tag index of cache.go, and invalidation by tag.
use tracks.Common.{
  ℕ, String, ◌≡◌, refl, sym, ◌∙◌, inl, inr, true, false, ◌&&◌, ◌||◌, none, some, List, [], ◌∷◌,
  ◌++◌, arith, eq_iff, if◌then◌else◌, Bool-cases, Option-cases, ◌==◌, string_eq, beq_self, contains,
  contains-append,
}
use tracks.Common.Dict
use tracks.Common.Dict.{Dict}
use tracks.Cache.{
  CacheEntry, MemoryCache, new_entry, keys_or_nil, link, delete_all, new_memory_cache, get,
  set_with_tags, set, delete, invalidate_tag, invalidate_all,
}

-- The keys under a tag.
abbrev pub keys_of : String → Dict String (List String) → List String
keys_of tag m = keys_or_nil (Dict.get tag m)

contains-link :
    (key k tag : String) (tags : List String) (m : Dict String (List String))
    → contains k (keys_of tag (link key tags m))
      ≡ contains k (keys_of tag m) || (contains tag tags && key == k)
unfolding link
contains-link key k tag [] m = ground arith
contains-link key k tag (t ∷ tags) m =
    contains-link key k tag tags (Dict.put t (keys_or_nil (Dict.get t m) ++ key ∷ []) m)
    ∙ ground (
      arith,
      Dict.get-put t tag (keys_or_nil (Dict.get t m) ++ key ∷ []) m,
      contains-append k (keys_or_nil (Dict.get t m)) (key ∷ []),
      eq_iff t tag,
    )

-- One call of the cache that may change it; `Set` is `SetWithTags` with no tags.
pub data Call (V : Type 0) : Type 0 where
  set_call : (key : String) (value : V) (ttl now : ℕ) → Call V
  set_with_tags_call : (key : String) (value : V) (tags : List String) (ttl now : ℕ) → Call V
  delete_call : (key : String) → Call V
  invalidate_tag_call : (tag : String) → Call V
  invalidate_all_call : Call V

module _ {V : Type 0} where
  get-delete_all :
      (k : String) (keys : List String) (m : Dict String (CacheEntry V))
      → Dict.get k (delete_all keys m) ≡ (if contains k keys then none else Dict.get k m)
  unfolding delete_all
  get-delete_all k [] m = refl
  get-delete_all k (key ∷ keys) m =
      get-delete_all k keys (Dict.delete key m) ∙ ground (arith, Dict.get-delete key k m)

  -- Every key of an entry stands under each tag of the entry.
  pub record IsIndexed (c : MemoryCache V) : Type 0 where
    pub indexed :
        (key tag : String) (item : CacheEntry V)
        → Dict.get key c.items ≡ some item
        → contains tag item.tags ≡ true
        → contains key (keys_of tag c.tags) ≡ true

  new-IsIndexed : IsIndexed new_memory_cache
  unfolding new_memory_cache Dict.get
  new-IsIndexed = record { indexed = λ k tag item stored tagged. cc }

  set_with_tags-IsIndexed :
      (c : MemoryCache V) (key : String) (value : V) (tags : List String) (ttl now : ℕ)
      → IsIndexed c
      → IsIndexed (set_with_tags c key value tags ttl now)
  unfolding set_with_tags
  set_with_tags-IsIndexed c key value tags ttl now h = record {
    indexed = λ k tag item stored tagged. rw contains-link (
        let found = sym (Dict.get-put key k (new_entry value tags ttl now) c.items) ∙ stored in
        elim (Bool-cases (key == k)) [
          | inl same ↦ ground arith
          | inr other ↦ ground (arith, h.indexed k tag item)
        ]);
  }

  delete-IsIndexed : (c : MemoryCache V) (key : String) → IsIndexed c → IsIndexed (delete c key)
  unfolding delete
  delete-IsIndexed c key h = record {
    indexed = λ k tag item stored tagged.
        ground (arith, Dict.get-delete key k c.items, h.indexed k tag item);
  }

  invalidate_tag-IsIndexed :
      (c : MemoryCache V) (gone : String) → IsIndexed c → IsIndexed (invalidate_tag c gone)
  unfolding invalidate_tag
  invalidate_tag-IsIndexed c gone h = elim (Option-cases (Dict.get gone c.tags)) [
    | inl untagged ↦ rw (untagged, invalidate_tag) h
    | inr (keys, linked) ↦
        rw (linked, invalidate_tag)
          (record {
            indexed = λ k tag item stored tagged. ground (
              arith,
              get-delete_all k keys c.items,
              Dict.get-delete gone tag c.tags,
              eq_iff gone tag,
              h.indexed k tag item,
            );
          })
  ]

  invalidate_all-IsIndexed : (c : MemoryCache V) → IsIndexed (invalidate_all c)
  unfolding invalidate_all Dict.get
  invalidate_all-IsIndexed c = record { indexed = λ k tag item stored tagged. cc }

  abbrev pub apply : MemoryCache V → Call V → MemoryCache V
  apply c (set_call key value ttl now) = set c key value ttl now
  apply c (set_with_tags_call key value tags ttl now) = set_with_tags c key value tags ttl now
  apply c (delete_call key) = delete c key
  apply c (invalidate_tag_call tag) = invalidate_tag c tag
  apply c invalidate_all_call = invalidate_all c

  abbrev pub run : MemoryCache V → List (Call V) → MemoryCache V
  run c [] = c
  run c (call ∷ calls) = run (apply c call) calls

  apply-IsIndexed : (c : MemoryCache V) (call : Call V) → IsIndexed c → IsIndexed (apply c call)
  unfolding set
  apply-IsIndexed c (set_call key value ttl now) h =
      set_with_tags-IsIndexed c key value [] ttl now h
  apply-IsIndexed c (set_with_tags_call key value tags ttl now) h =
      set_with_tags-IsIndexed c key value tags ttl now h
  apply-IsIndexed c (delete_call key) h = delete-IsIndexed c key h
  apply-IsIndexed c (invalidate_tag_call tag) h = invalidate_tag-IsIndexed c tag h
  apply-IsIndexed c invalidate_all_call h = invalidate_all-IsIndexed c

  pub run-IsIndexed :
      (c : MemoryCache V) (calls : List (Call V)) → IsIndexed c → IsIndexed (run c calls)
  run-IsIndexed c [] h = h
  run-IsIndexed c (call ∷ calls) h = run-IsIndexed (apply c call) calls (apply-IsIndexed c call h)

  invalidated_untagged :
      (c : MemoryCache V) (tag key : String) (item : CacheEntry V)
      → IsIndexed c
      → Dict.get key (invalidate_tag c tag).items ≡ some item
      → contains tag item.tags ≡ false
  unfolding invalidate_tag
  invalidated_untagged c tag key item h stored = elim (Option-cases (Dict.get tag c.tags)) [
    | inl untagged ↦ ground (arith, h.indexed key tag item)
    | inr (keys, linked) ↦ ground (arith, get-delete_all key keys c.items, h.indexed key tag item)
  ]

-- After any calls on a new cache, invalidating a tag leaves no entry that carries the tag.
pub invalidate_tag_complete :
    {V : Type 0} (calls : List (Call V)) (tag key : String) (item : CacheEntry V)
    → Dict.get key (invalidate_tag (run new_memory_cache calls) tag).items ≡ some item
    → contains tag item.tags ≡ false
invalidate_tag_complete calls tag key item =
    invalidated_untagged (run new_memory_cache calls) tag key item
      (run-IsIndexed new_memory_cache calls new-IsIndexed)

-- Invalidating a tag takes away exactly the keys that stand under it, and leaves every other entry.
pub get-invalidate_tag :
    {V : Type 0} (c : MemoryCache V) (tag key : String)
    → Dict.get key (invalidate_tag c tag).items
      ≡ (if contains key (keys_of tag c.tags) then none else Dict.get key c.items)
unfolding invalidate_tag
get-invalidate_tag c tag key = elim (Option-cases (Dict.get tag c.tags)) [
  | inl untagged ↦ rw (untagged, invalidate_tag)
  | inr (keys, linked) ↦ rw (linked, invalidate_tag) (get-delete_all key keys c.items)
]

-- A key keeps its links to the tags of an earlier value: once stored under a tag, deleted, and
-- stored again with no tag, it is still dropped when that tag is invalidated.
pub stale_link :
    {V : Type 0} (c : MemoryCache V) (key tag : String) (old new : V) (ttl now later : ℕ)
    → get
        (invalidate_tag
          (set (delete (set_with_tags c key old (tag ∷ []) ttl now) key) key new ttl later)
          tag)
        key
        later
      ≡ none
unfolding get set set_with_tags delete link
stale_link c key tag old new ttl now later =
    rw (get-invalidate_tag, Dict.get-put_self, contains-append)
      (ground (arith, beq_self key, contains-append key (keys_of tag c.tags) (key ∷ [])))
