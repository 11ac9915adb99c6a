-- ===== src/Content/Slugs.antt =====
-- The index of a directory and the pages of its slugs.
use tracks.Common.{
  String, ◌≡◌, refl, ◌∙◌, ◌≢◌, inl, inr, true, false, Option, List, [], ◌∷◌, map, arith, eq_iff,
  Bool-cases, ◌==◌, string_eq, beq_self, All, contains, Distinct,
}
use tracks.Common.Result.{ok, err}
use tracks.Content.{ItemKind, Item, not_found, Visit, find_slug, load_by_slug, index, show}

module _ {M : Type 0} (kind : ItemKind) (zero_item : String × M)
    (unmarshal : String → Option (String × M)) where
  abbrev pub slugs : List (Item M) → List String
  slugs = map (λ item. item.slug)

  -- Each item is the answer to its slug.
  abbrev pub Shown : List Visit → Item M → Type 0
  Shown visits item = item.slug ≢ "" → show kind zero_item unmarshal visits item.slug ≡ ok item

  find_absent :
      (slug : String) (items : List (Item M))
      → contains slug (slugs items) ≡ false
      → find_slug kind zero_item unmarshal slug items ≡ err not_found
  unfolding find_slug
  find_absent slug [] h = refl
  find_absent slug (item ∷ items) h = ground (arith, find_absent slug items)

  find_first :
      (item : Item M) (items : List (Item M))
      → find_slug kind zero_item unmarshal item.slug (item ∷ items) ≡ ok item
  unfolding find_slug
  find_first item items = rw (beq_self item.slug)

  find_later :
      (item : Item M) (items : List (Item M)) (slug : String)
      → contains item.slug (slugs items) ≡ false
      → contains slug (slugs items) ≡ true
      → find_slug kind zero_item unmarshal slug (item ∷ items)
        ≡ find_slug kind zero_item unmarshal slug items
  unfolding find_slug
  find_later item items slug h k = ground (arith, eq_iff item.slug slug, h, k)

  find_each :
      (items all : List (Item M))
      → ((slug : String)
          → contains slug (slugs items) ≡ true
          → find_slug kind zero_item unmarshal slug all
            ≡ find_slug kind zero_item unmarshal slug items)
      → Distinct (slugs items)
      → All (λ item. find_slug kind zero_item unmarshal item.slug all ≡ ok item) items
  find_each [] all h d = tt
  find_each (item ∷ items) all h d = (
    h item.slug (rw (beq_self item.slug)) ∙ find_first item items,
    find_each items all (λ slug k. h slug (ground arith) ∙ find_later item items slug d.0 k) d.1,
  )

  show_lem :
      (visits : List Visit) (items : List (Item M)) (slug : String)
      → index kind zero_item unmarshal visits ≡ ok items
      → slug ≢ ""
      → show kind zero_item unmarshal visits slug ≡ find_slug kind zero_item unmarshal slug items
  unfolding show index load_by_slug
  show_lem visits items slug e ne = elim (Bool-cases (slug == "")) [
    | inl empty ↦ absurd (ne ((eq_iff slug "").0 empty))
    | inr named ↦ rw (named, e)
  ]

  show_each :
      (visits : List Visit) (items found : List (Item M))
      → index kind zero_item unmarshal visits ≡ ok items
      → All (λ item. find_slug kind zero_item unmarshal item.slug items ≡ ok item) found
      → All (Shown visits) found
  show_each visits items [] e h = tt
  show_each visits items (item ∷ found) e h =
      (λ ne. show_lem visits items item.slug e ne ∙ h.0, show_each visits items found e h.1)

  -- Where the index of a directory succeeds and its slugs differ, each item of it that has a slug is
  -- what the page of its slug shows.
  pub index-Shown :
      (visits : List Visit) (items : List (Item M))
      → index kind zero_item unmarshal visits ≡ ok items
      → Distinct (slugs items)
      → All (Shown visits) items
  index-Shown visits items e d =
      show_each visits items items e (find_each items items (λ slug k. refl) d)

  -- A slug that no item of the index has is not found.
  pub show_absent :
      (visits : List Visit) (items : List (Item M)) (slug : String)
      → index kind zero_item unmarshal visits ≡ ok items
      → slug ≢ ""
      → contains slug (slugs items) ≡ false
      → show kind zero_item unmarshal visits slug ≡ err not_found
  show_absent visits items slug e ne h = show_lem visits items slug e ne ∙ find_absent slug items h
