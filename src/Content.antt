-- ===== src/Content.antt =====
-- Pages from files (content.go): the front matter of a file, the index of a directory, and the page
-- of a slug.
pub mod FrontMatter
pub mod Slugs
mod Tests
use tracks.Common.{
  String, Bool, not, ◌&&◌, ◌||◌, Option, none, some, List, [], ◌∷◌, nat_beq, if◌then◌else◌, ◌==◌,
  string_eq,
}
use Prim.Native.Char.{Char, code}
use Prim.Native.String as Text
use tracks.Common.Result.{Result, ok, err, panicked, ◌>>=◌}
use tracks.Common.Text.{has_suffix, trim_suffix}

-- A text without a prefix, if it has it.
unfoldable pub strip_prefix : String → String → Option String
strip_prefix Text.[] s = some s
strip_prefix (Text.◌∷◌ p prefix) Text.[] = none
strip_prefix (Text.◌∷◌ p prefix) (Text.◌∷◌ c s) =
    if nat_beq (code p) (code c) then strip_prefix prefix s else none

abbrev pub in_front : Char → Option (String × String) → Option (String × String)
in_front c none = none
in_front c (some (before, after)) = some (Text.◌∷◌ c before, after)

-- What stands before and behind the first occurrence of a separator that is not empty.
unfoldable pub cut : String → String → Option (String × String)
unfolding strip_prefix
cut sep Text.[] = none
cut sep (Text.◌∷◌ c s) =
    let rest = in_front c (cut sep s) in
    elim (strip_prefix sep (Text.◌∷◌ c s)) [ some after ↦ some ("", after) | none ↦ rest ]

abbrev pub separator : String
separator = "---\n"

-- `bytes.SplitN(data, "---\n", 3)`, where it gives three parts: the second and the third.
abbrev pub second_cut : Option (String × String) → Option (String × String)
second_cut none = none
second_cut (some (_, rest)) = cut separator rest

unfoldable pub split_parts : String → Option (String × String)
unfolding cut
split_parts bytes = second_cut (cut separator bytes)

-- `filepath.Ext` of a name: from the last dot.
unfoldable pub file_ext : String → String
file_ext Text.[] = ""
file_ext (Text.◌∷◌ c s) =
    let rest = file_ext s in
    if rest == "" then if nat_beq (code c) b'.' then Text.◌∷◌ c s else "" else rest

-- What T is: a struct with the fields `Slug` and `Body`, or a type that has no fields, like a map, of which
-- `FieldByName` panics.
pub data ItemKind : Type 0 where
  structure no_structure : ItemKind

-- An item of the type T: the fields `Slug` and `Body`, and the others.
pub record Item (M : Type 0) : Type 0 where
  pub slug : String
  pub body : String
  pub metadata : M

pub data ContentError : Type 0 where
  walk_failed read_failed bad_front_matter missing_slug not_found : ContentError

-- An entry that `filepath.WalkDir` visits.
pub data Visit : Type 0 where
  failed : Visit
  visit : (name : String) (is_dir : Bool) (bytes : Option String) → Visit

abbrev pub slug_or : (name slug : String) → String
slug_or name slug = if slug == "" then trim_suffix name (file_ext name) else slug

-- `yaml.Unmarshal` into an item that is zero: the slug and the other fields.
module _ {M : Type 0} (kind : ItemKind) (zero_item : String × M)
    (unmarshal : String → Option (String × M)) where
  -- The front matter and the body, where the file has three parts.
  abbrev pub front_matter :
      String → Option (String × String) → Result ContentError ((String × M) × String)
  front_matter bytes none = ok (zero_item, bytes)
  front_matter bytes (some (front, body)) = elim (unmarshal front) [
    | none ↦ err bad_front_matter
    | some fields ↦ ok (fields, body)
  ]

  -- The slug, where it is empty, and the body.
  abbrev pub set_fields : ItemKind → String → (String × M) × String → Result ContentError (Item M)
  set_fields structure name parsed =
      ok (record { slug = slug_or name parsed.0.0; body = parsed.1; metadata = parsed.0.1 })
  set_fields no_structure name parsed = panicked

  -- `loadFile`
  unfoldable pub load_file : (name : String) → Option String → Result ContentError (Item M)
  unfolding split_parts file_ext
  load_file name none = err read_failed
  load_file name (some bytes) =
      front_matter bytes (split_parts bytes) >>= λ parsed. set_fields kind name parsed

  abbrev pub is_content : String → Bool → Bool
  is_content name is_dir =
      not (is_dir || not (has_suffix name ".md") && not (has_suffix name ".html"))

  -- `loadAll`
  unfoldable pub load_all : List Visit → Result ContentError (List (Item M))
  unfolding load_file
  load_all [] = ok []
  load_all (failed ∷ visits) = err walk_failed
  load_all (visit name is_dir bytes ∷ visits) =
      let items = load_all visits in
      if is_content name is_dir
      then (load_file name bytes >>= λ item. items >>= λ items. ok (item ∷ items))
      else items

  -- The loop of `loadBySlug`.
  unfoldable pub find_slug : String → List (Item M) → Result ContentError (Item M)
  find_slug slug [] = err not_found
  find_slug slug (item ∷ items) =
      let rest = find_slug slug items in if item.slug == slug then ok item else rest

  unfoldable pub load_by_slug : List Visit → String → Result ContentError (Item M)
  unfolding load_all find_slug
  load_by_slug visits slug = load_all visits >>= λ items. find_slug slug items

  -- `Index` and `Show`, as the values of their answers, which have the status 200.
  unfoldable pub index : List Visit → Result ContentError (List (Item M))
  unfolding load_all
  index visits = load_all visits

  unfoldable pub show : List Visit → (slug : String) → Result ContentError (Item M)
  unfolding load_by_slug
  show visits slug = if slug == "" then err missing_slug else load_by_slug visits slug
