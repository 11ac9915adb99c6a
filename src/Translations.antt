-- ===== src/Translations.antt =====
-- Translations (i18n/i18n.go): the nested texts of a language as JSON gives them, their flat copy
-- under dotted keys, and the lookup of a dotted key in the nested form.
mod Paths
pub mod Flat
pub mod Lookup
pub mod Loading
pub mod Stored
pub mod Language
pub mod AcceptLanguage
mod Tests
use tracks.Common.{String, Option, none, some, List, [], ◌∷◌, if◌then◌else◌, ◌==◌, string_eq}
use tracks.Common.Dict
use tracks.Common.Dict.{Dict}
use tracks.Common.Split.{split_on}
use Prim.Native.String.{◌++◌ as append}

-- A decoded JSON value. `other` is a number, a Boolean or an array, held as `%v` prints it.
mutual
  pub data Value : Type 0 where
    null : Value
    text : String → Value
    other : String → Value
    object : Fields → Value

  -- A Go map from keys to values, in the order in which a loop meets them.
  pub data Fields : Type 0 where
    end : Fields
    field : (key : String) → Value → Fields → Fields

-- `newKey` of `flattenTranslations`
unfoldable pub new_key : String → String → String
new_key prefix key = if prefix == "" then key else append prefix (append "." key)

-- `flattenTranslations`: the texts are written into the cache of the language.
unfoldable mutual
  pub flatten_translations : Fields → String → Dict String String → Dict String String
  flatten_translations end prefix cache = cache
  flatten_translations (field key value nested) prefix cache =
      flatten_translations nested prefix (flatten_value value (new_key prefix key) cache)

  pub flatten_value : Value → String → Dict String String → Dict String String
  flatten_value null key cache = cache
  flatten_value (text s) key cache = Dict.put key s cache
  flatten_value (other s) key cache = Dict.put key s cache
  flatten_value (object nested) key cache = flatten_translations nested key cache

-- `current[part]`
unfoldable pub member : String → Fields → Option Value
member part end = none
member part (field key value nested) = if key == part then some value else member part nested

-- The next level for the other parts.
abbrev pub next_level : Option Value → Option Fields
next_level (some (object nested)) = some nested
next_level _ = none

-- `fmt.Sprintf("%v", value)` of a whole object is a parameter.
module _ (print_object : Fields → String) where
  -- What the last part gives.
  abbrev pub printed : Option Value → Option String
  printed none = none
  printed (some null) = none
  printed (some (text s)) = some s
  printed (some (other s)) = some s
  printed (some (object nested)) = some (print_object nested)

  -- The loop of `getNestedValue` over the parts.
  unfoldable pub navigate : List String → Fields → Option String
  navigate [] current = none
  navigate (part ∷ []) current = printed (member part current)
  navigate (part ∷ p ∷ parts) current = elim (next_level (member part current)) [
    | none ↦ none
    | some deeper ↦ navigate (p ∷ parts) deeper
  ]

  -- `getNestedValue`
  unfoldable pub get_nested_value : Fields → String → Option String
  unfolding navigate
  get_nested_value nested key = navigate (split_on b'.' key) nested
