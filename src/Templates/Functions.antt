-- ===== src/Templates/Functions.antt =====
-- The functions of the template language (templates.go): dict, link and icon.
use tracks.Common.{
  ◌%◌, String, ◌≡◌, refl, ◌≢◌, inl, inr, not, ◌&&◌, Option, none, some, List, [], ◌∷◌, ◌++◌, arith,
  if◌then◌else◌, Bool-cases, ◌==◌, nat_eq, string_eq, length, contains,
}
use Prim.Native.String.{◌++◌ as append}
use Prim.Native.String as Text
use text.Mathlib.Text.{starts_with}
use tracks.Common.Dict.{Dict, get, put, get-put_self}
use tracks.Common.Split.{split_on}
use tracks.Common.Text.{has_suffix}
use tracks.Common.Result.{Result, ok, err, panicked}

-- A value of type `any`, of which only texts can be keys.
pub data Any : Type 0 where
  text_value : String → Any
  other_value : String → Any

pub data DictError : Type 0 where
  invalid_call key_not_text : DictError

-- The loop over the pairs; an index out of range would panic.
unfoldable pub dict_pairs : List Any → Dict String Any → Result DictError (Dict String Any)
dict_pairs [] dict = ok dict
dict_pairs (key ∷ []) dict = panicked
dict_pairs (text_value key ∷ value ∷ values) dict = dict_pairs values (put key value dict)
dict_pairs (other_value _ ∷ value ∷ values) dict = err key_not_text

-- "dict"
unfoldable pub dict : List Any → Result DictError (Dict String Any)
unfolding dict_pairs
dict values = if not (length values % 2 == 0) then err invalid_call else dict_pairs values []

-- "link": the first byte of an empty text cannot be read.
unfoldable pub link : (base_domain path : String) → Result String String
link base_domain Text.[] = panicked
link base_domain (Text.◌∷◌ c s) =
    let path = if starts_with (Text.◌∷◌ c s) "/" then Text.◌∷◌ c s else append "/" (Text.◌∷◌ c s) in
    ok (append "//" (append base_domain path))

abbrev weights : List String
weights = "thin" ∷ "light" ∷ "regular" ∷ "bold" ∷ "fill" ∷ "duotone" ∷ []

abbrev last_of : String → List String → String
last_of d [] = d
last_of d (p ∷ ps) = last_of p ps

-- The weight that the last part of the name gives, if there is more than one part.
abbrev weight_of : List String → String
weight_of (p ∷ q ∷ parts) =
    let last_part = last_of q parts in if contains last_part weights then last_part else "thin"
weight_of _ = "thin"

unfoldable pub weight : String → String
weight name = weight_of (split_on b'-' name)

unfoldable pub file_name : String → String
unfolding weight
file_name name =
    if not (has_suffix name (append "-" (weight name))) && not (weight name == "regular")
    then append name (append "-" (weight name))
    else name

-- The two directories with the name with and without its weight, in the order of the fallbacks.
unfoldable pub icon_paths : String → List (List String)
unfolding weight file_name
icon_paths name =
    let folder = "assets" ∷ "icons" ∷ "phosphor" ∷ weight name ∷ [] in
    let with_weight = append (file_name name) ".svg" ∷ [] in
    let without_weight = append name ".svg" ∷ [] in
    (folder ++ with_weight)
    ∷ (folder ++ without_weight)
    ∷ ("floral-crm" ∷ (folder ++ with_weight))
    ∷ ("floral-crm" ∷ (folder ++ without_weight))
    ∷ []

-- The files, `filepath.Join`, and `%d` of the length of a text in bytes.
pub record IconEnv : Type 0 where
  pub read : List String → Option String
  pub join_path : List String → String
  pub print_length : String → String

-- The first file that can be read, and the path tried last.
unfoldable pub read_first : IconEnv → List String → List (List String) → List String × Option String
read_first env last [] = (last, none)
read_first env last (path ∷ paths) = elim (env.read path) [
  | some content ↦ (path, some content)
  | none ↦ read_first env path paths
]

-- The rest of a text behind a prefix of the length of another.
skip : String → String → String
skip Text.[] s = s
skip (Text.◌∷◌ _ old) Text.[] = ""
skip (Text.◌∷◌ _ old) (Text.◌∷◌ _ s) = skip old s

-- `strings.Replace(svg, "<svg ", replacement, 1)`
unfoldable pub replace_first : (old new : String) → String → String
unfolding skip
replace_first old new Text.[] = if old == "" then new else ""
replace_first old new (Text.◌∷◌ c s) =
    let rest = Text.◌∷◌ c (replace_first old new s) in
    if starts_with (Text.◌∷◌ c s) old then append new (skip old (Text.◌∷◌ c s)) else rest

abbrev classed : (class svg : String) → String
classed class svg =
    if class == ""
    then svg
    else replace_first "<svg " (append "<svg class=\"" (append class "\" ")) svg

-- The cache of icons, which all templates share, by weight, file name and class.
abbrev pub IconCache : Type 0
IconCache = Dict String String

unfoldable pub cache_key : (name class : String) → String
unfolding weight file_name
cache_key name class = append (weight name) (append (file_name name) class)

-- What is shown of an icon that is not in the cache, and the cache afterwards.
unfoldable pub render_icon :
    IconEnv → IconCache → (name class : String) → List String × Option String → String × IconCache
unfolding replace_first cache_key
render_icon env cache name class (path, none) =
    (append "<span>MISSING: " (append (env.join_path path) "</span>"), cache)
render_icon env cache name class (path, some content) =
    let head = append "<!-- icon: " (
      append name (
        append ", path: " (
          append (env.join_path path)
            (append ", len: " (append (env.print_length content) " -->\n"))))) in
    let res = append head (classed class content) in (res, put (cache_key name class) res cache)

-- "icon"
unfoldable pub icon : IconEnv → IconCache → (name class : String) → String × IconCache
unfolding render_icon read_first icon_paths cache_key
icon env cache name class = elim (get (cache_key name class) cache) [
  | some cached ↦ (cached, cache)
  | none ↦ render_icon env cache name class (read_first env [] (icon_paths name))
]

-- "dict" does not read beyond its values.
pub dict-ne-panicked : (values : List Any) → dict values ≢ panicked
unfolding dict
dict-ne-panicked values e = elim (Bool-cases (not (length values % 2 == 0))) [
  | inl odd ↦ cc (e, odd)
  | inr even ↦ pairs values [] (ground arith) (ground (arith, e, even))
]
  where
    pairs :
        (values : List Any) (m : Dict String Any)
        → length values % 2 ≡ 0
        → dict_pairs values m ≢ panicked
    pairs [] m h e = cc e
    pairs (key ∷ []) m h e = absurd (omega arith)
    pairs (text_value key ∷ value ∷ values) m h e = pairs values (put key value m) (omega arith) e
    pairs (other_value _ ∷ value ∷ values) m h e = cc e

icon_hit :
    (env : IconEnv) (cache : IconCache) (name class s : String)
    → get (cache_key name class) cache ≡ some s
    → icon env cache name class ≡ (s, cache)
unfolding icon
icon_hit env cache name class s e = go (get (cache_key name class) cache) e
  where
    go :
        (o : Option String)
        → o ≡ some s
        → elim o as (λ z. String × IconCache) [
          | some cached ↦ (cached, cache)
          | none ↦ render_icon env cache name class (read_first env [] (icon_paths name))
        ]
          ≡ (s, cache)
    go o e = rw e

icon_stored :
    (env : IconEnv) (cache : IconCache) (name class content : String) (path : List String)
    → read_first env [] (icon_paths name) ≡ (path, some content)
    → get (cache_key name class) (icon env cache name class).1 ≡ some (icon env cache name class).0
unfolding icon render_icon
icon_stored env cache name class content path e =
    go (get (cache_key name class) cache) refl (read_first env [] (icon_paths name)) e
  where
    go :
        (o : Option String)
        → get (cache_key name class) cache ≡ o
        → (r : List String × Option String) → r ≡ (path, some content)
        → let shown = elim o as (λ z. String × IconCache) [
          | some cached ↦ (cached, cache)
          | none ↦ render_icon env cache name class r
        ] in
          get (cache_key name class) shown.1 ≡ some shown.0
    go (some cached) h r q = h
    go none h r q = rw (q, get-put_self)

-- An icon whose file can be read is shown again as it was the first time: the second call
-- changes nothing and does not depend on the files.
pub icon-icon :
    (env later : IconEnv) (cache : IconCache) (name class content : String) (path : List String)
    → read_first env [] (icon_paths name) ≡ (path, some content)
    → icon later (icon env cache name class).1 name class ≡ icon env cache name class
icon-icon env later cache name class content path e =
    icon_hit later (icon env cache name class).1 name class (icon env cache name class).0
      (icon_stored env cache name class content path e)
