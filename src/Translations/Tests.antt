-- ===== src/Translations/Tests.antt =====
-- Runs of the translator, and the theorems on it at concrete inputs.
use tracks.Common.{
  String, ◌≡◌, refl, none, some, List, [], ◌∷◌, arith, if◌then◌else◌, ◌==◌, string_eq, All,
}
use tracks.Common.Dict.{get, put}
use tracks.Common.Split.{split_on}
use tracks.Common.Text.{trim_suffix}
use tracks.Http.{Request, blank}
use tracks.Translations.{
  Fields, null, text, other, object, end, field, new_key, flatten_translations, get_nested_value,
  member,
}
use tracks.Translations.Flat.{leaf, IsPlain}
use tracks.Translations.Lookup.{
  Translator, new_translator, translate, translate_nested, translate_with_params,
}
use tracks.Translations.Loading.{
  Content, malformed, parsed, load_translations, translate-load_translations, lang_of,
  IsPlainContent,
}
use tracks.Translations.Stored.{Found, load_translations-Found, translate-reload}
use tracks.Translations.Language.{detect_language}

abbrev english : Fields
english =
    field "title" (text "Home")
      (field "pricing" (object (field "plan" (text "Plan") (field "seats" (other "3") end))) end)

abbrev french : Fields
french = field "title" (text "Accueil") (field "pricing" (object (field "note" null end)) end)

abbrev files : List (String × Content)
files = ("en.json", parsed english) ∷ ("fr.json", parsed french) ∷ []

abbrev loaded : Translator
loaded = (load_translations (new_translator "en") files).0

abbrev go_map : Fields → String
go_map _ = "map[]"

abbrev first_word : String → List String → String
first_word s _ = s

flat_english :
    flatten_translations english "" []
    ≡ ("title", "Home") ∷ ("pricing.plan", "Plan") ∷ ("pricing.seats", "3") ∷ []
unfolding flatten_translations new_key put
flat_english = refl

translate_found : translate go_map loaded "fr" "title" ≡ "Accueil"
unfolding translate load_translations flatten_translations new_key put get trim_suffix
translate_found = refl

translate_default : translate go_map loaded "fr" "pricing.seats" ≡ "3"
unfolding translate load_translations flatten_translations new_key put get trim_suffix
    get_nested_value split_on member
translate_default = refl

-- A key that names a group is printed as Go prints the map.
translate_group : translate go_map loaded "fr" "pricing" ≡ "map[]"
unfolding translate load_translations flatten_translations new_key put get trim_suffix
    get_nested_value split_on member
translate_group = refl

translate_missing :
    translate_with_params go_map first_word loaded "fr" "pricing.x" ("1" ∷ []) ≡ "pricing.x"
unfolding translate_with_params translate load_translations flatten_translations new_key put get
    trim_suffix get_nested_value split_on member tracks.Authentication.Roles.has_infix
translate_missing = refl

-- A file that cannot be decoded ends the load: the files behind it are not read.
load_stops :
    (load_translations
      (new_translator "en")
      (("a.json", parsed english) ∷ ("b.json", malformed) ∷ ("c.json", parsed french) ∷ [])).0
    ≡ (load_translations (new_translator "en") (("a.json", parsed english) ∷ [])).0
unfolding load_translations
load_stops = refl

files_IsPlain : All (λ f. IsPlainContent f.1) files
unfolding IsPlain member
files_IsPlain = ground arith

translate-load_translations_example :
    translate go_map loaded "fr" "pricing.plan" ≡ translate_nested go_map loaded "fr" "pricing.plan"
unfolding get trim_suffix
translate-load_translations_example =
    translate-load_translations go_map "en" files files_IsPlain (ground arith) "fr" "pricing.plan"

load_translations-Found_example : All (Found go_map loaded) files
unfolding trim_suffix load_translations
load_translations-Found_example =
    load_translations-Found go_map "en" files files_IsPlain (ground arith) refl

reload_keeps :
    translate go_map
      (load_translations loaded (("en.json", parsed french) ∷ [])).0
      (lang_of "en.json")
      "pricing.plan"
    ≡ "Plan"
unfolding load_translations flatten_translations new_key put get trim_suffix leaf split_on member
    IsPlain
reload_keeps =
    translate-reload go_map loaded "en.json" "pricing.plan" "Plan" french
      (("title", "Home") ∷ ("pricing.plan", "Plan") ∷ ("pricing.seats", "3") ∷ []) (ground arith)
      refl refl refl

abbrev with_cookie : Request
with_cookie = record blank { cookie = λ name. if name == "locale" then some "fr" else none }

abbrev with_header : Request
with_header = record blank {
  header = λ name. if name == "Accept-Language" then "fr-CA,fr;q=0.9" else "";
}

detect_language_default : detect_language blank none "en" ≡ "en"
unfolding detect_language
detect_language_default = refl
