-- ===== src/Actions/Page/Tests.antt =====
-- Texts in a page.
use tracks.Common.{String, ◌≡◌, refl, List, [], ◌∷◌, string_eq}
use Prim.Native.String.{◌++◌}
use tracks.Common.Dict
use tracks.Common.Text.{has_suffix, trim_suffix}
use tracks.Authentication.Roles.{has_infix}
use tracks.Translations.{Fields}
use tracks.Translations.Lookup.{Translator, look_up, translate, translate_with_params}
use tracks.Actions.Page.{html, escaped, t_func}

abbrev print_object : Fields → String
print_object o = ""

abbrev sprintf : String → List String → String
sprintf format [] = format
sprintf format (p ∷ ps) = "Hello " ++ p

abbrev translator : Translator
translator = record {
  translations = [];
  flat_cache = ("en", ("hello", "Hello %s") ∷ []) ∷ [];
  default_lang = "en";
}

-- An argument that ends with the mark decides that the text is not escaped.
injected :
    t_func print_object sprintf translator "en" "hello" ("<b> [SafeHTML]" ∷ []) ≡ html "Hello <b>"
unfolding t_func translate_with_params translate look_up Dict.get has_infix has_suffix trim_suffix
injected = refl

not_marked : t_func print_object sprintf translator "en" "hello" ("<b>" ∷ []) ≡ escaped "Hello <b>"
unfolding t_func translate_with_params translate look_up Dict.get has_infix has_suffix trim_suffix
not_marked = refl
