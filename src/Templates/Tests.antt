-- ===== src/Templates/Tests.antt =====
-- Runs of the templates, and the theorems on them at concrete files.
use tracks.Common.{
  String, ◌≡◌, refl, Bool, Option, none, some, List, [], ◌∷◌, map, if◌then◌else◌, ◌==◌, string_eq,
}
use Prim.Native.String.{◌++◌ as append}
use tracks.Common.Dict.{get, put}
use tracks.Common.Split.{split_on}
use tracks.Common.Text.{has_suffix, trim_suffix}
use tracks.Common.Result.{ok, err, panicked}
use tracks.Templates.{Trees, parsed, Disk, exists, not_exist, template_name, load_layout}
use tracks.Templates.Loading.{Templates, new_templates, DynamicTemplate, load, load_page}
use tracks.Templates.Caching.{load_all, uncached, load_all-uncached}
use tracks.Templates.Domains.{resolve, shown, load-resolve}
use tracks.Templates.Functions.{
  text_value, other_value, dict, invalid_call, key_not_text, link, file_name,
}

abbrev at_path : List String → String → Bool
at_path path text = join_slash path == text
  where
    join_slash : List String → String
    join_slash [] = ""
    join_slash (p ∷ ps) = append p (append "/" (join_slash ps))

abbrev views : List String → Option String
views path =
    if at_path path "./views/layouts/application.gohtml/"
    then some "<html>"
    else if at_path path "./views/home/index.gohtml/"
    then some "<p>home"
    else if at_path path "./views/domains/shop.test/home/index.gohtml/"
    then some "<p>shop"
    else none

abbrev disk : Disk
disk = record {
  read = λ path. elim (views path) [ none ↦ none | some tree ↦ some (parsed tree []) ];
  stat = λ path. elim (views path) [ none ↦ not_exist | some tree ↦ exists ];
  glob = λ _. [];
  walk = λ _. [];
  global_layouts = λ d. d;
}

nested_partial : template_name "./views" "users/cards" "_row.gohtml" ≡ "users/cards#row"
unfolding template_name has_suffix trim_suffix
nested_partial = refl

layout_loaded :
    load_layout disk "./views" "application"
    ≡ ok (("application.gohtml", "<html>") ∷ ("page", "<html>") ∷ [])
unfolding load_layout put has_suffix
layout_loaded = refl

abbrev calls : List (String × String × String)
calls =
    ("application", "home", "index")
    ∷ ("application", "home", "show")
    ∷ ("missing", "home", "index")
    ∷ []

load_all-uncached_example :
    load_all disk (record { basedir = "./views"; layouts = some [] }) calls
    ≡ map (uncached disk "./views") calls
load_all-uncached_example = load_all-uncached disk "./views" calls

abbrev home : Trees
home =
    ("application.gohtml", "<html>")
    ∷ ("page", "<html>")
    ∷ ("index.gohtml", "<p>home")
    ∷ ("yield", "<p>home")
    ∷ []

abbrev home_page : DynamicTemplate
home_page = record {
  layout_name = "application";
  controller = "home";
  action = "index";
  default_tpl = home;
}

abbrev after_home : Templates
after_home = record {
  basedir = "./views";
  layouts = some (("application", ("application.gohtml", "<html>") ∷ ("page", "<html>") ∷ []) ∷ []);
}

load-resolve_example :
    get "yield" (resolve disk after_home home_page "shop.test")
    ≡ shown disk "./views" "shop.test" "home" "index"
unfolding load load_page load_layout put get has_suffix
load-resolve_example =
    load-resolve disk new_templates after_home "application" "home" "index" "shop.test" home_page
      refl

shown_shop : shown disk "./views" "shop.test" "home" "index" ≡ some "<p>shop"
shown_shop = refl

dict_odd : dict (text_value "a" ∷ []) ≡ err invalid_call
unfolding dict
dict_odd = refl

dict_key : dict (other_value "1" ∷ other_value "2" ∷ []) ≡ err key_not_text
unfolding dict
dict_key = refl

dict_last :
    dict (text_value "a" ∷ other_value "1" ∷ text_value "a" ∷ other_value "2" ∷ [])
    ≡ ok (("a", other_value "2") ∷ [])
unfolding dict put
dict_last = refl

link_empty : link "example.com" "" ≡ panicked
unfolding link
link_empty = refl

icon_names :
    file_name "user" ∷ file_name "user-bold" ∷ file_name "arrow-left" ∷ []
    ≡ "user-thin" ∷ "user-bold" ∷ "arrow-left-thin" ∷ []
unfolding file_name split_on has_suffix
icon_names = refl
