-- ===== src/Templates/Loading.antt =====
-- `Load` and `Func` of templates.go: the cache of layouts, and the page of an action.
use tracks.Common.{String, Option, none, some, [], ◌∷◌, string_eq}
use Prim.Native.String.{◌++◌ as append}
use tracks.Common.Dict
use tracks.Common.Dict.{Dict}
use tracks.Common.Result.{Result, ok, err, panicked, ◌>>=◌}
use tracks.Templates.{Trees, Disk, Stat, not_exist, TemplateError, add_file, load_layout}

-- `layouts` is `none` for the nil map that `Func` leaves. The functions have no part in what is loaded.
pub record Templates : Type 0 where
  pub basedir : String
  pub layouts : Option (Dict String Trees)

-- `newTemplates` and `Clone`, as far as the layouts go.
abbrev pub new_templates : Templates
new_templates = record { basedir = "./views"; layouts = some [] }

abbrev pub clone : Templates → Templates
clone t = record t { layouts = some [] }

-- `Func`
abbrev pub set_func : Templates → Templates
set_func t = record t { layouts = none }

-- `t.layouts[name]`, which a nil map has not.
abbrev pub cached_layout : Templates → String → Option Trees
cached_layout t name = elim t.layouts [ none ↦ none | some layouts ↦ Dict.get name layouts ]

pub record DynamicTemplate : Type 0 where
  pub layout_name : String
  pub controller : String
  pub action : String
  pub default_tpl : Trees

-- The page of an action in a layout: `none` where there is no file.
abbrev pub found :
    Stat
    → Result TemplateError (Option DynamicTemplate)
    → Result TemplateError (Option DynamicTemplate)
found not_exist page = ok none
found _ page = page

unfoldable pub load_page :
    Disk
    → (basedir layout_name controller action : String) → Trees
    → Result TemplateError (Option DynamicTemplate)
unfolding add_file
load_page disk basedir layout_name controller action layout =
    let filename = append action ".gohtml" in
    let path = basedir ∷ controller ∷ filename ∷ [] in
    found (disk.stat path) (
      add_file disk layout path filename "yield" >>= λ page. ok (
        some (record {
          layout_name = layout_name;
          controller = controller;
          action = action;
          default_tpl = page;
        })))

-- `t.layouts[name] = layout`, which a nil map answers with a panic.
abbrev pub put_layout :
    Templates
    → String
    → Trees
    → Result TemplateError (Option DynamicTemplate)
    → Templates × Result TemplateError (Option DynamicTemplate)
put_layout t name layout page = elim t.layouts [
  | none ↦ (t, panicked)
  | some layouts ↦ (record t { layouts = some (Dict.put name layout layouts) }, page)
]

-- What a layout that is not in the cache leads to. A layout that cannot be loaded is no error.
abbrev pub load_new :
    Templates
    → String
    → Result TemplateError Trees
    → (Trees → Result TemplateError (Option DynamicTemplate))
    → Templates × Result TemplateError (Option DynamicTemplate)
load_new t name (ok layout) page = put_layout t name layout (page layout)
load_new t name (err e) page = (t, ok none)
load_new t name panicked page = (t, panicked)

-- `Load`
unfoldable pub load :
    Disk
    → Templates
    → (layout_name controller action : String)
    → Templates × Result TemplateError (Option DynamicTemplate)
unfolding load_page load_layout
load disk t layout_name controller action =
    let page = load_page disk t.basedir layout_name controller action in
    elim (cached_layout t layout_name) [
      | some layout ↦ (t, page layout)
      | none ↦ load_new t layout_name (load_layout disk t.basedir layout_name) page
    ]
