-- ===== src/Templates.antt =====
-- Page templates (templates.go): a template of html/template as its trees by name, the files of the
-- views, and `loadLayout`.
pub mod Loading
pub mod Caching
pub mod Domains
pub mod Functions
mod Tests
use tracks.Common.{
  String, Bool, not, ◌||◌, Option, none, some, List, [], ◌∷◌, if◌then◌else◌, ◌==◌, string_eq,
}
use Prim.Native.String.{◌++◌ as append}
use Prim.Native.String as Text
use text.Mathlib.Text.{starts_with}
use tracks.Common.Dict
use tracks.Common.Dict.{Dict}
use tracks.Common.Result.{Result, ok, err, panicked, ◌>>=◌}
use tracks.Common.Text.{has_suffix, trim_suffix}

-- The trees that are associated in one set of templates, by name.
abbrev pub Trees : Type 0
Trees = Dict String String

-- A file as `ParseFiles` sees it: its own tree and those of its {{define}} blocks.
pub data Source : Type 0 where
  malformed : Source
  parsed : (tree : String) (defines : Dict String String) → Source

-- An entry that `filepath.Walk` visits: its directory relative to the one walked, and its name.
pub data Entry : Type 0 where
  unreadable : Entry
  entry : (dir name : String) (is_dir : Bool) → Entry

-- `os.Stat`
pub data Stat : Type 0 where
  exists not_exist denied : Stat

-- The file system: paths are the arguments of `filepath.Join`.
pub record Disk : Type 0 where
  pub read : List String → Option Source
  pub stat : List String → Stat
  -- The names that `filepath.Glob` finds for "*.gohtml".
  pub glob : List String → List String
  pub walk : String → List Entry
  -- `filepath.Dir`, with "/layouts" joined to it.
  pub global_layouts : String → String

pub data TemplateError : Type 0 where
  parse_failed walk_failed no_layout : TemplateError

-- The trees of the blocks, written over those of the same names.
unfoldable pub define_all : Dict String String → Trees → Trees
define_all [] trees = trees
define_all ((name, tree) ∷ defines) trees = define_all defines (Dict.put name tree trees)

abbrev pub parsed_into : Trees → String → Option Source → Result TemplateError (Trees × String)
parsed_into trees filename none = err parse_failed
parsed_into trees filename (some malformed) = err parse_failed
parsed_into trees filename (some (parsed tree defines)) =
    ok (Dict.put filename tree (define_all defines trees), tree)

-- `t.New(filename).Funcs(…).ParseFiles(path)`, and the tree of the file.
unfoldable pub parse_file :
    Disk → Trees → (path : List String) (filename : String) → Result TemplateError (Trees × String)
unfolding define_all
parse_file disk trees path filename = parsed_into trees filename (disk.read path)

-- A file that is parsed and then added under a name of its own, by `AddParseTree`.
unfoldable pub add_file :
    Disk
    → Trees
    → (path : List String) (filename template_name : String) → Result TemplateError Trees
unfolding parse_file
add_file disk trees path filename template_name =
    parse_file disk trees path filename >>= λ p. ok (Dict.put template_name p.1 p.0)

-- The loop over the error pages.
unfoldable pub add_error_pages :
    Disk → (basedir : String) → List String → Trees → Result TemplateError Trees
unfolding add_file
add_error_pages disk basedir [] trees = ok trees
add_error_pages disk basedir (filename ∷ names) trees =
    add_file disk trees (basedir ∷ "errorpages" ∷ filename ∷ []) filename
      (trim_suffix filename ".gohtml")
    >>= λ trees. add_error_pages disk basedir names trees

-- `searchDirs`
unfoldable pub search_dirs : Disk → String → List String
search_dirs disk basedir =
    basedir ∷ (if has_suffix basedir "views/tenants" then disk.global_layouts basedir ∷ [] else [])

abbrev pub is_partial : String → Bool → Bool
is_partial name is_dir =
    not (is_dir || not (starts_with name "_") || not (has_suffix name ".gohtml"))

-- `strings.TrimPrefix(s, "_")`
abbrev pub trim_underscore : String → String
trim_underscore Text.[] = ""
trim_underscore (Text.◌∷◌ c s) = if starts_with (Text.◌∷◌ c s) "_" then s else Text.◌∷◌ c s

unfoldable pub template_name : (search_dir dir name : String) → String
template_name search_dir dir name =
    let partial = trim_suffix (trim_underscore name) ".gohtml" in
    if dir == "layouts" || dir == "." || has_suffix search_dir "views/layouts"
    then partial
    else append dir (append "#" partial)

-- The walk through one directory.
unfoldable pub add_partials :
    Disk → (search_dir : String) → List Entry → Trees → Result TemplateError Trees
unfolding add_file template_name
add_partials disk search_dir [] trees = ok trees
add_partials disk search_dir (unreadable ∷ entries) trees = err walk_failed
add_partials disk search_dir (entry dir name is_dir ∷ entries) trees =
    (if is_partial name is_dir
      then add_file disk trees (search_dir ∷ dir ∷ name ∷ []) name
          (template_name search_dir dir name)
      else ok trees)
    >>= λ trees. add_partials disk search_dir entries trees

unfoldable pub add_dirs : Disk → List String → Trees → Result TemplateError Trees
unfolding add_partials
add_dirs disk [] trees = ok trees
add_dirs disk (dir ∷ dirs) trees =
    add_partials disk dir (disk.walk dir) trees >>= λ trees. add_dirs disk dirs trees

-- `loadLayout`
unfoldable pub load_layout : Disk → (basedir name : String) → Result TemplateError Trees
unfolding add_file add_error_pages add_dirs search_dirs
load_layout disk basedir name =
    let filename = append name ".gohtml" in
    add_file disk [] (basedir ∷ "layouts" ∷ filename ∷ []) filename "page" >>= λ layout.
    add_error_pages disk basedir (disk.glob (basedir ∷ "errorpages" ∷ [])) layout >>= λ layout.
    add_dirs disk (search_dirs disk basedir) layout
