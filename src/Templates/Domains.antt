-- ===== src/Templates/Domains.antt =====
-- `resolve` of templates.go: a domain's own file for an action, in the layout of the action.
use tracks.Common.{
  String, ◌≡◌, refl, ap, ◌∙◌, inl, inr, Option, none, some, List, [], ◌∷◌, if◌then◌else◌,
  Bool-cases, ◌==◌, string_eq,
}
use Prim.Native.String.{◌++◌ as append}
use mathlib.Core.Path.{subst}
use tracks.Common.Dict.{Dict, get, put, get-put_self}
use tracks.Common.Result.{Result, ok, err, panicked, ◌>>=◌}
use tracks.Templates.{
  Trees, Source, parsed, malformed, Disk, Stat, exists, not_exist, denied, TemplateError, no_layout,
  parsed_into, define_all, parse_file, add_file, load_layout,
}
use tracks.Templates.Loading.{
  Templates, cached_layout, DynamicTemplate, found, load_page, load_new, load,
}

abbrev domain_path : (basedir domain controller action : String) → List String
domain_path basedir domain controller action =
    basedir ∷ "domains" ∷ domain ∷ controller ∷ append action ".gohtml" ∷ []

-- `loadDomainTemplate`
unfoldable pub load_domain_template :
    Disk → Templates → (layout_name domain controller action : String) → Result TemplateError Trees
unfolding add_file
load_domain_template disk t layout_name domain controller action =
    elim (cached_layout t layout_name) [
      | none ↦ err no_layout
      | some layout ↦
          add_file disk layout (domain_path t.basedir domain controller action)
            (append action ".gohtml") "yield"
    ]

abbrev or_default : Result TemplateError Trees → Trees → Trees
or_default (ok tpl) _ = tpl
or_default (err _) tpl = tpl
or_default panicked tpl = tpl

-- `if _, err := os.Stat(…); err == nil { … }`
abbrev if_exists : Stat → Trees → Trees → Trees
if_exists exists a b = a
if_exists _ a b = b

-- `resolve`; the templates are those that loaded the page.
unfoldable pub resolve : Disk → Templates → DynamicTemplate → (domain : String) → Trees
unfolding load_domain_template
resolve disk t dt domain =
    if domain == ""
    then dt.default_tpl
    else if_exists (disk.stat (domain_path t.basedir domain dt.controller dt.action))
        (or_default (load_domain_template disk t dt.layout_name domain dt.controller dt.action)
          dt.default_tpl)
        dt.default_tpl

-- The tree of a file.
abbrev pub tree_of : Option Source → Option String
tree_of (some (parsed tree _)) = some tree
tree_of _ = none

add_file-tree :
    (disk : Disk) (trees : Trees) (path : List String) (filename name : String) (out : Trees)
    → add_file disk trees path filename name ≡ ok out
    → get name out ≡ tree_of (disk.read path)
unfolding add_file parse_file
add_file-tree disk trees path filename name out e = go (disk.read path) e
  where
    go :
        (s : Option Source)
        → (parsed_into trees filename s >>= (λ p. ok (put name p.1 p.0))) ≡ ok out
        → get name out ≡ tree_of s
    go none e = cc e
    go (some malformed) e = cc e
    go (some (parsed tree defines)) e =
        let made : put name tree (put filename tree (define_all defines trees)) ≡ out = cc e in
        subst (λ o. get name o ≡ some tree) made
          (get-put_self name tree (put filename tree (define_all defines trees)))

-- The tree of the file of an action.
abbrev pub action_tree : Disk → (basedir controller action : String) → Option String
action_tree disk basedir controller action =
    tree_of (disk.read (basedir ∷ controller ∷ append action ".gohtml" ∷ []))

-- What a page that `Load` gives stands for.
abbrev Page :
    Disk
    → (basedir layout_name controller action : String)
    → Templates × Result TemplateError (Option DynamicTemplate)
    → Type 0
Page disk basedir layout_name controller action (t, ok (some dt)) =
    ((layout : Trees) × (cached_layout t layout_name ≡ some layout))
    × (dt.layout_name ≡ layout_name)
    × (dt.controller ≡ controller)
    × (dt.action ≡ action)
    × (get "yield" dt.default_tpl ≡ action_tree disk basedir controller action)
    × (t.basedir ≡ basedir)
Page disk basedir layout_name controller action (t, ok none) = Unit
Page disk basedir layout_name controller action (t, err e) = Unit
Page disk basedir layout_name controller action (t, panicked) = Unit

module _ (disk : Disk) (basedir layout_name controller action : String) where
  abbrev made : Result TemplateError Trees → Result TemplateError (Option DynamicTemplate)
  made m = m >>= λ page. ok (
      some (record {
        layout_name = layout_name;
        controller = controller;
        action = action;
        default_tpl = page;
      }))

  load_page-Page :
      (t : Templates) (layout : Trees)
      → cached_layout t layout_name ≡ some layout
      → t.basedir ≡ basedir
      → Page disk basedir layout_name controller action
          (t, load_page disk basedir layout_name controller action layout)
  unfolding load_page
  load_page-Page t layout c b =
      let path = basedir ∷ controller ∷ append action ".gohtml" ∷ [] in
      go (disk.stat path) (add_file disk layout path (append action ".gohtml") "yield")
        (λ out e. add_file-tree disk layout path (append action ".gohtml") "yield" out e)
    where
      go :
          (s : Stat) (m : Result TemplateError Trees)
          → ((out : Trees)
              → m ≡ ok out
              → get "yield" out ≡ action_tree disk basedir controller action)
          → Page disk basedir layout_name controller action (t, found s (made m))
      go not_exist m h = tt
      go exists (ok out) h = ((layout, c), refl, refl, refl, h out refl, b)
      go exists (err e) h = tt
      go exists panicked h = tt
      go denied (ok out) h = ((layout, c), refl, refl, refl, h out refl, b)
      go denied (err e) h = tt
      go denied panicked h = tt

  load-Page :
      (layouts : Option (Dict String Trees))
      → Page disk basedir layout_name controller action (
          load disk (record { basedir = basedir; layouts = layouts }) layout_name controller action)
  unfolding load
  load-Page none = go (load_layout disk basedir layout_name)
    where
      go :
          (r : Result TemplateError Trees)
          → Page disk basedir layout_name controller action (
              load_new
                (record { basedir = basedir; layouts = none })
                layout_name
                r
                (load_page disk basedir layout_name controller action))
      go (ok layout) = tt
      go (err e) = tt
      go panicked = tt
  load-Page (some layouts) =
      go (get layout_name layouts) refl (load_layout disk basedir layout_name)
    where
      go :
          (o : Option Trees)
          → get layout_name layouts ≡ o
          → (r : Result TemplateError Trees)
          → Page disk basedir layout_name controller action (elim o [
            | some layout ↦ (
              record { basedir = basedir; layouts = some layouts },
              load_page disk basedir layout_name controller action layout,
            )
            | none ↦
                load_new
                  (record { basedir = basedir; layouts = some layouts })
                  layout_name
                  r
                  (load_page disk basedir layout_name controller action)
          ])
      go (some layout) e r =
          load_page-Page (record { basedir = basedir; layouts = some layouts }) layout e refl
      go none e (ok layout) =
          load_page-Page
            (record { basedir = basedir; layouts = some (put layout_name layout layouts) }) layout
            (get-put_self layout_name layout layouts) refl
      go none e (err x) = tt
      go none e panicked = tt

abbrev pub own_or : Stat → Option String → Option String → Option String
own_or exists (some tree) common = some tree
own_or _ _ common = common

-- The tree that a domain shows for an action: that of its own file, if there is one that parses, and
-- else that of the action's file.
abbrev pub shown : Disk → (basedir domain controller action : String) → Option String
shown disk basedir domain controller action =
    let common = action_tree disk basedir controller action in
    let path = domain_path basedir domain controller action in
    if domain == "" then common else own_or (disk.stat path) (tree_of (disk.read path)) common

-- The choice between the two templates, by what the domain's file is.
choice_lem :
    (disk : Disk) (layout : Trees) (path : List String) (filename : String) (s : Stat) (tpl : Trees)
    → get "yield" (if_exists s (or_default (add_file disk layout path filename "yield") tpl) tpl)
      ≡ own_or s (tree_of (disk.read path)) (get "yield" tpl)
unfolding add_file parse_file
choice_lem disk layout path filename s tpl = go s (disk.read path)
  where
    go :
        (s : Stat) (f : Option Source)
        → get "yield" (
            if_exists s
              (or_default (parsed_into layout filename f >>= λ p. ok (put "yield" p.1 p.0)) tpl)
              tpl)
          ≡ own_or s (tree_of f) (get "yield" tpl)
    go exists none = refl
    go exists (some malformed) = refl
    go exists (some (parsed tree defines)) =
        get-put_self "yield" tree (put filename tree (define_all defines layout))
    go not_exist f = refl
    go denied f = refl

load_domain_template_lem :
    (disk : Disk) (t : Templates) (layout_name domain controller action : String) (layout : Trees)
    → cached_layout t layout_name ≡ some layout
    → load_domain_template disk t layout_name domain controller action
      ≡ add_file disk layout
          (domain_path t.basedir domain controller action)
          (append action ".gohtml")
          "yield"
unfolding load_domain_template
load_domain_template_lem disk t layout_name domain controller action layout e =
    go (cached_layout t layout_name) e
  where
    go :
        (o : Option Trees)
        → o ≡ some layout
        → elim o [
          | none ↦ err no_layout
          | some layout ↦
              add_file disk layout
                (domain_path t.basedir domain controller action)
                (append action ".gohtml")
                "yield"
        ]
          ≡ add_file disk layout
              (domain_path t.basedir domain controller action)
              (append action ".gohtml")
              "yield"
    go o e = rw e

-- A page that `Load` gives, resolved for the domain of a request, has as its part "yield" the domain's
-- own file for the action, if there is one that can be read and parsed, and else the action's file,
-- which it also has without a domain.
pub load-resolve :
    (disk : Disk) (t t' : Templates) (layout_name controller action domain : String)
    (dt : DynamicTemplate)
    → load disk t layout_name controller action ≡ (t', ok (some dt))
    → get "yield" (resolve disk t' dt domain) ≡ shown disk t.basedir domain controller action
unfolding resolve
load-resolve disk t t' layout_name controller action domain dt e =
    let (layout, named, ctl, act, yields, base) =
      subst (Page disk t.basedir layout_name controller action) e
        (load-Page disk t.basedir layout_name controller action t.layouts) in
    let path = domain_path t.basedir domain controller action in
    elim (Bool-cases (domain == "")) [
      | inl none_given ↦ rw none_given yields
      | inr given ↦
          rw
            (
              given,
              named,
              ctl,
              act,
              load_domain_template_lem disk t' layout_name domain controller action layout.0
                  layout.1,
              base,
            )
            (choice_lem disk layout.0 path (append action ".gohtml") (disk.stat path) dt.default_tpl
              ∙ ap (own_or (disk.stat path) (tree_of (disk.read path))) yields)
    ]
