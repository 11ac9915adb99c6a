-- ===== src/Templates/Caching.antt =====
-- The cache of layouts of templates.go, over files that do not change.
use tracks.Common.{
  String, ◌≡◌, refl, sym, ap, ◌∙◌, inl, inr, Option, none, some, List, [], ◌∷◌, map, arith, eq_iff,
  Bool-cases, ◌==◌, string_eq,
}
use mathlib.Core.Path.{subst}
use tracks.Common.Dict.{Dict, get, put, get-put}
use tracks.Common.Result.{Result, ok, err, panicked}
use tracks.Templates.{Trees, Disk, TemplateError, load_layout}
use tracks.Templates.Loading.{Templates, set_func, DynamicTemplate, load_page, load_new, load}

module _ (disk : Disk) where
  -- Each layout in the cache is what its file gives, and the map is there.
  abbrev pub IsCached : Templates → Type 0
  IsCached t = elim t.layouts [
    | none ↦ ⊥
    | some layouts ↦
        (name : String) (layout : Trees)
        → get name layouts ≡ some layout
        → load_layout disk t.basedir name ≡ ok layout
  ]

  -- A call of `Load`: the layout, the controller and the action.
  abbrev pub Call : Type 0
  Call = String × String × String

  abbrev pub Loaded : Type 0
  Loaded = Result TemplateError (Option DynamicTemplate)

  -- The calls of `Load` in their order, with their results.
  unfoldable pub load_all : Templates → List Call → List Loaded
  load_all t [] = []
  load_all t ((layout_name, controller, action) ∷ calls) =
      let (t', page) = load disk t layout_name controller action in page ∷ load_all t' calls

  -- What `Load` gives without a cache.
  abbrev pub after_layout : String → Call → Result TemplateError Trees → Loaded
  after_layout basedir (layout_name, controller, action) (ok layout) =
      load_page disk basedir layout_name controller action layout
  after_layout basedir call (err e) = ok none
  after_layout basedir call panicked = panicked

  abbrev pub uncached : String → Call → Loaded
  uncached basedir (layout_name, controller, action) =
      after_layout basedir (layout_name, controller, action) (load_layout disk basedir layout_name)

  put-IsCached :
      (basedir name : String) (layouts : Dict String Trees) (layout : Trees)
      → IsCached (record { basedir = basedir; layouts = some layouts })
      → load_layout disk basedir name ≡ ok layout
      → IsCached (record { basedir = basedir; layouts = some (put name layout layouts) })
  put-IsCached basedir name layouts layout h e n l g = elim (Bool-cases (name == n)) [
    | inl same ↦
        subst (λ m. load_layout disk basedir m ≡ ok l) ((eq_iff name n).0 same)
          (e ∙ ap ok (cc (g, get-put name n layout layouts, same)))
    | inr other ↦ h n l (ground (arith, get-put name n layout layouts))
  ]

  abbrev Good : (basedir : String) → Call → Templates × Loaded → Type 0
  Good basedir call r = (r.1 ≡ uncached basedir call) × (r.0.basedir ≡ basedir) × IsCached r.0

  load-Good :
      (basedir : String) (layouts : Option (Dict String Trees))
      (layout_name controller action : String)
      → IsCached (record { basedir = basedir; layouts = layouts })
      → Good basedir
          (layout_name, controller, action)
          (load disk
            (record { basedir = basedir; layouts = layouts })
            layout_name
            controller
            action)
  unfolding load
  load-Good basedir none layout_name controller action h = absurd h
  load-Good basedir (some layouts) layout_name controller action h =
      go (get layout_name layouts) refl (load_layout disk basedir layout_name) refl
    where
      go :
          (o : Option Trees)
          → get layout_name layouts ≡ o
          → (r : Result TemplateError Trees) → load_layout disk basedir layout_name ≡ r
          → Good basedir
              (layout_name, controller, action)
              (elim o [
                | some layout ↦ (
                  record { basedir = basedir; layouts = some layouts },
                  load_page disk basedir layout_name controller action layout,
                )
                | none ↦
                    load_new
                      (record { basedir = basedir; layouts = some layouts })
                      layout_name
                      r
                      (load_page disk basedir layout_name controller action)
              ])
      go (some layout) e r q = (
        sym (ap (after_layout basedir (layout_name, controller, action)) (h layout_name layout e)),
        refl,
        h,
      )
      go none e (ok layout) q = (
        sym (ap (after_layout basedir (layout_name, controller, action)) q),
        refl,
        put-IsCached basedir layout_name layouts layout h q,
      )
      go none e (err x) q =
          (sym (ap (after_layout basedir (layout_name, controller, action)) q), refl, h)
      go none e panicked q =
          (sym (ap (after_layout basedir (layout_name, controller, action)) q), refl, h)

  all_uncached :
      (t : Templates) (calls : List Call)
      → IsCached t
      → load_all t calls ≡ map (uncached t.basedir) calls
  unfolding load_all
  all_uncached t [] h = refl
  all_uncached t ((layout_name, controller, action) ∷ calls) h =
      let (same, kept, good) = load-Good t.basedir t.layouts layout_name controller action h in
      ap (λ r. r ∷ load_all (load disk t layout_name controller action).0 calls) same
      ∙ ap (◌∷◌ (uncached t.basedir (layout_name, controller, action))) (
          all_uncached (load disk t layout_name controller action).0 calls good
          ∙ ap (λ b. map (uncached b) calls) kept)

  -- Any calls of `Load` on templates whose layouts were not loaded yet give what each would give
  -- without the cache of layouts: the page of its action in its layout, nothing where there is no such
  -- file or the layout cannot be loaded, and the error of the page otherwise. The files do not change
  -- meanwhile.
  pub load_all-uncached :
      (basedir : String) (calls : List Call)
      → load_all (record { basedir = basedir; layouts = some [] }) calls
        ≡ map (uncached basedir) calls
  load_all-uncached basedir calls =
      all_uncached (record { basedir = basedir; layouts = some [] }) calls
        (λ name layout e. unfold get in cc)

  -- What `Load` gives after `Func`, by what its layout gives.
  abbrev pub after_func : Result TemplateError Trees → Loaded
  after_func (ok layout) = panicked
  after_func (err e) = ok none
  after_func panicked = panicked

  -- After `Func` a call of `Load` panics if its layout can be loaded, since the write goes to a nil
  -- map, and gives no template and no error if not, as before.
  pub load-set_func :
      (t : Templates) (layout_name controller action : String)
      → (load disk (set_func t) layout_name controller action).1
        ≡ after_func (load_layout disk t.basedir layout_name)
  unfolding load
  load-set_func t layout_name controller action = go (load_layout disk t.basedir layout_name)
    where
      go :
          (r : Result TemplateError Trees)
          → (load_new
              (set_func t)
              layout_name
              r
              (load_page disk t.basedir layout_name controller action)).1
            ≡ after_func r
      go (ok layout) = refl
      go (err e) = refl
      go panicked = refl
