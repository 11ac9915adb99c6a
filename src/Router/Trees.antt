-- ===== src/Router/Trees.antt =====
-- What `ResourceAtPath` of router.go registers for a resource with its subresources.
use tracks.Common.{String, refl, sym, none, some, List, []}
use mathlib.Core.Path.{subst}
use mathlib.Core.List.{append-nil}
use tracks.Router.{Env, RouterState, MiddlewareBuilder, patterns}
use tracks.Common.Result.{ok}
use tracks.Router.Resources.{
  Resource, resource, Subresources, absent, subresources, Resources, nil, cons, below,
  resource_name, base_path_of, subcontrollers_at, resource_at_path, subresources_at, resources_at,
}
use tracks.Router.Table.{
  Fits, Loads, Wraps, Registers, Fits-append, then-Registers, patterns-mux, action_entries,
  actions-Registers, resource_table, subresource_table, resources_table, HasNoSubcontrollers,
  HaveNoneBelow, HaveNoSubcontrollers,
}

mutual
  unfolding resource_at_path subresources_at resources_at resource_table subresource_table
      resources_table HasNoSubcontrollers HaveNoneBelow HaveNoSubcontrollers subcontrollers_at

  resource_at_path-Registers :
      {E H A T : Type 0} (env : Env E H A T) (template : String → String → String → T)
      (wrapped bare : H → H) (r : RouterState E H) (root_path : String) (rs : Resource E H A)
      (mws : List (MiddlewareBuilder E H))
      → HasNoSubcontrollers rs
      → Loads env template
      → Wraps env r.request_middlewares mws wrapped
      → Wraps env r.request_middlewares [] bare
      → Fits env (patterns r) (resource_table env template wrapped bare root_path rs)
      → Registers env r
          (resource_table env template wrapped bare root_path rs)
          (resource_at_path env r root_path rs mws)
  resource_at_path-Registers env template wrapped bare r root_path (resource type_name fs subs none)
        mws simple loads wraps wraps_none fits =
      let name = resource_name env type_name in
      let base_path = base_path_of env root_path name in
      let entries = action_entries env template wrapped name base_path fs in
      let table = subresource_table env template bare (below base_path name) subs in
      let parts = Fits-append env (patterns r) entries table fits in
      let step =
        actions-Registers env template wrapped name r base_path fs mws loads wraps parts.0 in
      then-Registers env r entries table _
        (λ nr. subresources_at env nr (below base_path name) subs) step
        (subresources_at-Registers env template bare step.0 (below base_path name) subs simple loads
          (subst (λ ms. Wraps env ms [] bare) (sym step.2) wraps_none)
          (subst (λ ps. Fits env ps table) (sym (patterns-mux env r step.0 entries step.3))
            parts.1))
  resource_at_path-Registers env template wrapped bare r root_path
        (resource type_name fs subs (some _)) mws simple loads wraps wraps_none fits =
      absurd simple

  subresources_at-Registers :
      {E H A T : Type 0} (env : Env E H A T) (template : String → String → String → T)
      (bare : H → H) (r : RouterState E H) (base_path : String) (subs : Subresources E H A)
      → HaveNoneBelow subs
      → Loads env template
      → Wraps env r.request_middlewares [] bare
      → Fits env (patterns r) (subresource_table env template bare base_path subs)
      → Registers env r
          (subresource_table env template bare base_path subs)
          (subresources_at env (ok r) base_path subs)
  subresources_at-Registers env template bare r base_path absent simple loads wraps fits =
      (r, refl, refl, sym (append-nil r.mux))
  subresources_at-Registers env template bare r base_path (subresources rs) simple loads wraps
        fits =
      resources_at-Registers env template bare r base_path rs simple loads wraps fits

  resources_at-Registers :
      {E H A T : Type 0} (env : Env E H A T) (template : String → String → String → T)
      (bare : H → H) (r : RouterState E H) (base_path : String) (rs : Resources E H A)
      → HaveNoSubcontrollers rs
      → Loads env template
      → Wraps env r.request_middlewares [] bare
      → Fits env (patterns r) (resources_table env template bare base_path rs)
      → Registers env r
          (resources_table env template bare base_path rs)
          (resources_at env (ok r) base_path rs)
  resources_at-Registers env template bare r base_path nil simple loads wraps fits =
      (r, refl, refl, sym (append-nil r.mux))
  resources_at-Registers env template bare r base_path (cons rs rest) simple loads wraps fits =
      let first = resource_table env template bare bare base_path rs in
      let later = resources_table env template bare base_path rest in
      let parts = Fits-append env (patterns r) first later fits in
      let step =
        resource_at_path-Registers env template bare bare r base_path rs [] simple.0 loads wraps
          wraps parts.0 in
      then-Registers env r first later _ (λ nr. resources_at env nr base_path rest) step
        (resources_at-Registers env template bare step.0 base_path rest simple.1 loads
          (subst (λ ms. Wraps env ms [] bare) (sym step.2) wraps)
          (subst (λ ps. Fits env ps later) (sym (patterns-mux env r step.0 first step.3)) parts.1))

-- `ResourceAtPath` of a resource without subcontrollers, on a router whose templates are all there, whose
-- middlewares do not fail, and whose mux accepts the patterns: it is no error, and adds to the mux exactly
-- the eight routes of the resource and then those of its subresources, each below `/{<name>_id}/`, with
-- the handler of the resource's function for the route, and its template, in the middlewares.
pub resource_at_path-resource_table :
    {E H A T : Type 0} (env : Env E H A T) (template : String → String → String → T)
    (wrapped bare : H → H) (r : RouterState E H) (root_path : String) (rs : Resource E H A)
    (mws : List (MiddlewareBuilder E H))
    → HasNoSubcontrollers rs
    → Loads env template
    → Wraps env r.request_middlewares mws wrapped
    → Wraps env r.request_middlewares [] bare
    → Fits env (patterns r) (resource_table env template wrapped bare root_path rs)
    → Registers env r
        (resource_table env template wrapped bare root_path rs)
        (resource_at_path env r root_path rs mws)
resource_at_path-resource_table = resource_at_path-Registers
