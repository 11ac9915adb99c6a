-- ===== src/Router/Table.antt =====
-- The routes of one resource of router.go, and the table of a resource with its subresources.
use tracks.Common.{
  String, ◌≡◌, refl, sym, ap, ◌∙◌, true, none, some, List, [], ◌∷◌, ◌++◌, map, if◌then◌else◌,
}
use Prim.Native.String
use mathlib.Core.Path.{subst}
use mathlib.Core.List.{append-nil, append_assoc, map-append}
use text.Mathlib.Text.{starts_with}
use tracks.Common.Text.{has_suffix, trim_suffix}
use tracks.Common.Result.{ok}
use tracks.Middleware.{Middlewares, wrap}
use tracks.Router.{
  default_layout, Env, RouterState, Router, MiddlewareBuilder, patterns, normalize, Call, register,
  call, call_all, serve, handle_pattern,
}
use tracks.Router.Resources.{
  Functions, Resource, resource, Subresources, absent, subresources, Resources, nil, cons,
  resource_name, base_path_of, func_call, action_calls,
}

-- A route of one controller: the method, the path, the action's name and function.
pub record Route (A : Type 0) : Type 0 where
  method : String
  path : String
  name : String
  func : A

-- "{name_id}"
abbrev pub parameter : String → String
parameter name = String.◌++◌ "{" (String.◌++◌ name "_id}")

-- A pattern of the mux with its handler.
abbrev pub Entry : Type 0 → Type 0
Entry H = String × H

module _ {E H A T : Type 0} (env : Env E H A T) where
  abbrev pub without_end : (suffix path : String) → String
  without_end suffix path = if has_suffix path suffix then trim_suffix path suffix else path

  -- A path as the mux gets it: in lower case, without the words of Go's types, below "/".
  abbrev pub path_text : String → String
  path_text path =
      let plain =
        trim_suffix (without_end "controller" (without_end "resource" (env.to_lower path))) "_" in
      if starts_with plain "/" then plain else String.◌++◌ "/" plain

  abbrev pub pattern_of : String → String → String
  pattern_of method path = String.◌++◌ method (String.◌++◌ " " (path_text path))

  -- Each pattern is accepted beside those before it.
  abbrev pub Fits : List String → List (Entry H) → Type 0
  Fits ps [] = Unit
  Fits ps (x ∷ xs) = (env.accepts ps x.0 ≡ true) × Fits (ps ++ x.0 ∷ []) xs

  -- Every template that is asked for is there.
  abbrev pub Loads : (String → String → String → T) → Type 0
  Loads template =
      (layout controller action : String)
      → env.load layout controller action ≡ ok (template layout controller action)

  -- The middlewares of a route make `wrapped h` of a handler, whatever the router.
  abbrev pub Wraps : Middlewares E H → List (MiddlewareBuilder E H) → (wrapped : H → H) → Type 0
  Wraps ms mws wrapped = (r : RouterState E H) (h : H) → wrap ms r h mws ≡ ok (wrapped h)

  -- The result is a router with the entries `xs` after those of the mux of `r`.
  abbrev pub Registers : RouterState E H → List (Entry H) → Router E H → Type 0
  Registers r xs nr =
      (r' : RouterState E H) × (nr ≡ ok r')
      × (r'.request_middlewares ≡ r.request_middlewares)
      × (r'.mux ≡ r.mux ++ xs)

  pub patterns-mux :
      (r r' : RouterState E H) (xs : List (Entry H))
      → r'.mux ≡ r.mux ++ xs
      → patterns r' ≡ patterns r ++ map (λ x. x.0) xs
  patterns-mux r r' xs e = ap (map (λ x. x.0)) e ∙ map-append (λ x. x.0) r.mux xs

  pub Fits-append :
      (ps : List String) (xs ys : List (Entry H))
      → Fits ps (xs ++ ys)
      → Fits ps xs × Fits (ps ++ map (λ x. x.0) xs) ys
  Fits-append ps [] ys h = (tt, rw (append-nil ps) h)
  Fits-append ps (x ∷ xs) ys h =
      let rest = Fits-append (ps ++ x.0 ∷ []) xs ys h.1 in
      (
        (h.0, rest.0),
        subst (λ l. Fits l ys) (append_assoc ps (x.0 ∷ []) (map (λ x. x.0) xs)) rest.1,
      )

  route_call : String → List (MiddlewareBuilder E H) → Route A → Call E H A
  route_call controller mws x = func_call env x.method x.path controller x.name x.func mws

  pub then-Registers :
      (r : RouterState E H) (xs ys : List (Entry H)) (first : Router E H)
      (after : Router E H → Router E H) (step : Registers r xs first)
      → Registers step.0 ys (after (ok step.0))
      → Registers r (xs ++ ys) (after first)
  then-Registers r xs ys first after (r', e, same, extended) (r2, e2, same2, extended2) = (
    r2,
    ap after e ∙ e2,
    same2 ∙ same,
    extended2 ∙ ap (λ l. l ++ ys) extended ∙ append_assoc r.mux xs ys,
  )

  -- The eight routes of a resource.
  abbrev pub action_routes : (base_path name : String) → Functions A → List (Route A)
  action_routes base_path name fs =
      let one = String.◌++◌ base_path (String.◌++◌ "/" (parameter name)) in
      record { method = "GET"; path = String.◌++◌ base_path "/"; name = "index"; func = fs.index }
      ∷ record { method = "GET"; path = String.◌++◌ base_path "/new"; name = "new"; func = fs.new }
      ∷ record {
        method = "POST";
        path = String.◌++◌ base_path "/";
        name = "create";
        func = fs.create;
      }
      ∷ record { method = "GET"; path = one; name = "show"; func = fs.show }
      ∷ record { method = "GET"; path = String.◌++◌ one "/edit"; name = "edit"; func = fs.edit }
      ∷ record { method = "PUT"; path = one; name = "update"; func = fs.update }
      ∷ record { method = "POST"; path = one; name = "update"; func = fs.update }
      ∷ record { method = "DELETE"; path = one; name = "destroy"; func = fs.destroy }
      ∷ []

  module _ (template : String → String → String → T) (wrapped : H → H) (controller : String) where
    -- The pattern of a route, and the handler of its function, with its template, in its middlewares.
    abbrev pub entry_of : Route A → Entry H
    entry_of x = (
      pattern_of x.method x.path,
      wrapped (env.handle controller x.name x.func (template "application" controller x.name)),
    )

    call-Registers :
        (r : RouterState E H) (mws : List (MiddlewareBuilder E H)) (x : Route A)
        → Loads template
        → Wraps r.request_middlewares mws wrapped
        → env.accepts (patterns r) (pattern_of x.method x.path) ≡ true
        → Registers r (entry_of x ∷ []) (call env (ok r) (route_call controller mws x))
    unfolding route_call call register serve handle_pattern normalize
    call-Registers r mws x loads wraps fits = (
      record r { mux = r.mux ++ entry_of x ∷ [] },
      rw (loads default_layout controller x.name, wraps r, fits) refl,
      refl,
      refl,
    )

    call_all-Registers :
        (r : RouterState E H) (mws : List (MiddlewareBuilder E H)) (xs : List (Route A))
        → Loads template
        → Wraps r.request_middlewares mws wrapped
        → Fits (patterns r) (map entry_of xs)
        → Registers r (map entry_of xs) (call_all env (ok r) (map (route_call controller mws) xs))
    unfolding call_all
    call_all-Registers r mws [] loads wraps fits = (r, refl, refl, sym (append-nil r.mux))
    call_all-Registers r mws (x ∷ xs) loads wraps fits =
        let step = call-Registers r mws x loads wraps fits.0 in
        then-Registers r (entry_of x ∷ []) (map entry_of xs) _
          (λ nr. call_all env nr (map (route_call controller mws) xs)) step
          (call_all-Registers step.0 mws xs loads
            (subst (λ ms. Wraps ms mws wrapped) (sym step.2) wraps)
            (subst (λ ps. Fits ps (map entry_of xs))
              (sym (patterns-mux r step.0 (entry_of x ∷ []) step.3)) fits.1))

    abbrev pub action_entries : String → Functions A → List (Entry H)
    action_entries base_path fs = map entry_of (action_routes base_path controller fs)

    pub actions-Registers :
        (r : RouterState E H) (base_path : String) (fs : Functions A)
        (mws : List (MiddlewareBuilder E H))
        → Loads template
        → Wraps r.request_middlewares mws wrapped
        → Fits (patterns r) (action_entries base_path fs)
        → Registers r
            (action_entries base_path fs)
            (call_all env (ok r) (action_calls env base_path controller fs mws))
    unfolding route_call
    actions-Registers r base_path fs mws loads wraps fits =
        call_all-Registers r mws (action_routes base_path controller fs) loads wraps fits

-- The routes of a resource and of its subresources, with their handlers, and what it is to have no
-- subcontrollers. The middlewares of the resource are not those of the resources below it.
unfoldable mutual
  pub resource_table :
      {E H A T : Type 0}
      → Env E H A T
      → (String → String → String → T)
      → (wrapped bare : H → H) (root_path : String) → Resource E H A
      → List (Entry H)
  resource_table env template wrapped bare root_path (resource type_name fs subs controllers) =
      let name = resource_name env type_name in
      let base_path = base_path_of env root_path name in
      action_entries env template wrapped name base_path fs
      ++ subresource_table env template bare
          (String.◌++◌ base_path (String.◌++◌ "/" (String.◌++◌ (parameter name) "/"))) subs

  pub subresource_table :
      {E H A T : Type 0}
      → Env E H A T
      → (String → String → String → T)
      → (bare : H → H) (base_path : String) → Subresources E H A
      → List (Entry H)
  subresource_table env template bare base_path absent = []
  subresource_table env template bare base_path (subresources rs) =
      resources_table env template bare base_path rs

  pub resources_table :
      {E H A T : Type 0}
      → Env E H A T
      → (String → String → String → T)
      → (bare : H → H) (base_path : String) → Resources E H A
      → List (Entry H)
  resources_table env template bare base_path nil = []
  resources_table env template bare base_path (cons rs rest) =
      resource_table env template bare bare base_path rs
      ++ resources_table env template bare base_path rest

unfoldable mutual
  pub HasNoSubcontrollers : {E H A : Type 0} → Resource E H A → Type 0
  HasNoSubcontrollers (resource _ _ subs none) = HaveNoneBelow subs
  HasNoSubcontrollers (resource _ _ subs (some _)) = ⊥

  pub HaveNoneBelow : {E H A : Type 0} → Subresources E H A → Type 0
  HaveNoneBelow absent = Unit
  HaveNoneBelow (subresources rs) = HaveNoSubcontrollers rs

  pub HaveNoSubcontrollers : {E H A : Type 0} → Resources E H A → Type 0
  HaveNoSubcontrollers nil = Unit
  HaveNoSubcontrollers (cons rs rest) = HasNoSubcontrollers rs × HaveNoSubcontrollers rest
