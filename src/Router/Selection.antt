-- ===== src/Router/Selection.antt =====
-- The choice of a version by a header or a query parameter (`VersionFromHeader` and
-- `VersionFromQuery` of router.go). A handler is a function of the request.
mod Tests
use tracks.Common.{
  String, ◌≡◌, refl, ap, ◌∙◌, Bool, List, [], ◌∷◌, map, if◌then◌else◌, ◌==◌, string_eq, All,
}
use tracks.Common.Result.{Result, ok, err, panicked, ◌>>=◌}
use tracks.Middleware.{Middleware}
use tracks.Middleware.Order.{nest}
use tracks.Router.{Env, RouterState, Router, handler, Call, global_middleware_call, call_all}
use tracks.Router.Errors.{empty_router, globals_of, handler-globals_of}

-- `req.Header.Get` and `req.URL.Query().Get`, and the handler that http.ServeMux makes of the routes.
pub record Http (Req Out : Type 0) : Type 0 where
  pub header_get : Req → String → String
  pub query_get : Req → String → String
  pub serve_mux : List (String × (Req → Out)) → Req → Out

pub data Selector : Type 0 where
  by_header : (header value : String) → Selector
  by_query : (param value : String) → Selector

module _ {Req Out : Type 0} (http : Http Req Out) where
  abbrev pub selects : Selector → Req → Bool
  selects (by_header header value) req = http.header_get req header == value
  selects (by_query param value) req = http.query_get req param == value

  -- The middleware of both: the handler of the other router is made when the middleware is applied.
  unfoldable pub version_from :
      {E : Type 0} → Selector → Router E (Req → Out) → Middleware E (Req → Out)
  version_from s vr next =
      handler http.serve_mux vr >>= λ h. ok (λ req. if selects s req then h req else next req)

  -- A version: how it is chosen, its router, and the handler of this router.
  pub record Version (E : Type 0) : Type 0 where
    pub selector : Selector
    pub router : Router E (Req → Out)
    pub handle : Req → Out

  abbrev pub IsServed : {E : Type 0} → Version E → Type 0
  IsServed v = handler http.serve_mux v.router ≡ ok v.handle

  abbrev pub middleware_of : {E : Type 0} → Version E → Middleware E (Req → Out)
  middleware_of v = version_from v.selector v.router

  -- The first version that is chosen, and `main` if none is.
  abbrev pub first_selected : {E : Type 0} → List (Version E) → (main : Req → Out) → Req → Out
  first_selected [] main req = main req
  first_selected (v ∷ vs) main req =
      let rest = first_selected vs main req in if selects v.selector req then v.handle req else rest

  nest-first_selected :
      {E : Type 0} (versions : List (Version E)) (main : Req → Out)
      → All IsServed versions
      → nest (map middleware_of versions) main ≡ ok (first_selected versions main)
  unfolding version_from
  nest-first_selected [] main h = refl
  nest-first_selected (v ∷ versions) main h = rw (nest-first_selected versions main h.1, h.0) refl

  -- Where the global middlewares of a new router are versions by header or by parameter and nothing else,
  -- among any other registrations, a request is served by the version registered first whose header or
  -- parameter has its value, and by the routes of the router itself if there is none. The routers of the
  -- versions are to have handlers, and no registration fails.
  pub handler-first_selected :
      {E A T : Type 0} (env : Env E (Req → Out) A T) (cs : List (Call E (Req → Out) A))
      (r : RouterState E (Req → Out)) (versions : List (Version E))
      → call_all env (ok empty_router) cs ≡ ok r
      → globals_of env cs ≡ map middleware_of versions
      → All IsServed versions
      → handler http.serve_mux (ok r) ≡ ok (first_selected versions (http.serve_mux r.mux))
  handler-first_selected env cs r versions registered only served =
      (handler-globals_of env http.serve_mux cs r registered).1
      ∙ ap (λ ms. nest ms (http.serve_mux r.mux)) only
      ∙ nest-first_selected versions (http.serve_mux r.mux) served

-- `VersionFromHeader` and `VersionFromQuery`
abbrev pub version_call :
    {E Req Out A : Type 0} → Http Req Out → Selector → Router E (Req → Out) → Call E (Req → Out) A
version_call http s vr = global_middleware_call (version_from http s vr)
