-- ===== src/Router/Versions.antt =====
-- versioning.go: a router whose routes stand below the version's prefix and set its headers. Its methods
-- drop the router that the inner call returns, also where that is an error router, and give the version
-- router back.
use tracks.Common.{
  String, ◌≡◌, refl, ap, ◌∙◌, Bool, true, false, Option, none, some, List, [], ◌∷◌, map,
  if◌then◌else◌, ◌==◌, string_eq,
}
use Prim.Native.String.{◌++◌}
use mathlib.Core.List
use mathlib.Core.List.{map-append}
use tracks.Common.Result.{Result, ok, err, panicked, ◌>>=◌}
use tracks.Middleware.{Middleware, Middlewares, wrap}
use tracks.Middleware
use tracks.Middleware.Order.{nest, wrap-nest, nest-append}
use tracks.Router.Resources.{Resource, Controller, resource_at_path}
use tracks.Router.{
  Env, RouterState, Router, StaticConfig, MiddlewareBuilder, Action, default_layout, patterns,
  normalize, serve, serve_func, web_socket, page, static_with_config, handle_pattern, clone,
}

-- `sunset` is the formatted date, none where the date is zero.
pub record VersionConfig : Type 0 where
  pub deprecated : Bool
  pub sunset : Option String
  pub migration_guide : String

pub record VersionRouter (E H : Type 0) : Type 0 where
  pub router : RouterState E H
  pub prefix : String
  pub name : String
  pub config : VersionConfig

-- `Version`
unfoldable pub version :
    {E H : Type 0} → RouterState E H → String → Option VersionConfig → VersionRouter E H
version r v config = record { router = r; prefix = "/" ++ v; name = v; config = given config }
  where
    given : Option VersionConfig → VersionConfig
    given none = record { deprecated = false; sunset = none; migration_guide = "" }
    given (some c) = c

abbrev sunset_header : Option String → List (String × String)
sunset_header none = []
sunset_header (some date) = ("Sunset", date) ∷ []

-- The headers that the version's middleware sets, in their order.
unfoldable pub version_headers : String → VersionConfig → List (String × String)
version_headers name config =
    ("API-Version", name)
    ∷ (if config.deprecated
        then List.◌++◌ (("Deprecation", "true") ∷ sunset_header config.sunset) (
            if config.migration_guide == ""
            then []
            else ("Link", "<" ++ (config.migration_guide ++ ">; rel=\"migration\"")) ∷ [])
        else [])

unfoldable pub version_clone : {E H : Type 0} → VersionRouter E H → VersionRouter E H
unfolding clone
version_clone v = record v { router = clone v.router }

-- `GlobalMiddleware` and `RequestMiddleware`.
unfoldable pub version_global_middleware :
    {E H : Type 0} → VersionRouter E H → Middleware E H → VersionRouter E H
unfolding Middleware.apply
version_global_middleware v m =
    let r = v.router in
    record v {
      router = record r { global_middlewares = Middleware.apply r.global_middlewares (some m) };
    }

unfoldable pub version_request_middleware :
    {E H : Type 0} → VersionRouter E H → Middleware E H → VersionRouter E H
unfolding Middleware.apply
version_request_middleware v m =
    let r = v.router in
    record v {
      router = record r { request_middlewares = Middleware.apply r.request_middlewares (some m) };
    }

-- `set_headers` gives the handler that sets headers on its response writer and calls the next one.
module _ {E H A T : Type 0} (env : Env E H A T) (set_headers : List (String × String) → H → H) where
  unfoldable pub version_middleware : VersionRouter E H → RouterState E H → Middleware E H
  unfolding version_headers
  version_middleware v r next = ok (set_headers (version_headers v.name v.config) next)

  -- `v.router.Method(...); return v`: an error leaves the inner router as it was.
  abbrev pub kept : VersionRouter E H → Router E H → Result E (VersionRouter E H)
  kept v (ok r) = ok (record v { router = r })
  kept v (err e) = ok v
  kept v panicked = panicked

  -- `GetFunc`, `PostFunc`, `PutFunc`, `PatchFunc` and `DeleteFunc`.
  unfoldable pub version_func :
      VersionRouter E H
      → (method path controller action : String) → A
      → List (MiddlewareBuilder E H)
      → Result E (VersionRouter E H)
  unfolding serve version_middleware
  version_func v method path controller action a mws = kept v (
      serve_func env v.router method (v.prefix ++ path) controller action a
        (version_middleware v ∷ mws))

  -- `Serve` adds the prefix alone.
  unfoldable pub version_serve : VersionRouter E H → Action E H A → Result E (VersionRouter E H)
  unfolding serve
  version_serve v a = kept v (serve env v.router (record a { path = v.prefix ++ a.path }))

  unfoldable pub version_web_socket :
      VersionRouter E H → String → H → List (MiddlewareBuilder E H) → Result E (VersionRouter E H)
  unfolding web_socket
  version_web_socket v path h mws = kept v (web_socket env v.router (v.prefix ++ path) h mws)

  unfoldable pub version_page :
      A → VersionRouter E H → (path view : String) → Result E (VersionRouter E H)
  unfolding page
  version_page blank v path view = kept v (page env blank v.router (v.prefix ++ path) view)

  -- `Static`, and `Redirect`, which do not add the prefix.
  unfoldable pub version_static :
      VersionRouter E H → String → String → StaticConfig → Result E (VersionRouter E H)
  unfolding static_with_config
  version_static v url_path dir config =
      kept v (static_with_config env v.router url_path dir config)

  unfoldable pub version_redirect : VersionRouter E H → String → H → Result E (VersionRouter E H)
  unfolding handle_pattern
  version_redirect v origin h = kept v (handle_pattern env v.router origin h)

  -- `ResourceAtPath`, which gives the inner router: what is chained on it is outside of the version.
  unfoldable pub version_resource_at_path :
      VersionRouter E H → String → Resource E H A → List (MiddlewareBuilder E H) → Router E H
  unfolding resource_at_path version_middleware
  version_resource_at_path v path rs mws =
      resource_at_path env v.router (v.prefix ++ path) rs (version_middleware v ∷ mws)

  unfoldable pub version_controller_at_path :
      VersionRouter E H → String → Controller E H → List (MiddlewareBuilder E H) → Router E H
  unfolding version_middleware
  version_controller_at_path v path c mws =
      c v.router (v.prefix ++ path) (version_middleware v ∷ mws)

  serve-route :
      (r : RouterState E H) (a : Action E H A) (tpl : T) (h : H)
      → env.load (if a.layout == "" then default_layout else a.layout) a.controller a.name ≡ ok tpl
      → wrap r.request_middlewares r (env.handle a.controller a.name a.func tpl) a.middlewares
        ≡ ok h
      → env.accepts (patterns r) (a.method ++ (" " ++ normalize env.to_lower a.path)) ≡ true
      → serve env r a
        ≡ ok (record r {
          mux = List.◌++◌ r.mux ((a.method ++ (" " ++ normalize env.to_lower a.path), h) ∷ []);
        })
  unfolding serve handle_pattern
  serve-route r a tpl h loaded wrapped accepted = rw (loaded, wrapped, accepted) refl

  -- A function registered on a version router: the route stands below the prefix, its handler sets the
  -- version's headers outside the route's middlewares and inside those of the router, and nothing else of
  -- the version router changes.
  pub version_func-route :
      (v : VersionRouter E H) (method path controller action : String) (a : A)
      (mws : List (MiddlewareBuilder E H)) (tpl : T) (h h' : H)
      → env.load default_layout controller action ≡ ok tpl
      → nest (map (λ b. b v.router) mws) (env.handle controller action a tpl) ≡ ok h
      → nest v.router.request_middlewares.l (set_headers (version_headers v.name v.config) h)
        ≡ ok h'
      → env.accepts
          (patterns v.router)
          (method ++ (" " ++ normalize env.to_lower (v.prefix ++ path)))
        ≡ true
      → version_func v method path controller action a mws
        ≡ ok (record v {
          router = record v.router {
            mux =
                List.◌++◌ v.router.mux
                  ((method ++ (" " ++ normalize env.to_lower (v.prefix ++ path)), h') ∷ []);
          };
        })
  unfolding version_func version_middleware
  version_func-route v method path controller action a mws tpl h h' loaded inside outside accepted =
      let wrapped =
        wrap-nest v.router.request_middlewares v.router (env.handle controller action a tpl)
          (version_middleware v ∷ mws)
        ∙ nest-append v.router.request_middlewares.l _ _
        ∙ ap (λ x. (x >>= version_middleware v v.router) >>= nest v.router.request_middlewares.l)
            inside
        ∙ outside in
      ap (kept v) (
        serve-route v.router
          (record {
            method = method;
            path = v.prefix ++ path;
            controller = controller;
            name = action;
            func = a;
            layout = default_layout;
            middlewares = version_middleware v ∷ mws;
          })
          tpl h' loaded wrapped accepted)

  -- A function whose template is missing, or one of whose middlewares fails, is not registered on a version
  -- router, and the error is lost: the version router is as before, whereas the router itself gives the
  -- error.
  pub version_func-loses_error :
      (v : VersionRouter E H) (method path controller action : String) (a : A)
      (mws : List (MiddlewareBuilder E H)) (e : E)
      → serve_func env v.router method
          (v.prefix ++ path)
          controller
          action
          a
          (version_middleware v ∷ mws)
        ≡ err e
      → version_func v method path controller action a mws ≡ ok v
  unfolding version_func
  version_func-loses_error v method path controller action a mws e failed = rw failed refl
