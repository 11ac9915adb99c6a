-- ===== src/Router.antt =====
-- router.go: the registration of routes and middlewares. A router is its routes and its two lists of
-- middlewares; `Router` is Go's interface value, where an `errRouter` is the case `err`, and a registration
-- that panics ends the program. Handlers, templates and action functions are of abstract types.
pub mod Resources
pub mod Errors
pub mod Table
pub mod Trees
pub mod Versions
pub mod Cloning
pub mod Selection
mod Tests
mod VersionTests
use tracks.Common.{
  String, Bool, true, false, some, List, [], ◌∷◌, map, if◌then◌else◌, ◌==◌, string_eq,
}
use Prim.Native.String.{◌++◌}
use mathlib.Core.List
use text.Mathlib.Text.{starts_with}
use tracks.Common.Text.{has_suffix, trim_suffix}
use tracks.Common.Split.{split_on}
use tracks.Common.Result.{Result, ok, err, panicked, ◌>>=◌}
use tracks.Middleware.{Middleware, Middlewares, wrap}
use tracks.Middleware

-- os.Stat and the handlers of net/http for files; `set_cache_control` sets the header and calls the next
-- handler.
pub record Files (H : Type 0) : Type 0 where
  pub is_file : String → Bool
  pub serve_file : String → H
  pub file_server : String → H
  pub strip_prefix : String → H → H
  pub set_cache_control : String → H → H

pub record StaticConfig : Type 0 where
  pub cache_control : String
  pub strip_prefix : Bool
  pub disable_listing : Bool

-- What the registration of routes calls: strings.ToLower, strcase.ToSnake, filepath.Join,
-- `Templates.Load`, `ActionFunc.wrap`, and http.ServeMux, which panics on a pattern that it does not accept
-- beside those it has.
pub record Env (E H A T : Type 0) : Type 0 where
  pub to_lower : String → String
  pub to_snake : String → String
  pub path_join : String → String → String
  pub load : (layout controller action : String) → Result E T
  pub handle : (controller action : String) → A → T → H
  pub accepts : List String → String → Bool
  pub files : Files H

pub record RouterState (E H : Type 0) : Type 0 where
  pub mux : List (String × H)
  pub global_middlewares : Middlewares E H
  pub request_middlewares : Middlewares E H

abbrev pub Router : Type 0 → Type 0 → Type 0
Router E H = Result E (RouterState E H)

abbrev pub MiddlewareBuilder : Type 0 → Type 0 → Type 0
MiddlewareBuilder E H = RouterState E H → Middleware E H

pub record Action (E H A : Type 0) : Type 0 where
  pub method : String
  pub path : String
  pub controller : String
  pub name : String
  pub func : A
  pub layout : String
  pub middlewares : List (MiddlewareBuilder E H)

abbrev pub default_layout : String
default_layout = "application"

abbrev pub patterns : {E H : Type 0} → RouterState E H → List String
patterns r = map (λ route. route.0) r.mux

-- A text without the suffix, where it has it: `if strings.HasSuffix { strings.TrimSuffix }`.
abbrev pub without_suffix : String → String → String
without_suffix suffix path = if has_suffix path suffix then trim_suffix path suffix else path

abbrev pub with_slash : String → String
with_slash path = if starts_with path "/" then path else "/" ++ path

unfoldable pub normalize : (String → String) → String → String
normalize to_lower path =
    with_slash
      (trim_suffix (without_suffix "controller" (without_suffix "resource" (to_lower path))) "_")

-- `if err != nil { panic(err) }`
abbrev pub or_panic : {E B : Type 0} → Result E B → Result E B
or_panic (ok b) = ok b
or_panic (err e) = panicked
or_panic panicked = panicked

-- The controller and the action of a view "controller#action"; more parts panic.
abbrev pub view_of : {E : Type 0} → List String → Result E (String × String)
view_of [] = ok ("default", "")
view_of (action ∷ []) = ok ("default", action)
view_of (controller ∷ action ∷ []) = ok (if controller == "" then "default" else controller, action)
view_of (_ ∷ _ ∷ _ ∷ _) = panicked

module _ {E H A T : Type 0} (env : Env E H A T) where
  -- `r.mux.Handle(pattern, h)`
  unfoldable pub handle_pattern : RouterState E H → String → H → Router E H
  handle_pattern r pattern h =
      if env.accepts (patterns r) pattern
      then ok (record r { mux = List.◌++◌ r.mux ((pattern, h) ∷ []) })
      else panicked

  unfoldable pub serve : RouterState E H → Action E H A → Router E H
  unfolding normalize handle_pattern
  serve r a = do
    tpl ← env.load (if a.layout == "" then default_layout else a.layout) a.controller a.name
    h ← wrap r.request_middlewares r (env.handle a.controller a.name a.func tpl) a.middlewares
    handle_pattern r (a.method ++ (" " ++ normalize env.to_lower a.path)) h

  -- `GetFunc`, `PostFunc`, `PutFunc`, `PatchFunc` and `DeleteFunc`, which differ in the method.
  abbrev pub serve_func :
      RouterState E H
      → (method path controller action : String) → A
      → List (MiddlewareBuilder E H)
      → Router E H
  serve_func r method path controller action a mws = serve r (record {
    method = method;
    path = path;
    controller = controller;
    name = action;
    func = a;
    layout = default_layout;
    middlewares = mws;
  })

  -- `WebSocket`, which panics where another registration would give an error.
  unfoldable pub web_socket :
      RouterState E H → String → H → List (MiddlewareBuilder E H) → Router E H
  unfolding handle_pattern
  web_socket r path h mws =
      or_panic (wrap r.request_middlewares r h mws) >>= handle_pattern r ("GET " ++ with_slash path)

  -- `blank` is the function that gives "".
  unfoldable pub page : A → RouterState E H → (path view : String) → Router E H
  unfolding split_on serve
  page blank r path view = view_of (split_on b'#' view) >>= λ (controller, action).
      serve_func r "GET" path controller action blank []

  abbrev pub static_path : String → String → String
  static_path url_path dir =
      let path = with_slash url_path in
      if env.files.is_file dir then path else if has_suffix path "/" then path else path ++ "/"

  -- The file server is the same whether the listing is disabled or not.
  unfoldable pub static_handler : String → String → StaticConfig → H
  static_handler path dir config =
      let served =
        if env.files.is_file dir
        then env.files.serve_file dir
        else if config.strip_prefix
        then env.files.strip_prefix path (env.files.file_server dir)
        else env.files.file_server dir in
      if config.cache_control == ""
      then served
      else env.files.set_cache_control config.cache_control served

  unfoldable pub static_with_config : RouterState E H → String → String → StaticConfig → Router E H
  unfolding handle_pattern static_handler
  static_with_config r url_path dir config =
      let path = static_path url_path dir in
      handle_pattern r ("GET " ++ path) (static_handler path dir config)

  abbrev pub static : RouterState E H → String → String → Router E H
  static r url_path dir =
      static_with_config r url_path dir
        (record { cache_control = ""; strip_prefix = true; disable_listing = false })

-- `Clone`: a router with no routes and no global middlewares.
unfoldable pub clone : {E H : Type 0} → RouterState E H → RouterState E H
clone r = record r { mux = []; global_middlewares = record { l = [] } }

-- One call of a method of `Router` that registers something. The middlewares of the framework are global
-- ones: `RateLimit`, `CSRFProtection`, `DomainDatabase`, `DomainScopedRepositories`, `VersionFromHeader` and
-- `VersionFromQuery` call `GlobalMiddleware`.
pub data Call (E H A : Type 0) : Type 0 where
  serve_call : Action E H A → Call E H A
  web_socket_call : (path : String) → H → List (MiddlewareBuilder E H) → Call E H A
  page_call : (path view : String) → A → Call E H A
  static_call : (url_path dir : String) → StaticConfig → Call E H A
  redirect_call : (origin : String) → H → Call E H A
  global_middleware_call : Middleware E H → Call E H A
  request_middleware_call : Middleware E H → Call E H A

module _ {E H A T : Type 0} (env : Env E H A T) where
  unfoldable pub register : RouterState E H → Call E H A → Router E H
  unfolding serve web_socket page static_with_config handle_pattern
  register r (serve_call a) = serve env r a
  register r (web_socket_call path h mws) = web_socket env r path h mws
  register r (page_call path view blank) = page env blank r path view
  register r (static_call url_path dir config) = static_with_config env r url_path dir config
  register r (redirect_call origin h) = handle_pattern env r origin h
  register r (global_middleware_call m) =
      ok (record r { global_middlewares = Middleware.apply r.global_middlewares (some m) })
  register r (request_middleware_call m) =
      ok (record r { request_middlewares = Middleware.apply r.request_middlewares (some m) })

  -- The methods of `errRouter` give the router back.
  unfoldable pub err_register : E → Call E H A → Router E H
  err_register e call = err e

  -- A call on the interface.
  unfoldable pub call : Router E H → Call E H A → Router E H
  unfolding register err_register
  call (ok r) c = register r c
  call (err e) c = err_register e c
  call panicked c = panicked

  unfoldable pub call_all : Router E H → List (Call E H A) → Router E H
  unfolding call
  call_all r [] = r
  call_all r (c ∷ cs) = call_all (call r c) cs

-- `Handler`: `serve_mux` makes a handler of the routes.
unfoldable pub handler : {E H : Type 0} → (List (String × H) → H) → Router E H → Result E H
handler serve_mux router =
    router >>= λ r. wrap {R = Unit {0}} r.global_middlewares tt (serve_mux r.mux) []
