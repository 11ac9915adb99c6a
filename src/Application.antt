-- ===== src/Application.antt =====
-- The router of an application as `NewFromConfig` of router.go makes it: its cache, its queue and its
-- global middlewares, which are the values that they put into the context of a request.
pub mod Language
mod Tests
use tracks.Common.{
  ℕ, String, Bool, true, not, ◌&&◌, Option, none, some, [], ◌∷◌, if◌then◌else◌, ◌==◌, nat_eq,
  string_eq,
}
use Prim.Native.String.{◌++◌ as append}
use tracks.Common.Dict
use tracks.Common.Dict.{Dict}
use tracks.Common.Result.{Result, ok, err, panicked, ◌>>=◌}
use tracks.Http.{Request}
use tracks.Middleware
use tracks.Middleware.{Middlewares}
use tracks.Session.Data.{SessionData}
use tracks.Translations.Language.{detect_language}

-- The request with its host, and the values of its context. A queue is its number of workers.
pub record Context : Type 0 where
  pub request : Request
  pub host : String
  pub queue : Option ℕ
  pub has_cache : Bool
  pub domain : String
  pub has_database : Bool
  pub language : String
  pub view_vars : Option (Dict String String)
  pub session : Option SessionData

pub record Config : Type 0 where
  pub cache_driver : String
  pub jobs_driver : String
  pub workers : ℕ

-- What the code outside this part gives: the database and the middleware of the sessions, or their
-- errors, and `net.SplitHostPort`. Errors of the tracing and of the translations are only logged.
pub record AppEnv : Type 0 where
  pub database : Result String (Unit {0})
  pub sessions : Result String (Context → SessionData)
  pub split_host_port : String → Option String

-- `AddViewVar`
unfoldable pub add_view_var : Context → String → String → Context
add_view_var c key value = record c {
  view_vars = elim c.view_vars [
    | none ↦ some ((key, value) ∷ [])
    | some vars ↦ some (Dict.put key value vars)
  ];
}

-- `ViewVar`
unfoldable pub view_var : Context → String → Option String
view_var c key = elim c.view_vars [ none ↦ none | some vars ↦ Dict.get key vars ]

-- The middlewares, by what they change before they call the next handler.
abbrev pub queue_layer : ℕ → Context → Context
queue_layer workers c = record c { queue = some workers }

abbrev pub cache_layer : Context → Context
cache_layer c = record c { has_cache = true }

abbrev pub host_of : Option String → String → String
host_of none host = host
host_of (some domain) host = domain

-- `DomainMiddleware`
unfoldable pub domain_layer : (String → Option String) → Context → Context
unfolding add_view_var
domain_layer split_host_port c =
    let domain = host_of (split_host_port c.host) c.host in
    add_view_var (record c { domain = domain }) "Domain" domain

abbrev pub database_layer : Context → Context
database_layer c = record c { has_database = true }

-- `i18n.Middleware(translator, "en")`
abbrev pub language_layer : Context → Context
language_layer c = record c { language = detect_language c.request c.session "en" }

abbrev pub canonical : (base lang : String) → String
canonical base lang =
    if not (lang == "en") && not (lang == "") then append base (append "?locale=" lang) else base

unfoldable pub canonical_layer : Context → Context
unfolding add_view_var
canonical_layer c =
    let base = append "https://floralynx.com" c.request.path in
    let c = add_view_var c "locale" c.language in
    let c = add_view_var c "canonical_en" base in
    let c = add_view_var c "canonical_fr" (append base "?locale=fr") in
    let c = add_view_var c "canonical_nl" (append base "?locale=nl") in
    add_view_var c "canonical_url" (canonical base c.language)

abbrev pub session_layer : (Context → SessionData) → Context → Context
session_layer load c = record c { session = some (load c) }

-- A handler is the context in which the request is served; tracing and `CatchAll` leave it as it is.
abbrev pub Handler : Type 0
Handler = Context → Context

abbrev pub layer : (Context → Context) → Middleware.Middleware String Handler
layer change next = ok (λ c. next (change c))

pub record App : Type 0 where
  pub queue : Option ℕ
  pub has_cache : Bool
  pub static_route : Option (String × String)
  pub global_middlewares : Middlewares String Handler

-- `r.GlobalMiddleware(m)`
abbrev pub use_layer : App → (Context → Context) → App
use_layer r change = record r {
  global_middlewares = Middleware.apply r.global_middlewares (some (layer change));
}

abbrev pub use_queue : App → App
use_queue r = elim r.queue [ none ↦ r | some workers ↦ use_layer r (queue_layer workers) ]

abbrev pub use_cache : App → App
use_cache r = if r.has_cache then use_layer r cache_layer else r

-- The queue of the configuration: five workers where it gives none.
abbrev pub queue_of : Config → Option ℕ
queue_of conf =
    if conf.jobs_driver == "memory"
    then some (if conf.workers == 0 then 5 else conf.workers)
    else none

-- The router with its middlewares but that of the sessions, which comes last.
unfoldable pub base_of : (String → Option String) → (queue : Option ℕ) (has_cache : Bool) → App
unfolding domain_layer canonical_layer Middleware.apply
base_of split_host_port queue has_cache =
    let r : App = record {
      queue = queue;
      has_cache = has_cache;
      static_route = none;
      global_middlewares = record { l = [] };
    } in
    let r = use_cache (use_queue (use_layer r (λ c. c))) in
    let r = use_layer (use_layer r (domain_layer split_host_port)) (λ c. c) in
    let r = record r { static_route = some ("/assets/", "public") } in
    use_layer (use_layer (use_layer r database_layer) language_layer) canonical_layer

abbrev pub base_router : AppEnv → Config → App
base_router env conf = base_of env.split_host_port (queue_of conf) (conf.cache_driver == "memory")

-- `NewFromConfig`
unfoldable pub new_from_config : AppEnv → Config → Result String App
unfolding base_of Middleware.apply
new_from_config env conf = env.database >>= λ _.
    env.sessions >>= λ load. ok (use_layer (base_router env conf) (session_layer load))

-- `Handler`, for the handler of the routes.
unfoldable pub app_handler : App → Result String Handler
app_handler r = Middleware.wrap {R = App} r.global_middlewares r (λ c. c) []
