-- ===== src/Router/Tests.antt =====
-- Registrations of router.go, over handlers that are texts.
use tracks.Common.{
  String, ◌≡◌, refl, Bool, true, false, not, ◌||◌, none, some, List, [], ◌∷◌, if◌then◌else◌, ◌==◌,
  string_eq,
}
use Prim.Native.String.{◌++◌}
use tracks.Common.Text.{has_suffix, trim_suffix}
use tracks.Common.Split.{split_on}
use tracks.Common.Result.{ok, err, panicked}
use tracks.Middleware.{Middleware, apply, wrap, wrap_down}
use tracks.Middleware.Order.{nest}
use tracks.Router.{
  Files, static_handler, Env, RouterState, Router, MiddlewareBuilder, Action, patterns, normalize,
  Call, serve_call, web_socket_call, page_call, static_call, redirect_call, global_middleware_call,
  request_middleware_call, handle_pattern, serve, web_socket, page, static_with_config, register,
  call, call_all, handler,
}
use tracks.Router.Resources.{
  Functions, Resource, resource, absent, subresources, nil, cons, Controller, controllers_at,
  subcontrollers_at, resource_at_path, subresources_at, resources_at,
}
use tracks.Router.Errors.{AreAccepted, empty_router, handler-globals_of}
use tracks.Router.Trees.{resource_at_path-resource_table}
use tracks.Router.Table.{
  Entry, Registers, resource_table, subresource_table, resources_table, HasNoSubcontrollers,
  HaveNoneBelow, HaveNoSubcontrollers,
}

abbrev label : String → Middleware String String
label name h = ok (name ++ ("(" ++ (h ++ ")")))

abbrev failing : Middleware String String
failing h = err "no database"

abbrev holds : List String → String → Bool
holds [] p = false
holds (q ∷ qs) p = q == p || holds qs p

abbrev files : Files String
files = record {
  is_file = λ dir. has_suffix dir ".txt";
  serve_file = λ dir. "file " ++ dir;
  file_server = λ dir. "files " ++ dir;
  strip_prefix = λ path h. "strip " ++ (path ++ (": " ++ h));
  set_cache_control = λ value h. value ++ (", " ++ h);
}

-- Lower-case texts, and a mux that refuses a pattern it has. The template of "missing" is not there.
abbrev env : Env String String String String
env = record {
  to_lower = λ s. s;
  to_snake = λ s. s;
  path_join = λ root path. trim_suffix root "/" ++ path;
  load =
      λ layout controller action. if action == "missing" then err "no template" else ok controller;
  handle = λ controller action f tpl. f;
  accepts = λ ps p. not (holds ps p);
  files = files;
}

abbrev start : RouterState String String
start = empty_router

abbrev action :
    String → String → List (MiddlewareBuilder String String) → Action String String String
action path name mws = record {
  method = "GET";
  path = path;
  controller = "pages";
  name = name;
  func = name;
  layout = "";
  middlewares = mws;
}

normalize-human_resource : normalize (λ s. s) "human_resource" ≡ "/human"
unfolding normalize has_suffix trim_suffix
normalize-human_resource = refl

normalize-pages_controller : normalize (λ s. s) "/pages_controller" ≡ "/pages"
unfolding normalize has_suffix trim_suffix
normalize-pages_controller = refl

-- Both lists of middlewares round a page.
abbrev calls : List (Call String String String)
calls =
    request_middleware_call (label "log")
    ∷ global_middleware_call (label "session")
    ∷ serve_call (action "/about" "about" ((λ r. label "csrf") ∷ []))
    ∷ global_middleware_call (label "gzip")
    ∷ page_call "/home" "site#home" "blank"
    ∷ static_call "assets" "public"
        (record { cache_control = "no-store"; strip_prefix = true; disable_listing = true })
    ∷ redirect_call "GET /old" "see other"
    ∷ []

abbrev served : RouterState String String
served = record {
  mux =
      ("GET /about", "log(csrf(about))")
      ∷ ("GET /home", "log(blank)")
      ∷ ("GET /assets/", "no-store, strip /assets/: files public")
      ∷ ("GET /old", "see other")
      ∷ [];
  global_middlewares = record { l = label "session" ∷ label "gzip" ∷ [] };
  request_middlewares = record { l = label "log" ∷ [] };
}

call_all-calls : call_all env (ok empty_router) calls ≡ ok served
unfolding call_all call register serve page static_with_config static_handler handle_pattern
    normalize split_on has_suffix trim_suffix apply wrap wrap_down
call_all-calls = refl

handler-globals_of_example :
    AreAccepted env (patterns served)
    × (handler (λ mux. "mux") (ok served) ≡ nest (label "session" ∷ label "gzip" ∷ []) "mux")
handler-globals_of_example = handler-globals_of env (λ mux. "mux") calls served call_all-calls

register-missing : register env served (serve_call (action "/x" "missing" [])) ≡ err "no template"
unfolding register serve
register-missing = refl

abbrev functions : Functions String
functions = record {
  index = "index";
  new = "new";
  create = "create";
  show = "show";
  edit = "edit";
  update = "update";
  destroy = "destroy";
}

-- Users with posts below them.
abbrev posts : Resource String String String
posts = resource "post_resource" functions absent none

abbrev users : Resource String String String
users = resource "user" functions (subresources (cons posts nil)) none

-- Templates that are all there.
abbrev open_env : Env String String String String
open_env = record env { load = λ layout controller action. ok controller }

abbrev auth : List (MiddlewareBuilder String String)
auth = (λ r. label "auth") ∷ []

abbrev template : String → String → String → String
template layout controller action = controller

abbrev users_table : List (Entry String)
users_table =
    resource_table open_env template (λ h. "auth" ++ ("(" ++ (h ++ ")"))) (λ h. h) "/" users

table-users :
    users_table
    ≡ ("GET /user/", "auth(index)")
      ∷ ("GET /user/new", "auth(new)")
      ∷ ("POST /user/", "auth(create)")
      ∷ ("GET /user/{user_id}", "auth(show)")
      ∷ ("GET /user/{user_id}/edit", "auth(edit)")
      ∷ ("PUT /user/{user_id}", "auth(update)")
      ∷ ("POST /user/{user_id}", "auth(update)")
      ∷ ("DELETE /user/{user_id}", "auth(destroy)")
      ∷ ("GET /user/{user_id}/post/", "index")
      ∷ ("GET /user/{user_id}/post/new", "new")
      ∷ ("POST /user/{user_id}/post/", "create")
      ∷ ("GET /user/{user_id}/post/{post_id}", "show")
      ∷ ("GET /user/{user_id}/post/{post_id}/edit", "edit")
      ∷ ("PUT /user/{user_id}/post/{post_id}", "update")
      ∷ ("POST /user/{user_id}/post/{post_id}", "update")
      ∷ ("DELETE /user/{user_id}/post/{post_id}", "destroy")
      ∷ []
unfolding resource_table subresource_table resources_table normalize has_suffix trim_suffix
table-users = refl

resource_at_path-resource_table_example :
    Registers open_env empty_router users_table
      (resource_at_path open_env empty_router "/" users auth)
unfolding HasNoSubcontrollers HaveNoneBelow HaveNoSubcontrollers wrap wrap_down resource_table
    subresource_table resources_table normalize trim_suffix has_suffix
resource_at_path-resource_table_example =
    resource_at_path-resource_table open_env template (λ h. "auth" ++ ("(" ++ (h ++ ")"))) (λ h. h)
      empty_router "/" users auth (tt, tt) (λ layout controller action. refl) (λ r h. refl)
      (λ r h. refl)
      (
        refl,
        (
          refl,
          (
            refl,
            (
              refl,
              (
                refl,
                (
                  refl,
                  (
                    refl,
                    (refl, (refl, (refl, (refl, (refl, (refl, (refl, (refl, (refl, tt))))))))),
                  ),
                ),
              ),
            ),
          ),
        ),
      )

-- A subcontroller that registers one page at its path.
abbrev archive : Controller String String
archive r path mws = handle_pattern env r ("GET " ++ (path ++ "archive")) "archive"

abbrev patterns_of : Router String String → List String
patterns_of (ok r) = patterns r
patterns_of (err e) = []
patterns_of panicked = []

-- Below a resource with subresources, a subcontroller stands below the parameter twice.
archive-twice :
    patterns_of (
      resource_at_path env empty_router "/"
        (resource "user" functions (subresources nil) (some (archive ∷ [])))
        [])
    ≡ "GET /user/" ∷ "GET /user/new" ∷ "POST /user/" ∷ "GET /user/{user_id}"
      ∷ "GET /user/{user_id}/edit" ∷ "PUT /user/{user_id}" ∷ "POST /user/{user_id}"
      ∷ "DELETE /user/{user_id}" ∷ "GET /user/{user_id}//{user_id}/archive" ∷ []
unfolding resource_at_path subresources_at resources_at subcontrollers_at controllers_at call_all
    call register serve handle_pattern normalize has_suffix trim_suffix wrap wrap_down
archive-twice = refl

-- A web socket whose middleware fails panics, and another route gives the error.
socket-panics :
    call env (ok empty_router) (web_socket_call "/ws" "socket" ((λ r. failing) ∷ [])) ≡ panicked
unfolding call register web_socket wrap wrap_down
socket-panics = refl
