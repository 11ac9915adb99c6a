-- ===== src/Router/Selection/Tests.antt =====
-- A router with two versions.
use tracks.Common.{String, ◌≡◌, refl, true, false, List, [], ◌∷◌, if◌then◌else◌, ◌==◌, string_eq}
use tracks.Common.Result.{ok, err}
use tracks.Middleware.{apply, wrap, wrap_down}
use tracks.Router.{
  Env, RouterState, handle_pattern, handler, Call, redirect_call, register, call, call_all,
}
use tracks.Router.Errors.{empty_router}
use tracks.Router.Selection.{
  Http, Selector, by_header, by_query, version_from, Version, first_selected,
  handler-first_selected, version_call,
}

-- A request is its header "Version" and its parameter "v".
abbrev Req : Type 0
Req = String × String

abbrev http : Http Req String
http = record {
  header_get = λ req name. if name == "Version" then req.0 else "";
  query_get = λ req name. if name == "v" then req.1 else "";
  serve_mux = λ mux req. elim mux [ [] ↦ "not found" | route ∷ routes ↦ route.1 req ];
}

abbrev env : Env String (Req → String) String String
env = record {
  to_lower = λ s. s;
  to_snake = λ s. s;
  path_join = λ root path. path;
  load = λ layout controller action. ok controller;
  handle = λ controller action f tpl req. f;
  accepts = λ ps p. true;
  files = record {
    is_file = λ dir. false;
    serve_file = λ dir req. dir;
    file_server = λ dir req. dir;
    strip_prefix = λ path h. h;
    set_cache_control = λ value h. h;
  };
}

abbrev routes : String → RouterState String (Req → String)
routes name = record empty_router { mux = ("GET /", λ req. name) ∷ [] }

abbrev version_named : Selector → String → Version http String
version_named s name = record { selector = s; router = ok (routes name); handle = λ req. name }

abbrev versions : List (Version http String)
versions =
    version_named (by_header "Version" "2") "second" ∷ version_named (by_query "v" "1") "first" ∷ []

abbrev calls : List (Call String (Req → String) String)
calls =
    version_call http (by_header "Version" "2") (ok (routes "second"))
    ∷ redirect_call "GET /" (λ req. "current")
    ∷ version_call http (by_query "v" "1") (ok (routes "first"))
    ∷ []

abbrev served : RouterState String (Req → String)
served = record {
  mux = ("GET /", λ req. "current") ∷ [];
  global_middlewares = record {
    l =
        version_from http (by_header "Version" "2") (ok (routes "second"))
        ∷ version_from http (by_query "v" "1") (ok (routes "first"))
        ∷ [];
  };
  request_middlewares = record { l = [] };
}

handler-first_selected_example :
    handler http.serve_mux (ok served)
    ≡ ok (first_selected http versions (http.serve_mux served.mux))
unfolding call_all call register handle_pattern apply handler wrap wrap_down
handler-first_selected_example =
    handler-first_selected http env calls served versions refl refl (refl, (refl, tt))

-- A request for both versions is served by the one that was registered first.
both : first_selected http versions (http.serve_mux served.mux) ("2", "1") ≡ "second"
both = refl

neither : first_selected http versions (http.serve_mux served.mux) ("1", "2") ≡ "current"
neither = refl

-- The error of a version's router is that of the router.
failing_version :
    handler http.serve_mux (
      call_all env
        (ok empty_router)
        (version_call http (by_query "v" "1") (err "no template") ∷ []))
    ≡ err "no template"
unfolding call_all call register apply handler wrap wrap_down version_from
failing_version = refl
