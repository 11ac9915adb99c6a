-- ===== src/Router/Errors.antt =====
-- What holds of every sequence of registrations in router.go: the first error is the result, the patterns
-- are accepted, and the global middlewares keep their order.
use tracks.Common.{String, ◌≡◌, refl, ap, ◌∙◌, inl, inr, true, List, [], ◌∷◌, ◌++◌, Bool-cases}
use tracks.Common.Result.{ok, err, panicked, OnOk, OnOk->>=}
use mathlib.Core.Path.{subst}
use mathlib.Core.List.{append-nil, append_assoc, map-append}
use tracks.Common.Split.{split_on}
use tracks.Middleware.{Middleware, Middlewares}
use tracks.Middleware
use tracks.Middleware.Order.{nest, wrap-nest}
use tracks.Router.{
  default_layout, Env, RouterState, Router, Action, patterns, handle_pattern, serve, web_socket,
  or_panic, view_of, page, static_with_config, static_handler, Call, serve_call, web_socket_call,
  page_call, static_call, redirect_call, global_middleware_call, request_middleware_call, register,
  err_register, call, call_all, handler,
}

-- A new router, before its first registration.
abbrev pub empty_router : {E H : Type 0} → RouterState E H
empty_router = record {
  mux = [];
  global_middlewares = record { l = [] };
  request_middlewares = record { l = [] };
}

module _ {E H A T : Type 0} (env : Env E H A T) where
  call_all_append :
      (r : Router E H) (cs ds : List (Call E H A))
      → call_all env r (cs ++ ds) ≡ call_all env (call_all env r cs) ds
  unfolding call_all
  call_all_append r [] ds = refl
  call_all_append r (c ∷ cs) ds = call_all_append (call env r c) cs ds

  call_all_err : (e : E) (cs : List (Call E H A)) → call_all env (err e) cs ≡ err e
  unfolding call_all call err_register
  call_all_err e [] = refl
  call_all_err e (c ∷ cs) = call_all_err e cs

  -- The error of the first registration that fails is what `Handler` gives, whatever is registered after
  -- it.
  pub handler_first_error :
      (serve_mux : List (String × H) → H) (r r' : RouterState E H) (cs : List (Call E H A))
      (c : Call E H A) (later : List (Call E H A)) (e : E)
      → call_all env (ok r) cs ≡ ok r'
      → register env r' c ≡ err e
      → handler serve_mux (call_all env (ok r) (cs ++ c ∷ later)) ≡ err e
  unfolding handler call_all call
  handler_first_error serve_mux r r' cs c later e before fails =
      rw (call_all_append, before, fails, call_all_err) refl

  -- The patterns of a mux, each accepted beside those before it.
  pub data AreAccepted : List String → Type 0 where
    none_yet : AreAccepted []
    one_more :
        (ps : List String) (p : String)
        → AreAccepted ps
        → env.accepts ps p ≡ true
        → AreAccepted (ps ++ p ∷ [])

  abbrev pub IsServable : RouterState E H → Type 0
  IsServable r = AreAccepted (patterns r)

  -- The middlewares that calls add to the global ones.
  abbrev pub global_of : Call E H A → List (Middleware E H)
  global_of (global_middleware_call m) = m ∷ []
  global_of _ = []

  abbrev pub globals_of : List (Call E H A) → List (Middleware E H)
  globals_of [] = []
  globals_of (c ∷ cs) = global_of c ++ globals_of cs

  -- A router with accepted patterns and the global middlewares `ms`.
  pub record Registered (ms : List (Middleware E H)) (r : RouterState E H) : Type 0 where
    pub servable : AreAccepted (patterns r)
    pub globals : r.global_middlewares.l ≡ ms

  handle_pattern-Registered :
      (ms : List (Middleware E H)) (r : RouterState E H) (p : String) (h : H)
      → Registered ms r
      → OnOk (Registered ms) (handle_pattern env r p h)
  unfolding handle_pattern
  handle_pattern-Registered ms r p h s = elim (Bool-cases (env.accepts (patterns r) p)) [
    | inl accepted ↦ rw accepted (record {
      servable =
          rw (map-append _ r.mux ((p, h) ∷ [])) (one_more (patterns r) p s.servable accepted);
      globals = s.globals;
    })
    | inr refused ↦ rw refused tt
  ]

  serve-Registered :
      (ms : List (Middleware E H)) (r : RouterState E H) (a : Action E H A)
      → Registered ms r
      → OnOk (Registered ms) (serve env r a)
  unfolding serve
  serve-Registered ms r a s = OnOk->>= _ (env.load _ a.controller a.name) _ λ tpl.
      OnOk->>= _ (Middleware.wrap r.request_middlewares r _ a.middlewares) _
        λ h. handle_pattern-Registered ms r _ h s

  web_socket-Registered :
      (ms : List (Middleware E H)) (r : RouterState E H) (path : String) (h : H)
      (mws : List (RouterState E H → Middleware E H))
      → Registered ms r
      → OnOk (Registered ms) (web_socket env r path h mws)
  unfolding web_socket
  web_socket-Registered ms r path h mws s =
      OnOk->>= _ (or_panic (Middleware.wrap r.request_middlewares r h mws)) _
        λ h'. handle_pattern-Registered ms r _ h' s

  register-Registered :
      (ms : List (Middleware E H)) (r : RouterState E H) (c : Call E H A)
      → Registered ms r
      → OnOk (Registered (ms ++ global_of c)) (register env r c)
  unfolding register page static_with_config static_handler Middleware.apply
  register-Registered ms r (serve_call a) s = rw (append-nil ms) (serve-Registered ms r a s)
  register-Registered ms r (web_socket_call path h mws) s =
      rw (append-nil ms) (web_socket-Registered ms r path h mws s)
  register-Registered ms r (page_call path view blank) s = rw (append-nil ms) (
      OnOk->>= _ (view_of {E = E} (split_on b'#' view)) _ λ parts.
        serve-Registered ms r
          (record {
            method = "GET";
            path = path;
            controller = parts.0;
            name = parts.1;
            func = blank;
            layout = default_layout;
            middlewares = [];
          })
          s)
  register-Registered ms r (static_call url_path dir config) s =
      rw (append-nil ms) (handle_pattern-Registered ms r _ _ s)
  register-Registered ms r (redirect_call origin h) s =
      rw (append-nil ms) (handle_pattern-Registered ms r origin h s)
  register-Registered ms r (global_middleware_call m) s = record {
    servable = s.servable;
    globals = ap (λ l. l ++ m ∷ []) s.globals;
  }
  register-Registered ms r (request_middleware_call m) s =
      rw (append-nil ms) (record { servable = s.servable; globals = s.globals })

  call-Registered :
      (ms : List (Middleware E H)) (r : Router E H) (c : Call E H A)
      → OnOk (Registered ms) r
      → OnOk (Registered (ms ++ global_of c)) (call env r c)
  unfolding call err_register
  call-Registered ms (ok r) c s = register-Registered ms r c s
  call-Registered ms (err e) c s = tt
  call-Registered ms panicked c s = tt

  call_all-Registered :
      (ms : List (Middleware E H)) (r : Router E H) (cs : List (Call E H A))
      → OnOk (Registered ms) r
      → OnOk (Registered (ms ++ globals_of cs)) (call_all env r cs)
  unfolding call_all
  call_all-Registered ms r [] s = rw (append-nil ms) s
  call_all-Registered ms r (c ∷ cs) s =
      rw (← append_assoc ms (global_of c) (globals_of cs))
        (call_all-Registered (ms ++ global_of c) (call env r c) cs (call-Registered ms r c s))

  -- Whatever is registered on a new router, in whatever order: if no registration fails, every pattern of
  -- the mux was accepted beside those before it, and `Handler` puts the global middlewares round the mux,
  -- the first that was registered outermost.
  pub handler-globals_of :
      (serve_mux : List (String × H) → H) (cs : List (Call E H A)) (r : RouterState E H)
      → call_all env (ok empty_router) cs ≡ ok r
      → AreAccepted (patterns r)
        × (handler serve_mux (ok r) ≡ nest (globals_of cs) (serve_mux r.mux))
  unfolding handler
  handler-globals_of serve_mux cs r e =
      let s : OnOk (Registered (globals_of cs)) (call_all env (ok empty_router) cs) =
        call_all-Registered [] (ok empty_router) cs
          (record { servable = none_yet; globals = refl }) in
      let t = subst (OnOk (Registered (globals_of cs))) e s in
      (
        t.servable,
        wrap-nest {R = Unit {0}} r.global_middlewares tt (serve_mux r.mux) []
            ∙ ap (λ ms. nest ms (serve_mux r.mux)) (append-nil _ ∙ t.globals),
      )
