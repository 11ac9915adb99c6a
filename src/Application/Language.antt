-- ===== src/Application/Language.antt =====
-- The language of a request in an application, and what it shows of it.
use tracks.Common.{
  ℕ, String, ◌≡◌, refl, ◌∙◌, Bool, true, false, Option, none, some, [], ◌∷◌, if◌then◌else◌, ◌==◌,
  nat_eq, string_eq,
}
use Prim.Native.String.{◌++◌ as append}
use mathlib.Core.Path.{subst}
use tracks.Http.{Request}
use tracks.Common.Dict.{Dict, get, put, get-put}
use tracks.Common.Result.{ok, ◌>>=◌}
use tracks.Middleware
use tracks.Session.Data.{SessionData}
use tracks.Translations.Language.{detect_language}
use tracks.Application.{
  Context, Config, AppEnv, Handler, add_view_var, view_var, canonical, queue_layer, cache_layer,
  database_layer, language_layer, base_of, new_from_config, app_handler, use_layer, session_layer,
  queue_of, domain_layer, canonical_layer,
}

-- What the middlewares make of the context of a request, in their order.
abbrev pub with_queue : Option ℕ → Context → Context
with_queue none c = c
with_queue (some workers) c = queue_layer workers c

abbrev pub with_cache : Bool → Context → Context
with_cache false c = c
with_cache true c = cache_layer c

abbrev pub served : AppEnv → Config → (Context → SessionData) → Context → Context
served env conf load c = session_layer load (
    canonical_layer (
      language_layer (
        database_layer (
          domain_layer env.split_host_port
            (with_cache (conf.cache_driver == "memory") (with_queue (queue_of conf) c))))))

base_lem :
    (split : String → Option String) (load : Context → SessionData) (q : Option ℕ) (b : Bool)
    → app_handler (use_layer (base_of split q b) (session_layer load))
      ≡ ok (λ c. session_layer load (
          canonical_layer
            (language_layer (database_layer (domain_layer split (with_cache b (with_queue q c)))))))
unfolding app_handler base_of Middleware.apply Middleware.wrap Middleware.wrap_down
base_lem split load none false = refl
base_lem split load none true = refl
base_lem split load (some workers) false = refl
base_lem split load (some workers) true = refl

view_var-add_view_var :
    (c : Context) (key value j : String)
    → view_var (add_view_var c key value) j ≡ (if key == j then some value else view_var c j)
unfolding view_var add_view_var
view_var-add_view_var c key value j = go c.view_vars
  where
    go :
        (vars : Option (Dict String String))
        → elim (elim vars as (λ z. Option (Dict String String)) [
          | none ↦ some ((key, value) ∷ [])
          | some m ↦ some (put key value m)
        ]) [ none ↦ none | some m ↦ get j m ]
          ≡ (if key == j then some value else elim vars [ none ↦ none | some m ↦ get j m ])
    go none = unfold get in refl
    go (some m) = get-put key j value m

canonical_vars :
    (c : Context)
    → (view_var (canonical_layer c) "locale" ≡ some c.language)
      × (view_var (canonical_layer c) "canonical_url"
          ≡ some (canonical (append "https://floralynx.com" c.request.path) c.language))
unfolding canonical_layer
canonical_vars c = (
  rw (
    view_var-add_view_var, view_var-add_view_var, view_var-add_view_var, view_var-add_view_var,
    view_var-add_view_var,
  ),
  rw view_var-add_view_var,
)

kept_lem :
    (split : String → Option String) (q : Option ℕ) (b : Bool) (c : Context)
    → ((domain_layer split (with_cache b (with_queue q c))).session ≡ c.session)
      × ((domain_layer split (with_cache b (with_queue q c))).request ≡ c.request)
unfolding domain_layer add_view_var
kept_lem split none false c = (refl, refl)
kept_lem split none true c = (refl, refl)
kept_lem split (some n) false c = (refl, refl)
kept_lem split (some n) true c = (refl, refl)

canonical_language : (c : Context) → (canonical_layer c).language ≡ c.language
unfolding canonical_layer add_view_var
canonical_language c = refl

-- A context has the language that is detected, and shows it to the pages.
abbrev Shows : Context → Request → Option SessionData → Type 0
Shows c r session =
    let lang = detect_language r session "en" in
    (c.language ≡ lang)
    × (view_var c "locale" ≡ some lang)
    × (view_var c "canonical_url" ≡ some (canonical (append "https://floralynx.com" r.path) lang))

-- What the last three middlewares make of a context.
module _ (load : Context → SessionData) (c : Context) where
  abbrev ending : Context
  ending = session_layer load (canonical_layer (language_layer (database_layer c)))

  ending_lem : Shows ending c.request c.session
  unfolding view_var
  ending_lem = (
    canonical_language (language_layer (database_layer c)),
    (canonical_vars (language_layer (database_layer c))).0,
    (canonical_vars (language_layer (database_layer c))).1,
  )

module _ (env : AppEnv) (conf : Config) where
  app_handler-served :
      (load : Context → SessionData)
      → env.database ≡ ok tt
      → env.sessions ≡ ok load
      → (new_from_config env conf >>= app_handler) ≡ ok (served env conf load)
  unfolding new_from_config
  app_handler-served load d s =
      rw (d, s) (base_lem env.split_host_port load (queue_of conf) (conf.cache_driver == "memory"))

  -- In an application that starts, the language of a request is that of its query, its cookie or its
  -- header, or "en": the language in its session is never looked at, since the session comes into the
  -- context only after the language is detected. The pages see that language as `locale`, and in the
  -- canonical URL unless it is "en" or empty.
  pub new_from_config-language :
      (load : Context → SessionData) (h : Handler) (c : Context)
      → env.database ≡ ok tt
      → env.sessions ≡ ok load
      → (new_from_config env conf >>= app_handler) ≡ ok h
      → c.session ≡ none
      → let lang = detect_language c.request none "en" in
        ((h c).language ≡ lang)
        × (view_var (h c) "locale" ≡ some lang)
        × (view_var (h c) "canonical_url"
            ≡ some (canonical (append "https://floralynx.com" c.request.path) lang))
  new_from_config-language load h c d s e fresh =
      let same : served env conf load ≡ h = cc (app_handler-served load d s, e) in
      let before =
        domain_layer env.split_host_port
          (with_cache (conf.cache_driver == "memory") (with_queue (queue_of conf) c)) in
      let (sess, req) =
        kept_lem env.split_host_port (queue_of conf) (conf.cache_driver == "memory") c in
      let start : Shows (served env conf load c) before.request before.session =
        ending_lem load before in
      let named : Shows (served env conf load c) c.request before.session =
        subst (λ r. Shows (served env conf load c) r before.session) req start in
      let unseen : Shows (served env conf load c) c.request none =
        subst (Shows (served env conf load c) c.request) (sess ∙ fresh) named in
      subst (λ (g : Handler). Shows (g c) c.request none) same unseen
