-- ===== src/Authentication/Referer.antt =====
-- A login that began at a protected page: module.go and sessions.go of modules/authentication together.
use tracks.Common.{
  String, ◌≡◌, refl, ap, ◌∙◌, inl, inr, Bool, true, false, not, ◌||◌, none, some, List, ◌∷◌, arith,
  eq_iff, if◌then◌else◌, Bool-cases, ◌==◌, string_eq, keep,
}
use Prim.Native.String
use Prim.Native.String.{◌++◌}
use text.Mathlib.TextLemmas.{length-append}
use tracks.Common.Dict.{get-put, get-put_self}
use tracks.Session.Data.{
  SessionData, is_authenticated, authenticated, get_value, put_value, authenticate,
}
use tracks.Authentication.{User, AuthEnv, Web, redirect, referer_of, logged_in, create_session}
use tracks.Authentication.Login.{otherwise}
use tracks.Authentication.Roles.{Access, has_infix, scheme_of, with_any_role}

abbrev pub page_url : Bool → String → String → String
page_url secure host path = scheme_of secure ++ ("://" ++ (host ++ path))

page_url_ne : (secure : Bool) (host path : String) → (page_url secure host path == "") ≡ false
page_url_ne secure host path = elim (Bool-cases (page_url secure host path == "")) [
  | inl e ↦ absurd (longer (ap String.count ((eq_iff _ _).0 e)))
  | inr e ↦ e
]
  where
    longer : String.count (page_url secure host path) ≡ 0 → ⊥
    longer e = omega (
      arith,
      e,
      length-append (scheme_of secure) ("://" ++ (host ++ path)),
      length-append "://" (host ++ path),
    )

taken : (b : Bool) (x y : SessionData × Access) → b ≡ true → (if b then x else y) ≡ x
taken b x y e = rw e refl

-- Where a browser that is not logged in is sent to the login from a page, what it keeps in its session is
-- the address of the page, and it stays logged out.
with_any_role-session :
    (secure : Bool) (domain host path accept : String) (s : SessionData)
    → authenticated s ≡ none
    → has_infix accept "text/html" ≡ true
    → (with_any_role secure domain host path accept s).0
      ≡ put_value s "login-referer" (page_url secure host path)
unfolding with_any_role
with_any_role-session secure domain host path accept s out html =
    ap (λ x. x.0)
      (taken (not (is_authenticated s)) _ _
          (ap (λ o. not (elim o [ none ↦ false | some _ ↦ true ])) out)
        ∙ taken (has_infix accept "text/html") _ _ html)

module _ {E : Type 0} (env : AuthEnv E) where
  logged_in-referer :
      (s : Web) (u : User) (url : String)
      → get_value s.session "login-referer" ≡ some url
      → (url == "") ≡ false
      → (logged_in env s u).1 ≡ redirect 204 url
  unfolding authenticate put_value
  logged_in-referer s u url kept ne =
      ap (λ o. redirect 204 (referer_of env o))
        (get-put "user_id" "login-referer" u.id s.session.data_of ∙ kept)
      ∙ rw ne refl

  create_session-redirect :
      (s : Web) (email password : String) (u : User) (us : List User) (url : String)
      → authenticated s.session ≡ none
      → (email == "" || password == "") ≡ false
      → env.find_error ≡ none
      → keep (λ v. v.email == email) s.users ≡ u ∷ us
      → env.matches u.password password ≡ true
      → get_value s.session "login-referer" ≡ some url
      → (url == "") ≡ false
      → (create_session env s email password).1 ≡ redirect 204 url
  unfolding create_session
  create_session-redirect s email password u us url out given find first good kept ne =
      ap (λ x. x.1)
        (otherwise env (is_authenticated s.session) _ _
            (ap (λ o. elim o [ none ↦ false | some _ ↦ true ]) out)
          ∙ otherwise env (email == "" || password == "") _ _ given)
      ∙ rw (find, first, good) (logged_in-referer s u url kept ne)

  -- A browser that asks for a protected page without being logged in, and then logs in with the email and
  -- the password of a user, is redirected to the page that it asked for.
  pub create_session-with_any_role :
      (users : List User) (s : SessionData) (secure : Bool) (domain host path accept : String)
      (email password : String) (u : User) (us : List User)
      → authenticated s ≡ none
      → has_infix accept "text/html" ≡ true
      → (email == "" || password == "") ≡ false
      → env.find_error ≡ none
      → keep (λ v. v.email == email) users ≡ u ∷ us
      → env.matches u.password password ≡ true
      → (create_session env
          (record { users = users; session = (with_any_role secure domain host path accept s).0 })
          email
          password).1
        ≡ redirect 204 (page_url secure host path)
  unfolding put_value
  create_session-with_any_role users s secure domain host path accept email password u us out html
        given find first good =
      rw (with_any_role-session secure domain host path accept s out html) (
        create_session-redirect
          (record {
            users = users;
            session = put_value s "login-referer" (page_url secure host path);
          })
          email password u us (page_url secure host path)
          (get-put "login-referer" "user_id" (page_url secure host path) s.data_of ∙ out) given find
          first good (get-put_self "login-referer" (page_url secure host path) s.data_of)
          (page_url_ne secure host path))
