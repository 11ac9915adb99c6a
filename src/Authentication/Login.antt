-- ===== src/Authentication/Login.antt =====
-- Who is logged in after a request of modules/authentication.
use tracks.Common.{
  String, ◌≡◌, refl, ap, ◌∙◌, inl, inr, Bool, true, false, not, ◌||◌, Option, none, some, List, [],
  ◌∷◌, ◌++◌, arith, if◌then◌else◌, Bool-cases, ◌==◌, string_eq, beq_self, keep, keep-append,
}
use tracks.Common.Dict.{get-delete, get-put_self}
use tracks.Common.Result.{ok, err}
use tracks.Session.Data.{
  SessionData, is_authenticated, authenticated, flash, authenticate, forget, put_value,
}
use tracks.Authentication.{
  User, AuthEnv, Web, Answer, update_row, create_new_user, welcome, register,
  set_password_with_token, log_in, create_session,
}

abbrev pub new_user : (name email stored : String) → User
new_user name email stored = record {
  id = email;
  email = email;
  name = name;
  password = stored;
  activation_token = "";
}

module _ {E : Type 0} (env : AuthEnv E) where
  -- The user that a login is for: the first with the email, if the password is that of the user.
  abbrev pub accepted : List User → String → Option String
  accepted [] password = none
  accepted (u ∷ us) password = if env.matches u.password password then some u.id else none

  abbrev pub login_user : List User → (email password : String) → Option String
  login_user users email password =
      if email == "" || password == "" then none else elim env.find_error [
        | some e ↦ none
        | none ↦ accepted (keep (λ u. u.email == email) users) password
      ]

  log_in-accepted :
      (s : Web) (password : String) (us : List User)
      → authenticated s.session ≡ none
      → authenticated (log_in env s password (ok us)).0.session ≡ accepted us password
  unfolding flash authenticate put_value forget
  log_in-accepted s password [] h = h
  log_in-accepted s password (u ∷ us) h = elim (Bool-cases (env.matches u.password password)) [
    | inl good ↦ rw good (get-delete "login-referer" "user_id" _ ∙ get-put_self "user_id" u.id _)
    | inr bad ↦ rw bad h
  ]

  found_user :
      (s : Web) (email password : String) (o : Option E)
      → authenticated s.session ≡ none
      → authenticated
          (log_in env s password (elim o [
            | some e ↦ err e
            | none ↦ ok (keep (λ u. u.email == email) s.users)
          ])).0.session
        ≡ elim o [ some e ↦ none | none ↦ accepted (keep (λ u. u.email == email) s.users) password ]
  found_user s email password none h = log_in-accepted s password _ h
  found_user s email password (some e) h = h

  pub otherwise : (b : Bool) (x y : Web × Answer E) → b ≡ false → (if b then x else y) ≡ y
  otherwise b x y e = rw e refl

  -- A login from a session that is not authenticated: afterwards the session is that of the first user with
  -- the email if the email and the password are given, the database answers, and the password is the
  -- user's; otherwise nobody is logged in.
  pub create_session-login_user :
      (s : Web) (email password : String)
      → authenticated s.session ≡ none
      → authenticated (create_session env s email password).0.session
        ≡ login_user s.users email password
  unfolding create_session flash
  create_session-login_user s email password h =
      ap (λ x. authenticated x.0.session)
        (otherwise (is_authenticated s.session) _ _
          (ap (λ o. elim o [ none ↦ false | some _ ↦ true ]) h))
      ∙ elim (Bool-cases (email == "" || password == "")) [
        | inl blank ↦ rw blank h
        | inr given ↦ rw given (found_user s email password env.find_error h)
      ]

  -- A request for a new password without a token, where some user has no activation token: the first such
  -- user gets the password, and the browser is logged in as that user.
  pub set_password_with_token_empty :
      (s : Web) (u : User) (us : List User) (password stored : String)
      → (password == "") ≡ false
      → env.find_error ≡ none
      → env.update_error ≡ none
      → env.generate password ≡ ok stored
      → keep (λ u. u.activation_token == "") s.users ≡ u ∷ us
      → let s' = (set_password_with_token env s.users s "" password password).0 in
        (authenticated s'.session ≡ some u.id)
        × (s'.users ≡ update_row (record u { password = stored; activation_token = "" }) s.users)
  unfolding set_password_with_token flash authenticate put_value
  set_password_with_token_empty s u us password stored given find update generates first =
      rw (given, beq_self password, find, first, generates, update)
        (get-put_self "user_id" u.id s.session.data_of, refl)

  create_new_user-appends :
      (users : List User) (name email password stored : String)
      → (password == "") ≡ false
      → env.find_error ≡ none
      → env.create_error ≡ none
      → env.generate password ≡ ok stored
      → keep (λ u. u.email == email) users ≡ []
      → create_new_user env users users name email password
        ≡ ok (users ++ new_user name email stored ∷ [], new_user name email stored)
  unfolding create_new_user
  create_new_user-appends users name email password stored given find create generates new =
      rw (find, new, given, generates, create) refl

  login_user-append :
      (users : List User) (u : User) (password : String)
      → (u.email == "" || password == "") ≡ false
      → env.find_error ≡ none
      → env.matches u.password password ≡ true
      → keep (λ v. v.email == u.email) users ≡ []
      → login_user (users ++ u ∷ []) u.email password ≡ some u.id
  login_user-append users u password given find good new =
      rw
        (
          given,
          find,
          keep-append (λ v. v.email == u.email) users (u ∷ []),
          new,
          beq_self u.email,
          good,
        )
        refl

  register-new_user :
      (s : Web) (email name password stored : String)
      → authenticated s.session ≡ none
      → (email == "" || name == "" || password == "" || password == "") ≡ false
      → env.find_error ≡ none
      → env.create_error ≡ none
      → env.generate password ≡ ok stored
      → keep (λ u. u.email == email) s.users ≡ []
      → register env s.users s email name password password
        ≡ welcome env s
            (ok (s.users ++ new_user name email stored ∷ [], new_user name email stored))
  unfolding register
  register-new_user s email name password stored h given find create generates new =
      otherwise (is_authenticated s.session) _ _
        (ap (λ o. elim o [ none ↦ false | some _ ↦ true ]) h)
      ∙ otherwise (email == "" || name == "" || password == "" || password == "") _ _ given
      ∙ otherwise (not (password == password)) _ _ (ap not (beq_self password))
      ∙ ap (welcome env s) (
          create_new_user-appends s.users name email password stored (ground arith) find create
            generates new)

  -- Who registers with a new email and a password that bcrypt takes, and that it recognises, is logged in,
  -- and can log in with them from any other session that is not authenticated.
  pub create_session-register :
      (s : Web) (other : SessionData) (email name password stored : String)
      → authenticated s.session ≡ none
      → authenticated other ≡ none
      → (email == "" || name == "" || password == "" || password == "") ≡ false
      → env.find_error ≡ none
      → env.create_error ≡ none
      → env.generate password ≡ ok stored
      → env.matches stored password ≡ true
      → keep (λ u. u.email == email) s.users ≡ []
      → let s' = (register env s.users s email name password password).0 in
        let s2 = (create_session env (record s' { session = other }) email password).0 in
        (authenticated s'.session ≡ some email) × (authenticated s2.session ≡ some email)
  unfolding flash authenticate put_value
  create_session-register s other email name password stored h k given find create generates good
        new =
      let e = register-new_user s email name password stored h given find create generates new in
      (
        ap (λ x. authenticated x.0.session) e ∙ get-put_self "user_id" email s.session.data_of,
        ap
              (λ x.
                authenticated
                  (create_session env (record { users = x.0.users; session = other }) email
                    password).0.session)
              e
            ∙ create_session-login_user _ email password k
            ∙ login_user-append s.users (new_user name email stored) password (ground arith) find
                good new,
      )
