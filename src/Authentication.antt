-- ===== src/Authentication.antt =====
-- modules/authentication: users.go, sessions.go and schema.go. A browser's session is a `SessionData`, and
-- the users are the rows of their table; bcrypt with the hexadecimal text of its hashes, and the errors of
-- the database, are fields of `AuthEnv`. The hooks after a
-- creation are left out, and the token of a row is a text, as the program writes it.
pub mod Table
pub mod Accounts
pub mod Login
pub mod Roles
pub mod Referer
mod Tests
mod RoleTests
use tracks.Common.{
  ℕ, String, Bool, not, ◌||◌, Option, none, some, List, [], ◌∷◌, map, if◌then◌else◌, ◌==◌,
  string_eq, keep,
}
use tracks.Common.Result.{Result, ok, err, panicked}
use tracks.Session.Data.{
  SessionData, authenticate, is_authenticated, authenticated, get_value, forget, flash,
  empty_session,
}
use Prim.Native.String.{◌++◌}
use mathlib.Core.List

pub record User : Type 0 where
  pub id : String
  pub email : String
  pub name : String
  pub password : String
  pub activation_token : String

-- `generate` gives the text of the hash of a password, or the error of bcrypt; `matches` compares such a
-- text with a password.
pub record AuthEnv (E : Type 0) : Type 0 where
  pub generate : String → Result E String
  pub matches : (stored password : String) → Bool
  pub find_error : Option E
  pub create_error : Option E
  pub update_error : Option E
  pub user_exists : (email : String) → E
  pub message : E → String

-- The users, and the session of the browser that makes the requests.
pub record Web : Type 0 where
  pub users : List User
  pub session : SessionData

-- A redirect with its status, or the data of a page, or an error.
pub data Answer (E : Type 0) : Type 0 where
  redirect : ℕ → (location : String) → Answer E
  page : Answer E
  user_page : User → Answer E
  token_page : (token : String) → Answer E
  failed : E → Answer E
  panics : Answer E

abbrev pub set_password : User → String → User
set_password u stored = record u { password = stored }

abbrev pub clear_activation_token : User → User
clear_activation_token u = record u { activation_token = "" }

-- `FindBy` for one column, in the order of the table.
abbrev pub find_by : {E : Type 0} → AuthEnv E → (User → Bool) → List User → Result E (List User)
find_by env test users = elim env.find_error [ some e ↦ err e | none ↦ ok (keep test users) ]

-- `UPDATE … WHERE id = ?`
abbrev pub update_row : User → List User → List User
update_row u users = map (λ v. if v.id == u.id then u else v) users

module _ {E : Type 0} (env : AuthEnv E) where
  abbrev pub insert : List User → User → Option E → Result E (List User × User)
  insert users u none = ok (List.◌++◌ users (u ∷ []), u)
  insert users u (some e) = err e

  abbrev pub insert_with : List User → User → Result E String → Result E (List User × User)
  insert_with users u (ok stored) = insert users (set_password u stored) env.create_error
  insert_with users u (err e) = err e
  insert_with users u panicked = panicked

  abbrev pub create_if_new :
      List User → User → String → Result E (List User) → Result E (List User × User)
  create_if_new users u password (ok []) =
      if password == ""
      then insert users u env.create_error
      else insert_with users u (env.generate password)
  create_if_new users u password (ok (_ ∷ _)) = err (env.user_exists u.email)
  create_if_new users u password (err e) = err e
  create_if_new users u password panicked = panicked

  -- The table with the new user, whose id is the email. `seen` is the table when `FindBy` reads it, and
  -- `users` the table when `Create` inserts, between which other requests may be served.
  unfoldable pub create_new_user :
      (seen users : List User) (name email password : String) → Result E (List User × User)
  create_new_user seen users name email password =
      create_if_new users
        (record { id = email; email = email; name = name; password = ""; activation_token = "" })
        password (find_by env (λ u. u.email == email) seen)

  abbrev pub flashed : Web → (kind message : String) → Web
  flashed s kind message = record s { session = flash s.session kind message }

  abbrev pub welcome : Web → Result E (List User × User) → Web × Answer E
  welcome s (ok (users, u)) = (
    record {
      users = users;
      session = authenticate (flash s.session "notice" "Account created successfully") u.id;
    },
    redirect 201 "/",
  )
  welcome s (err e) = (flashed s "alert" (env.message e), redirect 422 "/users/new")
  welcome s panicked = (s, panics)

  -- `Create` of UsersResource.
  unfoldable pub register :
      (seen : List User)
      → Web
      → (email name password password_confirmation : String) → Web × Answer E
  unfolding create_new_user flash authenticate
  register seen s email name password password_confirmation =
      if is_authenticated s.session
      then (s, redirect 303 "/users/")
      else if email == "" || name == "" || password == "" || password_confirmation == ""
      then (flashed s "alert" "All fields are required", redirect 422 "/users/new")
      else if not (password == password_confirmation)
      then (flashed s "alert" "Passwords do not match", redirect 422 "/users/new")
      else welcome s (create_new_user seen s.users name email password)

  abbrev pub token_answer : Web → String → Result E (List User) → Web × Answer E
  token_answer s token (ok (_ ∷ _)) = (s, token_page token)
  token_answer s token panicked = (s, panics)
  token_answer s token _ =
      (flashed s "error" "Invalid or expired activation token", redirect 303 "/")

  unfoldable pub activate : Web → (token : String) → Web × Answer E
  unfolding flash
  activate s token =
      if token == ""
      then (s, redirect 303 "/")
      else token_answer s token (find_by env (λ u. u.activation_token == token) s.users)

  abbrev pub save_user : Web → User → Option E → Web × Answer E
  save_user s u (some e) = (s, failed e)
  save_user s u none = (
    record {
      users = update_row u s.users;
      session = flash (authenticate s.session u.id) "notice" "Password set successfully. Welcome!";
    },
    redirect 303 "/",
  )

  abbrev pub with_password : Web → User → Result E String → Web × Answer E
  with_password s u (ok stored) =
      save_user s (clear_activation_token (set_password u stored)) env.update_error
  with_password s u (err e) = (s, failed e)
  with_password s u panicked = (s, panics)

  abbrev pub set_password_of : Web → (password : String) → Result E (List User) → Web × Answer E
  set_password_of s password (ok (u ∷ _)) = with_password s u (env.generate password)
  set_password_of s password panicked = (s, panics)
  set_password_of s password _ =
      (flashed s "error" "Invalid or expired activation token", redirect 303 "/")

  -- `SetPasswordWithToken`; `seen` is the table when it looks for the token.
  unfoldable pub set_password_with_token :
      (seen : List User) → Web → (token password password_confirmation : String) → Web × Answer E
  unfolding flash authenticate
  set_password_with_token seen s token password password_confirmation =
      if password == "" || not (password == password_confirmation)
      then (
        flashed s "error" "Passwords must match and cannot be empty",
        redirect 422 ("/users/activate?token=" ++ token),
      )
      else set_password_of s password (find_by env (λ u. u.activation_token == token) seen)

  abbrev pub refuse : Web → Web × Answer E
  refuse s = (flashed s "alert" "invalid credentials", redirect 401 "/sessions/new")

  abbrev pub referer_of : Option String → String
  referer_of none = "/"
  referer_of (some referer) = if referer == "" then "/" else referer

  abbrev pub logged_in : Web → User → Web × Answer E
  logged_in s u =
      let session = authenticate s.session u.id in
      (
        record s { session = forget session "login-referer" },
        redirect 204 (referer_of (get_value session "login-referer")),
      )

  abbrev pub log_in : Web → (password : String) → Result E (List User) → Web × Answer E
  log_in s password (ok []) = refuse s
  log_in s password (ok (u ∷ _)) =
      if env.matches u.password password then logged_in s u else refuse s
  log_in s password (err e) = (s, failed e)
  log_in s password panicked = (s, panics)

  -- `Create` of SessionsResource.
  unfoldable pub create_session : Web → (email password : String) → Web × Answer E
  unfolding flash authenticate forget
  create_session s email password =
      if is_authenticated s.session
      then (s, redirect 303 "/")
      else if email == "" || password == ""
      then (flashed s "alert" "email and password are required", redirect 401 "/sessions/new")
      else log_in s password (find_by env (λ u. u.email == email) s.users)

  -- `Delete` of SessionsResource; `id` is the new id of the invalidated session.
  unfoldable pub delete_session : Web → (id : String) → Web × Answer E
  delete_session s id = (record s { session = empty_session id }, redirect 204 "/")

  -- `Index` of UsersResource; a row that is missing gives a page without data.
  abbrev pub user_answer : Result E (List User) → Answer E
  user_answer (ok []) = page
  user_answer (ok (u ∷ _)) = user_page u
  user_answer (err e) = failed e
  user_answer panicked = panics

  unfoldable pub index : Web → Answer E
  index s = elim (authenticated s.session) [
    | none ↦ redirect 303 "/"
    | some id ↦ user_answer (find_by env (λ u. u.id == id) s.users)
  ]

-- `New` of UsersResource and of SessionsResource.
unfoldable pub new_user_form : {E : Type 0} → Web → Answer E
new_user_form s = if is_authenticated s.session then redirect 303 "/users/" else page

unfoldable pub new_session_form : {E : Type 0} → Web → Answer E
new_session_form s = if is_authenticated s.session then redirect 303 "/" else page
