-- ===== src/Authentication/Accounts.antt =====
-- The table of users over the requests of modules/authentication.
use tracks.Common.{String, ◌≡◌, Bool, true, not, ◌||◌, List, [], ◌∷◌, string_eq, contains}
use tracks.Common.Result.{OnOk, Result}
use tracks.Session.Data.{SessionData}
use tracks.Authentication.Table.{IsTable, emails}
use tracks.Authentication.{
  User, AuthEnv, Web, Answer, register, activate, set_password_with_token, create_session,
  delete_session,
}

-- A request of some browser, with the session that it has.
pub data Request : Type 0 where
  register_request : (email name password password_confirmation : String) → Request
  activate_request : (token : String) → Request
  set_password_request : (token password password_confirmation : String) → Request
  login_request : (email password : String) → Request
  logout_request : (id : String) → Request

module _ {E : Type 0} (env : AuthEnv E) where
  abbrev pub respond : (seen : List User) → Web → Request → Web × Answer E
  respond seen s (register_request email name password confirmation) =
      register env seen s email name password confirmation
  respond seen s (activate_request token) = activate env s token
  respond seen s (set_password_request token password confirmation) =
      set_password_with_token env seen s token password confirmation
  respond seen s (login_request email password) = create_session env s email password
  respond seen s (logout_request id) = delete_session env s id

-- A request with the session of its browser and the outcomes of its own calls. `seen` are the users when
-- it looks for one: other requests may change the table between that and what this one changes.
pub record Step (E : Type 0) : Type 0 where
  pub env : AuthEnv E
  pub seen : List User
  pub session : SessionData
  pub request : Request

module _ {E : Type 0} where
  abbrev pub respond_step : List User → Step E → List User
  respond_step users step =
      let s : Web = record { users = users; session = step.session } in
      (respond step.env step.seen s step.request).0.users

  -- The users after requests of any browsers, in the order in which they change the table.
  abbrev pub users_after : List User → List (Step E) → List User
  users_after users [] = users
  users_after users (step ∷ steps) = users_after (respond_step users step) steps

-- The email that a request registers, if it was free when the request looked for it, is still free.
abbrev pub is_still_free : (seen users : List User) → Request → Bool
is_still_free seen users (register_request email name password confirmation) =
    contains email (emails seen) || not (contains email (emails users))
is_still_free seen users (activate_request token) = true
is_still_free seen users (set_password_request token password confirmation) = true
is_still_free seen users (login_request email password) = true
is_still_free seen users (logout_request id) = true

-- No request registers an email between the look and the insertion of another request for that email.
abbrev pub NoRace : {E : Type 0} → List User → List (Step E) → Type 0
NoRace users [] = Unit
NoRace users (step ∷ steps) =
    IsTable step.seen
    × (is_still_free step.seen users step.request ≡ true)
    × NoRace (respond_step users step) steps

module _ {E : Type 0} (env : AuthEnv E) where
  abbrev TableOf : Result E (List User × User) → Type 0
  TableOf r = OnOk (λ p. IsTable p.0) r
