-- ===== src/Authentication/Roles.antt =====
-- The middlewares of modules/authentication/module.go: who gets to the handler behind them.
use tracks.Common.{
  String, ◌≡◌, refl, inl, inr, Bool, true, false, not, ◌&&◌, ◌||◌, Option, none, some, List, [],
  ◌∷◌, if◌then◌else◌, Bool-cases, ◌==◌, string_eq, keep,
}
use Prim.Native.String.{◌++◌}
use text.Mathlib.Text.{starts_with}
use tracks.Session.Data.{SessionData, is_authenticated, authenticated, put_value}

-- `strings.Contains`
unfoldable pub has_infix : String → String → Bool
has_infix String.[] t = String.[] == t
has_infix (String.◌∷◌ c s) t = starts_with (String.◌∷◌ c s) t || has_infix s t

-- A row of the table of system roles.
pub record SystemRole : Type 0 where
  pub user_id : String
  pub role : String

-- What happens to a request: a redirect to the login, an error, or the handler, with what the middleware
-- sets the view variable `is_system_admin` to.
pub data Access : Type 0 where
  to_login : (location : String) → Access
  forbidden : (role : String) → Access
  unauthorized : Access
  serves : (is_system_admin : Option Bool) → Access

abbrev pub scheme_of : Bool → String
scheme_of secure = if secure then "https" else "http"

-- `authenticate`, which `WithAnyRole` applies: `secure` is that of the router or of the request.
unfoldable pub with_any_role :
    (secure : Bool) (domain host path accept : String) → SessionData → SessionData × Access
unfolding has_infix put_value
with_any_role secure domain host path accept s =
    if not (is_authenticated s)
    then if has_infix accept "text/html"
      then (
        put_value s "login-referer" (scheme_of secure ++ ("://" ++ (host ++ path))),
        to_login (scheme_of secure ++ ("://" ++ (domain ++ "/sessions/new"))),
      )
      else (s, unauthorized)
    else (s, serves none)

-- `FindBy` on the user and the role; `none` is an error of the database.
abbrev pub find_roles : Option (List SystemRole) → String → String → Option (List SystemRole)
find_roles none user role = none
find_roles (some rows) user role = some (keep (λ r. r.user_id == user && r.role == role) rows)

-- `err == nil && len(roles) > 0`
abbrev pub any_found : Option (List SystemRole) → Bool
any_found none = false
any_found (some []) = false
any_found (some (_ ∷ _)) = true

-- `rows` and `later` are the answers of the database to the two calls of `FindBy`.
unfoldable pub require_system_role :
    (secure : Bool) (host role : String) (rows later : Option (List SystemRole))
    → SessionData
    → Access
require_system_role secure host role rows later s = elim (authenticated s) [
  | none ↦ to_login (scheme_of secure ++ ("://" ++ (host ++ "/sessions/new")))
  | some user ↦
      if not (any_found (find_roles rows user role))
      then forbidden role
      else serves (some (any_found (find_roles later user "superadmin")))
]

unfoldable pub system_role_middleware : Option (List SystemRole) → SessionData → Access
system_role_middleware rows s = elim (authenticated s) [
  | none ↦ serves none
  | some user ↦ serves (some (any_found (find_roles rows user "superadmin")))
]

-- Whether the table has a row for the user and the role.
abbrev pub holds_role : List SystemRole → String → String → Bool
holds_role [] user role = false
holds_role (r ∷ rows) user role = (r.user_id == user && r.role == role) || holds_role rows user role

any_found-find_roles :
    (rows : List SystemRole) (user role : String)
    → any_found (find_roles (some rows) user role) ≡ holds_role rows user role
any_found-find_roles [] user role = refl
any_found-find_roles (r ∷ rows) user role =
    elim (Bool-cases (r.user_id == user && r.role == role)) [
      | inl here ↦ rw here refl
      | inr other ↦ rw other (any_found-find_roles rows user role)
    ]

abbrev pub served_with : Access → Option (Option Bool)
served_with (serves admin) = some admin
served_with (to_login location) = none
served_with (forbidden role) = none
served_with unauthorized = none

-- Whether the database answers that the user holds the role; an error is no such answer.
abbrev pub answers_role : Option (List SystemRole) → String → String → Bool
answers_role none user role = false
answers_role (some rows) user role = holds_role rows user role

any_found-answers_role :
    (answer : Option (List SystemRole)) (user role : String)
    → any_found (find_roles answer user role) ≡ answers_role answer user role
any_found-answers_role none user role = refl
any_found-answers_role (some rows) user role = any_found-find_roles rows user role

-- `RequireSystemRole` lets a request through exactly if its session is of a user and the first answer of
-- the database has the role for that user; where the first query fails, nobody gets through. What it
-- then says is whether the second answer makes the user a superadmin; where only the second query
-- fails, the request is served as that of a user who is none.
pub require_system_role-holds_role :
    (secure : Bool) (host role : String) (rows later : Option (List SystemRole)) (s : SessionData)
    → served_with (require_system_role secure host role rows later s) ≡ elim (authenticated s) [
      | none ↦ none
      | some user ↦
          if answers_role rows user role
          then some (some (answers_role later user "superadmin"))
          else none
    ]
unfolding require_system_role
require_system_role-holds_role secure host role rows later s = go (authenticated s)
  where
    go :
        (o : Option String)
        → served_with (elim o [
          | none ↦ to_login (scheme_of secure ++ ("://" ++ (host ++ "/sessions/new")))
          | some user ↦
              if not (any_found (find_roles rows user role))
              then forbidden role
              else serves (some (any_found (find_roles later user "superadmin")))
        ])
          ≡ elim o [
            | none ↦ none
            | some user ↦
                if answers_role rows user role
                then some (some (answers_role later user "superadmin"))
                else none
          ]
    go none = refl
    go (some user) =
        rw (any_found-answers_role rows user role, any_found-answers_role later user "superadmin")
          (elim (Bool-cases (answers_role rows user role)) [
            | inl good ↦ rw good refl
            | inr bad ↦ rw bad refl
          ])
