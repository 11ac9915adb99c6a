-- ===== src/Authentication/Tests.antt =====
-- Users and logins on concrete tables. The hash of a password is the password behind "#".
use tracks.Common.{String, ◌≡◌, refl, none, some, List, [], ◌∷◌, ◌==◌, string_eq}
use Prim.Native.String.{◌++◌}
use tracks.Common.Dict.{get, put}
use tracks.Common.Result.{ok, err}
use tracks.Session.Data.{authenticated, flash, empty_session}
use tracks.Authentication.{User, AuthEnv, Web, redirect, create_new_user, register, create_session}
use tracks.Authentication.Table.{IsTable, emails}
use tracks.Authentication.Accounts.{
  Request, register_request, set_password_request, login_request, Step, users_after,
}
use tracks.Authentication.Login.{create_session-login_user}

abbrev env : AuthEnv String
env = record {
  generate = λ password. ok ("#" ++ password);
  matches = λ stored password. stored == "#" ++ password;
  find_error = none;
  create_error = none;
  update_error = none;
  user_exists = λ email. email ++ " exists";
  message = λ e. e;
}

abbrev ann : User
ann = record {
  id = "ann@a";
  email = "ann@a";
  name = "Ann";
  password = "#secret";
  activation_token = "";
}

abbrev bob : User
bob = record {
  id = "bob@b";
  email = "bob@b";
  name = "Bob";
  password = "";
  activation_token = "t0ken";
}

abbrev start : Web
start = record { users = bob ∷ ann ∷ []; session = empty_session "s1" }

login-wrong : authenticated (create_session env start "ann@a" "guess").0.session ≡ none
unfolding create_session flash get put
login-wrong = refl

register-twice :
    (register env start.users start "ann@a" "Ann" "pw" "pw").1 ≡ redirect 422 "/users/new"
unfolding register create_new_user get
register-twice = refl

create_session-login_user_example :
    authenticated (create_session env start "ann@a" "secret").0.session ≡ some "ann@a"
unfolding get
create_session-login_user_example = create_session-login_user env start "ann@a" "secret" refl

abbrev users : List User
users = bob ∷ ann ∷ []

abbrev users-IsTable : IsTable users
users-IsTable = record { ids = (refl, (refl, tt)); distinct = (refl, (refl, tt)) }

-- Each request has looked for its user before the others changed anything; bcrypt fails for one of them.
abbrev early : AuthEnv String → Request → Step String
early env request = record {
  env = env;
  seen = users;
  session = empty_session "a";
  request = request;
}

abbrev requests : List (Step String)
requests =
    early env (register_request "eve@e" "Eve" "pw" "pw")
    ∷ early env (register_request "dan@d" "Dan" "pw" "pw")
    ∷ early env (register_request "ann@a" "Ann" "pw" "pw")
    ∷ early (record env { generate = λ _. err "too long" }) (register_request "kim@k" "Kim" "p" "p")
    ∷ early env (set_password_request "t0ken" "bob" "bob")
    ∷ early env (login_request "bob@b" "bob")
    ∷ []

-- Two requests for one email that both look for it before either inserts: two users share the email.
both_registered :
    emails (
      users_after [] (
        record (early env (register_request "eve@e" "Eve" "pw" "pw")) { seen = [] }
        ∷ record (early env (register_request "eve@e" "Eve" "pw2" "pw2")) { seen = [] }
        ∷ []))
    ≡ "eve@e" ∷ "eve@e" ∷ []
unfolding register create_new_user flash get put
both_registered = refl
