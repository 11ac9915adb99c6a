-- ===== src/Authentication/RoleTests.antt =====
-- Protected pages and roles on a concrete table. The hash of a password is the password behind "#".
use tracks.Common.{String, ◌≡◌, refl, true, false, none, some, List, [], ◌∷◌, ◌==◌, string_eq}
use Prim.Native.String.{◌++◌}
use tracks.Common.Dict.{get, put}
use tracks.Common.Result.{ok}
use tracks.Session.Data.{SessionData, authenticate, put_value, empty_session}
use tracks.Authentication.{User, AuthEnv, redirect, create_session}
use tracks.Authentication.Roles.{
  has_infix, SystemRole, serves, unauthorized, with_any_role, require_system_role,
  system_role_middleware, served_with, require_system_role-holds_role,
}
use tracks.Authentication.Referer.{create_session-with_any_role}

abbrev env : AuthEnv String
env = record {
  generate = λ password. ok ("#" ++ password);
  matches = λ stored password. stored == "#" ++ password;
  find_error = none;
  create_error = none;
  update_error = none;
  user_exists = λ email. email ++ " exists";
  message = λ e. e;
}

abbrev ann : User
ann = record {
  id = "ann@a";
  email = "ann@a";
  name = "Ann";
  password = "#secret";
  activation_token = "";
}

abbrev rows : List SystemRole
rows =
    record { user_id = "ann@a"; role = "editor" }
    ∷ record { user_id = "ann@a"; role = "superadmin" }
    ∷ record { user_id = "bob@b"; role = "editor" }
    ∷ []

abbrev bob_session : SessionData
bob_session = record {
  id = "s";
  data_of = ("user_id", "bob@b") ∷ [];
  flash_old = [];
  flash_new = [];
}

json-unauthorized :
    (with_any_role true "a.org" "a.org" "/users/" "application/json" (empty_session "s")).1
    ≡ unauthorized
unfolding with_any_role has_infix get
json-unauthorized = refl

ann-superadmin :
    system_role_middleware (some rows) (authenticate (empty_session "s") "ann@a")
    ≡ serves (some true)
unfolding system_role_middleware authenticate put_value get put
ann-superadmin = refl

require_system_role-holds_role_example :
    served_with (require_system_role true "a.org" "editor" (some rows) none bob_session)
    ≡ some (some false)
unfolding get
require_system_role-holds_role_example =
    require_system_role-holds_role true "a.org" "editor" (some rows) none bob_session

create_session-with_any_role_example :
    (create_session env
      (record {
        users = ann ∷ [];
        session =
            (with_any_role true "a.org" "shop.a.org" "/orders" "text/html" (empty_session "s")).0;
      })
      "ann@a"
      "secret").1
    ≡ redirect 204 "https://shop.a.org/orders"
unfolding get has_infix
create_session-with_any_role_example =
    create_session-with_any_role env (ann ∷ []) (empty_session "s") true "a.org" "shop.a.org"
      "/orders" "text/html" "ann@a" "secret" ann [] refl refl refl refl refl refl
