-- ===== src/Connections/Tenants.antt =====
-- modules/multitenancy/db.go: a SQLite file for each tenant. The central database, SQLite and the
-- migrations are fields of `TenantEnv`, each by the number of the attempt.
use tracks.Common.{◌+◌, ℕ, String, Option, none, some, List, [], ◌∷◌, nat_eq}
use mathlib.Core.List
use Prim.Native.String.{◌++◌}
use tracks.Common.Dict.{put}
use tracks.Common.Result.{Result, ok, err, panicked}
use tracks.Connections.{Connected, connected, refused, leaked, crashed, Shared}

-- What `FindByID` gives: an error, a nil tenant with no error where there is no row, or the `DBPath`.
pub data Found (E : Type 0) : Type 0 where
  failed : E → Found E
  absent : Found E
  found : (db_path : String) → Found E

-- `create_row` is the insertion of a tenant with its path in the central database: its id, or an error.
pub record TenantEnv (E : Type 0) : Type 0 where
  pub storage_dir : String
  pub path_join : String → String → String
  pub find_by_id : ℕ → ℕ → Found E
  pub create_row : ℕ → (path : String) → Result E ℕ
  pub new : ℕ → (path : String) → Option E
  pub migrate : ℕ → Option E

module _ {E : Type 0} (env : TenantEnv E) where
  -- The error of the migrations leaves the database open.
  abbrev pub migrated : Option E → Connected E
  migrated none = connected
  migrated (some e) = leaked e

  abbrev pub opened : ℕ → Option E → Connected E
  opened n (some e) = refused e
  opened n none = migrated (env.migrate n)

  -- A nil tenant is dereferenced for its path.
  abbrev pub connect_found : ℕ → Found E → Connected E
  connect_found n (failed e) = refused e
  connect_found n absent = crashed
  connect_found n (found path) = opened n (env.new n path)

  -- What `createTenantDB` does for a tenant that is not in the map.
  unfoldable pub connect_tenant : ℕ → ℕ → Connected E
  connect_tenant id n = connect_found n (env.find_by_id n id)

  -- `filepath.Join(t.storageDir, "Tenants", subdomain, "tenant.sqlite")`
  abbrev pub tenant_path : String → String
  tenant_path subdomain =
      env.path_join env.storage_dir ("Tenants/" ++ (subdomain ++ "/tenant.sqlite"))

  -- The end of `CreateTenant`: the database is put in the map under the id, whatever is there.
  abbrev pub keep_created : Shared ℕ → ℕ → Connected E → Shared ℕ × Result E ℕ
  keep_created s id connected = (
    record s {
      dbs = put id s.attempts s.dbs;
      attempts = s.attempts + 1;
      live = List.◌++◌ s.live (s.attempts ∷ []);
    },
    ok id,
  )
  keep_created s id (refused e) = (record s { attempts = s.attempts + 1 }, err e)
  keep_created s id (leaked e) =
      (record s { attempts = s.attempts + 1; live = List.◌++◌ s.live (s.attempts ∷ []) }, err e)
  keep_created s id crashed = (s, panicked)

  -- `CreateTenant`: the row, the database, the migrations.
  abbrev pub create_with_row : Shared ℕ → String → Result E ℕ → Shared ℕ × Result E ℕ
  create_with_row s path (ok id) = keep_created s id (opened s.attempts (env.new s.attempts path))
  create_with_row s path (err e) = (s, err e)
  create_with_row s path panicked = (s, panicked)

  unfoldable pub create_tenant : Shared ℕ → String → Shared ℕ × Result E ℕ
  create_tenant s subdomain =
      let path = tenant_path subdomain in create_with_row s path (env.create_row s.attempts path)

-- `Close`: what is closed, in the order of the map's iteration and then the central database, and the
-- error. `close` is the error of closing a database.
unfoldable pub close_all : {E D : Type 0} → (D → Option E) → List D → List D × Option E
close_all close [] = ([], none)
close_all close (db ∷ dbs) =
    let rest = close_all close dbs in
    elim (close db) [ none ↦ (db ∷ rest.0, rest.1) | some e ↦ ([], some e) ]

-- `GetTenantBySubdomain` and `GetTenantByCustomDomain`: the first row.
unfoldable pub first_tenant : {E T : Type 0} → E → Result E (List T) → Result E T
first_tenant not_found (ok []) = err not_found
first_tenant not_found (ok (t ∷ ts)) = ok t
first_tenant not_found (err e) = err e
first_tenant not_found panicked = panicked
