-- ===== src/Connections/Tests.antt =====
-- Databases of domains and tenants on concrete schedules.
use tracks.Common.{
  ℕ, String, ◌≡◌, refl, true, false, none, some, List, [], ◌∷◌, nat_beq, if◌then◌else◌, nat_eq,
  string_eq, All,
}
use Prim.Native.String.{◌++◌}
use tracks.Common.Dict.{get, put}
use tracks.Common.Result.{ok, err, panicked}
use tracks.Connections.{finished, create, advance, step, run, empty, callers}
use tracks.Connections.Interleavings.{run-one_database}
use tracks.Connections.Progress.{IsFinished, run-IsFinished}
use tracks.Connections.Domains.{DomainEnv, sanitize_domain, connect_domain}
use tracks.Connections.Tenants.{TenantEnv, found, absent, connect_tenant}

-- An application whose second attempt to open a database fails.
abbrev app : DomainEnv String
app = record {
  data_dir = "data";
  path_join = λ dir name. dir ++ ("/" ++ name);
  new = λ n path. if nat_beq n 1 then some "disk full" else none;
  stat = λ n path. some true;
  schema_init = some (λ n. none);
}

sanitize-example : sanitize_domain "shop.example.com" ≡ "shop_example_com"
unfolding sanitize_domain
sanitize-example = refl

-- Two domains that share one file.
sanitize-collision : sanitize_domain "a-b.com" ≡ sanitize_domain "a.b.com"
unfolding sanitize_domain
sanitize-collision = refl

abbrev domains : List String
domains = "a.com" ∷ "a.com" ∷ "b.com" ∷ []

-- Both calls for a.com miss, and one waits for the lock while the other opens the database; the call for
-- b.com fails.
abbrev schedule : List ℕ
schedule = 0 ∷ 1 ∷ 1 ∷ 0 ∷ 2 ∷ 1 ∷ 2 ∷ 0 ∷ 0 ∷ 2 ∷ 2 ∷ []

run-schedule : run (connect_domain app) schedule empty (callers domains) ≡ (
  record { dbs = ("a.com", 0) ∷ []; attempts = 2; live = 0 ∷ []; writer = false },
  record { key = "a.com"; phase = finished (ok 0) }
      ∷ record { key = "a.com"; phase = finished (ok 0) }
      ∷ record { key = "b.com"; phase = finished (err "disk full") }
      ∷ [],
)
unfolding run step advance create connect_domain get put
run-schedule = refl

run-one_database_example : ◌≡◌ {A = ℕ} 0 0
unfolding run step advance create connect_domain get put
run-one_database_example =
    run-one_database (connect_domain app) schedule domains 0 1 "a.com" 0 0 refl refl

-- The first call holds the lock, and the second one waits for it.
abbrev halfway : List ℕ
halfway = 0 ∷ 1 ∷ 0 ∷ 1 ∷ []

run-IsFinished_example :
    let (s, cs) = run (connect_domain app) halfway empty (callers domains) in
    (later : List ℕ) × All IsFinished (run (connect_domain app) later s cs).1
run-IsFinished_example = run-IsFinished (connect_domain app) halfway domains

-- Tenants whose migrations fail, and of whom only the first has a row.
abbrev tenants : TenantEnv String
tenants = record {
  storage_dir = "data";
  path_join = λ dir name. dir ++ ("/" ++ name);
  find_by_id = λ n id. if nat_beq id 1 then found "data/t1.sqlite" else absent;
  create_row = λ n path. ok 1;
  new = λ n path. none;
  migrate = λ n. some "bad migration";
}

-- After two calls for one tenant two databases are open that nothing refers to.
tenants-leak :
    (run (connect_tenant tenants) (0 ∷ 0 ∷ 0 ∷ 1 ∷ 1 ∷ 1 ∷ []) empty (callers (1 ∷ 1 ∷ []))).0
    ≡ record { dbs = []; attempts = 2; live = 0 ∷ 1 ∷ []; writer = false }
unfolding run step advance create connect_tenant get
tenants-leak = refl

-- A call for a tenant without a row panics.
tenants-absent : (create (connect_tenant tenants) empty 7).1 ≡ panicked
unfolding create connect_tenant get
tenants-absent = refl
