-- ===== src/Connections/Domains.antt =====
-- domain_db.go: a SQLite file for each domain of the application. The file system, SQLite and `SchemaInit`
-- are fields of `DomainEnv`, each by the number of the attempt.
use tracks.Common.{
  ℕ, String, refl, ◌≢◌, inl, inr, Bool, true, false, not, ◌&&◌, ◌||◌, Option, none, some, leb,
  nat_beq, if◌then◌else◌, Bool-cases, ◌==◌, string_eq,
}
use Prim.Native.Char.{code}
use Prim.Native.String
use tracks.Common.Splitting.{Avoids}
use tracks.Common.Result.{Result, ok, err, panicked}
use tracks.Connections.{Connected, connected, refused, leaked, Shared, create}
use tracks.Connections.Handles.{NeverLeaks}

-- `new` is the error of sqlite.New for a path, `stat` whether the file is empty, none where os.Stat
-- fails, and `schema_init` the error of `SchemaInit`, where the application has one.
pub record DomainEnv (E : Type 0) : Type 0 where
  pub data_dir : String
  pub path_join : String → String → String
  pub new : ℕ → String → Option E
  pub stat : ℕ → String → Option Bool
  pub schema_init : Option (ℕ → Option E)

-- `[a-zA-Z0-9]`
abbrev pub is_alphanumeric : ℕ → Bool
is_alphanumeric n =
    (leb b'a' n && leb n b'z') || (leb b'A' n && leb n b'Z') || (leb b'0' n && leb n b'9')

-- Every other character becomes "_".
unfoldable pub sanitize_domain : String → String
sanitize_domain String.[] = String.[]
sanitize_domain (String.◌∷◌ c s) =
    let rest = sanitize_domain s in
    if is_alphanumeric (code c) then String.◌∷◌ c rest else String.◌∷◌ "_" rest

abbrev pub closed_on : {E : Type 0} → Option E → Connected E
closed_on none = connected
closed_on (some e) = refused e

-- The schema is initialised where the file is empty, and an error closes the database; where the file is
-- not empty, the error is ignored.
abbrev pub initialise : {E : Type 0} → Option (ℕ → Option E) → ℕ → Option Bool → Connected E
initialise none n size_zero = connected
initialise (some init) n none = connected
initialise (some init) n (some true) = closed_on (init n)
initialise (some init) n (some false) = connected

abbrev pub opened : {E : Type 0} → DomainEnv E → ℕ → String → Option E → Connected E
opened env n path (some e) = refused e
opened env n path none = initialise env.schema_init n (env.stat n path)

-- What `getDB` does for a domain that is not in the map.
unfoldable pub connect_domain : {E : Type 0} → DomainEnv E → String → ℕ → Connected E
unfolding sanitize_domain
connect_domain env domain n =
    let db_path = env.path_join env.data_dir (String.◌++◌ (sanitize_domain domain) ".db") in
    opened env n db_path (env.new n db_path)

-- What `ServeHTTP` does with the request: the next handler with the default database or with that of the
-- domain, or an error.
pub data Served : Type 0 where
  default_database : Served
  domain_database : ℕ → Served
  cannot_connect : (message : String) (code : ℕ) → Served
  panics : Served

abbrev pub served : {E : Type 0} → Result E ℕ → Served
served (ok db) = domain_database db
served (err e) = cannot_connect "Failed to connect to domain database" 500
served panicked = panics

-- A request that is served alone.
unfoldable pub serve_domain :
    {E : Type 0} → DomainEnv E → Shared String → String → Shared String × Served
unfolding create connect_domain
serve_domain env s domain =
    if domain == ""
    then (s, default_database)
    else ((create (connect_domain env) s domain).0, served (create (connect_domain env) s domain).1)

closed_on-not_leaked : {E : Type 0} (o : Option E) (error : E) → closed_on o ≢ leaked error
closed_on-not_leaked none error h = cc h
closed_on-not_leaked (some e) error h = cc h

initialise-not_leaked :
    {E : Type 0} (init : Option (ℕ → Option E)) (n : ℕ) (size_zero : Option Bool) (error : E)
    → initialise init n size_zero ≢ leaked error
initialise-not_leaked none n size_zero error h = cc h
initialise-not_leaked (some init) n none error h = cc h
initialise-not_leaked (some init) n (some true) error h = closed_on-not_leaked (init n) error h
initialise-not_leaked (some init) n (some false) error h = cc h

opened-not_leaked :
    {E : Type 0} (env : DomainEnv E) (n : ℕ) (path : String) (o : Option E) (error : E)
    → opened env n path o ≢ leaked error
opened-not_leaked env n path (some e) error h = cc h
opened-not_leaked env n path none error h =
    initialise-not_leaked env.schema_init n (env.stat n path) error h

-- No attempt for a domain leaves a database open after an error.
pub connect_domain-NeverLeaks : {E : Type 0} (env : DomainEnv E) → NeverLeaks (connect_domain env)
unfolding connect_domain
connect_domain-NeverLeaks env k n error = opened-not_leaked env n _ (env.new n _) error

-- The name of the file of a domain has only letters, digits and "_", whatever the domain: no path of the
-- file system comes out of a request.
pub sanitize_domain-Avoids :
    (domain : String)
    → Avoids (λ n. not (is_alphanumeric n || nat_beq n b'_')) (sanitize_domain domain)
unfolding sanitize_domain
sanitize_domain-Avoids String.[] = tt
sanitize_domain-Avoids (String.◌∷◌ c s) = elim (Bool-cases (is_alphanumeric (code c))) [
  | inl good ↦ rw good (rw good refl, sanitize_domain-Avoids s)
  | inr bad ↦ rw bad (refl, sanitize_domain-Avoids s)
]
