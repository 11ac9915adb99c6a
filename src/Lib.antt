-- ===== src/Lib.antt =====
-- tracks, a web framework in Go: the parts of it that keep state or decide what a request may do.
--
-- A request passes the middleware chain (middleware.go), in which stand the limiter (ratelimit.go), the
-- CSRF check (csrf.go) and the computation of feature flags (modules/featureflags); the actions behind
-- them read and write through the cache (cache.go) and the repositories of the database package.
--
-- - Common: Go's maps as association lists (Dict), its strings package (Text), `(T, error)` results with
--   panics as a third case (Result), and lists measured by native numbers.
-- - Http: what the components read of a request, and a response as the calls that a handler makes.
-- - RateLimit: ratelimit.go. `allow` is `Allow` at a given time, `rate_limit` the middleware.
-- - Cache: cache.go. One function per method of `memoryCache`.
-- - Csrf: csrf.go. `protect` is the handler, `csrf_protection` fills in the defaults first.
-- - Middleware: middleware.go. `apply` and `wrap` are `Apply` and `Wrap`.
-- - Health: health.go. `health_check` is the action that `HealthCheck` registers.
-- - FeatureFlags: modules/featureflags. Lru is cache.go, Registry is registry.go and context.go, and
--   Effective is `computeEffective` of middleware.go, and Overrides is `ListOverrides` of repo.go.
-- - Database: the package database. Context is db.go, Query is query.go, Repository is repository.go and
--   Transaction is transaction.go.
-- - Session: the package session. Data is the data of a session, Memory is inmemory/store.go, over a heap
--   in which requests share a session, Table is db/store.go over the rows of a table, and Writer and
--   Cookies are the middleware of sessions.go.
-- - Multitenancy: the splitter of modules/multitenancy/module.go, which finds the tenant of a request.
-- - Pagination: `ParsePagination` and `ToPage` of controller.go.
-- - Jobs: jobs.go. A run of the workers is a sequence of turns over the list of waiting jobs.
-- - Router: router.go, versioning.go and resource.go. A router is its routes and its two lists of
--   middlewares, and `Call` is a registration. Resources is `ResourceAtPath`, Versions the version router,
--   Cloning the slices that `Clone` shares, and Selection the versions by header or parameter.
--   http.ServeMux, templates and filepath.Join are fields of `Env`.
-- - Actions: action.go and response.go. `serve_http` is `ServeHTTP` of an action, as the calls on the
--   response writer; the encoders and templates are fields of `Rendering`. Responses is response.go.
-- - Connections: `getDB` of domain_db.go (Domains) and `GetTenantDB` of modules/multitenancy/db.go
--   (Tenants), which open a database on its first use. A schedule is the order of
--   the turns of the calls; a call that needs the write lock of another one waits.
-- - Authentication: users.go, sessions.go, schema.go and module.go of modules/authentication, over the
--   rows of the users and the session of a browser; bcrypt and the errors
--   of the database are fields of `AuthEnv`, of which each request has its own.
-- - WebSockets: the hub of websocket.go.
-- - Validation: validation.go. A struct is the list of what reflection reads of its fields.
-- - FeatureFlags.Table and FeatureFlags.Serving: the rows of the overrides (repo.go), and the middlewares
--   `WithFlags` and `RequireFlag` over them and the cache.
-- - Translations: i18n/i18n.go and i18n/context.go. Flat is the flat cache, Lookup `Translate`, Loading
--   `LoadTranslations` over decoded files, and Language the detection of a request's language.
-- - Templates: templates.go. A template is its trees by name, and the file system a record; Loading is
--   `Load`, Caching its map of layouts, Domains `resolve`, and Functions dict, link and icon.
-- - Content: content.go. FrontMatter is the reading of a file, Slugs the index and the
--   pages of slugs; `ItemKind` says whether the items are structs.
-- - Application: `NewFromConfig` of router.go with its middlewares and the variables of viewvars.go. A
--   middleware is what it changes in the context of a request, and `Middleware.wrap` puts them in order.
-- - Storage: modules/storage/service.go over modules/storage/disk/driver.go;
--   filepath.Join is a field of `StorageEnv`.
-- - Forms: `UnmarshalForm` of request.go.
-- - Database.Reading: `Execute`, `First` and `Count` of query.go and the finders of repository.go over the
--   answers of a driver. Csrf.Forms is the hidden field of csrf.go, and Actions.Page what renderHTML of
--   action.go gives to the template of a page.
-- - Database.Models: the models of the tables of modules/multitenancy, modules/authentication,
--   modules/storage and session/db.
--
-- Conventions. Where a mutex is held for the whole of a method, the method is one step; the opening of
-- a database and the registration of a user are several. The clock is an argument. A time is a number of
-- nanoseconds, without a bound. The version of the registry of flags is a `uint64`, with its wrap-around
-- written out. What stands outside the repository's code is an argument: the random source, the printing
-- of numbers, the SQL driver, the hooks of models and the callback of a transaction, as functions or as
-- the outcomes of their calls. Every loop is structural recursion; no fuel is used.
--
-- Not modelled: http.ServeMux, the start and the end of the server, the execution of templates, mail,
-- the cloud drivers of the storage and tracing, which are calls of libraries; the
-- command-line tools, which write files and run commands; and the decoding of JSON.
pub mod Actions
pub mod Application
pub mod Authentication
pub mod Cache
pub mod Common
pub mod Connections
pub mod Content
pub mod Csrf
pub mod Database
pub mod FeatureFlags
pub mod Forms
pub mod Health
pub mod Http
pub mod Jobs
pub mod Middleware
pub mod Multitenancy
pub mod Pagination
pub mod RateLimit
pub mod Router
pub mod Session
pub mod Storage
pub mod Templates
pub mod Translations
pub mod Validation
pub mod WebSockets
