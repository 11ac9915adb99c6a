-- ===== src/Health.antt =====
-- health.go. A check is what it gives at the request: an error or none, and the time it took as
-- text; the clock and the database are outside.
pub mod Status
mod Tests
use tracks.Common.{ℕ, String, Bool, Option, none, some, List, [], ◌∷◌, ◌++◌, if◌then◌else◌}

pub data HealthStatus : Type 0 where
  healthy degraded unhealthy : HealthStatus

pub record HealthCheck : Type 0 where
  pub name : String
  pub result : Option String
  pub duration : String
  pub critical : Bool

pub record ComponentHealth : Type 0 where
  pub name : String
  pub status : HealthStatus
  pub error : String
  pub response_time : String

pub record HealthReport : Type 0 where
  pub status : HealthStatus
  pub components : List ComponentHealth

unfoldable pub status_text : HealthStatus → String
status_text healthy = "healthy"
status_text degraded = "degraded"
status_text unhealthy = "unhealthy"

-- `if report.Status == StatusHealthy { report.Status = StatusDegraded }`
abbrev degrade : HealthStatus → HealthStatus
degrade healthy = degraded
degrade s = s

abbrev pub component : HealthCheck → ComponentHealth
component c = elim c.result [
  | none ↦ record { name = c.name; status = healthy; error = ""; response_time = c.duration }
  | some e ↦ record {
    name = c.name;
    status = if c.critical then unhealthy else degraded;
    error = e;
    response_time = c.duration;
  }
]

abbrev pub status_after : HealthStatus → HealthCheck → HealthStatus
status_after s c = elim c.result [ none ↦ s | some _ ↦ if c.critical then unhealthy else degrade s ]

-- The loop over the checks.
unfoldable pub run_checks : Bool → HealthReport → List HealthCheck → HealthReport
run_checks detailed report [] = report
run_checks detailed report (c ∷ cs) =
    run_checks detailed
      (record {
        status = status_after report.status c;
        components = if detailed then report.components ++ component c ∷ [] else report.components;
      })
      cs

pub data HealthReply : Type 0 where
  plain : (code : ℕ) (text : String) → HealthReply
  full : HealthReport → HealthReply

-- The checks that `HealthCheck` uses: those of the configuration, or the default one.
unfoldable pub checks_or_default : HealthCheck → List HealthCheck → List HealthCheck
checks_or_default database [] = database ∷ []
checks_or_default database (c ∷ cs) = c ∷ cs

-- The action that `HealthCheck` registers.
unfoldable pub health_check : List HealthCheck → Bool → HealthReply
unfolding run_checks status_text
health_check checks detailed =
    let report = run_checks detailed (record { status = healthy; components = [] }) checks in
    if detailed then full report else plain 200 (status_text report.status)
