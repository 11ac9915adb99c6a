-- ===== src/Health/Tests.antt =====
-- Reports of health.go.
use tracks.Common.{◌≡◌, refl, true, false, none, some, List, [], ◌∷◌}
use tracks.Health.{HealthCheck, plain, run_checks, status_text, checks_or_default, health_check}

abbrev some_checks : List HealthCheck
some_checks =
    record { name = "database"; result = none; duration = "1ms"; critical = true }
    ∷ record { name = "mail"; result = some "timeout"; duration = "5s"; critical = false }
    ∷ []

plain-degraded : health_check some_checks false ≡ plain 200 "degraded"
unfolding health_check run_checks status_text
plain-degraded = refl

checks_or_default-some :
    checks_or_default
      (record { name = "db"; result = none; duration = "0s"; critical = true })
      some_checks
    ≡ some_checks
unfolding checks_or_default
checks_or_default-some = refl
