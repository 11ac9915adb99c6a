-- ===== src/Health/Status.antt =====
-- What the status of health.go means.
use tracks.Common.{
  ◌≡◌, sym, ap, ◌∙◌, Bool, true, false, ◌&&◌, ◌||◌, none, some, List, [], ◌∷◌, ◌++◌, map, arith,
  if◌then◌else◌,
}
use mathlib.Core.List.{append-nil, append_assoc}
use tracks.Health.{
  HealthStatus, healthy, degraded, unhealthy, HealthCheck, HealthReport, status_text, component,
  status_after, run_checks, plain, full, health_check,
}

abbrev pub has_failed : HealthCheck → Bool
has_failed c = elim c.result [ none ↦ false | some _ ↦ true ]

abbrev pub any_failed : List HealthCheck → Bool
any_failed [] = false
any_failed (c ∷ cs) = has_failed c || any_failed cs

abbrev pub any_critical : List HealthCheck → Bool
any_critical [] = false
any_critical (c ∷ cs) = (has_failed c && c.critical) || any_critical cs

-- The worst of a status and the checks still to come.
abbrev pub worst : HealthStatus → List HealthCheck → HealthStatus
worst unhealthy cs = unhealthy
worst degraded cs = if any_critical cs then unhealthy else degraded
worst healthy cs =
    if any_critical cs then unhealthy else if any_failed cs then degraded else healthy

worst-cons :
    (s : HealthStatus) (c : HealthCheck) (cs : List HealthCheck)
    → worst (status_after s c) cs ≡ worst s (c ∷ cs)
worst-cons healthy c cs = ground arith
worst-cons s c cs = ground arith

status-run_checks :
    (detailed : Bool) (report : HealthReport) (cs : List HealthCheck)
    → (run_checks detailed report cs).status ≡ worst report.status cs
unfolding run_checks
status-run_checks detailed report [] = ground arith
status-run_checks detailed report (c ∷ cs) =
    status-run_checks detailed _ cs ∙ worst-cons report.status c cs

components-run_checks :
    (report : HealthReport) (cs : List HealthCheck)
    → (run_checks true report cs).components ≡ report.components ++ map component cs
unfolding run_checks
components-run_checks report [] = sym (append-nil _)
components-run_checks report (c ∷ cs) =
    components-run_checks _ cs
    ∙ append_assoc report.components (component c ∷ []) (map component cs)

-- The detailed report is unhealthy exactly when a critical check fails, degraded exactly when only
-- others fail, and lists every check in order. The plain reply names the same status, always with
-- code 200.
pub health_check-worst :
    (cs : List HealthCheck)
    → (health_check cs true
        ≡ full (record { status = worst healthy cs; components = map component cs }))
      × (health_check cs false ≡ plain 200 (status_text (worst healthy cs)))
unfolding health_check
health_check-worst cs =
    let start : HealthReport = record { status = healthy; components = [] } in
    (
      ap full (λ i. record {
        status = status-run_checks true start cs i;
        components = components-run_checks start cs i;
      }),
      ap (λ s. plain 200 (status_text s)) (status-run_checks false start cs),
    )
