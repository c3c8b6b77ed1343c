-- ===== src/Health/Examples.antt =====
-- The theorem on health reports at a concrete aggregator.
use gaia_server.Base.{◌≡◌, ◌↔◌, ◌⊎◌, none, some, All, ok, err}
use gaia_server.Errors.{raised}
use gaia_server.Health.{HealthAggregator, init, register, check}
use gaia_server.Health.Verdict.{Answers, HasDown, check_verdict}

-- The storage answers `ok`; the inference raises.
abbrev two_checks : HealthAggregator (Unit {0})
two_checks =
    register "inference" (λ w. err (raised "unreachable"))
      (register "storage" (λ w. ok (record { status = some "ok"; detail = none })) init)

check_verdict_example :
    (((check two_checks tt).status ≡ "ok") ↔ All (λ e. Answers "ok" (e.1 tt)) two_checks.checks)
    × (((check two_checks tt).status ≡ "down") ↔ HasDown tt two_checks.checks)
    × (((check two_checks tt).status ≡ "ok")
        ⊎ (((check two_checks tt).status ≡ "down") ⊎ ((check two_checks tt).status ≡ "degraded")))
check_verdict_example = check_verdict two_checks tt
