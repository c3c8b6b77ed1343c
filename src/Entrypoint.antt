-- ===== src/Entrypoint.antt =====
-- gaia_server/entrypoint.py: the part of `main` from the health check to the decision to serve.
mod Examples
pub mod Decision
pub mod Lifecycle
pub mod Main
use gaia_server.Base.{String, Bool, true, false, ◌==◌, if◌then◌else◌, Result, ok, err}
use gaia_server.Errors.{Exn}
use gaia_server.Core.{GaiaCore}
use gaia_server.Health
use gaia_server.Health.{HealthAggregator, HealthReport}
use gaia_server.Storage.Registry
use gaia_server.Storage.Registry.{StorageRegistry}
use gaia_server.Inference
use gaia_server.Inference.{InferenceRouter, Texts}

-- `sys.exit(1)`, or on to the signal handlers and the wait.
pub data Startup : Type 0 where
  aborted : HealthReport → Startup
  ready : HealthReport → Startup

-- The lines of `main` after the health check.
unfoldable pub decide : HealthReport → Startup
unfolding Health.is_ok
decide report =
    if Health.is_ok report
    then ready report
    else if report.status == "down"
    then aborted report
    else ready report

module _ (core : GaiaCore) (names : Texts) {S Sub : Type 0} where
  unfoldable pub wire : StorageRegistry S Sub → InferenceRouter S → HealthAggregator S
  wire registry router =
      Health.register "inference" (Inference.health names router)
        (Health.register "storage" (Registry.health core registry) Health.init)

  -- `main`, from the health check to the decision.
  unfoldable pub start : StorageRegistry S Sub → InferenceRouter S → S → Startup
  start registry router s = decide (Health.check (wire registry router) s)
