-- ===== src/Entrypoint/Decision.antt =====
-- The startup decision, whatever the stores and the backends answer.
use gaia_server.Base.{◌≡◌, refl, Bool, true, false, [], ◌∷◌, ◌&&◌, if◌then◌else◌, ok}
use gaia_server.Core.{GaiaCore}
use gaia_server.Dict
use gaia_server.Dict.{Dict}
use gaia_server.Health
use gaia_server.Health.{HealthReport, HealthInfo, status_of}
use gaia_server.Storage.Registry
use gaia_server.Storage.Registry.{StorageRegistry, storage_info, health_returns}
use gaia_server.Inference
use gaia_server.Inference.{InferenceRouter, Texts, all_backends_ok}
use gaia_server.Entrypoint.{ready, decide, wire, start}

subsystems_of : Bool → Bool → Dict HealthInfo
subsystems_of storage_ok backends_ok =
    ("storage", storage_info storage_ok) ∷ ("inference", storage_info backends_ok) ∷ []

report_of : Bool → Bool → HealthReport
report_of storage_ok backends_ok = record {
  status = Health.overall (subsystems_of storage_ok backends_ok);
  subsystems = subsystems_of storage_ok backends_ok;
}

status_lem :
    (storage_ok backends_ok : Bool)
    → (report_of storage_ok backends_ok).status
      ≡ (if storage_ok && backends_ok then "ok" else "degraded")
unfolding report_of subsystems_of Health.overall Health.all_ok Health.any_down
status_lem true true = refl
status_lem true false = refl
status_lem false true = refl
status_lem false false = refl

decides :
    (storage_ok backends_ok : Bool)
    → decide (report_of storage_ok backends_ok) ≡ ready (report_of storage_ok backends_ok)
unfolding decide Health.is_ok report_of subsystems_of Health.overall Health.all_ok Health.any_down
decides true true = refl
decides true false = refl
decides false true = refl
decides false false = refl

module _ (core : GaiaCore) (names : Texts) {S Sub : Type 0} where
  -- For every registry, router and state of the servers, the health check of the storage returns
  -- with `ok` or `degraded`, and startup never aborts: it goes on with a report whose status is
  -- `ok` if the storage and all the backends of the router are, and `degraded` otherwise.
  pub start_never_aborts :
      (registry : StorageRegistry S Sub) (router : InferenceRouter S) (s : S)
      → (storage_ok : Bool) × (Registry.health core registry s ≡ ok (storage_info storage_ok))
        × (report : HealthReport) × (start core names registry router s ≡ ready report)
        × (report.status
            ≡ (if storage_ok && all_backends_ok router.backends s then "ok" else "degraded"))
  unfolding report_of subsystems_of start wire Health.init Health.register Health.check
      Health.gather Health.overall Health.all_ok Health.any_down Health.is_ok Dict.insert
      Inference.health
  start_never_aborts registry router s =
      let (storage_ok, e) = health_returns core registry s in
      let backends_ok = all_backends_ok router.backends s in
      (
        storage_ok,
        e,
        report_of storage_ok backends_ok,
        rw e (decides storage_ok backends_ok),
        status_lem storage_ok backends_ok,
      )
