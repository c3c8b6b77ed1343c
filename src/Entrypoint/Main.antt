-- ===== src/Entrypoint/Main.antt =====
-- gaia_server/entrypoint.py: `main` from its first line to its end, and `_shutdown`.
use gaia_server.Base.{String, Option, none, some, Result, ok, err, Exec, pure, lift, ◌>>=◌}
use gaia_server.Dict.{Dict}
use gaia_server.Errors.{Exn}
use gaia_server.Core.{GaiaCore}
use gaia_server.Health.{HealthReport}
use gaia_server.Inference.{InferenceRouter, Texts, create_router}
use gaia_server.Inference.LlamaCpp.{LlamaPackage, load}
use gaia_server.Inference.Settings.{from_env as inference_settings}
use gaia_server.Logging.{LoggingModule, RootLogger, configure_logging}
use gaia_server.Storage.Bootstrap.{Packages, create_registry}
use gaia_server.Storage.Registry.{StorageRegistry}
use gaia_server.Storage.Settings.{from_env as storage_settings}
use gaia_server.Entrypoint.{Startup, aborted, ready, start}

-- How `main` ends, or that it waits for a signal that does not come.
pub data Ending : Type 0 where
  failed : Exn → Ending
  exited : HealthReport → Ending
  waiting : HealthReport → Ending
  stopped : HealthReport → Ending

module _ {S Sub : Type 0} where
  -- `_shutdown`: an exception is logged.
  unfoldable pub shutdown : StorageRegistry S Sub → S → S
  shutdown registry s = (registry.events.drain s).1

  -- The wait for a signal, which comes in this state or never, and what follows.
  abbrev pub held : HealthReport → StorageRegistry S Sub → Option S → S → Ending × S
  held report registry none s = (waiting report, s)
  held report registry (some signalled) s = (stopped report, shutdown registry signalled)

  abbrev pub after_check : Startup → StorageRegistry S Sub → (S → Option S) → S → Ending × S
  after_check (aborted report) registry signal s = (exited report, s)
  after_check (ready report) registry signal s = held report registry (signal s) s

module _ (core : GaiaCore) (names : Texts) {S Sub M : Type 0} (packages : Packages S Sub)
    (llama : Option (LlamaPackage M S)) where
  -- `create_registry()` and `create_router()`, each with the settings of the environment.
  unfoldable pub wired : Dict String → Exec Exn S (StorageRegistry S Sub × InferenceRouter S)
  wired env = do
    storage_cfg ← lift (storage_settings env)
    registry ← create_registry packages storage_cfg
    cfg ← lift (inference_settings env)
    pure (registry, create_router names (load llama) cfg)

  abbrev pub run_from :
      Result Exn (StorageRegistry S Sub × InferenceRouter S) → (S → Option S) → S → Ending × S
  run_from (err e) signal s = (failed e, s)
  run_from (ok (registry, router)) signal s =
      after_check (start core names registry router s) registry signal s

  -- `main` after the logging is configured.
  unfoldable pub after_logging : Dict String → (S → Option S) → S → Ending × S
  after_logging env signal s = run_from (wired env s).0 signal (wired env s).1

  abbrev pub if_configured :
      Result Exn (Unit {0}) × RootLogger
      → Dict String
      → (S → Option S)
      → S
      → (Ending × S) × RootLogger
  if_configured (ok _, root) env signal s = (after_logging env signal s, root)
  if_configured (err e, root) env signal s = ((failed e, s), root)

  unfoldable pub main :
      {A : Type 0}
      → LoggingModule A
      → Dict String
      → (S → Option S)
      → S
      → RootLogger
      → (Ending × S) × RootLogger
  main logging env signal s root = if_configured (configure_logging logging env root) env signal s
