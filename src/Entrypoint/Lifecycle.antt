-- ===== src/Entrypoint/Lifecycle.antt =====
-- How the server ends, from any environment, packages and state of the servers.
use gaia_server.Base.{
  ℕ, [], ◌∷◌, String, ◌≡◌, refl, ◌⊎◌, inl, inr, Bool, Option, Option-cases, none, some,
  Result-cases, ok, err, ◌&&◌, if◌then◌else◌,
}
use gaia_server.Dict.{Dict}
use gaia_server.Errors.{Exn}
use gaia_server.Core.{GaiaCore}
use gaia_server.Health.{HealthReport}
use gaia_server.Inference.{
  InferenceSettings, Texts, InferenceRouter, create_router, all_backends_ok,
}
use gaia_server.Inference.LlamaCpp.{LlamaPackage, load}
use gaia_server.Inference.Settings.{from_env as inference_settings}
use gaia_server.Logging.{LoggingModule, RootLogger, level_of, formatter_of, configure_logging}
use gaia_server.Storage.Bootstrap.{Packages, create_registry}
use gaia_server.Storage.Registry
use gaia_server.Storage.Registry.{StorageRegistry, storage_info}
use gaia_server.Storage.Settings.{StorageSettings, from_env as storage_settings}
use gaia_server.Entrypoint.Decision.{start_never_aborts}
use gaia_server.Entrypoint.Main.{
  after_logging, Ending, failed, waiting, stopped, shutdown, wired, run_from, main,
}

module _ (core : GaiaCore) {S Sub : Type 0} where
  -- The health check of the storage returns; the report is `ok` where the storage and all the
  -- backends are, and else `degraded`; and the server waits in this state for ever, or a signal came
  -- and the connection has been drained once, whatever the drain answered.
  pub record IsServed (registry : StorageRegistry S Sub) (router : InferenceRouter S) (t : S)
      (signal : S → Option S) (result : Ending × S) : Type 0 where
    pub storage_ok : Bool
    pub storage : Registry.health core registry t ≡ ok (storage_info storage_ok)
    pub report : HealthReport
    pub status :
        report.status
        ≡ (if storage_ok && all_backends_ok router.backends t then "ok" else "degraded")
    pub served :
        ((signal t ≡ none) × (result ≡ (waiting report, t)))
        ⊎ ((u : S) × (signal t ≡ some u) × (result ≡ (stopped report, (registry.events.drain u).1)))

module _ (core : GaiaCore) (names : Texts) {S Sub M : Type 0} (packages : Packages S Sub)
    (llama : Option (LlamaPackage M S)) where
  run_from-IsServed :
      (registry : StorageRegistry S Sub) (router : InferenceRouter S) (signal : S → Option S)
      (t : S)
      → IsServed core registry router t signal
          (run_from core names packages llama (ok (registry, router)) signal t)
  unfolding shutdown
  run_from-IsServed registry router signal t =
      let (storage_ok, storage, report, e, status) =
        start_never_aborts core names registry router t in
      record {
        storage_ok = storage_ok;
        storage = storage;
        report = report;
        status = status;
        served = elim (Option-cases (signal t)) [
          | inl h ↦ inl (h, rw (e, h) refl)
          | inr (u, h) ↦ inr (u, h, rw (e, h) refl)
        ];
      }

  -- How a result of `main` comes about once the logging is configured.
  abbrev pub IsOutcome : Dict String → (S → Option S) → S → Ending × S → Type 0
  IsOutcome env signal s result =
      ((e : Exn) × (storage_settings env ≡ err e) × (result ≡ (failed e, s)))
      ⊎ ((cfg : StorageSettings) × (storage_settings env ≡ ok cfg)
          × (let made = create_registry packages cfg s in
              ((e : Exn) × (made.0 ≡ err e) × (result ≡ (failed e, made.1)))
              ⊎ ((registry : StorageRegistry S Sub) × (made.0 ≡ ok registry)
                  × (((e : Exn) × (inference_settings env ≡ err e) × (result ≡ (failed e, made.1)))
                      ⊎ ((cfg' : InferenceSettings) × (inference_settings env ≡ ok cfg')
                          × IsServed core registry (create_router names (load llama) cfg') made.1
                              signal result)))))

  after_logging_outcomes :
      (env : Dict String) (signal : S → Option S) (s : S)
      → IsOutcome env signal s (after_logging core names packages llama env signal s)
  unfolding after_logging wired
  after_logging_outcomes env signal s = elim (Result-cases (storage_settings env)) [
    | inr (e, h) ↦ inl (e, h, rw h refl)
    | inl (cfg, h) ↦ inr (
      cfg,
      h,
      elim (Result-cases (create_registry packages cfg s).0) [
        | inr (e, k) ↦ inl (e, k, rw (h, k) refl)
        | inl (registry, k) ↦ inr (
          registry,
          k,
          elim (Result-cases (inference_settings env)) [
            | inr (e, q) ↦ inl (e, q, rw (h, k, q) refl)
            | inl (cfg', q) ↦ inr (
              cfg',
              q,
              rw (h, k, q)
                  (run_from-IsServed registry (create_router names (load llama) cfg') signal
                    (create_registry packages cfg s).1),
            )
          ],
        )
      ],
    )
  ]

  -- If the logging module refuses the configured level, `main` fails and changes nothing. Otherwise
  -- the root logger has that level and one handler, and `main` goes on: it fails in the state in
  -- which the settings of the storage, the storage registry or the settings of the inference could
  -- not be made, with their exception. Otherwise it never exits with an error: the health report is
  -- `ok` where the storage and all the backends of the router are, and `degraded` otherwise, and the
  -- server waits for a signal; when one comes, it drains the connection once and stops, even where
  -- the drain raises.
  pub main_outcomes :
      {A : Type 0} (logging : LoggingModule A) (env : Dict String) (signal : S → Option S) (s : S)
      (root : RootLogger)
      → let run = main core names packages llama logging env signal s root in
        ((e : Exn) × (logging.check_level (level_of logging env) ≡ err e)
          × (run ≡ ((failed e, s), root)))
        ⊎ ((n : ℕ) × (logging.check_level (level_of logging env) ≡ ok n)
            × (run.1 ≡ record { level = n; handlers = formatter_of env ∷ [] })
            × IsOutcome env signal s run.0)
  unfolding main configure_logging
  main_outcomes logging env signal s root =
      elim (Result-cases (logging.check_level (level_of logging env))) [
        | inr (e, h) ↦ inl (e, h, rw h refl)
        | inl (n, h) ↦ inr (n, h, rw h refl, rw h (after_logging_outcomes env signal s))
      ]
