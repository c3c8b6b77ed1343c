-- ===== src/Entrypoint/Examples.antt =====
-- The theorem on a whole run of `main` at concrete packages.
use gaia_server.Base.{
  ℕ, String, List, ◌∷◌, ◌≡◌, if◌then◌else◌, ok, err, Option, none, some, [], ◌⊎◌,
}
use gaia_server.Storage.InMemory.{core_with, moved}
use gaia_server.Inference.{Texts}
use gaia_server.Errors.{Exn}
use gaia_server.Inference.LlamaCpp.{LlamaPackage}
use gaia_server.Storage.Cluster.{Cluster, packages, empty_cluster}
use gaia_server.Entrypoint.Main.{failed, main}
use gaia_server.Logging.{LoggingModule, RootLogger, level_of, formatter_of}
use gaia_server.Base.Text.{codes, equal_bytes}
use gaia_server.Dict.{Dict}
use gaia_server.Entrypoint.Lifecycle.{IsOutcome, main_outcomes}

abbrev names : Texts
names = record { str_of = λ b. "mock"; key_of = λ b. "mock"; seconds_text = λ ms. "30.0" }

abbrev no_package : Option (LlamaPackage (Unit {0}) Cluster)
no_package = none

abbrev signal : Cluster → Option Cluster
signal s = some s

-- A level is its number.
abbrev level_named : List ℕ → Option ℕ
level_named name = if equal_bytes name (codes "DEBUG") then some 10 else none

abbrev logging : LoggingModule ℕ
logging = record { attribute = level_named; info = 20; check_level = λ n. ok n }

abbrev environment : Dict String
environment = ("LOG_LEVEL", "debug") ∷ ("LOG_FORMAT", "Text") ∷ []

abbrev root : RootLogger
root = record { level = 30; handlers = [] }

main_outcomes_example :
    let run =
      main
        (core_with moved)
        names
        packages
        no_package
        logging
        environment
        signal
        empty_cluster
        root in
    ((e : Exn) × (logging.check_level (level_of logging environment) ≡ err e)
      × (run ≡ ((failed e, empty_cluster), root)))
    ⊎ ((n : ℕ) × (logging.check_level (level_of logging environment) ≡ ok n)
        × (run.1 ≡ record { level = n; handlers = formatter_of environment ∷ [] })
        × IsOutcome
            (core_with moved)
            names
            packages
            no_package
            environment
            signal
            empty_cluster
            run.0)
main_outcomes_example =
    main_outcomes (core_with moved) names packages no_package logging environment signal
      empty_cluster root
