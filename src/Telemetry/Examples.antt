-- ===== src/Telemetry/Examples.antt =====
-- The theorems on the collector at concrete events.
use gaia_server.Base.{
  ℕ, true, none, some, List, [], ◌∷◌, length, ok, err, ◌≡◌, ◌≤◌, refl, arith, In,
}
use gaia_server.Base.Numbers.{pos}
use gaia_server.Base.Slices.{get_elem?, slice_last}
use gaia_server.Errors.{raised}
use gaia_server.Substrate.{ConsciousnessSnapshot}
use gaia_server.Telemetry.{
  TelemetryCollector, TelemetrySnapshot, Event, started, turned, collecting, pausing, ended, init,
  stop, history, run,
}
use gaia_server.Telemetry.Window.{collected, appended, history_is_window}
use gaia_server.Telemetry.Shutdown.{stop_ends_threads, rounds_open}

abbrev seen : ConsciousnessSnapshot ℕ
seen = record {
  core_states = some (("NEXUS", some "idle") ∷ ("ATLAS", none) ∷ []);
  epoch = some 7;
  evidence = some (("composite_cgi", 61) ∷ []);
  memory_event_count = some 12;
}

-- One round that collects, and one in which the substrate raises.
abbrev rounds : List (Event ℕ)
rounds =
    started
    ∷ turned 0 0 (ok seen)
    ∷ turned 0 1 (ok seen)
    ∷ turned 0 2 (ok seen)
    ∷ turned 0 31 (ok seen)
    ∷ turned 0 31 (ok seen)
    ∷ turned 0 32 (err (raised "offline"))
    ∷ []

history_is_window_example :
    let c = run rounds (init "node-alpha") in
    let all = appended rounds (init "node-alpha") in
    (c.history ≡ slice_last (pos 1000) all)
    × (length c.history ≤ 1000)
    × (history (pos 5) c ≡ slice_last (pos 5) all)
    × (length (history (pos 5) c) ≤ 5)
    × ((snap : TelemetrySnapshot ℕ) → In snap all → In snap (collected rounds (init "node-alpha")))
history_is_window_example = history_is_window "node-alpha" rounds 5 (omega arith) (omega arith)

-- A collector that is stopped in a round, while a thread of an earlier start pauses.
abbrev busy : TelemetryCollector ℕ
busy = record {
  node_id = "node-alpha";
  running = true;
  threads = pausing ∷ collecting ∷ [];
  history = [];
}

abbrev after_stop : List (Event ℕ)
after_stop =
    turned 1 40 (ok seen)
    ∷ turned 0 41 (ok seen)
    ∷ turned 1 41 (ok seen)
    ∷ turned 1 70 (ok seen)
    ∷ turned 1 70 (ok seen)
    ∷ []

stop_ends_threads_example :
    (get_elem? (run after_stop (stop busy)).threads 1 ≡ some ended)
    × (length (collected after_stop (stop busy)) ≤ rounds_open busy.threads)
stop_ends_threads_example = stop_ends_threads busy after_stop 1 collecting tt refl (omega arith)
