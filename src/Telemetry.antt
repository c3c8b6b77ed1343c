-- ===== src/Telemetry.antt =====
-- gaia_server/observability/telemetry.py: the class TelemetryCollector. Each `start` makes a thread;
-- a thread is a place in the loop of `_collect_loop`, and the threads take turns.
mod Examples
mod Shutdown
mod Window
use gaia_server.Base.{
  ℕ, zero, suc, String, Bool, true, false, Option, none, some, List, [], ◌∷◌, ◌++◌, map, length,
  ltb, or_else, if◌then◌else◌, Result, ok, err, ◌≡◌, refl,
}
use gaia_server.Base.Numbers.{ℤ, pos}
use gaia_server.Base.Slices.{get_elem?, set, slice_last}
use gaia_server.Dict
use gaia_server.Dict.{Dict}
use gaia_server.Errors.{Exn}
use gaia_server.Substrate.{ConsciousnessSnapshot, entry}

pub record TelemetrySnapshot (V : Type 0) : Type 0 where
  pub timestamp : ℕ
  pub node_id : String
  pub composite_cgi : V
  pub memory_event_count : ℕ
  pub core_statuses : Dict String
  pub grpc_latency_ms : Dict ℕ
  pub causal_holdback_depth : ℕ
  pub checkpoint_epoch : ℕ
  pub active_tenants : ℕ
  pub warnings : List String

-- Before the test of the loop, after it, with a collected snapshot before the lock, in the pause at
-- the end of a round, and after the loop.
pub data Place (V : Type 0) : Type 0 where
  testing collecting pausing ended : Place V
  holding : TelemetrySnapshot V → Place V

pub record TelemetryCollector (V : Type 0) : Type 0 where
  pub node_id : String
  pub running : Bool
  pub threads : List (Place V)
  pub history : List (TelemetrySnapshot V)

-- The stub values of `grpc_latency_ms`.
abbrev pub latency_stubs : Dict ℕ
latency_stubs =
    ("NexusSyncService/Synchronize", 0)
    ∷ ("GuardianPolicyService/Evaluate", 0)
    ∷ ("AtlasObservationService/Ingest", 0)
    ∷ ("MemoryRetrievalService/Replay", 0)
    ∷ ("ConsciousnessMetricsService/Snapshot", 0)
    ∷ ("CoreHealthService/Health", 0)
    ∷ []

abbrev pub statuses : Dict (Option String) → Dict String
statuses = map (λ e. (e.0, or_else "unknown" e.1))

-- What the server and the scheduler do, in this order.
pub data Event (V : Type 0) : Type 0 where
  started stopped : Event V
  turned : ℕ → ℕ → Result Exn (ConsciousnessSnapshot V) → Event V

module _ {V : Type 0} where
  unfoldable pub init : String → TelemetryCollector V
  init node_id = record { node_id = node_id; running = false; threads = []; history = [] }

  -- The new thread stands before the loop's test; an older one that has not ended goes on.
  unfoldable pub start : TelemetryCollector V → TelemetryCollector V
  start c = record c { running = true; threads = c.threads ++ testing ∷ [] }

  unfoldable pub stop : TelemetryCollector V → TelemetryCollector V
  stop c = record c { running = false }

  -- `_collect`, at the time `now`; the substrate may raise, and an entry may be missing.
  unfoldable pub collect :
      String → ℕ → Result Exn (ConsciousnessSnapshot V) → Result Exn (TelemetrySnapshot V)
  collect node_id now (err e) = err e
  collect node_id now (ok snapshot) = elim (entry "core_states" snapshot.core_states) [
    | err e ↦ err e
    | ok cores ↦ elim (entry "evidence" snapshot.evidence) [
      | err e ↦ err e
      | ok evidence ↦ elim (entry "composite_cgi" (Dict.get "composite_cgi" evidence)) [
        | err e ↦ err e
        | ok cgi ↦ elim (entry "memory_event_count" snapshot.memory_event_count) [
          | err e ↦ err e
          | ok events ↦ ok (record {
            timestamp = now;
            node_id = node_id;
            composite_cgi = cgi;
            memory_event_count = events;
            core_statuses = statuses cores;
            grpc_latency_ms = latency_stubs;
            causal_holdback_depth = 0;
            checkpoint_epoch = or_else 0 snapshot.epoch;
            active_tenants = 0;
            warnings = [];
          })
        ]
      ]
    ]
  ]

  -- The two statements under the lock.
  unfoldable pub keep :
      TelemetrySnapshot V → List (TelemetrySnapshot V) → List (TelemetrySnapshot V)
  keep snap history =
      let longer = history ++ snap ∷ [] in
      if ltb 1000 (length longer) then slice_last (pos 1000) longer else longer

  -- Where a thread goes from `_collect`: an exception is logged, and nothing is kept.
  abbrev pub after_collect : Result Exn (TelemetrySnapshot V) → Place V
  after_collect (ok snap) = holding snap
  after_collect (err e) = pausing

  -- One move of a thread at this place: the test of the loop, the collection (with what the
  -- substrate gives and the time), the statements under the lock, or the end of the pause. Other
  -- threads may move between any two of them.
  unfoldable pub move :
      Place V
      → ℕ
      → Result Exn (ConsciousnessSnapshot V)
      → TelemetryCollector V
      → Place V × List (TelemetrySnapshot V)
  move testing now given c = (if c.running then collecting else ended, c.history)
  move collecting now given c = (after_collect (collect c.node_id now given), c.history)
  move (holding snap) now given c = (pausing, keep snap c.history)
  move pausing now given c = (testing, c.history)
  move ended now given c = (ended, c.history)

  abbrev pub placed :
      ℕ → Place V × List (TelemetrySnapshot V) → TelemetryCollector V → TelemetryCollector V
  placed i (place, history) c = record c { threads = set c.threads i place; history = history }

  abbrev pub turn_at :
      Option (Place V)
      → ℕ
      → ℕ
      → Result Exn (ConsciousnessSnapshot V)
      → TelemetryCollector V
      → TelemetryCollector V
  turn_at none i now given c = c
  turn_at (some place) i now given c = placed i (move place now given c) c

  -- The turn of the thread number `i`.
  unfoldable pub turn :
      ℕ → ℕ → Result Exn (ConsciousnessSnapshot V) → TelemetryCollector V → TelemetryCollector V
  turn i now given c = turn_at (get_elem? c.threads i) i now given c

  abbrev pub last_item : List (TelemetrySnapshot V) → Option (TelemetrySnapshot V)
  last_item [] = none
  last_item (s ∷ []) = some s
  last_item (s ∷ t ∷ history) = last_item (t ∷ history)

  unfoldable pub latest : TelemetryCollector V → Option (TelemetrySnapshot V)
  latest c = last_item c.history

  unfoldable pub history : ℤ → TelemetryCollector V → List (TelemetrySnapshot V)
  history limit c = slice_last limit c.history

  unfoldable pub step : Event V → TelemetryCollector V → TelemetryCollector V
  step started c = start c
  step stopped c = stop c
  step (turned i now given) c = turn i now given c

  unfoldable pub run : List (Event V) → TelemetryCollector V → TelemetryCollector V
  run [] c = c
  run (e ∷ es) c = run es (step e c)
