-- ===== src/Service.antt =====
-- gaia_server/ipc/grpc_server.py: the class GaiaGrpcServer, less the two methods that serve the
-- planetary hub (Planetary.antt). The substrate of the package gaia_core is a parameter.
mod Examples
mod Replies
use gaia_server.Base.{
  zero, suc, ℕ, String, Bool, true, false, Option, none, some, List, [], ◌∷◌, ◌++◌, map,
  if◌then◌else◌, Result, ok, err, Exec, pure, lift, ◌>>=◌,
}
use gaia_server.Base.Numbers.{ℤ}
use gaia_server.Base.Slices.{get_elem?, set, slice_last}
use gaia_server.Dict
use gaia_server.Dict.{Dict}
use gaia_server.Errors.{Exn}
use gaia_server.Substrate.{ConsciousnessSnapshot, entry}

-- The payload of a message to a core: a list of targets, or a JSON object that was given.
pub data Payload (J : Type 0) : Type 0 where
  targets : List String → Payload J
  given : J → Payload J

pub record Message (J : Type 0) : Type 0 where
  pub kind : String
  pub payload : Payload J
  pub trace_id : String

-- A core of the registry: its name, and its `tick`, which answers `T`.
pub record Core (S T : Type 0) : Type 0 where
  pub name : String
  pub tick : Exec Exn S T

-- The substrate over the state `S`: `J` is a JSON object, `E` a memory event, `V` a score or notes.
pub record Substrate (S J E V T : Type 0) : Type 0 where
  pub dispatch : String → Message J → Exec Exn S J
  pub replay : S → Result Exn (List E)
  pub consciousness_snapshot : S → Result Exn (ConsciousnessSnapshot V)
  pub cores : S → List (Core S T)

pub record ConsciousnessMetrics (V : Type 0) : Type 0 where
  pub composite_cgi : V
  pub gnwt_score : V
  pub iit_proxy_score : V
  pub rpt_score : V
  pub continuity_score : V
  pub anti_theater_score : V
  pub notes : V
  pub memory_event_count : ℕ

-- A thread of `_serve`: before the test of its loop, asleep, or after the loop.
pub data ServePlace : Type 0 where
  testing sleeping ended : ServePlace

pub record ServerThreads : Type 0 where
  pub running : Bool
  pub threads : List ServePlace

unfoldable pub start : ServerThreads → ServerThreads
start s = record { running = true; threads = s.threads ++ testing ∷ [] }

unfoldable pub stop : ServerThreads → ServerThreads
stop s = record s { running = false }

-- One move of a thread of `_serve`.
unfoldable pub serve_move : ServePlace → Bool → ServePlace
serve_move testing running = if running then sleeping else ended
serve_move sleeping running = testing
serve_move ended running = ended

-- The turn of the thread number `i`.
unfoldable pub serve_turn : ℕ → ServerThreads → ServerThreads
serve_turn i s = elim (get_elem? s.threads i) [
  | none ↦ s
  | some place ↦ record s { threads = set s.threads i (serve_move place s.running) }
]

abbrev pub sliced : {E : Type 0} → ℤ → Result Exn (List E) → Result Exn (List E)
sliced limit (ok events) = ok (slice_last limit events)
sliced limit (err e) = err e

module _ {S T : Type 0} where
  -- The comprehension of `core_health` over the cores that are left.
  unfoldable pub tick_all : List (Core S T) → Dict T → Exec Exn S (Dict T)
  tick_all [] d = pure d
  tick_all (core ∷ cores) d = core.tick >>= λ t. tick_all cores (Dict.insert core.name t d)

module _ {S J E V T : Type 0} (substrate : Substrate S J E V T) where
  unfoldable pub nexus_synchronize : List String → String → Exec Exn S J
  nexus_synchronize names trace_id =
      substrate.dispatch "NEXUS"
        (record { kind = "synchronize"; payload = targets names; trace_id = trace_id })

  unfoldable pub guardian_evaluate : J → String → Exec Exn S J
  guardian_evaluate action trace_id =
      substrate.dispatch "GUARDIAN"
        (record { kind = "evaluate_action"; payload = given action; trace_id = trace_id })

  unfoldable pub atlas_ingest : J → String → Exec Exn S J
  atlas_ingest observation trace_id =
      substrate.dispatch "ATLAS"
        (record { kind = "ingest_observation"; payload = given observation; trace_id = trace_id })

  unfoldable pub memory_replay : ℤ → S → Result Exn (List E)
  memory_replay limit s = sliced limit (substrate.replay s)

  unfoldable pub core_health : Exec Exn S (Dict T)
  core_health s = tick_all (substrate.cores s) [] s

-- `evidence[key]`
abbrev pub score : {V : Type 0} → String → Dict V → Result Exn V
score key evidence = entry key (Dict.get key evidence)

abbrev pub then_with : {A B : Type 0} → Result Exn A → (A → Result Exn B) → Result Exn B
then_with (ok a) f = f a
then_with (err e) f = err e

-- The dict that `consciousness_metrics` makes of a snapshot.
unfoldable pub metrics_of :
    {V : Type 0} → ConsciousnessSnapshot V → Result Exn (ConsciousnessMetrics V)
metrics_of snapshot = then_with (entry "evidence" snapshot.evidence) (λ evidence.
    then_with (score "composite_cgi" evidence) (λ composite_cgi.
      then_with (score "gnwt_score" evidence) (λ gnwt_score.
        then_with (score "iit_proxy_score" evidence) (λ iit_proxy_score.
          then_with (score "rpt_score" evidence) (λ rpt_score.
            then_with (score "continuity_score" evidence) (λ continuity_score.
              then_with (score "anti_theater_score" evidence) (λ anti_theater_score.
                then_with (score "notes" evidence) (λ notes.
                  then_with (entry "memory_event_count" snapshot.memory_event_count)
                    (λ memory_event_count. ok (record {
                      composite_cgi = composite_cgi;
                      gnwt_score = gnwt_score;
                      iit_proxy_score = iit_proxy_score;
                      rpt_score = rpt_score;
                      continuity_score = continuity_score;
                      anti_theater_score = anti_theater_score;
                      notes = notes;
                      memory_event_count = memory_event_count;
                    }))))))))))

module _ {S J E V T : Type 0} (substrate : Substrate S J E V T) where
  unfoldable pub consciousness_metrics : S → Result Exn (ConsciousnessMetrics V)
  consciousness_metrics s = then_with (substrate.consciousness_snapshot s) metrics_of
