-- ===== src/Service/Examples.antt =====
-- The theorems on the service at a concrete substrate.
use gaia_server.Base.{
  ℕ, suc, String, ◌≡◌, refl, ◌⊎◌, none, some, List, [], ◌∷◌, ◌++◌, length, ok, err,
}
use gaia_server.Base.Numbers.{pos}
use gaia_server.Dict.{Dict}
use gaia_server.Errors.{Exn, raised}
use gaia_server.Service.{Core, Substrate, memory_replay, core_health}
use gaia_server.Service.Replies.{
  replayed, Ticked, StopsAt, memory_replay_bounds, core_health_outcomes,
}

-- The state counts the ticks; the core ATLAS raises.
abbrev cores : List (Core ℕ ℕ)
cores =
    record { name = "NEXUS"; tick = λ n. (ok n, suc n) }
    ∷ record { name = "ATLAS"; tick = λ n. (err (raised "sensor"), n) }
    ∷ []

abbrev substrate : Substrate ℕ String ℕ ℕ ℕ
substrate = record {
  dispatch = λ core message n. (ok message.kind, n);
  replay = λ n. ok (1 ∷ 2 ∷ 3 ∷ []);
  consciousness_snapshot = λ n.
      ok
        (record { core_states = none; epoch = none; evidence = none; memory_event_count = some 3 });
  cores = λ n. cores;
}

memory_replay_bounds_example :
    (replay earlier : List ℕ) × (memory_replay substrate (pos 2) 0 ≡ ok replay)
    × (earlier ++ replay ≡ 1 ∷ 2 ∷ 3 ∷ [])
    × (length replay ≡ replayed (pos 2) 3)
memory_replay_bounds_example = memory_replay_bounds substrate (pos 2) 0 (1 ∷ 2 ∷ 3 ∷ []) refl

core_health_outcomes_example :
    ((reply : Dict ℕ) × (s' : ℕ) × (core_health substrate 0 ≡ (ok reply, s'))
      × Ticked cores 0 reply s')
    ⊎ ((e : Exn) × (s' : ℕ) × (core_health substrate 0 ≡ (err e, s')) × StopsAt cores 0 e s')
core_health_outcomes_example = core_health_outcomes substrate 0 ((refl, tt), (tt, tt))
