-- ===== src/Telemetry/Shutdown.antt =====
-- What `stop` does to the threads of the collector.
use gaia_server.Base.{
  ℕ, zero, suc, ◌+◌, ◌-◌, ◌≤◌, Bool-cases, Option-cases, subst, false, Option, none, some, List, [],
  ◌∷◌, length, length-append, eqb, eqb→eq, if◌then◌else◌, Result, ok, err, ◌≡◌, refl, ap, ◌∙◌,
  arith, inl, inr,
}
use gaia_server.Base.Slices.{get_elem?, set, get_elem?-set_self, get_elem?-set_other}
use gaia_server.Errors.{Exn}
use gaia_server.Substrate.{ConsciousnessSnapshot}
use gaia_server.Telemetry.{
  TelemetrySnapshot, Place, testing, collecting, holding, pausing, ended, TelemetryCollector, Event,
  started, stopped, turned, stop, collect, after_collect, move, turn_at, turn, step, run,
}
use gaia_server.Telemetry.Window.{made, made_at, collected}

-- No start among the events.
abbrev pub NoStart : {V : Type 0} → List (Event V) → Type 0
NoStart [] = Unit
NoStart (started ∷ es) = ⊥
NoStart (stopped ∷ es) = NoStart es
NoStart (turned i now given ∷ es) = NoStart es

-- The turns of the thread number `i`.
abbrev pub turns : {V : Type 0} → ℕ → List (Event V) → ℕ
turns i [] = 0
turns i (started ∷ es) = turns i es
turns i (stopped ∷ es) = turns i es
turns i (turned j now given ∷ es) = (if eqb j i then 1 else 0) + turns i es

-- The turns after which a thread has ended, once the flag is down.
abbrev moves_left : {V : Type 0} → Place V → ℕ
moves_left ended = 0
moves_left testing = 1
moves_left pausing = 2
moves_left (holding snap) = 3
moves_left collecting = 4

abbrev in_round : {V : Type 0} → Place V → ℕ
in_round collecting = 1
in_round (holding snap) = 0
in_round testing = 0
in_round pausing = 0
in_round ended = 0

-- The threads that have passed the test of their loop and not collected yet.
abbrev pub rounds_open : {V : Type 0} → List (Place V) → ℕ
rounds_open [] = 0
rounds_open (p ∷ ps) = in_round p + rounds_open ps

rounds_open-set :
    {V : Type 0} (ps : List (Place V)) (i : ℕ) (p q : Place V)
    → get_elem? ps i ≡ some p
    → rounds_open (set ps i q) + in_round p ≡ rounds_open ps + in_round q
rounds_open-set [] i p q h = absurd (ground arith)
rounds_open-set (r ∷ ps) zero p q h = ground arith
rounds_open-set (r ∷ ps) (suc i) p q h = omega (arith, rounds_open-set ps i p q h)

ended_of : {V : Type 0} (p : Place V) → moves_left p ≤ 0 → p ≡ ended
ended_of ended h = refl
ended_of testing h = absurd (omega arith)
ended_of pausing h = absurd (omega arith)
ended_of collecting h = absurd (omega arith)
ended_of (holding snap) h = absurd (omega arith)

module _ {V : Type 0} where
  after_collect_lem :
      (r : Result Exn (TelemetrySnapshot V))
      → (moves_left (after_collect r) ≤ 3) × (length (made r) + in_round (after_collect r) ≤ 1)
  after_collect_lem (ok snap) = (omega arith, omega arith)
  after_collect_lem (err e) = (omega arith, omega arith)

  -- The place after a turn with the flag down.
  move_down :
      (p : Place V) (now : ℕ) (given : Result Exn (ConsciousnessSnapshot V))
      (c : TelemetryCollector V)
      → c.running ≡ false
      → (moves_left (move p now given c).0 ≤ moves_left p - 1)
        × (length (made_at (some p) now given c) + in_round (move p now given c).0 ≤ in_round p)
  unfolding move
  move_down ended now given c h = (omega arith, omega arith)
  move_down testing now given c h = rw h (omega arith, omega arith)
  move_down pausing now given c h = (omega arith, omega arith)
  move_down (holding snap) now given c h = (omega arith, omega arith)
  move_down collecting now given c h = after_collect_lem (collect c.node_id now given)

  running-turn_at :
      (o : Option (Place V)) (i now : ℕ) (given : Result Exn (ConsciousnessSnapshot V))
      (c : TelemetryCollector V)
      → (turn_at o i now given c).running ≡ c.running
  running-turn_at none i now given c = refl
  running-turn_at (some p) i now given c = refl

  running-turn :
      (i now : ℕ) (given : Result Exn (ConsciousnessSnapshot V)) (c : TelemetryCollector V)
      → (turn i now given c).running ≡ c.running
  unfolding turn
  running-turn i now given c = running-turn_at (get_elem? c.threads i) i now given c

  -- Where thread `i` is after the turn of thread `j`, with the flag down.
  turn_place :
      (j now : ℕ) (given : Result Exn (ConsciousnessSnapshot V)) (c : TelemetryCollector V) (i : ℕ)
      (p : Place V)
      → c.running ≡ false
      → get_elem? c.threads i ≡ some p
      → (q : Place V) × (get_elem? (turn j now given c).threads i ≡ some q)
        × (moves_left q ≤ moves_left p - (if eqb j i then 1 else 0))
  unfolding turn
  turn_place j now given c i p down at = elim (Bool-cases (eqb j i)) [
    | inl same ↦
        let here : get_elem? c.threads j ≡ some p =
          ap (get_elem? c.threads) (eqb→eq j i same) ∙ at in
        (
          (move p now given c).0,
          rw here (
              subst
                (λ k.
                  get_elem? (set c.threads j (move p now given c).0) k
                  ≡ some (move p now given c).0)
                (eqb→eq j i same) (get_elem?-set_self c.threads j p (move p now given c).0 here)),
          rw same (move_down p now given c down).0,
        )
    | inr other ↦ (
      p,
      elim (Option-cases (get_elem? c.threads j)) [
        | inl e ↦ rw e at
        | inr (r, e) ↦ rw e (
            get_elem?-set_other c.threads j i (move r now given c).0 (λ k. absurd (ground arith))
            ∙ at)
      ],
      rw other (omega arith),
    )
  ]

  ends :
      (es : List (Event V)) (c : TelemetryCollector V) (i : ℕ) (p : Place V)
      → NoStart es
      → c.running ≡ false
      → get_elem? c.threads i ≡ some p
      → moves_left p ≤ turns i es
      → get_elem? (run es c).threads i ≡ some ended
  unfolding run step stop
  ends [] c i p quiet down at few = at ∙ ap some (ended_of p few)
  ends (started ∷ es) c i p quiet down at few = absurd quiet
  ends (stopped ∷ es) c i p quiet down at few =
      ends es (record c { running = false }) i p quiet refl at few
  ends (turned j now given ∷ es) c i p quiet down at few =
      let (q, there, less) = turn_place j now given c i p down at in
      ends es (turn j now given c) i q quiet (running-turn j now given c ∙ down) there (omega arith)

  turn_open :
      (j now : ℕ) (given : Result Exn (ConsciousnessSnapshot V)) (c : TelemetryCollector V)
      → c.running ≡ false
      → length (made_at (get_elem? c.threads j) now given c)
          + rounds_open (turn j now given c).threads
        ≤ rounds_open c.threads
  unfolding turn
  turn_open j now given c down = elim (Option-cases (get_elem? c.threads j)) [
    | inl e ↦ rw e (omega arith)
    | inr (p, e) ↦ rw e (
        omega (
          arith,
          (move_down p now given c down).1,
          rounds_open-set c.threads j p (move p now given c).0 e,
        ))
  ]

  few_more :
      (es : List (Event V)) (c : TelemetryCollector V)
      → NoStart es
      → c.running ≡ false
      → length (collected es c) ≤ rounds_open c.threads
  unfolding collected step stop
  few_more [] c quiet down = omega arith
  few_more (started ∷ es) c quiet down = absurd quiet
  few_more (stopped ∷ es) c quiet down = few_more es (record c { running = false }) quiet refl
  few_more (turned j now given ∷ es) c quiet down = omega (
    arith,
    length-append (made_at (get_elem? c.threads j) now given c) (collected es (turn j now given c)),
    turn_open j now given c down,
    few_more es (turn j now given c) quiet (running-turn j now given c ∙ down),
  )

  -- After `stop`, and with no start since: a thread that gets four more turns has ended, and no
  -- more snapshots are collected than there were rounds under way at the stop.
  pub stop_ends_threads :
      (c : TelemetryCollector V) (es : List (Event V)) (i : ℕ) (p : Place V)
      → NoStart es
      → get_elem? c.threads i ≡ some p
      → 4 ≤ turns i es
      → (get_elem? (run es (stop c)).threads i ≡ some ended)
        × (length (collected es (stop c)) ≤ rounds_open c.threads)
  unfolding stop
  stop_ends_threads c es i p quiet at enough = (
    ends es (record c { running = false }) i p quiet refl at (omega (arith, at_most_four p)),
    few_more es (record c { running = false }) quiet refl,
  )
    where
      at_most_four : (p : Place V) → moves_left p ≤ 4
      at_most_four ended = omega arith
      at_most_four testing = omega arith
      at_most_four pausing = omega arith
      at_most_four (holding snap) = omega arith
      at_most_four collecting = omega arith
