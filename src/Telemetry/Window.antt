-- ===== src/Telemetry/Window.antt =====
-- What the history holds after any events, and what `history` returns of it.
use gaia_server.Base.{
  ℕ, zero, suc, ◌≤◌, ◌<◌, String, Bool-cases, Option, none, some, List, [], ◌∷◌, ◌++◌, length, ltb,
  Result, ok, err, ◌≡◌, refl, sym, ap, ◌∙◌, arith, inl, inr, append-nil, append_assoc, In, All,
  All-append, All-append_left, All-append_right, All-In, All-In_of, Bool, true, false,
  if◌then◌else◌,
}
use gaia_server.Base.Numbers.{pos}
use gaia_server.Base.Slices.{
  get_elem?, set, slice_last, slice_last-append, slice_last_short, slice_last-slice_last,
  slice_last_bounds,
}
use gaia_server.Errors.{Exn}
use gaia_server.Substrate.{ConsciousnessSnapshot}
use gaia_server.Telemetry.{
  TelemetrySnapshot, Place, testing, collecting, holding, pausing, ended, TelemetryCollector, Event,
  started, stopped, turned, init, start, stop, collect, after_collect, keep, move, turn_at, turn,
  history, step, run,
}

module _ {V : Type 0} where
  abbrev pub made : Result Exn (TelemetrySnapshot V) → List (TelemetrySnapshot V)
  made (ok snap) = snap ∷ []
  made (err e) = []

  abbrev pub made_at :
      Option (Place V)
      → ℕ
      → Result Exn (ConsciousnessSnapshot V)
      → TelemetryCollector V
      → List (TelemetrySnapshot V)
  made_at (some collecting) now given c = made (collect c.node_id now given)
  made_at (some testing) now given c = []
  made_at (some (holding snap)) now given c = []
  made_at (some pausing) now given c = []
  made_at (some ended) now given c = []
  made_at none now given c = []

  -- The snapshot that an event collects: only a thread that has passed the test of its loop does.
  abbrev pub taken : Event V → TelemetryCollector V → List (TelemetrySnapshot V)
  taken started c = []
  taken stopped c = []
  taken (turned i now given) c = made_at (get_elem? c.threads i) now given c

  -- All snapshots that the events collect, in order.
  unfoldable pub collected : List (Event V) → TelemetryCollector V → List (TelemetrySnapshot V)
  collected [] c = []
  collected (e ∷ es) c = taken e c ++ collected es (step e c)

  -- The snapshot that the next turn of a thread at this place appends under the lock.
  abbrev pub held_at : Option (Place V) → List (TelemetrySnapshot V)
  held_at (some (holding snap)) = snap ∷ []
  held_at (some testing) = []
  held_at (some collecting) = []
  held_at (some pausing) = []
  held_at (some ended) = []
  held_at none = []

  abbrev pub added : Event V → TelemetryCollector V → List (TelemetrySnapshot V)
  added started c = []
  added stopped c = []
  added (turned i now given) c = held_at (get_elem? c.threads i)

  -- All snapshots that the events append, in order.
  unfoldable pub appended : List (Event V) → TelemetryCollector V → List (TelemetrySnapshot V)
  appended [] c = []
  appended (e ∷ es) c = added e c ++ appended es (step e c)

  abbrev window : List (TelemetrySnapshot V) → List (TelemetrySnapshot V)
  window = slice_last (pos 1000)

  keep_lem :
      (snap : TelemetrySnapshot V) (h : List (TelemetrySnapshot V))
      → keep snap h ≡ window (h ++ snap ∷ [])
  unfolding keep
  keep_lem snap h = elim (Bool-cases (ltb 1000 (length (h ++ snap ∷ [])))) [
    | inl e ↦ rw e refl
    | inr e ↦ rw e (sym (slice_last_short 1000 (h ++ snap ∷ []) (ground arith)))
  ]

  record_lem :
      (snap : TelemetrySnapshot V) (h log : List (TelemetrySnapshot V))
      → h ≡ window log
      → keep snap h ≡ window (log ++ snap ∷ [])
  record_lem snap h log e =
      keep_lem snap h ∙ ap (λ t. window (t ++ snap ∷ [])) e ∙ slice_last-append 999 log (snap ∷ [])

  kept : (h log : List (TelemetrySnapshot V)) → h ≡ window log → h ≡ window (log ++ [])
  kept h log e = e ∙ ap window (sym (append-nil log))

  turn_at_lem :
      (o : Option (Place V)) (i now : ℕ) (given : Result Exn (ConsciousnessSnapshot V))
      (c : TelemetryCollector V) (log : List (TelemetrySnapshot V))
      → c.history ≡ window log
      → (turn_at o i now given c).history ≡ window (log ++ held_at o)
  unfolding move
  turn_at_lem none i now given c log e = kept c.history log e
  turn_at_lem (some testing) i now given c log e = kept c.history log e
  turn_at_lem (some pausing) i now given c log e = kept c.history log e
  turn_at_lem (some ended) i now given c log e = kept c.history log e
  turn_at_lem (some collecting) i now given c log e = kept c.history log e
  turn_at_lem (some (holding snap)) i now given c log e = record_lem snap c.history log e

  step_lem :
      (e : Event V) (c : TelemetryCollector V) (log : List (TelemetrySnapshot V))
      → c.history ≡ window log
      → (step e c).history ≡ window (log ++ added e c)
  unfolding step start stop turn
  step_lem started c log h = kept c.history log h
  step_lem stopped c log h = kept c.history log h
  step_lem (turned i now given) c log h = turn_at_lem (get_elem? c.threads i) i now given c log h

  run_lem :
      (es : List (Event V)) (c : TelemetryCollector V) (log : List (TelemetrySnapshot V))
      → c.history ≡ window log
      → (run es c).history ≡ window (log ++ appended es c)
  unfolding run appended
  run_lem [] c log h = kept c.history log h
  run_lem (e ∷ es) c log h =
      run_lem es (step e c) (log ++ added e c) (step_lem e c log h)
      ∙ ap window (append_assoc log (added e c) (appended es (step e c)))

  -- What a thread at this place holds has the property.
  abbrev Fits : (TelemetrySnapshot V → Type 0) → Place V → Type 0
  Fits P (holding snap) = P snap
  Fits P testing = Unit
  Fits P collecting = Unit
  Fits P pausing = Unit
  Fits P ended = Unit

  module _ (P : TelemetrySnapshot V → Type 0) where
    All-set_place :
        (ps : List (Place V)) (i : ℕ) (q : Place V)
        → All (Fits P) ps
        → Fits P q
        → All (Fits P) (set ps i q)
    All-set_place [] i q h k = h
    All-set_place (p ∷ ps) zero q h k = (k, h.1)
    All-set_place (p ∷ ps) (suc i) q h k = (h.0, All-set_place ps i q h.1 k)

    held_are_sound :
        (ps : List (Place V)) (i : ℕ) → All (Fits P) ps → All P (held_at (get_elem? ps i))
    held_are_sound [] i h = tt
    held_are_sound (holding snap ∷ ps) zero h = (h.0, tt)
    held_are_sound (testing ∷ ps) zero h = tt
    held_are_sound (collecting ∷ ps) zero h = tt
    held_are_sound (pausing ∷ ps) zero h = tt
    held_are_sound (ended ∷ ps) zero h = tt
    held_are_sound (p ∷ ps) (suc i) h = held_are_sound ps i h.1

    after_collect-Fits :
        (r : Result Exn (TelemetrySnapshot V)) → All P (made r) → Fits P (after_collect r)
    after_collect-Fits (ok snap) h = h.0
    after_collect-Fits (err e) h = tt

    turn_at-Fits :
        (o : Option (Place V)) (i now : ℕ) (given : Result Exn (ConsciousnessSnapshot V))
        (c : TelemetryCollector V)
        → All (Fits P) c.threads
        → All P (made_at o now given c)
        → All (Fits P) (turn_at o i now given c).threads
    unfolding move
    turn_at-Fits none i now given c h k = h
    turn_at-Fits (some collecting) i now given c h k =
        All-set_place c.threads i (after_collect (collect c.node_id now given)) h
          (after_collect-Fits (collect c.node_id now given) k)
    turn_at-Fits (some (holding snap)) i now given c h k = All-set_place c.threads i pausing h tt
    turn_at-Fits (some testing) i now given c h k =
        All-set_place c.threads i (if c.running then collecting else ended) h (tested c.running)
      where
        tested : (b : Bool) → Fits P (if b then collecting else ended)
        tested true = tt
        tested false = tt
    turn_at-Fits (some pausing) i now given c h k = All-set_place c.threads i testing h tt
    turn_at-Fits (some ended) i now given c h k = All-set_place c.threads i ended h tt

    step-Fits :
        (e : Event V) (c : TelemetryCollector V)
        → All (Fits P) c.threads
        → All P (taken e c)
        → All (Fits P) (step e c).threads
    unfolding step start stop turn
    step-Fits started c h k = All-append (Fits P) c.threads (testing ∷ []) h (tt, tt)
    step-Fits stopped c h k = h
    step-Fits (turned i now given) c h k = turn_at-Fits (get_elem? c.threads i) i now given c h k

    added_are_sound :
        (e : Event V) (c : TelemetryCollector V) → All (Fits P) c.threads → All P (added e c)
    added_are_sound started c h = tt
    added_are_sound stopped c h = tt
    added_are_sound (turned i now given) c h = held_are_sound c.threads i h

    -- What holds of all that is collected holds of all that is appended.
    appended_are_sound :
        (es : List (Event V)) (c : TelemetryCollector V)
        → All (Fits P) c.threads
        → All P (collected es c)
        → All P (appended es c)
    unfolding collected appended
    appended_are_sound [] c h k = tt
    appended_are_sound (e ∷ es) c h k =
        let sound = All-append_left P (taken e c) (collected es (step e c)) k in
        let later = All-append_right P (taken e c) (collected es (step e c)) k in
        All-append P (added e c) (appended es (step e c)) (added_are_sound e c h)
          (appended_are_sound es (step e c) (step-Fits e c h sound) later)

  -- After any starts, stops and turns of the threads of a new collector, the history is the last
  -- thousand of the snapshots appended under the lock, in the order in which they were appended;
  -- and `history` with a limit from one to a thousand returns the last so many of them. Every
  -- snapshot that was appended is among those collected.
  pub history_is_window :
      (node_id : String) (es : List (Event V)) (limit : ℕ)
      → 0 < limit
      → limit ≤ 1000
      → let c = run es (init node_id) in
        let all = appended es (init node_id) in
        (c.history ≡ slice_last (pos 1000) all)
        × (length c.history ≤ 1000)
        × (history (pos limit) c ≡ slice_last (pos limit) all)
        × (length (history (pos limit) c) ≤ limit)
        × ((snap : TelemetrySnapshot V) → In snap all → In snap (collected es (init node_id)))
  unfolding history init
  history_is_window node_id es zero h k = absurd (omega arith)
  history_is_window node_id es (suc limit) h k =
      let all = appended es (init node_id) in
      let e : (run es (init node_id)).history ≡ window all =
        run_lem es (init node_id) [] (sym (slice_last_short 1000 [] (omega arith))) in
      (
        e,
        rw e (slice_last_bounds 1000 all (omega arith)).0,
        ap (slice_last (pos (suc limit))) e ∙ slice_last-slice_last limit 999 all (omega arith),
        (slice_last_bounds (suc limit) (run es (init node_id)).history (omega arith)).0,
        λ snap.
            let got = collected es (init node_id) in
            All-In (λ x. In x got) snap all
              (appended_are_sound (λ x. In x got) es (init node_id) tt
                (All-In_of (λ x. In x got) got (λ x h. h))),
      )
