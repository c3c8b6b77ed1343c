-- ===== src/Broadcast/Settled.antt =====
-- The draining loops end within their fuel, and leave no deliverable message in the hold queue.
use gaia_server.Base.{
  ℕ, zero, suc, ◌+◌, ◌≤◌, ◌<◌, ◌≡◌, refl, sym, ◌∙◌, Bool, true, false, List, [], ◌∷◌, ◌++◌,
  append_assoc, append-nil, arith, Bool-cases, inl, inr, All, length, length-append, subst,
}
use gaia_server.Broadcast.{
  BroadcastMessage, CausalBroadcast, is_health, is_deliverable, deliver, sweep, drain,
  try_deliver_buffered, receive, receive_all,
}
use gaia_server.Broadcast.Delivery.{with_queue, sweep-ready, sweep-early, drain-more, drain-quiet}

module _ {P W : Type 0} where
  -- No held message can be delivered.
  abbrev pub IsSettled : CausalBroadcast P W → Type 0
  IsSettled s = All (λ m. is_deliverable s.clock m ≡ false) s.hold_queue

  -- A round never adds a message, and one that delivers takes one away.
  sweep-length :
      (queue remaining : List (BroadcastMessage P)) (any : Bool) (s : CausalBroadcast P W)
      → length (sweep queue remaining any s).0.hold_queue ≤ length remaining + length queue
  unfolding sweep
  sweep-length [] remaining any s = omega arith
  sweep-length (m ∷ queue) remaining any s = elim (Bool-cases (is_deliverable s.clock m)) [
    | inl ready ↦
        rw (sweep-ready m queue remaining any s ready)
          (omega (arith, sweep-length queue remaining true (deliver m s)))
    | inr early ↦ rw (sweep-early m queue remaining any s early) (
        omega
          (arith, sweep-length queue (remaining ++ m ∷ []) any s, length-append remaining (m ∷ [])))
  ]

  sweep-shrinks :
      (queue remaining : List (BroadcastMessage P)) (s : CausalBroadcast P W)
      → (sweep queue remaining false s).1 ≡ true
      → length (sweep queue remaining false s).0.hold_queue < length remaining + length queue
  unfolding sweep
  sweep-shrinks [] remaining s h = cc
  sweep-shrinks (m ∷ queue) remaining s h = elim (Bool-cases (is_deliverable s.clock m)) [
    | inl ready ↦
        rw (sweep-ready m queue remaining false s ready)
          (omega (arith, sweep-length queue remaining true (deliver m s)))
    | inr early ↦
        let e = sweep-early m queue remaining false s early in
        rw e (
          omega (
            arith,
            sweep-shrinks queue (remaining ++ m ∷ []) s (rw e at h),
            length-append remaining (m ∷ []),
          ))
  ]

  sweep-flag :
      (queue remaining : List (BroadcastMessage P)) (s : CausalBroadcast P W)
      → (sweep queue remaining true s).1 ≡ true
  unfolding sweep
  sweep-flag [] remaining s = refl
  sweep-flag (m ∷ queue) remaining s = elim (Bool-cases (is_deliverable s.clock m)) [
    | inl ready ↦
        rw (sweep-ready m queue remaining true s ready) (sweep-flag queue remaining (deliver m s))
    | inr early ↦
        rw (sweep-early m queue remaining true s early) (sweep-flag queue (remaining ++ m ∷ []) s)
  ]

  -- A round that delivers nothing has found nothing deliverable, and keeps every message.
  sweep_quiet :
      (queue remaining : List (BroadcastMessage P)) (s : CausalBroadcast P W)
      → (sweep queue remaining false s).1 ≡ false
      → ((sweep queue remaining false s).0 ≡ with_queue (remaining ++ queue) s)
        × All (λ m. is_deliverable s.clock m ≡ false) queue
  unfolding sweep
  sweep_quiet [] remaining s h = (rw append-nil refl, tt)
  sweep_quiet (m ∷ queue) remaining s h = elim (Bool-cases (is_deliverable s.clock m)) [
    | inl ready ↦
        cc
          (h, sweep-ready m queue remaining false s ready, sweep-flag queue remaining (deliver m s))
    | inr early ↦
        let e = sweep-early m queue remaining false s early in
        let (same, none_ready) = sweep_quiet queue (remaining ++ m ∷ []) s (rw e at h) in
        (rw e (rw append_assoc at same), (early, none_ready))
  ]

  drain-IsSettled :
      (fuel : ℕ) (s : CausalBroadcast P W) → length s.hold_queue < fuel → IsSettled (drain fuel s)
  unfolding drain
  drain-IsSettled zero s h = absurd (omega arith)
  drain-IsSettled (suc fuel) s h = elim (Bool-cases (sweep s.hold_queue [] false s).1) [
    | inl more ↦ rw (drain-more fuel s more) (
        drain-IsSettled fuel (sweep s.hold_queue [] false s).0
          (omega (arith, sweep-shrinks s.hold_queue [] s more)))
    | inr quiet ↦
        let (same, none_ready) = sweep_quiet s.hold_queue [] s quiet in
        rw (drain-quiet fuel s quiet) (subst IsSettled (sym same) none_ready)
  ]

  -- Two amounts of fuel above the length of the hold queue give the same.
  drain_fuel :
      (fuel more : ℕ) (s : CausalBroadcast P W)
      → length s.hold_queue < fuel
      → fuel ≤ more
      → drain more s ≡ drain fuel s
  unfolding drain
  drain_fuel zero more s h le = absurd (omega arith)
  drain_fuel (suc fuel) zero s h le = absurd (omega arith)
  drain_fuel (suc fuel) (suc more) s h le = elim (Bool-cases (sweep s.hold_queue [] false s).1) [
    | inl again ↦
        drain-more more s again
        ∙ drain_fuel fuel more (sweep s.hold_queue [] false s).0
            (omega (arith, sweep-shrinks s.hold_queue [] s again)) (omega arith)
        ∙ sym (drain-more fuel s again)
    | inr quiet ↦ drain-quiet more s quiet ∙ sym (drain-quiet fuel s quiet)
  ]

  -- The loop of `_try_deliver_buffered` ends: with any more rounds than one for each held message
  -- and one over, the result is the same, and in it no held message is deliverable.
  pub try_deliver_buffered_ends :
      (more : ℕ) (s : CausalBroadcast P W)
      → length s.hold_queue < more
      → (drain more s ≡ try_deliver_buffered s) × IsSettled (try_deliver_buffered s)
  unfolding try_deliver_buffered
  try_deliver_buffered_ends more s h = (
    drain_fuel (suc (length s.hold_queue)) more s (omega arith) h,
    drain-IsSettled (suc (length s.hold_queue)) s (omega arith),
  )

  pub receive-ordered :
      (m : BroadcastMessage P) (s : CausalBroadcast P W)
      → is_health m.kind ≡ false
      → receive m s ≡ try_deliver_buffered (with_queue (s.hold_queue ++ m ∷ []) s)
  unfolding receive
  receive-ordered m s ordered = rw ordered

  pub receive-IsSettled :
      (m : BroadcastMessage P) (s : CausalBroadcast P W)
      → is_health m.kind ≡ false
      → IsSettled (receive m s)
  unfolding try_deliver_buffered
  receive-IsSettled m s ordered =
      subst IsSettled (sym (receive-ordered m s ordered))
        (drain-IsSettled _ (with_queue (s.hold_queue ++ m ∷ []) s) (omega arith))

  pub receive_all-IsSettled :
      (ms : List (BroadcastMessage P)) (s : CausalBroadcast P W)
      → All (λ m. is_health m.kind ≡ false) ms
      → IsSettled s
      → IsSettled (receive_all ms s)
  unfolding receive_all
  receive_all-IsSettled [] s h k = k
  receive_all-IsSettled (m ∷ ms) s h k =
      receive_all-IsSettled ms (receive m s) h.1 (receive-IsSettled m s h.0)
