-- ===== src/Broadcast/Delivery.antt =====
-- The abstract view of causal delivery: at any time, some held message that is deliverable may be
-- taken out of the hold queue and delivered. The loops of the code are shown to be such a sequence.
use gaia_server.Base.{
  ℕ, zero, suc, ◌≡◌, refl, Bool, true, false, List, [], ◌∷◌, ◌++◌, append_assoc, append-nil,
  Bool-cases, inl, inr,
}
use gaia_server.Broadcast.{
  BroadcastMessage, CausalBroadcast, is_deliverable, deliver, sweep, drain, try_deliver_buffered,
}

module _ {P W : Type 0} where
  abbrev pub with_queue : List (BroadcastMessage P) → CausalBroadcast P W → CausalBroadcast P W
  with_queue q s = record s { hold_queue = q }

  -- From `s`, the messages are taken from the hold queue and delivered in this order, and end in `t`.
  pub data Deliveries
      : CausalBroadcast P W → List (BroadcastMessage P) → CausalBroadcast P W → Type 0 where
    done : (s : CausalBroadcast P W) → Deliveries s [] s
    take :
        (before after : List (BroadcastMessage P)) (m : BroadcastMessage P)
        {s : CausalBroadcast P W} {ms : List (BroadcastMessage P)} {t : CausalBroadcast P W}
        → s.hold_queue ≡ before ++ m ∷ after
        → is_deliverable s.clock m ≡ true
        → Deliveries (with_queue (before ++ after) (deliver m s)) ms t
        → Deliveries s (m ∷ ms) t

  pub Deliveries-trans :
      {s t u : CausalBroadcast P W} {ms ns : List (BroadcastMessage P)}
      → Deliveries s ms t
      → Deliveries t ns u
      → Deliveries s (ms ++ ns) u
  Deliveries-trans (done s) e = e
  Deliveries-trans (take before after m q r d) e = take before after m q r (Deliveries-trans d e)

  -- The two ways on of the inner loop, and of the outer one.
  pub sweep-ready :
      (m : BroadcastMessage P) (queue remaining : List (BroadcastMessage P)) (any : Bool)
      (s : CausalBroadcast P W)
      → is_deliverable s.clock m ≡ true
      → sweep (m ∷ queue) remaining any s ≡ sweep queue remaining true (deliver m s)
  unfolding sweep
  sweep-ready m queue remaining any s e = rw (e, sweep)

  pub sweep-early :
      (m : BroadcastMessage P) (queue remaining : List (BroadcastMessage P)) (any : Bool)
      (s : CausalBroadcast P W)
      → is_deliverable s.clock m ≡ false
      → sweep (m ∷ queue) remaining any s ≡ sweep queue (remaining ++ m ∷ []) any s
  unfolding sweep
  sweep-early m queue remaining any s e = rw (e, sweep)

  pub drain-more :
      (fuel : ℕ) (s : CausalBroadcast P W)
      → (sweep s.hold_queue [] false s).1 ≡ true
      → drain (suc fuel) s ≡ drain fuel (sweep s.hold_queue [] false s).0
  unfolding drain
  drain-more fuel s e = rw (e, drain)

  pub drain-quiet :
      (fuel : ℕ) (s : CausalBroadcast P W)
      → (sweep s.hold_queue [] false s).1 ≡ false
      → drain (suc fuel) s ≡ (sweep s.hold_queue [] false s).0
  unfolding drain
  drain-quiet fuel s e = rw (e, drain)

  -- One round of the loop is such a sequence, from the messages put aside and those still to see.
  pub sweep-Deliveries :
      (queue remaining : List (BroadcastMessage P)) (any : Bool) (s : CausalBroadcast P W)
      → (ms : List (BroadcastMessage P)) × Deliveries
          (with_queue (remaining ++ queue) s)
          ms
          (sweep queue remaining any s).0
  unfolding sweep deliver
  sweep-Deliveries [] remaining any s = ([], rw append-nil (done (with_queue remaining s)))
  sweep-Deliveries (m ∷ queue) remaining any s = elim (Bool-cases (is_deliverable s.clock m)) [
    | inl ready ↦
        let (ms, d) = sweep-Deliveries queue remaining true (deliver m s) in
        (
          m ∷ ms,
          rw (sweep-ready m queue remaining any s ready) (take remaining queue m refl ready d),
        )
    | inr early ↦
        let (ms, d) = sweep-Deliveries queue (remaining ++ m ∷ []) any s in
        (ms, rw (sweep-early m queue remaining any s early) (rw append_assoc at d))
  ]

  pub drain-Deliveries :
      (fuel : ℕ) (s : CausalBroadcast P W)
      → (ms : List (BroadcastMessage P)) × Deliveries s ms (drain fuel s)
  unfolding drain
  drain-Deliveries zero s = ([], done s)
  drain-Deliveries (suc fuel) s = elim (Bool-cases (sweep s.hold_queue [] false s).1) [
    | inl more ↦
        let (ms, d) = sweep-Deliveries s.hold_queue [] false s in
        let (ns, e) = drain-Deliveries fuel (sweep s.hold_queue [] false s).0 in
        (ms ++ ns, rw (drain-more fuel s more) (Deliveries-trans d e))
    | inr quiet ↦
        let (ms, d) = sweep-Deliveries s.hold_queue [] false s in
        (ms, rw (drain-quiet fuel s quiet) d)
  ]

  -- The loops of the code only take deliverable messages out of the hold queue.
  pub try_deliver_buffered-Deliveries :
      (s : CausalBroadcast P W)
      → (ms : List (BroadcastMessage P)) × Deliveries s ms (try_deliver_buffered s)
  unfolding try_deliver_buffered
  try_deliver_buffered-Deliveries s = drain-Deliveries _ s
