-- ===== src/Broadcast/Stale.antt =====
-- What is never delivered: a message whose counter the receiver has already passed.
use gaia_server.Base.{
  ◌≤◌, ◌≡◌, refl, sym, true, false, List, [], ◌∷◌, ◌++◌, arith, Bool-cases, inl, inr, max, ap,
  eq_iff, subst, In, In-append_left, In-append_right, In-without,
}
use gaia_server.Broadcast.{
  BroadcastMessage, CausalBroadcast, sender_time, is_health, is_deliverable, deliver, notify,
  receive, receive_all,
}
use gaia_server.Broadcast.Delivery.{Deliveries, done, take}
use gaia_server.Broadcast.Clock.{
  counter, counter-insert, Behind-deliver, sender_time_of_deliverable,
}
use gaia_server.Broadcast.Accounting.{receive-Deliveries}
use gaia_server.Broadcast.Conservation.{receive-health, held_ids-deliver}

module _ {P W : Type 0} where
  -- A delivery brings the sender's counter to at least the message's.
  counter-deliver_self :
      (h : BroadcastMessage P) (s : CausalBroadcast P W)
      → sender_time h ≤ counter h.source_core (deliver h s).clock
  unfolding deliver
  counter-deliver_self h s = ground (
    arith,
    counter-insert h.source_core h.source_core (max (counter h.source_core s.clock) (sender_time h))
        s.clock,
    eq_iff h.source_core h.source_core,
  )

module _ {P W : Type 0} (m : BroadcastMessage P) where
  -- It is held, and its counter has been passed.
  abbrev pub IsStale : CausalBroadcast P W → Type 0
  IsStale s = In m s.hold_queue × (sender_time m ≤ counter m.source_core s.clock)

  IsStale-Deliveries :
      {s t : CausalBroadcast P W} {ms : List (BroadcastMessage P)}
      → Deliveries s ms t
      → IsStale s
      → IsStale t
  IsStale-Deliveries (done s) h = h
  IsStale-Deliveries (take before after x {s} split ready d) (held, le) = IsStale-Deliveries d (
    elim (In-without m x before after (subst (In m) split held)) [
      | inr there ↦ there
      | inl e ↦ absurd (
          omega (
            arith,
            sender_time_of_deliverable s.clock m
                (subst (λ y. is_deliverable s.clock y ≡ true) (sym e) ready),
          ))
    ],
    omega (arith, Behind-deliver x s m.source_core),
  )

  IsStale-receive :
      (x : BroadcastMessage P) (s : CausalBroadcast P W) → IsStale s → IsStale (receive x s)
  IsStale-receive x s (held, le) = elim (Bool-cases (is_health x.kind)) [
    | inl beacon ↦ rw (receive-health x s beacon) (
      subst (In m) (sym (held_ids-deliver x s)) held,
      omega (arith, Behind-deliver x s m.source_core),
    )
    | inr ordered ↦
        let (ms, d) = receive-Deliveries x s ordered in
        IsStale-Deliveries d (In-append_left m s.hold_queue (x ∷ []) held, le)
  ]

  pub IsStale-receive_all :
      (ms : List (BroadcastMessage P)) (s : CausalBroadcast P W)
      → IsStale s
      → IsStale (receive_all ms s)
  unfolding receive_all
  IsStale-receive_all [] s h = h
  IsStale-receive_all (x ∷ ms) s h = IsStale-receive_all ms (receive x s) (IsStale-receive x s h)

  -- A message of an ordered kind that arrives when its counter has been passed (a second copy, or
  -- an echo of the receiver's own) stays in the hold queue whatever arrives after it.
  pub late_is_held_for_ever :
      (ms : List (BroadcastMessage P)) (s : CausalBroadcast P W)
      → is_health m.kind ≡ false
      → sender_time m ≤ counter m.source_core s.clock
      → In m (receive_all (m ∷ ms) s).hold_queue
  unfolding receive_all
  late_is_held_for_ever ms s ordered le =
      let (log, d) = receive-Deliveries m s ordered in
      (IsStale-receive_all ms (receive m s)
        (IsStale-Deliveries d (In-append_right m s.hold_queue (m ∷ []) (inl refl), le))).0

  -- A health message that overtakes an earlier message of its sender is delivered at once, as the
  -- latest delivery, to each handler in turn, and past all held messages; and the message it has
  -- overtaken then stays in the hold queue whatever arrives.
  pub overtaken_is_held_for_ever :
      (h : BroadcastMessage P) (ms : List (BroadcastMessage P)) (s : CausalBroadcast P W)
      → is_health h.kind ≡ true
      → is_health m.kind ≡ false
      → h.source_core ≡ m.source_core
      → sender_time m ≤ sender_time h
      → ((receive h s).delivered ≡ s.delivered ++ h.message_id ∷ [])
        × ((receive h s).world ≡ notify s.handlers h s.world)
        × ((receive h s).hold_queue ≡ s.hold_queue)
        × In m (receive_all (h ∷ m ∷ ms) s).hold_queue
  unfolding receive_all
  overtaken_is_held_for_ever h ms s beacon ordered same le = (
    rw (receive-health h s beacon) (unfold deliver in refl),
    rw (receive-health h s beacon) (unfold deliver in refl),
    rw (receive-health h s beacon) (unfold deliver in refl),
    late_is_held_for_ever ms (receive h s) ordered (
        rw (receive-health h s beacon)
          (omega (arith, counter-deliver_self h s, ap (λ x. counter x (deliver h s).clock) same))),
  )
