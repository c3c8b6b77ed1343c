-- ===== src/Broadcast/Accounting.antt =====
-- Where every received message is: it waits, or its counter has been reached by a delivered one.
use native.Mathlib.Decide.{dec_le}
use gaia_server.Base.{
  ℕ, ◌≤◌, ◌<◌, String, ◌≡◌, refl, sym, ◌⊎◌, true, false, List, [], ◌∷◌, ◌++◌, arith, eq_iff, inl,
  inr, All, All-append, All-append_left, All-append_right, In, In-append_left, In-append_right,
  In-without, subst, max,
}
use gaia_server.Dict.{Dict}
use gaia_server.Broadcast.{
  BroadcastMessage, CausalBroadcast, sender_time, is_health, others_known, is_deliverable, deliver,
  receive, receive_all,
}
use gaia_server.Broadcast.Delivery.{
  Deliveries, done, take, with_queue, try_deliver_buffered-Deliveries,
}
use gaia_server.Broadcast.Clock.{
  counter, counter-insert, Behind, Behind-deliver, Behind-Deliveries, deliver_knows,
  sender_time_of_deliverable,
}
use gaia_server.Broadcast.Settled.{receive-ordered}

-- What a receiver knows does not become unknown.
pub others_known_mono :
    (sender : String) (c d vc : Dict ℕ)
    → Behind c d
    → others_known sender c vc ≡ true
    → others_known sender d vc ≡ true
unfolding others_known
others_known_mono sender c d [] le h = refl
others_known_mono sender c d ((a, t) ∷ vc) le h =
    ground (arith, le a, others_known_mono sender c d vc le)

module _ {P W : Type 0} where
  -- The message waits, or its counter has been reached.
  abbrev pub IsAccounted : BroadcastMessage P → CausalBroadcast P W → Type 0
  IsAccounted m s = In m s.hold_queue ⊎ (sender_time m ≤ counter m.source_core s.clock)

  IsAccounted-Deliveries :
      {s t : CausalBroadcast P W} {ms : List (BroadcastMessage P)} (m : BroadcastMessage P)
      → Deliveries s ms t
      → IsAccounted m s
      → IsAccounted m t
  IsAccounted-Deliveries m (done s) h = h
  IsAccounted-Deliveries m (take before after x {s} split ready d) (inr le) =
      IsAccounted-Deliveries m d (inr (omega (arith, Behind-deliver x s m.source_core)))
  IsAccounted-Deliveries m (take before after x {s} split ready d) (inl h) =
      elim (In-without m x before after (subst (In m) split h)) [
        | inr there ↦ IsAccounted-Deliveries m d (inl there)
        | inl e ↦ IsAccounted-Deliveries m d (
            inr (
              subst
                (λ (y : BroadcastMessage P).
                  sender_time y ≤ counter y.source_core (deliver x s).clock)
                (sym e) (deliver_knows x s ready x.source_core)))
      ]

  pub receive-Deliveries :
      (m : BroadcastMessage P) (s : CausalBroadcast P W)
      → is_health m.kind ≡ false
      → (ms : List (BroadcastMessage P)) × Deliveries
          (with_queue (s.hold_queue ++ m ∷ []) s)
          ms
          (receive m s)
  receive-Deliveries m s ordered =
      rw (receive-ordered m s ordered)
        (try_deliver_buffered-Deliveries (with_queue (s.hold_queue ++ m ∷ []) s))

  IsAccounted-receive_all :
      (m : BroadcastMessage P) (ms : List (BroadcastMessage P)) (s : CausalBroadcast P W)
      → All (λ x. is_health x.kind ≡ false) ms
      → IsAccounted m s
      → IsAccounted m (receive_all ms s)
  unfolding receive_all
  IsAccounted-receive_all m [] s o h = h
  IsAccounted-receive_all m (x ∷ ms) s o h =
      let (log, d) = receive-Deliveries x s o.0 in
      IsAccounted-receive_all m ms (receive x s) o.1 (IsAccounted-Deliveries m d (widen h))
    where
      widen : IsAccounted m s → IsAccounted m (with_queue (s.hold_queue ++ x ∷ []) s)
      widen (inl k) = inl (In-append_left m s.hold_queue (x ∷ []) k)
      widen (inr le) = inr le

  -- Every received message waits, or its counter has been reached.
  pub received-IsAccounted :
      (m : BroadcastMessage P) (ms : List (BroadcastMessage P)) (s : CausalBroadcast P W)
      → All (λ x. is_health x.kind ≡ false) ms
      → In m ms
      → IsAccounted m (receive_all ms s)
  unfolding receive_all
  received-IsAccounted m [] s o h = absurd h
  received-IsAccounted m (x ∷ ms) s o (inr h) = received-IsAccounted m ms (receive x s) o.1 h
  received-IsAccounted m (x ∷ ms) s o (inl e) =
      let (log, d) = receive-Deliveries x s o.0 in
      IsAccounted-receive_all m ms (receive x s) o.1
        (IsAccounted-Deliveries m d (inl (In-append_right m s.hold_queue (x ∷ []) (inl e))))

  pub Behind-receive_all :
      (ms : List (BroadcastMessage P)) (s : CausalBroadcast P W)
      → All (λ x. is_health x.kind ≡ false) ms
      → Behind s.clock (receive_all ms s).clock
  unfolding receive_all
  Behind-receive_all [] s o a = omega arith
  Behind-receive_all (x ∷ ms) s o a =
      let (log, d) = receive-Deliveries x s o.0 in
      omega (arith, Behind-Deliveries d a, Behind-receive_all ms (receive x s) o.1 a)

-- Which counters have been delivered, and by which messages.
module _ {P W : Type 0} (Q : BroadcastMessage P → Type 0) (a : String) (low : ℕ) where
  -- Each counter of `a` above `low` that has been reached is that of a delivered message.
  abbrev pub IsCounted : CausalBroadcast P W → Type 0
  IsCounted s =
      (k : ℕ)
      → low < k
      → k ≤ counter a s.clock
      → (m : BroadcastMessage P) × Q m
        × (m.source_core ≡ a)
        × (sender_time m ≡ k)
        × In m.message_id s.delivered

  IsCounted-deliver :
      (q : List (BroadcastMessage P)) (m : BroadcastMessage P) (s : CausalBroadcast P W)
      → is_deliverable s.clock m ≡ true
      → Q m
      → IsCounted s
      → IsCounted (with_queue q (deliver m s))
  unfolding deliver
  IsCounted-deliver q m s ready own h k above le = elim (dec_le k (counter a s.clock)) [
    | yes old ↦
        let (x, qx, src, time, there) = h k above old in
        (x, qx, src, time, In-append_left x.message_id s.delivered (m.message_id ∷ []) there)
    | no new ↦ (
      m,
      own,
      ground (
        arith,
        counter-insert m.source_core a (max (counter m.source_core s.clock) (sender_time m))
            s.clock,
        eq_iff m.source_core a,
        sender_time_of_deliverable s.clock m ready,
      ),
      ground (
        arith,
        counter-insert m.source_core a (max (counter m.source_core s.clock) (sender_time m))
            s.clock,
        eq_iff m.source_core a,
        sender_time_of_deliverable s.clock m ready,
      ),
      In-append_right m.message_id s.delivered (m.message_id ∷ []) (inl refl),
    )
  ]

  IsCounted-Deliveries :
      {s t : CausalBroadcast P W} {ms : List (BroadcastMessage P)}
      → Deliveries s ms t
      → All Q s.hold_queue × IsCounted s
      → All Q t.hold_queue × IsCounted t
  IsCounted-Deliveries (done s) h = h
  IsCounted-Deliveries (take before after m {s} split ready d) (own, h) =
      let all : All Q (before ++ m ∷ after) = subst (All Q) split own in
      let rest = All-append_right Q before (m ∷ after) all in
      IsCounted-Deliveries d (
        All-append Q before after (All-append_left Q before (m ∷ after) all) rest.1,
        IsCounted-deliver (before ++ after) m s ready rest.0 h,
      )

  pub IsCounted-receive_all :
      (ms : List (BroadcastMessage P)) (s : CausalBroadcast P W)
      → All (λ x. is_health x.kind ≡ false) ms
      → All Q ms
      → All Q s.hold_queue × IsCounted s
      → All Q (receive_all ms s).hold_queue × IsCounted (receive_all ms s)
  unfolding receive_all
  IsCounted-receive_all [] s o q h = h
  IsCounted-receive_all (x ∷ ms) s o q (own, h) =
      let (log, d) = receive-Deliveries x s o.0 in
      IsCounted-receive_all ms (receive x s) o.1 q.1
        (IsCounted-Deliveries d (All-append Q s.hold_queue (x ∷ []) own (q.0, tt), h))
