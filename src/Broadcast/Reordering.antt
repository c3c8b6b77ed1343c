-- ===== src/Broadcast/Reordering.antt =====
-- A sender's messages are all delivered, whatever the order in which the network brings them.
use native.Mathlib.Decide.{dec_le}
use gaia_server.Base.{
  ℕ, ◌+◌, ◌≤◌, ◌<◌, String, ◌≡◌, sym, true, false, List, [], arith, All, All-In_of, All-In, In,
  subst, ap, inl, inr,
}
use gaia_server.Broadcast.{
  BroadcastMessage, CausalBroadcast, sender_time, is_health, others_known, is_deliverable,
  receive_all,
}
use gaia_server.Broadcast.Clock.{counter}
use gaia_server.Broadcast.Settled.{IsSettled, receive_all-IsSettled}
use gaia_server.Broadcast.Accounting.{
  received-IsAccounted, Behind-receive_all, others_known_mono, IsCounted, IsCounted-receive_all,
}

module _ {P W : Type 0} where
  ready_at :
      (s : CausalBroadcast P W) (m : BroadcastMessage P) (a : String)
      → m.source_core ≡ a
      → sender_time m ≡ counter a s.clock + 1
      → others_known a s.clock m.vector_clock ≡ true
      → is_deliverable s.clock m ≡ true
  unfolding is_deliverable
  ready_at s m a src time known = rw src (ground arith)

  -- A message that waits in a settled queue is not the next of its sender.
  pub not_held :
      (s : CausalBroadcast P W) (m : BroadcastMessage P)
      → IsSettled s
      → is_deliverable s.clock m ≡ true
      → In m s.hold_queue
      → ⊥
  not_held s m settled ready held =
      let early = All-In (λ x. is_deliverable s.clock x ≡ false) m s.hold_queue settled held in
      cc (ready, early)

  -- A receiver that holds nothing back receives messages in any order, none of them of a health
  -- kind. If for each counter of the sender `a` up to `n` that is new to the receiver one of them
  -- carries it, with no dependency on other actors that the receiver lacks, then the receiver's
  -- counter for `a` reaches `n`, and each of these counters is that of a message which was among
  -- the received ones and which was delivered.
  pub any_order_delivers :
      (a : String) (n : ℕ) (ms : List (BroadcastMessage P)) (s : CausalBroadcast P W)
      → s.hold_queue ≡ []
      → All (λ m. is_health m.kind ≡ false) ms
      → ((k : ℕ)
          → counter a s.clock < k
          → k ≤ n
          → (m : BroadcastMessage P) × In m ms
            × (m.source_core ≡ a)
            × (sender_time m ≡ k)
            × (others_known a s.clock m.vector_clock ≡ true))
      → (n ≤ counter a (receive_all ms s).clock)
        × ((k : ℕ)
            → counter a s.clock < k
            → k ≤ n
            → (m : BroadcastMessage P) × In m ms
              × (m.source_core ≡ a)
              × (sender_time m ≡ k)
              × In m.message_id (receive_all ms s).delivered)
  any_order_delivers a n ms s idle ordered sent = (reached, logged)
    where
      t : CausalBroadcast P W
      t = receive_all ms s

      settled : IsSettled t
      settled =
          receive_all-IsSettled ms s ordered
            (subst (All (λ m. is_deliverable s.clock m ≡ false)) (sym idle) tt)

      behind : counter a s.clock ≤ counter a t.clock
      behind = Behind-receive_all ms s ordered a

      short : counter a t.clock < n → ⊥
      short lt =
          let (m, there, src, time, known) =
            sent (counter a t.clock + 1) (omega (arith, behind)) (omega arith) in
          let known' =
            others_known_mono a s.clock t.clock m.vector_clock (Behind-receive_all ms s ordered)
              known in
          elim (received-IsAccounted m ms s ordered there) [
            | inl held ↦ not_held t m settled (ready_at t m a src time known') held
            | inr le ↦ absurd (omega (arith, ap (λ x. counter x t.clock) src))
          ]

      reached : n ≤ counter a t.clock
      reached = elim (dec_le n (counter a t.clock)) [
        | yes le ↦ le
        | no gt ↦ absurd (short (omega arith))
      ]

      counted : IsCounted (λ m. In m ms) a (counter a s.clock) t
      counted =
          (IsCounted-receive_all (λ m. In m ms) a (counter a s.clock) ms s ordered
            (All-In_of (λ m. In m ms) ms (λ m h. h))
            (subst (All (λ m. In m ms)) (sym idle) tt, λ k lo hi. absurd (omega arith))).1

      logged :
          (k : ℕ)
          → counter a s.clock < k
          → k ≤ n
          → (m : BroadcastMessage P) × In m ms
            × (m.source_core ≡ a)
            × (sender_time m ≡ k)
            × In m.message_id t.delivered
      logged k lo hi = counted k lo (omega (arith, reached))
