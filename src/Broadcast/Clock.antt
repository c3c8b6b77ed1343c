-- ===== src/Broadcast/Clock.antt =====
-- What `_deliver` and `_is_deliverable` say of the vector clocks.
use gaia_server.Base.{
  ℕ, ◌+◌, ◌≤◌, String, ◌≡◌, ◌≢◌, true, List, [], ◌∷◌, max, arith, ◌==◌, eq_iff, if◌then◌else◌,
}
use gaia_server.Dict
use gaia_server.Dict.{Dict, get-insert, IsUnique, IsUnique-insert}
use gaia_server.Broadcast.{
  BroadcastMessage, CausalBroadcast, sender_time, others_known, is_deliverable, deliver,
}
use gaia_server.Broadcast.Delivery.{Deliveries, done, take}

-- The counter that a clock holds for an actor.
abbrev pub counter : String → Dict ℕ → ℕ
counter a clock = Dict.get_or a 0 clock

-- Every counter of the first clock is at most that of the second.
abbrev pub Behind : Dict ℕ → Dict ℕ → Type 0
Behind c d = (a : String) → counter a c ≤ counter a d

pub counter-insert :
    (k a : String) (v : ℕ) (c : Dict ℕ)
    → counter a (Dict.insert k v c) ≡ (if k == a then v else counter a c)
counter-insert k a v c = ground (arith, get-insert k a v c)

pub counter-others_known :
    (sender a : String) (clock vc : Dict ℕ)
    → others_known sender clock vc ≡ true
    → a ≢ sender
    → counter a vc ≤ counter a clock
unfolding others_known Dict.get
counter-others_known sender a clock [] h ne = omega arith
counter-others_known sender a clock ((j, t) ∷ vc) h ne =
    ground (arith, eq_iff j a, eq_iff j sender, counter-others_known sender a clock vc)

pub sender_time_of_deliverable :
    {P : Type 0} (clock : Dict ℕ) (m : BroadcastMessage P)
    → is_deliverable clock m ≡ true
    → sender_time m ≡ counter m.source_core clock + 1
unfolding is_deliverable
sender_time_of_deliverable clock m h = ground arith

module _ {P W : Type 0} where
  pub Behind-deliver :
      (m : BroadcastMessage P) (s : CausalBroadcast P W) → Behind s.clock (deliver m s).clock
  unfolding deliver
  Behind-deliver m s a = ground (
    arith,
    counter-insert m.source_core a (max (counter m.source_core s.clock) (sender_time m)) s.clock,
    eq_iff m.source_core a,
  )

  -- The receiver then knows all that the sender knew.
  pub deliver_knows :
      (m : BroadcastMessage P) (s : CausalBroadcast P W)
      → is_deliverable s.clock m ≡ true
      → Behind m.vector_clock (deliver m s).clock
  unfolding deliver is_deliverable
  deliver_knows m s h a = ground (
    arith,
    counter-insert m.source_core a (max (counter m.source_core s.clock) (sender_time m)) s.clock,
    eq_iff m.source_core a,
    eq_iff a m.source_core,
    counter-others_known m.source_core a s.clock m.vector_clock,
  )

  pub Behind-Deliveries :
      {s t : CausalBroadcast P W} {ms : List (BroadcastMessage P)}
      → Deliveries s ms t
      → Behind s.clock t.clock
  Behind-Deliveries (done s) a = omega arith
  Behind-Deliveries (take before after m {s} q r d) a =
      omega (arith, Behind-deliver m s a, Behind-Deliveries d a)

  -- Deliveries leave no actor twice in the clock.
  pub IsUnique-Deliveries :
      {s t : CausalBroadcast P W} {ms : List (BroadcastMessage P)}
      → Deliveries s ms t
      → IsUnique s.clock
      → IsUnique t.clock
  unfolding deliver
  IsUnique-Deliveries (done s) u = u
  IsUnique-Deliveries (take before after m {s} q r d) u =
      IsUnique-Deliveries d (IsUnique-insert m.source_core _ s.clock u)
