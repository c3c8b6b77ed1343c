-- ===== src/Broadcast/Sending.antt =====
-- `_is_deliverable` against the rule of docs/IPC_SPEC.md, and the way from `send` to `receive`.
use gaia_server.Base.{
  ℕ, ◌+◌, ◌≤◌, String, ◌≡◌, ◌≢◌, ◌↔◌, refl, true, false, [], ◌∷◌, arith, ◌==◌, eq_iff, Bool-cases,
  inl, inr,
}
use gaia_server.Dict
use gaia_server.Dict.{IsUnique-insert, Dict, IsUnique, get-insert}
use gaia_server.Broadcast.{
  BroadcastMessage, CausalBroadcast, sender_time, others_known, is_deliverable, send,
}
use gaia_server.Broadcast.Clock.{counter, counter-insert, counter-others_known}

-- A key that a dict lacks has the counter 0.
counter_absent : (k : String) (vc : Dict ℕ) → Dict.contains k vc ≡ false → counter k vc ≡ 0
counter_absent k vc h = ground arith

-- In a dict with no key twice the loop sees each counter once.
others_known_of :
    (sender : String) (clock vc : Dict ℕ)
    → IsUnique vc
    → ((a : String) → a ≢ sender → counter a vc ≤ counter a clock)
    → others_known sender clock vc ≡ true
unfolding others_known Dict.get
others_known_of sender clock [] u h = refl
others_known_of sender clock ((j, t) ∷ vc) u h =
    ground (arith, eq_iff j sender, eq_iff j j, h j, others_known_of sender clock vc u.1 tail)
  where
    tail : (a : String) → a ≢ sender → counter a vc ≤ counter a clock
    tail a ne = elim (Bool-cases (j == a)) [
      | inl same ↦ rw (counter_absent a vc (absent same)) (omega arith)
      | inr other ↦ ground (arith, h a ne)
    ]
      where
        absent : (j == a) ≡ true → Dict.contains a vc ≡ false
        absent same = rw ((eq_iff j a).0 same) at u.0

-- A message is deliverable exactly when its sender's counter is the next one expected and no other
-- counter of its clock, which has no key twice, is above the receiver's.
pub is_deliverable_iff :
    {P : Type 0} (clock : Dict ℕ) (m : BroadcastMessage P)
    → IsUnique m.vector_clock
    → (is_deliverable clock m ≡ true) ↔ (
        (sender_time m ≡ counter m.source_core clock + 1)
        × ((a : String) → a ≢ m.source_core → counter a m.vector_clock ≤ counter a clock))
unfolding is_deliverable
is_deliverable_iff clock m u = (
  λ h. (
    ground arith,
    λ a ne. counter-others_known m.source_core a clock m.vector_clock (ground arith) ne,
  ),
  λ h. ground (arith, others_known_of m.source_core clock m.vector_clock u h.1),
)

-- A message just sent is deliverable at every receiver that knows exactly what its sender knew
-- before, where the sender's clock has no key twice; and the sender's clock is then that of the
-- message, with no key twice.
send-is_deliverable :
    {P W : Type 0} (id kind : String) (payload : P) (trace : String) (s : CausalBroadcast P W)
    (clock : Dict ℕ)
    → IsUnique s.clock
    → ((a : String) → counter a clock ≡ counter a s.clock)
    → let (m, t) = send id kind payload trace s in
      (is_deliverable clock m ≡ true) × (t.clock ≡ m.vector_clock) × IsUnique t.clock
unfolding send
send-is_deliverable id kind payload trace s clock u same = (
  (is_deliverable_iff clock _ (IsUnique-insert s.local_actor _ s.clock u)).1 (
    ground (
      arith,
      counter-insert s.local_actor s.local_actor (counter s.local_actor s.clock + 1) s.clock,
      eq_iff s.local_actor s.local_actor,
      same s.local_actor,
    ),
    λ a ne. ground (
      arith,
      counter-insert s.local_actor a (counter s.local_actor s.clock + 1) s.clock,
      eq_iff s.local_actor a,
      same a,
    ),
  ),
  refl,
  IsUnique-insert s.local_actor _ s.clock u,
)
