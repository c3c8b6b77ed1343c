-- ===== src/Broadcast/Conservation.antt =====
-- No message is lost or duplicated between its reception and its delivery.
use gaia_server.Base.{
  ℕ, ◌+◌, String, ◌≡◌, refl, true, List, [], ◌∷◌, ◌++◌, map, arith, ◌==◌, if◌then◌else◌, Bool-cases,
  inl, inr, ap, count, count-append,
}
use mathlib.Core.List.{map-append}
use gaia_server.Broadcast.{
  BroadcastMessage, CausalBroadcast, is_health, deliver, receive, receive_all,
}
use gaia_server.Broadcast.Delivery.{Deliveries, done, take}
use gaia_server.Broadcast.Accounting.{receive-Deliveries}

abbrev pub ids : {P : Type 0} → List (BroadcastMessage P) → List String
ids = map (λ m. m.message_id)

-- How often an identifier is delivered or held.
abbrev pub known_copies : {P W : Type 0} → String → CausalBroadcast P W → ℕ
known_copies i s = count i s.delivered + count i (ids s.hold_queue)

count_ids-append :
    {P : Type 0} (i : String) (ms ns : List (BroadcastMessage P))
    → count i (ids (ms ++ ns)) ≡ count i (ids ms) + count i (ids ns)
count_ids-append i ms ns = rw map-append (count-append i (ids ms) (ids ns))

module _ {P W : Type 0} where
  known_copies-deliver :
      (i : String) (m : BroadcastMessage P) (s : CausalBroadcast P W)
      → count i (deliver m s).delivered ≡ count i s.delivered + (if m.message_id == i then 1 else 0)
  unfolding deliver
  known_copies-deliver i m s = omega (arith, count-append i s.delivered (m.message_id ∷ []))

  known_copies-Deliveries :
      (i : String) {s t : CausalBroadcast P W} {ms : List (BroadcastMessage P)}
      → Deliveries s ms t
      → known_copies i t ≡ known_copies i s
  known_copies-Deliveries i (done s) = refl
  known_copies-Deliveries i (take before after m {s} split ready d) = omega (
    arith,
    known_copies-Deliveries i d,
    known_copies-deliver i m s,
    ap (λ q. count i (ids q)) split,
    count_ids-append i before (m ∷ after),
    count_ids-append i before after,
  )

  pub receive-health :
      (m : BroadcastMessage P) (s : CausalBroadcast P W)
      → is_health m.kind ≡ true
      → receive m s ≡ deliver m s
  unfolding receive
  receive-health m s beacon = rw beacon

  pub held_ids-deliver :
      (m : BroadcastMessage P) (s : CausalBroadcast P W) → (deliver m s).hold_queue ≡ s.hold_queue
  unfolding deliver
  held_ids-deliver m s = refl

  known_copies-receive :
      (i : String) (m : BroadcastMessage P) (s : CausalBroadcast P W)
      → known_copies i (receive m s) ≡ known_copies i s + (if m.message_id == i then 1 else 0)
  known_copies-receive i m s = elim (Bool-cases (is_health m.kind)) [
    | inl beacon ↦ rw (receive-health m s beacon) (
        omega (arith, known_copies-deliver i m s, ap (λ q. count i (ids q)) (held_ids-deliver m s)))
    | inr ordered ↦
        let (ms, d) = receive-Deliveries m s ordered in
        omega (arith, known_copies-Deliveries i d, count_ids-append i s.hold_queue (m ∷ []))
  ]

  -- Any number of receptions, of health messages and others: each identifier is delivered or held
  -- exactly as often more than before as it has been received.
  pub receive_all_conserves :
      (i : String) (ms : List (BroadcastMessage P)) (s : CausalBroadcast P W)
      → known_copies i (receive_all ms s) ≡ known_copies i s + count i (ids ms)
  unfolding receive_all
  receive_all_conserves i [] s = omega arith
  receive_all_conserves i (m ∷ ms) s =
      omega (arith, receive_all_conserves i ms (receive m s), known_copies-receive i m s)
