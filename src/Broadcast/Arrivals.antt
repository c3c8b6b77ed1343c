-- ===== src/Broadcast/Arrivals.antt =====
-- A core of a network delivers: what it has delivered then.
use gaia_server.Base.{
  eqb, eqb→eq, ℕ, ◌+◌, ◌≤◌, String, ◌≡◌, ◌≢◌, refl, sym, ap, ◌∙◌, ◌⊎◌, inl, inr, Bool-cases, true,
  List, [], ◌∷◌, ◌++◌, map, max, append_assoc, append-nil, arith, ◌==◌, eq_iff, if◌then◌else◌, All,
  All-append, All-append_left, All-append_right, All-In, In, In-append_left, In-append_right, subst,
}
use mathlib.Core.List.{map-append}
use gaia_server.Dict.{Dict}
use gaia_server.Broadcast.{BroadcastMessage, CausalBroadcast, sender_time, is_deliverable, deliver}
use gaia_server.Broadcast.Delivery.{Deliveries, done, take, with_queue}
use gaia_server.Broadcast.Clock.{
  counter, counter-insert, counter-others_known, Behind-deliver, sender_time_of_deliverable,
}
use gaia_server.Broadcast.Network.{Wired, sent_by}
use gaia_server.Broadcast.Past.{
  source, time, id_of, Counts, IsCounted, IsWire, AreTimely-append, In-map, In-sent_by, IsSent,
  IsLogged, HasDelivered,
}

module _ {P W : Type 0} where
  counter-deliver :
      (m : BroadcastMessage P) (s : CausalBroadcast P W) (a : String)
      → is_deliverable s.clock m ≡ true
      → counter a (deliver m s).clock
        ≡ (if m.source_core == a then sender_time m else counter a s.clock)
  unfolding deliver
  counter-deliver m s a ready = ground (
    arith,
    counter-insert m.source_core a (max (counter m.source_core s.clock) (sender_time m)) s.clock,
    sender_time_of_deliverable s.clock m ready,
  )

others_of_deliverable :
    {P : Type 0} (clock : Dict ℕ) (m : BroadcastMessage P) (a : String)
    → is_deliverable clock m ≡ true
    → a ≢ m.source_core
    → counter a m.vector_clock ≤ counter a clock
unfolding is_deliverable
others_of_deliverable clock m a h ne =
    counter-others_known m.source_core a clock m.vector_clock (ground arith) ne

module _ {P W : Type 0} {b : String} {wire : List (Wired P)} {top : String → ℕ}
    (net : IsWire top wire) {s : CausalBroadcast P W} {log : List (Wired P)}
    (h : HasDelivered b wire top s log) (w : Wired P) (on : In w wire)
    (ready : is_deliverable s.clock w.message ≡ true) where
  next_time : time w ≡ counter (source w) s.clock + 1
  next_time = sender_time_of_deliverable s.clock w.message ready

  not_own : source w ≢ b
  not_own e =
      let t : time w ≤ top (source w) = All-In (λ w. time w ≤ top (source w)) w wire net.timed on in
      absurd (omega (arith, next_time, t, h.own, ap (λ a. counter a s.clock) e, ap top e))

  is_new : In w log → ⊥
  is_new k =
      let l = All-In (IsLogged b wire s.clock) w log h.logged k in omega (arith, next_time, l.2)

  counted_is_logged : (v : Wired P) → In v wire → Counts w v → source v ≢ b → In v log
  counted_is_logged v k (inl (same, less)) ne =
      h.covers v k ne (omega (arith, next_time, less, ap (λ a. counter a s.clock) same))
  counted_is_logged v k (inr (other, le)) ne =
      h.covers v k ne
        (omega (arith, le, others_of_deliverable s.clock w.message (source v) ready other))

  known_is_there :
      (ids : List String)
      → All (IsCounted wire w) ids
      → All (λ id. In id (map id_of log) ⊎ In id (sent_by b wire)) ids
  known_is_there [] k = tt
  known_is_there (id ∷ ids) ((v, k, e, counts), ks) = (
    elim (Bool-cases (source v == b)) [
      | inl own ↦ inr (
          subst (λ j. In id (sent_by j wire)) ((eq_iff (source v) b).0 own)
            (subst (λ j. In j (sent_by (source v) wire)) (sym e) (In-sent_by v wire k)))
      | inr other ↦ inl (
          subst (λ j. In j (map id_of log)) (sym e)
            (In-map v log
              (counted_is_logged v k counts (λ e'. absurd (ground (arith, eq_iff (source v) b))))))
    ],
    known_is_there ids ks,
  )

  covers_more :
      (v : Wired P)
      → In v wire
      → source v ≢ b
      → time v ≤ counter (source v) (deliver w.message s).clock
      → In v (log ++ w ∷ [])
  covers_more v k ne le =
      let e = counter-deliver w.message s (source v) ready in
      elim (Bool-cases (source w == source v)) [
        | inr other ↦
            In-append_left v log (w ∷ []) (h.covers v k ne (omega (arith, le, rw other at e)))
        | inl same ↦
            let e' = rw same at e in
            let alike = (eq_iff (source w) (source v)).0 same in
            elim (Bool-cases (eqb (time v) (time w))) [
              | inl eq ↦
                  In-append_right v log (w ∷ [])
                    (inl (net.single v w k on (sym alike) (eqb→eq (time v) (time w) eq)))
              | inr ne' ↦ In-append_left v log (w ∷ []) (
                  h.covers v k ne
                    (ground (arith, le, e', next_time, ap (λ a. counter a s.clock) alike)))
            ]
      ]

  IsLogged-deliver :
      (ws : List (Wired P))
      → All (IsLogged b wire s.clock) ws
      → All (IsLogged b wire (deliver w.message s).clock) ws
  IsLogged-deliver [] k = tt
  IsLogged-deliver (v ∷ ws) ((k, ne, le), ks) =
      ((k, ne, omega (arith, le, Behind-deliver w.message s (source v))), IsLogged-deliver ws ks)

  below_still : (a : String) → counter a (deliver w.message s).clock ≤ top a
  below_still a =
      let e = counter-deliver w.message s a ready in
      let t : time w ≤ top (source w) = All-In (λ w. time w ≤ top (source w)) w wire net.timed on in
      elim (Bool-cases (source w == a)) [
        | inl same ↦ omega (arith, rw same at e, t, ap top ((eq_iff (source w) a).0 same))
        | inr other ↦ omega (arith, rw other at e, h.below a)
      ]

  own_still : counter b (deliver w.message s).clock ≡ top b
  own_still =
      let e = counter-deliver w.message s b ready in
      elim (Bool-cases (source w == b)) [
        | inl same ↦ absurd (not_own ((eq_iff (source w) b).0 same))
        | inr other ↦ (rw other at e) ∙ h.own
      ]

  -- The core delivers the message, and holds these.
  pub deliver-HasDelivered :
      (queue : List (BroadcastMessage P))
      → All (IsSent wire) queue
      → HasDelivered b wire top (with_queue queue (deliver w.message s)) (log ++ w ∷ [])
  deliver-HasDelivered queue held = record {
    actor = unfold deliver in h.actor;
    ids = unfold deliver in rw (h.ids, map-append) refl;
    held = held;
    logged =
        All-append (IsLogged b wire (deliver w.message s).clock) log (w ∷ [])
          (IsLogged-deliver log h.logged) ((on, not_own, time_counted), tt);
    covers = covers_more;
    own = own_still;
    below = below_still;
    timely = AreTimely-append b wire [] log w h.timely (
      is_new,
      known_is_there w.known (All-In (λ w. All (IsCounted wire w) w.known) w wire net.counted on),
    );
  }
    where
      time_counted : time w ≤ counter (source w) (deliver w.message s).clock
      time_counted =
          let e = counter-deliver w.message s (source w) ready in
          omega (arith, rw ((eq_iff (source w) (source w)).1 refl) at e)

module _ {P W : Type 0} {b : String} {wire : List (Wired P)} {top : String → ℕ}
    (net : IsWire top wire) where
  -- What the loops of the code deliver.
  pub Deliveries-HasDelivered :
      {s t : CausalBroadcast P W} {ms : List (BroadcastMessage P)} {log : List (Wired P)}
      → Deliveries s ms t
      → HasDelivered b wire top s log
      → (more : List (Wired P)) × HasDelivered b wire top t (log ++ more)
  Deliveries-HasDelivered (done s) h = ([], rw append-nil h)
  Deliveries-HasDelivered {log = log} (take before after m {s} split ready d) h =
      let held : All (IsSent wire) (before ++ m ∷ after) = subst (All (IsSent wire)) split h.held in
      let there = All-append_right (IsSent wire) before (m ∷ after) held in
      let rest =
        All-append (IsSent wire) before after
          (All-append_left (IsSent wire) before (m ∷ after) held) there.1 in
      let (w, on, e) = there.0 in
      let (more, k) = Deliveries-HasDelivered d (
        subst
          (λ m.
            HasDelivered b wire top (with_queue (before ++ after) (deliver m s)) (log ++ w ∷ []))
          e
          (deliver-HasDelivered net h w on
            (subst (λ m. is_deliverable s.clock m ≡ true) (sym e) ready) (before ++ after) rest)) in
      (w ∷ more, rw append_assoc at k)
