-- ===== src/Broadcast/Departures.antt =====
-- A core of a network sends: the messages on the wire and the deliveries of each core after it.
use gaia_server.Base.{
  ℕ, ◌+◌, ◌≤◌, ◌<◌, String, ◌≡◌, ◌≢◌, refl, sym, ap, ◌∙◌, inl, inr, Bool-cases, false, List, [],
  ◌∷◌, ◌++◌, map, arith, ◌==◌, eq_iff, if◌then◌else◌, All, All-append, All-In, In, subst,
}
use gaia_server.Broadcast.{CausalBroadcast, is_health, send}
use gaia_server.Broadcast.Clock.{counter, counter-insert}
use gaia_server.Broadcast.Network.{Wired, with_core, sent_by}
use gaia_server.Broadcast.Past.{
  source, time, id_of, IsCounted, IsWire, AreTimely-mono, All-IsSent_more, All-IsCounted_more,
  sent_by-more, IsLogged, HasDelivered,
}

module _ {P W : Type 0} (a id kind : String) (payload : P) (trace : String) {wire : List (Wired P)}
    {top : String → ℕ} {s : CausalBroadcast P W} {log : List (Wired P)} (net : IsWire top wire)
    (h : HasDelivered a wire top s log) where
  -- The message, as it goes on the wire.
  unfoldable pub departing : Wired P
  departing = record {
    message = (send id kind payload trace s).0;
    known = s.delivered ++ sent_by a wire;
  }

  -- How many messages each core has sent then.
  abbrev pub next_top : String → ℕ
  next_top = with_core a (top a + 1) top

  counter-send :
      (j : String)
      → counter j (send id kind payload trace s).1.clock
        ≡ (if a == j then top a + 1 else counter j s.clock)
  unfolding send
  counter-send j =
      rw (← h.own, ← h.actor)
        (counter-insert s.local_actor j (counter s.local_actor s.clock + 1) s.clock)

  source-departing : source departing ≡ a
  unfolding departing send
  source-departing = h.actor

  clock-departing : departing.message.vector_clock ≡ (send id kind payload trace s).1.clock
  unfolding departing send
  clock-departing = refl

  time-departing : time departing ≡ top a + 1
  time-departing =
      let e = counter-send a in
      rw (source-departing, clock-departing) (rw ((eq_iff a a).1 refl) at e)

  next_top_ge : (j : String) → top j ≤ next_top j
  next_top_ge j = elim (Bool-cases (a == j)) [
    | inl e ↦ rw e (omega (arith, ap top ((eq_iff a j).0 e)))
    | inr e ↦ rw e (omega arith)
  ]

  counter_other :
      (j : String) → a ≢ j → counter j (send id kind payload trace s).1.clock ≡ counter j s.clock
  counter_other j ne =
      let e = counter-send j in
      elim (Bool-cases (a == j)) [
        | inl same ↦ absurd (ne ((eq_iff a j).0 same))
        | inr other ↦ rw other at e
      ]

  -- The message counts what its sender had delivered.
  counts_log :
      (ws : List (Wired P))
      → All (IsLogged a wire s.clock) ws
      → All (IsCounted (departing ∷ wire) departing) (map id_of ws)
  counts_log [] k = tt
  counts_log (v ∷ ws) ((on, ne, le), k) = (
    (
      v,
      inr on,
      refl,
      inr (
        (λ e. ne (e ∙ source-departing)),
        rw clock-departing (omega (arith, le, counter_other (source v) (λ e. ne (sym e)))),
      ),
    ),
    counts_log ws k,
  )

  timed_of : (v : Wired P) → In v wire → time v ≤ top (source v)
  timed_of v on = All-In (λ w. time w ≤ top (source w)) v wire net.timed on

  -- And what its sender had sent.
  counts_sent :
      (ws : List (Wired P))
      → ((v : Wired P) → In v ws → In v wire)
      → All (IsCounted (departing ∷ wire) departing) (sent_by a ws)
  counts_sent [] on = tt
  counts_sent (v ∷ ws) on =
      let rest = counts_sent ws (λ u k. on u (inr k)) in
      elim (Bool-cases (source v == a)) [
        | inr other ↦ rw other rest
        | inl same ↦
            let here = on v (inl refl) in
            let own = (eq_iff (source v) a).0 same in
            rw same (
              (
                v,
                inr here,
                refl,
                inl (
                  own ∙ sym source-departing,
                  omega (arith, timed_of v here, time-departing, ap top own),
                ),
              ),
              rest,
            )
      ]

  timed_still :
      (ws : List (Wired P))
      → All (λ w. time w ≤ top (source w)) ws
      → All (λ w. time w ≤ next_top (source w)) ws
  timed_still [] k = tt
  timed_still (v ∷ ws) (le, k) = (omega (arith, le, next_top_ge (source v)), timed_still ws k)

  IsCounted-still :
      (ws : List (Wired P))
      → All (λ w. All (IsCounted wire w) w.known) ws
      → All (λ w. All (IsCounted (departing ∷ wire) w) w.known) ws
  IsCounted-still [] k = tt
  IsCounted-still (v ∷ ws) (here, k) =
      (All-IsCounted_more departing v wire v.known here, IsCounted-still ws k)

  is_latest : (v : Wired P) → In v wire → source v ≡ source departing → time v < time departing
  is_latest v on e = omega (arith, timed_of v on, time-departing, ap top (e ∙ source-departing))

  next_single :
      (v w : Wired P)
      → In v (departing ∷ wire)
      → In w (departing ∷ wire)
      → source v ≡ source w
      → time v ≡ time w
      → v ≡ w
  next_single v w (inl e) (inl e') p q = e ∙ sym e'
  next_single v w (inl e) (inr k) p q =
      absurd (omega (arith, is_latest w k (sym p ∙ ap source e), q, ap time e))
  next_single v w (inr k) (inl e) p q =
      absurd (omega (arith, is_latest v k (p ∙ ap source e), q, ap time e))
  next_single v w (inr k) (inr l) p q = net.single v w k l p q

  timed_now : time departing ≤ next_top (source departing)
  timed_now =
      subst (λ j. time departing ≤ next_top j) (sym source-departing)
        (rw ((eq_iff a a).1 refl) (omega (arith, time-departing)))

  known-departing : departing.known ≡ map id_of log ++ sent_by a wire
  unfolding departing
  known-departing = ap (λ d. d ++ sent_by a wire) h.ids

  IsCounted-departing : All (IsCounted (departing ∷ wire) departing) departing.known
  IsCounted-departing = subst (All (IsCounted (departing ∷ wire) departing)) (sym known-departing) (
      All-append (IsCounted (departing ∷ wire) departing) (map id_of log) (sent_by a wire)
        (counts_log log h.logged) (counts_sent wire (λ v k. k)))

  pub send-IsWire : is_health kind ≡ false → IsWire next_top (departing ∷ wire)
  unfolding departing send
  send-IsWire ordered = record {
    timed = (timed_now, timed_still wire net.timed);
    single = next_single;
    ordered = (ordered, net.ordered);
    counted = (IsCounted-departing, IsCounted-still wire net.counted);
  }

  IsLogged-send :
      (ws : List (Wired P))
      → All (IsLogged a wire s.clock) ws
      → All (IsLogged a (departing ∷ wire) (send id kind payload trace s).1.clock) ws
  IsLogged-send [] k = tt
  IsLogged-send (v ∷ ws) ((on, ne, le), k) = (
    (inr on, ne, omega (arith, le, counter_other (source v) (λ e. ne (sym e)))),
    IsLogged-send ws k,
  )

  covers_still :
      (v : Wired P)
      → In v (departing ∷ wire)
      → source v ≢ a
      → time v ≤ counter (source v) (send id kind payload trace s).1.clock
      → In v log
  covers_still v (inl e) ne le = absurd (ne (ap source e ∙ source-departing))
  covers_still v (inr on) ne le =
      h.covers v on ne (omega (arith, le, counter_other (source v) (λ e. ne (sym e))))

  below_still : (j : String) → counter j (send id kind payload trace s).1.clock ≤ next_top j
  below_still j =
      let e = counter-send j in
      elim (Bool-cases (a == j)) [
        | inl same ↦ rw same (omega (arith, rw same at e))
        | inr other ↦ rw other (omega (arith, rw other at e, h.below j))
      ]

  -- The sender itself.
  pub send-HasDelivered :
      HasDelivered a (departing ∷ wire) next_top (send id kind payload trace s).1 log
  send-HasDelivered = record {
    actor = unfold send in h.actor;
    ids = unfold send in h.ids;
    held = unfold send in All-IsSent_more departing wire s.hold_queue h.held;
    logged = IsLogged-send log h.logged;
    covers = covers_still;
    own = own_still;
    below = below_still;
    timely =
        AreTimely-mono a wire (departing ∷ wire) [] log (sent_by-more a departing wire) h.timely;
  }
    where
      own_still : counter a (send id kind payload trace s).1.clock ≡ next_top a
      own_still = let e = counter-send a in rw ((eq_iff a a).1 refl) (rw ((eq_iff a a).1 refl) at e)

  -- Any other core.
  pub other-HasDelivered :
      (b : String) (t : CausalBroadcast P W) (log' : List (Wired P))
      → a ≢ b
      → HasDelivered b wire top t log'
      → HasDelivered b (departing ∷ wire) next_top t log'
  other-HasDelivered b t log' ne k = record {
    actor = k.actor;
    ids = k.ids;
    held = All-IsSent_more departing wire t.hold_queue k.held;
    logged = still log' k.logged;
    covers = covers_more;
    own = rw other k.own;
    below = λ j. omega (arith, k.below j, next_top_ge j);
    timely =
        AreTimely-mono b wire (departing ∷ wire) [] log' (sent_by-more b departing wire) k.timely;
  }
    where
      other : (a == b) ≡ false
      other = elim (Bool-cases (a == b)) [ inl e ↦ absurd (ne ((eq_iff a b).0 e)) | inr e ↦ e ]

      still :
          (ws : List (Wired P))
          → All (IsLogged b wire t.clock) ws
          → All (IsLogged b (departing ∷ wire) t.clock) ws
      still [] q = tt
      still (v ∷ ws) ((on, q, le), qs) = ((inr on, q, le), still ws qs)

      covers_more :
          (v : Wired P)
          → In v (departing ∷ wire)
          → source v ≢ b
          → time v ≤ counter (source v) t.clock
          → In v log'
      covers_more v (inr on) q le = k.covers v on q le
      covers_more v (inl e) q le = absurd (
          omega (
            arith,
            le,
            k.below (source v),
            ap top (ap source e ∙ source-departing),
            ap time e,
            time-departing,
          ))
