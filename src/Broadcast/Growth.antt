-- ===== src/Broadcast/Growth.antt =====
-- The messages of a network in the order in which they were sent: what each of them depends on was
-- sent before it.
use gaia_server.Base.{
  ℕ, suc, ◌+◌, ◌≤◌, String, ◌≡◌, ◌≢◌, refl, sym, ap, ◌∙◌, false, List, [], ◌∷◌, ◌++◌, arith, ◌==◌,
  eq_iff, if◌then◌else◌, All-In, In,
}
use gaia_server.Dict
use gaia_server.Dict.{Dict, IsUnique, IsUnique-insert}
use gaia_server.Broadcast.{
  BroadcastMessage, CausalBroadcast, Handler, is_health, init, send, receive, subscribe,
}
use gaia_server.Broadcast.Accounting.{receive-Deliveries}
use gaia_server.Broadcast.Clock.{counter, counter-insert, IsUnique-Deliveries}
use gaia_server.Broadcast.Network.{
  Wired, Network, with_core, sent_by, fresh_network, send_at, receive_at, subscribe_at, sends,
  arrives, subscribes, Reach, here, next,
}
use gaia_server.Broadcast.Past.{source, time}
use gaia_server.Broadcast.Predecessors.{
  with_core-all, receive-HasDelivered, IsConsistent, Reach-IsConsistent,
}

-- How many messages this core sent.
abbrev pub sent_count : {P : Type 0} → String → List (Wired P) → ℕ
sent_count a [] = 0
sent_count a (w ∷ ws) = if source w == a then suc (sent_count a ws) else sent_count a ws

-- The latest first: each is the next of its sender, and its clock counts no other message than those
-- sent before it.
abbrev pub IsGrown : {P : Type 0} → List (Wired P) → Type 0
IsGrown [] = Unit
IsGrown (w ∷ ws) =
    (time w ≡ sent_count (source w) ws + 1)
    × ((j : String) → j ≢ source w → counter j w.message.vector_clock ≤ sent_count j ws)
    × IsUnique w.message.vector_clock
    × IsGrown ws

module _ {P W : Type 0} where
  module _ (a id kind : String) (payload : P) (trace : String) (s : CausalBroadcast P W)
      (wire : List (Wired P)) (actor : s.local_actor ≡ a) (unique : IsUnique s.clock)
      (own : counter a s.clock ≡ sent_count a wire)
      (below : (j : String) → counter j s.clock ≤ sent_count j wire) where
    counter-sent :
        (j : String)
        → counter j (send id kind payload trace s).0.vector_clock
          ≡ (if a == j then sent_count a wire + 1 else counter j s.clock)
    unfolding send
    counter-sent j =
        rw (← own, ← actor)
          (counter-insert s.local_actor j (counter s.local_actor s.clock + 1) s.clock)

    send-IsGrown :
        (ids : List String)
        → IsGrown wire
        → IsGrown (record { message = (send id kind payload trace s).0; known = ids } ∷ wire)
    unfolding send
    send-IsGrown ids grown = (
      (let e = counter-sent a in
          ground (
            arith,
            counter-insert s.local_actor s.local_actor (counter s.local_actor s.clock + 1) s.clock,
            eq_iff s.local_actor s.local_actor,
            ap (λ j. counter j s.clock) actor,
            ap (λ j. sent_count j wire) actor,
            own,
          )),
      (λ j ne. ground (
        arith,
        counter-insert s.local_actor j (counter s.local_actor s.clock + 1) s.clock,
        eq_iff s.local_actor j,
        below j,
      )),
      IsUnique-insert s.local_actor _ s.clock unique,
      grown,
    )

    sent_count-send :
        (ids : List String) (j : String)
        → sent_count j (record { message = (send id kind payload trace s).0; known = ids } ∷ wire)
          ≡ (if a == j then sent_count j wire + 1 else sent_count j wire)
    unfolding send
    sent_count-send ids j = rw (← actor) (ground arith)

    send-own :
        (ids : List String)
        → counter a (send id kind payload trace s).1.clock
          ≡ sent_count a (record { message = (send id kind payload trace s).0; known = ids } ∷ wire)
    unfolding send
    send-own ids = ground (arith, counter-sent a, sent_count-send ids a, eq_iff a a)

    send-IsUnique : IsUnique (send id kind payload trace s).1.clock
    unfolding send
    send-IsUnique = IsUnique-insert s.local_actor _ s.clock unique

  -- Each core's clock counts the messages that it sent, and has no actor twice.
  pub record IsGrowing (n : Network P W) : Type 0 where
    pub grown : IsGrown n.wire
    pub each :
        (b : String)
        → IsUnique (n.core b).clock × (counter b (n.core b).clock ≡ sent_count b n.wire)

  fresh-IsGrowing : (world : String → W) → IsGrowing (fresh_network world)
  unfolding fresh_network init Dict.get
  fresh-IsGrowing world = record {
    grown = tt;
    each = λ b. ((refl, tt), ground (arith, eq_iff b b));
  }

  receive-IsUnique :
      (m : BroadcastMessage P) (s : CausalBroadcast P W)
      → is_health m.kind ≡ false
      → IsUnique s.clock
      → IsUnique (receive m s).clock
  receive-IsUnique m s ordered u =
      let (ms, d) = receive-Deliveries m s ordered in IsUnique-Deliveries d u

  -- Where a core's own counter stands, it has no part in what another core does.
  with_core-each :
      (b : String) (s : CausalBroadcast P W) (n : Network P W)
      → IsGrowing n
      → IsUnique s.clock
      → counter b s.clock ≡ counter b (n.core b).clock
      → IsGrowing (record n { core = with_core b s n.core })
  with_core-each b s n g u e = record {
    grown = g.grown;
    each =
        with_core-all
          (λ j s (log : Unit {0}). IsUnique s.clock × (counter j s.clock ≡ sent_count j n.wire)) b s
          tt n.core (λ j. tt) (u, e ∙ (g.each b).1) (λ j ne. g.each j);
  }

  receive-IsGrowing :
      (b : String) (w : Wired P) (n : Network P W)
      → In w n.wire
      → IsConsistent n
      → IsGrowing n
      → IsGrowing (receive_at b w.message n)
  unfolding receive_at
  receive-IsGrowing b w n on c g =
      let ordered = All-In (λ w. is_health w.message.kind ≡ false) w n.wire c.net.ordered on in
      let (more, h) =
        receive-HasDelivered b n.wire c.top (n.core b) (c.log b) w c.net on (c.each b) in
      with_core-each b (receive w.message (n.core b)) n g
        (receive-IsUnique w.message (n.core b) ordered (g.each b).0) (h.own ∙ sym (c.each b).own)

  subscribe-IsGrowing :
      (b : String) (h : Handler P W) (n : Network P W)
      → IsGrowing n
      → IsGrowing (subscribe_at b h n)
  unfolding subscribe_at subscribe
  subscribe-IsGrowing b h n g = with_core-each b _ n g (g.each b).0 refl

  -- No core's clock counts more messages than were sent.
  pub counter-sent_count :
      (n : Network P W)
      → IsConsistent n
      → IsGrowing n
      → (a b : String) → counter a (n.core b).clock ≤ sent_count a n.wire
  counter-sent_count n c g a b = omega (arith, (c.each b).below a, (c.each a).own, (g.each a).1)

  send-IsGrowing :
      (a id kind : String) (payload : P) (trace : String) (n : Network P W)
      → IsConsistent n
      → IsGrowing n
      → IsGrowing (send_at a id kind payload trace n)
  unfolding send_at
  send-IsGrowing a id kind payload trace n c g =
      let s = n.core a in
      let actor = (c.each a).actor in
      let (unique, own) = g.each a in
      let below : (j : String) → counter j s.clock ≤ sent_count j n.wire =
        λ j. counter-sent_count n c g j a in
      let ids = s.delivered ++ sent_by a n.wire in
      record {
        grown = send-IsGrown a id kind payload trace s n.wire actor unique own below ids g.grown;
        each =
            with_core-all
              (λ j t (log : Unit {0}).
                IsUnique t.clock
                × (counter j t.clock
                    ≡ sent_count j (
                        record { message = (send id kind payload trace s).0; known = ids }
                        ∷ n.wire)))
              a (send id kind payload trace s).1 tt n.core (λ j. tt)
              (
                send-IsUnique a id kind payload trace s n.wire actor unique own below,
                send-own a id kind payload trace s n.wire actor unique own below ids,
              )
              (λ j ne. (
                (g.each j).0,
                ground (
                  arith,
                  (g.each j).1,
                  eq_iff a j,
                  sent_count-send a id kind payload trace s n.wire actor unique own below ids j,
                ),
              ));
      }

  pub Reach-IsGrowing :
      (world : String → W) {n : Network P W} → Reach (fresh_network world) n → IsGrowing n
  Reach-IsGrowing world here = fresh-IsGrowing world
  Reach-IsGrowing world (next r (sends a id kind payload trace n ordered)) =
      send-IsGrowing a id kind payload trace n (Reach-IsConsistent world r)
        (Reach-IsGrowing world r)
  Reach-IsGrowing world (next r (arrives b w n on)) =
      receive-IsGrowing b w n on (Reach-IsConsistent world r) (Reach-IsGrowing world r)
  Reach-IsGrowing world (next r (subscribes b h n)) =
      subscribe-IsGrowing b h n (Reach-IsGrowing world r)
