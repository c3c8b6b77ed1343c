-- ===== src/Broadcast/Predecessors.antt =====
-- Causal delivery in a network of cores.
use gaia_server.Base.{
  ℕ, ◌≤◌, String, ◌≡◌, ◌≢◌, refl, ◌↔◌, inl, inr, Bool-cases, false, List, [], ◌∷◌, ◌++◌, map, arith,
  ◌==◌, eq_iff, All-append, All-In, In, subst,
}
use gaia_server.Dict
use gaia_server.Dict.{Dict}
use gaia_server.Broadcast.{CausalBroadcast, Handler, is_health, init, send, receive, subscribe}
use gaia_server.Broadcast.Delivery.{try_deliver_buffered-Deliveries}
use gaia_server.Broadcast.Clock.{counter}
use gaia_server.Broadcast.Network.{
  Wired, Network, with_core, fresh_network, send_at, receive_at, subscribe_at, Step, sends, arrives,
  subscribes, Reach, here, next,
}
use gaia_server.Broadcast.Departures.{
  departing, next_top, send-IsWire, send-HasDelivered, other-HasDelivered,
}
use gaia_server.Broadcast.Past.{
  source, time, id_of, IsWire, AreTimely, IsSent, IsLogged, HasDelivered,
}
use gaia_server.Broadcast.Arrivals.{Deliveries-HasDelivered}

-- What holds of the changed core and of the others holds of all.
pub with_core-all :
    {A B : Type 0} (Q : String → A → B → Type 0) (b : String) (x : A) (y : B) (f : String → A)
    (g : String → B)
    → Q b x y
    → ((j : String) → b ≢ j → Q j (f j) (g j))
    → (j : String) → Q j (with_core b x f j) (with_core b y g j)
with_core-all Q b x y f g h k j = elim (Bool-cases (b == j)) [
  | inl same ↦ rw same (subst (λ i. Q i x y) ((eq_iff b j).0 same) h)
  | inr other ↦ rw other (k j (λ e. absurd (ground (arith, eq_iff b j))))
]

module _ {P W : Type 0} where
  pub receive-HasDelivered :
      (b : String) (wire : List (Wired P)) (top : String → ℕ) (s : CausalBroadcast P W)
      (log : List (Wired P)) (w : Wired P)
      → IsWire top wire
      → In w wire
      → HasDelivered b wire top s log
      → (more : List (Wired P)) × HasDelivered b wire top (receive w.message s) (log ++ more)
  unfolding receive
  receive-HasDelivered b wire top s log w net on h =
      let ordered = All-In (λ w. is_health w.message.kind ≡ false) w wire net.ordered on in
      let s' = record s { hold_queue = s.hold_queue ++ w.message ∷ [] } in
      let held : HasDelivered b wire top s' log = record {
        actor = h.actor;
        ids = h.ids;
        held = All-append (IsSent wire) s.hold_queue (w.message ∷ []) h.held ((w, on, refl), tt);
        logged = h.logged;
        covers = h.covers;
        own = h.own;
        below = h.below;
        timely = h.timely;
      } in
      rw ordered (Deliveries-HasDelivered net (try_deliver_buffered-Deliveries s').1 held)

  -- The messages on the wire and the deliveries of each core fit together.
  pub record IsConsistent (n : Network P W) : Type 0 where
    pub top : String → ℕ
    pub log : String → List (Wired P)
    pub net : IsWire top n.wire
    pub each : (b : String) → HasDelivered b n.wire top (n.core b) (log b)

  fresh-IsConsistent : (world : String → W) → IsConsistent (fresh_network world)
  unfolding fresh_network init Dict.get
  fresh-IsConsistent world = record {
    top = λ a. 0;
    log = λ b. [];
    net = record { timed = tt; single = λ v w k. absurd k; ordered = tt; counted = tt };
    each = λ b. record {
      actor = refl;
      ids = refl;
      held = tt;
      logged = tt;
      covers = λ v k. absurd k;
      own = ground (arith, eq_iff b b);
      below = λ a. ground arith;
      timely = tt;
    };
  }

  subscribe-IsConsistent :
      (b : String) (h : Handler P W) (n : Network P W)
      → IsConsistent n
      → IsConsistent (subscribe_at b h n)
  unfolding subscribe_at subscribe
  subscribe-IsConsistent b h n c = record {
    top = c.top;
    log = with_core b (c.log b) c.log;
    net = c.net;
    each =
        with_core-all (λ j s log. HasDelivered j n.wire c.top s log) b _ (c.log b) n.core c.log
          (record {
            actor = (c.each b).actor;
            ids = (c.each b).ids;
            held = (c.each b).held;
            logged = (c.each b).logged;
            covers = (c.each b).covers;
            own = (c.each b).own;
            below = (c.each b).below;
            timely = (c.each b).timely;
          })
          (λ j ne. c.each j);
  }

  receive-IsConsistent :
      (b : String) (w : Wired P) (n : Network P W)
      → In w n.wire
      → IsConsistent n
      → IsConsistent (receive_at b w.message n)
  unfolding receive_at
  receive-IsConsistent b w n on c =
      let (more, h) =
        receive-HasDelivered b n.wire c.top (n.core b) (c.log b) w c.net on (c.each b) in
      record {
        top = c.top;
        log = with_core b (c.log b ++ more) c.log;
        net = c.net;
        each =
            with_core-all (λ j s log. HasDelivered j n.wire c.top s log) b
              (receive w.message (n.core b)) (c.log b ++ more) n.core c.log h (λ j ne. c.each j);
      }

module _ {P W : Type 0} where
  send-IsConsistent :
      (a id kind : String) (payload : P) (trace : String) (n : Network P W)
      → is_health kind ≡ false
      → IsConsistent n
      → IsConsistent (send_at a id kind payload trace n)
  unfolding send_at departing
  send-IsConsistent a id kind payload trace n ordered c =
      let h = c.each a in
      record {
        top = next_top a id kind payload trace c.net h;
        log = with_core a (c.log a) c.log;
        net = send-IsWire a id kind payload trace c.net h ordered;
        each =
            with_core-all
              (λ j s log.
                HasDelivered j (departing a id kind payload trace c.net h ∷ n.wire)
                  (next_top a id kind payload trace c.net h) s log)
              a (send id kind payload trace (n.core a)).1 (c.log a) n.core c.log
              (send-HasDelivered a id kind payload trace c.net h)
              (λ j ne.
                other-HasDelivered a id kind payload trace c.net h j (n.core j) (c.log j) ne
                  (c.each j));
      }

  Step-IsConsistent : {n n' : Network P W} → Step n n' → IsConsistent n → IsConsistent n'
  Step-IsConsistent (sends a id kind payload trace n ordered) c =
      send-IsConsistent a id kind payload trace n ordered c
  Step-IsConsistent (arrives b w n on) c = receive-IsConsistent b w n on c
  Step-IsConsistent (subscribes b h n) c = subscribe-IsConsistent b h n c

  pub Reach-IsConsistent :
      (world : String → W) {n : Network P W} → Reach (fresh_network world) n → IsConsistent n
  Reach-IsConsistent world here = fresh-IsConsistent world
  Reach-IsConsistent world (next r st) = Step-IsConsistent st (Reach-IsConsistent world r)

  -- Cores that start anew send messages of the causally ordered kinds, and receive messages that
  -- were sent, in any order, any number of times or never. What a core has delivered is then the ids
  -- of a list of messages that others sent. No message is in it twice, and each comes after all that
  -- its sender had delivered or sent before it, but for what the core has sent itself. The list has
  -- just those messages of the others that the core's clock counts, and for no core does its clock
  -- count more than that core's own clock.
  pub causal_delivery :
      (world : String → W) {n : Network P W} (b : String)
      → Reach (fresh_network world) n
      → let clock = (n.core b).clock in
        (log : List (Wired P)) × ((n.core b).delivered ≡ map id_of log)
        × AreTimely b n.wire [] log
        × ((v : Wired P)
            → In v log ↔ (In v n.wire × (source v ≢ b) × (time v ≤ counter (source v) clock)))
        × ((a : String) → counter a clock ≤ counter a (n.core a).clock)
  causal_delivery world {n = n} b r =
      let c = Reach-IsConsistent world r in
      let h = c.each b in
      (
        c.log b,
        h.ids,
        h.timely,
        (λ v. (
          (λ k. All-In (IsLogged b n.wire (n.core b).clock) v (c.log b) h.logged k),
          (λ k. h.covers v k.0 k.1 k.2),
        )),
        (λ a. omega (arith, h.below a, (c.each a).own)),
      )
