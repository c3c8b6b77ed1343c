-- ===== src/Broadcast/Eventual.antt =====
-- Once the messages of a network have come, a core has delivered them.
use native.Mathlib.Decide.{dec_le}
use gaia_server.Base.{
  ℕ, ◌≤◌, String, ◌≡◌, ◌≢◌, ◌↔◌, refl, ap, inl, inr, Bool-cases, false, List, [], ◌∷◌, ◌++◌,
  append_assoc, append-nil, map, arith, ◌==◌, eq_iff, All, All-In, In,
}
use gaia_server.Broadcast.{BroadcastMessage, CausalBroadcast, is_health, receive, receive_all}
use gaia_server.Broadcast.Accounting.{received-IsAccounted}
use gaia_server.Broadcast.Clock.{counter}
use gaia_server.Broadcast.Growth.{sent_count, IsGrown, IsGrowing, Reach-IsGrowing}
use gaia_server.Broadcast.Network.{Wired, Network, fresh_network, Reach}
use gaia_server.Broadcast.Past.{source, time, id_of, IsWire, AreTimely, IsLogged, HasDelivered}
use gaia_server.Broadcast.Predecessors.{receive-HasDelivered, IsConsistent, Reach-IsConsistent}
use gaia_server.Broadcast.Reordering.{not_held}
use gaia_server.Broadcast.Sending.{is_deliverable_iff}
use gaia_server.Broadcast.Settled.{IsSettled, receive-IsSettled, receive_all-IsSettled}

module _ {P : Type 0} where
  abbrev pub messages : List (Wired P) → List (BroadcastMessage P)
  messages ws = map (λ w. w.message) ws

  In-messages : (w : Wired P) (ws : List (Wired P)) → In w ws → In w.message (messages ws)
  In-messages w [] h = absurd h
  In-messages w (v ∷ ws) (inl e) = inl (ap (λ (w : Wired P). w.message) e)
  In-messages w (v ∷ ws) (inr h) = inr (In-messages w ws h)

  messages-ordered :
      {top : String → ℕ} {wire : List (Wired P)} (ws : List (Wired P))
      → IsWire top wire
      → All (λ w. In w wire) ws
      → All (λ m. is_health m.kind ≡ false) (messages ws)
  messages-ordered [] net on = tt
  messages-ordered {wire = wire} (w ∷ ws) net on = (
    All-In (λ w. is_health w.message.kind ≡ false) w wire net.ordered on.0,
    messages-ordered ws net on.1,
  )

module _ {P W : Type 0} where
  receive_all-HasDelivered :
      (b : String) (wire : List (Wired P)) (top : String → ℕ) (ws : List (Wired P))
      (s : CausalBroadcast P W) (log : List (Wired P))
      → IsWire top wire
      → All (λ w. In w wire) ws
      → HasDelivered b wire top s log
      → (more : List (Wired P)) × HasDelivered b wire top
          (receive_all (messages ws) s)
          (log ++ more)
  unfolding receive_all
  receive_all-HasDelivered b wire top [] s log net on h = ([], rw append-nil h)
  receive_all-HasDelivered b wire top (w ∷ ws) s log net on h =
      let (first, k) = receive-HasDelivered b wire top s log w net on.0 h in
      let (more, l) =
        receive_all-HasDelivered b wire top ws (receive w.message s) (log ++ first) net on.1 k in
      (first ++ more, rw append_assoc at l)

  -- After a message of an ordered kind nothing in the hold queue is deliverable.
  settles :
      (w : Wired P) (ws : List (Wired P)) (s : CausalBroadcast P W)
      → All (λ m. is_health m.kind ≡ false) (messages ws)
      → In w ws
      → IsSettled (receive_all (messages ws) s)
  unfolding receive_all
  settles w [] s ordered h = absurd h
  settles w (v ∷ ws) s ordered h =
      receive_all-IsSettled (messages ws) (receive v.message s) ordered.1
        (receive-IsSettled v.message s ordered.0)

  module _ (n : Network P W) (c : IsConsistent n) (g : IsGrowing n) (b : String)
      (ws : List (Wired P)) (on : All (λ w. In w n.wire) ws)
      (complete : (v : Wired P) → In v n.wire → source v ≢ b → In v ws) where
    abbrev there : CausalBroadcast P W
    there = receive_all (messages ws) (n.core b)

    delivered_there : (log : List (Wired P)) × HasDelivered b n.wire c.top there log
    delivered_there =
        let (more, h) =
          receive_all-HasDelivered b n.wire c.top ws (n.core b) (c.log b) c.net on (c.each b) in
        (c.log b ++ more, h)

    abbrev IsReached : Wired P → Type 0
    IsReached w = time w ≤ counter (source w) there.clock

    -- A message of another core is counted, if all those before it are.
    next-IsReached :
        (w : Wired P) (us : List (Wired P))
        → IsGrown (w ∷ us)
        → In w n.wire
        → source w ≢ b
        → ((a : String) → sent_count a us ≤ counter a there.clock)
        → IsReached w
    next-IsReached w us grown at_wire other before =
        let ordered = messages-ordered ws c.net on in
        let came = complete w at_wire other in
        elim (received-IsAccounted w.message (messages ws) (n.core b) ordered
          (In-messages w ws came)) [
            | inr counted ↦ counted
            | inl held ↦ elim (dec_le (time w) (counter (source w) there.clock)) [
              | yes le ↦ le
              | no gt ↦ absurd (
                  not_held there w.message (settles w ws (n.core b) ordered came)
                    ((is_deliverable_iff there.clock w.message grown.2).1 (
                      omega (arith, grown.0, before (source w)),
                      (λ j ne. omega (arith, grown.1 j ne, before j)),
                    ))
                    held)
            ]
          ]

    own-IsReached : (w : Wired P) → In w n.wire → source w ≡ b → IsReached w
    own-IsReached w at_wire e =
        let t : time w ≤ c.top (source w) =
          All-In (λ w. time w ≤ c.top (source w)) w n.wire c.net.timed at_wire in
        omega (arith, t, delivered_there.1.own, ap c.top e, ap (λ a. counter a there.clock) e)

    all-IsReached :
        (us : List (Wired P))
        → IsGrown us
        → ((v : Wired P) → In v us → In v n.wire)
        → All IsReached us × ((a : String) → sent_count a us ≤ counter a there.clock)
    all-IsReached [] grown within = (tt, λ a. omega arith)
    all-IsReached (w ∷ us) grown within =
        let (rest, before) = all-IsReached us grown.3 (λ v h. within v (inr h)) in
        let reached : IsReached w = elim (Bool-cases (source w == b)) [
          | inl same ↦ own-IsReached w (within w (inl refl)) ((eq_iff (source w) b).0 same)
          | inr other ↦
              next-IsReached w us grown (within w (inl refl))
                (λ e. absurd (ground (arith, eq_iff (source w) b))) before
        ] in
        (
          (reached, rest),
          (λ a. elim (Bool-cases (source w == a)) [
            | inr other ↦ rw other (before a)
            | inl same ↦ rw same (
                omega (
                  arith,
                  grown.0,
                  reached,
                  ap (λ j. sent_count j us) ((eq_iff (source w) a).0 same),
                  ap (λ j. counter j there.clock) ((eq_iff (source w) a).0 same),
                ))
          ]),
        )

  -- Take any reachable network of cores that send messages of the causally ordered kinds, whatever
  -- has come late, twice or not at all so far. If a core now gets messages that were sent, in any
  -- order and any number of times, but each message of the others at least once, then it has
  -- delivered exactly the messages of the others, each once and after all that its sender had
  -- delivered or sent before it (but for what the core has sent itself); and its clock counts as
  -- many messages of each core as that core's own clock.
  pub everything_is_delivered :
      (world : String → W) {n : Network P W} (b : String) (ws : List (Wired P))
      → Reach (fresh_network world) n
      → All (λ w. In w n.wire) ws
      → ((v : Wired P) → In v n.wire → source v ≢ b → In v ws)
      → let t = receive_all (messages ws) (n.core b) in
        (log : List (Wired P)) × (t.delivered ≡ map id_of log)
        × AreTimely b n.wire [] log
        × ((v : Wired P) → In v log ↔ (In v n.wire × (source v ≢ b)))
        × ((a : String) → counter a t.clock ≡ counter a (n.core a).clock)
  everything_is_delivered world {n = n} b ws r on complete =
      let c = Reach-IsConsistent world r in
      let g = Reach-IsGrowing world r in
      let (log, h) = delivered_there n c g b ws on complete in
      let (reached, counts) = all-IsReached n c g b ws on complete n.wire g.grown (λ v k. k) in
      let clock = (receive_all (messages ws) (n.core b)).clock in
      (
        log,
        h.ids,
        h.timely,
        (λ v. (
          (λ k. let l = All-In (IsLogged b n.wire clock) v log h.logged k in (l.0, l.1)),
          (λ k.
              h.covers v k.0 k.1 (All-In (IsReached n c g b ws on complete) v n.wire reached k.0)),
        )),
        (λ a. omega (arith, h.below a, (c.each a).own, (g.each a).1, counts a)),
      )
