-- ===== src/Broadcast/Causality.antt =====
-- The order of deliveries over a whole run: receptions, sends and subscriptions in any order.
use gaia_server.Base.{
  ℕ, ◌+◌, ◌<◌, String, ◌≡◌, refl, true, false, List, [], ◌∷◌, ◌++◌, map, append_assoc, append-nil,
  arith, eq_iff, Bool-cases, inl, inr, All, All-append, All-In_of, All-append_left,
  All-append_right, In, subst,
}
use mathlib.Core.List.{map-append}
use gaia_server.Dict
use gaia_server.Broadcast.{
  BroadcastMessage, CausalBroadcast, Handler, sender_time, is_health, is_deliverable, deliver,
  receive, send, subscribe, init,
}
use gaia_server.Broadcast.Delivery.{Deliveries, done, take, try_deliver_buffered-Deliveries}
use gaia_server.Broadcast.Clock.{
  counter, counter-insert, Behind, Behind-deliver, deliver_knows, sender_time_of_deliverable,
}

-- `b`, if it comes after `a`, is not something that the sender of `a` had already seen.
abbrev pub Respects : {P : Type 0} → BroadcastMessage P → BroadcastMessage P → Type 0
Respects a b =
    is_health a.kind ≡ false
    → is_health b.kind ≡ false
    → counter b.source_core a.vector_clock < sender_time b

-- No message comes after one that depends on it.
abbrev pub IsCausal : {P : Type 0} → List (BroadcastMessage P) → Type 0
IsCausal [] = Unit
IsCausal (a ∷ ms) = All (Respects a) ms × IsCausal ms

-- What a log of deliveries between two clocks satisfies.
abbrev IsNew : {P : Type 0} → Dict.Dict ℕ → BroadcastMessage P → Type 0
IsNew c b = is_health b.kind ≡ false → counter b.source_core c < sender_time b

abbrev IsKnown : {P : Type 0} → Dict.Dict ℕ → BroadcastMessage P → Type 0
IsKnown c a = is_health a.kind ≡ false → Behind a.vector_clock c

module _ {P : Type 0} where
  IsNew-mono :
      (c d : Dict.Dict ℕ) (ms : List (BroadcastMessage P))
      → Behind c d
      → All (IsNew d) ms
      → All (IsNew c) ms
  IsNew-mono c d [] le h = tt
  IsNew-mono c d (m ∷ ms) le h =
      (λ k. omega (arith, le m.source_core, h.0 k), IsNew-mono c d ms le h.1)

  IsKnown-mono :
      (c d : Dict.Dict ℕ) (ms : List (BroadcastMessage P))
      → Behind c d
      → All (IsKnown c) ms
      → All (IsKnown d) ms
  IsKnown-mono c d [] le h = tt
  IsKnown-mono c d (m ∷ ms) le h = (λ k a. omega (arith, le a, h.0 k a), IsKnown-mono c d ms le h.1)

  All-Respects :
      (c : Dict.Dict ℕ) (a : BroadcastMessage P) (ms : List (BroadcastMessage P))
      → IsKnown c a
      → All (IsNew c) ms
      → All (Respects a) ms
  All-Respects c a [] ka h = tt
  All-Respects c a (b ∷ ms) ka h =
      (λ p q. omega (arith, ka p b.source_core, h.0 q), All-Respects c a ms ka h.1)

  IsCausal-append :
      (c : Dict.Dict ℕ) (ms ns : List (BroadcastMessage P))
      → All (IsKnown c) ms
      → IsCausal ms
      → All (IsNew c) ns
      → IsCausal ns
      → IsCausal (ms ++ ns)
  IsCausal-append c [] ns km h kn k = k
  IsCausal-append c (a ∷ ms) ns km h kn k = (
    All-append (Respects a) ms ns h.0 (All-Respects c a ns km.0 kn),
    IsCausal-append c ms ns km.1 h.1 kn k,
  )

-- What happens to one receiver, as a sequence of calls of its methods.
pub data Event (P W : Type 0) : Type 0 where
  received : BroadcastMessage P → Event P W
  sent : String → String → P → String → Event P W
  subscribed : Handler P W → Event P W

module _ {P W : Type 0} where
  unfoldable pub apply : Event P W → CausalBroadcast P W → CausalBroadcast P W
  apply (received m) s = receive m s
  apply (sent id kind payload trace) s = (send id kind payload trace s).1
  apply (subscribed h) s = subscribe h s

  unfoldable pub run : List (Event P W) → CausalBroadcast P W → CausalBroadcast P W
  run [] s = s
  run (e ∷ es) s = run es (apply e s)

  -- The messages among the events.
  abbrev pub arrivals : List (Event P W) → List (BroadcastMessage P)
  arrivals [] = []
  arrivals (received m ∷ es) = m ∷ arrivals es
  arrivals (sent id kind payload trace ∷ es) = arrivals es
  arrivals (subscribed h ∷ es) = arrivals es

module _ {P W : Type 0} (Q : BroadcastMessage P → Type 0) where
  -- `log` is what was delivered between `s` and `t`, out of messages that satisfy `Q`.
  record IsLog (s t : CausalBroadcast P W) (log : List (BroadcastMessage P)) : Type 0 where
    forward : Behind s.clock t.clock
    ids : t.delivered ≡ s.delivered ++ map (λ m. m.message_id) log
    fresh : All (IsNew s.clock) log
    known : All (IsKnown t.clock) log
    causal : IsCausal log
    origin : All Q s.hold_queue → All Q log × All Q t.hold_queue

  IsLog-trans :
      {s t u : CausalBroadcast P W} {ms ns : List (BroadcastMessage P)}
      → IsLog s t ms
      → IsLog t u ns
      → IsLog s u (ms ++ ns)
  IsLog-trans {s} {t} {u} {ms} {ns} h k = record {
    forward = λ a. omega (arith, h.forward a, k.forward a);
    ids = rw (k.ids, h.ids, map-append, append_assoc);
    fresh =
        All-append (IsNew s.clock) ms ns h.fresh (IsNew-mono s.clock t.clock ns h.forward k.fresh);
    known =
        All-append (IsKnown u.clock) ms ns (IsKnown-mono t.clock u.clock ms k.forward h.known)
          k.known;
    causal = IsCausal-append t.clock ms ns h.known h.causal k.fresh k.causal;
    origin = λ q.
        let (qm, qt) = h.origin q in let (qn, qu) = k.origin qt in (All-append Q ms ns qm qn, qu);
  }

  -- An operation that delivers nothing and loses nothing of the clock.
  IsLog-silent :
      (s t : CausalBroadcast P W)
      → Behind s.clock t.clock
      → t.delivered ≡ s.delivered
      → (All Q s.hold_queue → All Q t.hold_queue)
      → IsLog s t []
  IsLog-silent s t le same held = record {
    forward = le;
    ids = rw append-nil same;
    fresh = tt;
    known = tt;
    causal = tt;
    origin = λ q. (tt, held q);
  }

  IsLog-take :
      (s : CausalBroadcast P W) (before after : List (BroadcastMessage P)) (m : BroadcastMessage P)
      → s.hold_queue ≡ before ++ m ∷ after
      → is_deliverable s.clock m ≡ true
      → IsLog s (record (deliver m s) { hold_queue = before ++ after }) (m ∷ [])
  unfolding deliver
  IsLog-take s before after m split ready = record {
    forward = unfold deliver in Behind-deliver m s;
    ids = refl;
    fresh = ((λ _. omega (arith, sender_time_of_deliverable s.clock m ready)), tt);
    known = ((λ _. deliver_knows m s ready), tt);
    causal = (tt, tt);
    origin = λ q.
        let h : All Q (before ++ m ∷ after) = subst (All Q) split q in
        let k = All-append_right Q before (m ∷ after) h in
        ((k.0, tt), All-append Q before after (All-append_left Q before (m ∷ after) h) k.1);
  }

  IsLog-Deliveries :
      {s t : CausalBroadcast P W} {ms : List (BroadcastMessage P)}
      → Deliveries s ms t
      → IsLog s t ms
  IsLog-Deliveries (done s) = IsLog-silent s s (λ a. omega arith) refl (λ q. q)
  IsLog-Deliveries (take before after m {s} q ready d) =
      IsLog-trans (IsLog-take s before after m q ready) (IsLog-Deliveries d)

  -- A health message is delivered at once, whatever its clock.
  IsLog-health :
      (s : CausalBroadcast P W) (m : BroadcastMessage P)
      → is_health m.kind ≡ true
      → Q m
      → IsLog s (deliver m s) (m ∷ [])
  unfolding deliver
  IsLog-health s m h own = record {
    forward = Behind-deliver m s;
    ids = refl;
    fresh = ((λ k. cc), tt);
    known = ((λ k. cc), tt);
    causal = (tt, tt);
    origin = λ q. ((own, tt), q);
  }

  IsLog-receive :
      (m : BroadcastMessage P) (s : CausalBroadcast P W)
      → Q m
      → (log : List (BroadcastMessage P)) × IsLog s (receive m s) log
  unfolding receive
  IsLog-receive m s own = elim (Bool-cases (is_health m.kind)) [
    | inl beacon ↦ (m ∷ [], rw beacon (IsLog-health s m beacon own))
    | inr ordered ↦
        let (ms, d) =
          try_deliver_buffered-Deliveries (record s { hold_queue = s.hold_queue ++ m ∷ [] }) in
        (
          ms,
          rw ordered (
              IsLog-trans
                (IsLog-silent s _ (λ a. omega arith) refl
                  (λ q. All-append Q s.hold_queue (m ∷ []) q (own, tt)))
                (IsLog-Deliveries d)),
        )
  ]

  IsLog-apply :
      (e : Event P W) (s : CausalBroadcast P W)
      → All Q (arrivals (e ∷ []))
      → (log : List (BroadcastMessage P)) × IsLog s (apply e s) log
  unfolding apply send subscribe
  IsLog-apply (received m) s own = IsLog-receive m s own.0
  IsLog-apply (sent id kind payload trace) s own = (
    [],
    IsLog-silent s _
        (λ a. ground (
          arith,
          counter-insert s.local_actor a (counter s.local_actor s.clock + 1) s.clock,
          eq_iff s.local_actor a,
        ))
        refl (λ q. q),
  )
  IsLog-apply (subscribed h) s own = ([], IsLog-silent s _ (λ a. omega arith) refl (λ q. q))

  arrivals-split :
      (e : Event P W) (es : List (Event P W))
      → All Q (arrivals (e ∷ es))
      → All Q (arrivals (e ∷ [])) × All Q (arrivals es)
  arrivals-split (received m) es h = ((h.0, tt), h.1)
  arrivals-split (sent id kind payload trace) es h = (tt, h)
  arrivals-split (subscribed k) es h = (tt, h)

  IsLog-run :
      (es : List (Event P W)) (s : CausalBroadcast P W)
      → All Q (arrivals es)
      → (log : List (BroadcastMessage P)) × IsLog s (run es s) log
  unfolding run
  IsLog-run [] s own = ([], IsLog-silent s s (λ a. omega arith) refl (λ q. q))
  IsLog-run (e ∷ es) s own =
      let (here, there) = arrivals-split e es own in
      let (ms, h) = IsLog-apply e s here in
      let (ns, k) = IsLog-run es (apply e s) there in (ms ++ ns, IsLog-trans h k)

-- From a fresh receiver and after any sequence of receptions, sends and subscriptions, what was
-- delivered is the identifiers of a list of received messages, in which no causally ordered (not
-- health) message comes after another such message whose vector clock had already counted it.
pub run-IsCausal :
    {P W : Type 0} (actor : String) (w : W) (es : List (Event P W))
    → (log : List (BroadcastMessage P)) × ((run es (init actor w)).delivered
        ≡ map (λ m. m.message_id) log)
      × All (λ m. In m (arrivals es)) log
      × IsCausal log
unfolding init
run-IsCausal actor w es =
    let own = All-In_of (λ m. In m (arrivals es)) (arrivals es) (λ m h. h) in
    let (log, h) = IsLog-run (λ m. In m (arrivals es)) es (init actor w) own in
    (log, h.ids, (h.origin tt).0, h.causal)
