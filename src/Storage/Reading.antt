-- ===== src/Storage/Reading.antt =====
-- What a read of events returns, of the messages that the server has for the subscription.
use Prim.Native.String.{◌++◌ as concat}
use mathlib.Core.Option
use gaia_server.Base.{
  ℕ, zero, suc, ◌≤◌, String, ◌≡◌, arith, subst, refl, sym, ap, ◌∙◌, Option, List, [], ◌∷◌, ◌++◌,
  append-nil, append_assoc, inl, inr, Result, Result-cases, ok, err,
}
use gaia_server.Base.Numbers.{ℤ, add_one}
use gaia_server.Base.Slices.{take}
use gaia_server.Base.Text.{Bytes}
use gaia_server.Errors.{Exn, nats_timeout}
use gaia_server.Core.{GaiaCore}
use gaia_server.Storage.Jetstream.{
  NatsClient, after, decode_event, fetch, fetch_and_close, read_events,
}

-- What the message server promises, of the messages that it has for a subject from a sequence
-- number on, and of those that a subscription has still to deliver. A call may also raise, and a wait
-- may time out, though a message is there.
pub record DeliveryLaws {S Sub : Type 0} (client : NatsClient S Sub)
    (messages : String → Option ℤ → S → List Bytes) (pending : Sub → S → List Bytes) : Type 0 where
  -- A subscription that is made starts with the messages of its subject.
  pub subscribes :
      (subject : String) (start : Option ℤ) (s : S) (sub : Sub)
      → (client.subscribe subject start s).0 ≡ ok sub
      → pending sub (client.subscribe subject start s).1 ≡ messages subject start s
  -- The messages come one by one, in order.
  pub delivers :
      (sub : Sub) (s : S) (raw : Bytes)
      → (client.next_msg sub s).0 ≡ ok raw
      → pending sub s ≡ raw ∷ pending sub (client.next_msg sub s).1

-- The case in which no wait for a message that is there times out or raises, and a subscription is
-- closed without an exception.
pub record AnswersWaits {S Sub : Type 0} (client : NatsClient S Sub)
    (pending : Sub → S → List Bytes) : Type 0 where
  pub comes :
      (sub : Sub) (s : S) (raw : Bytes) (rest : List Bytes)
      → pending sub s ≡ raw ∷ rest
      → (client.next_msg sub s).0 ≡ ok raw
  pub times_out :
      (sub : Sub) (s : S) → pending sub s ≡ [] → (client.next_msg sub s).0 ≡ err nats_timeout
  pub closes : (sub : Sub) (s : S) → (client.unsubscribe sub s).0 ≡ ok tt

module _ (core : GaiaCore) where
  open core use {EventEnvelope}

  abbrev prepend :
      Result Exn EventEnvelope → Result Exn (List EventEnvelope) → Result Exn (List EventEnvelope)
  prepend (err e) r = err e
  prepend (ok event) (err e) = err e
  prepend (ok event) (ok events) = ok (event ∷ events)

  after_ok :
      (r : Result Exn (List EventEnvelope)) (closed : Result Exn (Unit {0}))
      (events : List EventEnvelope)
      → after r closed ≡ ok events
      → r ≡ ok events
  after_ok r (ok u) events h = h
  after_ok r (err e) events h = absurd (ground arith)

  -- The events of these messages, or the exception of the first that cannot be decoded.
  unfoldable pub decode_all : List Bytes → Result Exn (List EventEnvelope)
  decode_all [] = ok []
  decode_all (raw ∷ rest) = prepend (decode_event core raw) (decode_all rest)

  abbrev joined :
      List EventEnvelope → Result Exn (List EventEnvelope) → Result Exn (List EventEnvelope)
  joined results (ok events) = ok (results ++ events)
  joined results (err e) = err e

  joined-prepend :
      (results : List EventEnvelope) (event : EventEnvelope) (r : Result Exn (List EventEnvelope))
      → joined (results ++ event ∷ []) r ≡ joined results (prepend (ok event) r)
  joined-prepend results event (ok events) = ap ok (append_assoc results (event ∷ []) events)
  joined-prepend results event (err e) = refl

  joined-nil : (r : Result Exn (List EventEnvelope)) → joined [] r ≡ r
  joined-nil (ok events) = refl
  joined-nil (err e) = refl

module _ (core : GaiaCore) {S Sub : Type 0} (client : NatsClient S Sub)
    (messages : String → Option ℤ → S → List Bytes) (pending : Sub → S → List Bytes)
    (laws : DeliveryLaws client messages pending) where
  open core use {EventEnvelope}

  -- What a loop that returns has read.
  fetch_ok :
      (limit : ℕ) (sub : Sub) (results events : List EventEnvelope) (s : S)
      → (fetch core client limit sub results s).0 ≡ ok events
      → (n : ℕ) × (n ≤ limit)
        × (joined core results (decode_all core (take n (pending sub s))) ≡ ok events)
  unfolding fetch decode_all
  fetch_ok zero sub results events s h = (0, omega arith, ap ok (append-nil results) ∙ h)
  fetch_ok (suc limit) sub results events s h = elim (Result-cases (client.next_msg sub s).0) [
    | inr (x, e) ↦ (0, omega arith, rw (append-nil results) (ground arith))
    | inl (raw, e) ↦
        let t = (client.next_msg sub s).1 in
        elim (Result-cases (decode_event core raw)) [
          | inr (x, d) ↦ absurd (ground arith)
          | inl (event, d) ↦
              let (n, few, k) =
                fetch_ok limit sub (results ++ event ∷ []) events t (rw (e, d, fetch) at h) in
              (
                suc n,
                omega (arith, few),
                rw (laws.delivers sub s raw e, d)
                    (sym (
                        joined-prepend core results event
                          (decode_all core (take n (pending sub t))))
                      ∙ k),
              )
        ]
  ]

  -- What the loop reads where no wait times out early.
  fetch_all :
      (waits : AnswersWaits client pending) (limit : ℕ) (sub : Sub) (results : List EventEnvelope)
      (s : S) (ms : List Bytes)
      → pending sub s ≡ ms
      → (fetch core client limit sub results s).0
        ≡ joined core results (decode_all core (take limit ms))
  unfolding fetch decode_all
  fetch_all waits zero sub results s ms h = ap ok (sym (append-nil results))
  fetch_all waits (suc limit) sub results s [] h =
      rw (waits.times_out sub s h, fetch) (ap ok (sym (append-nil results)))
  fetch_all waits (suc limit) sub results s (raw ∷ ms) h =
      let came = waits.comes sub s raw ms h in
      let left : pending sub (client.next_msg sub s).1 ≡ ms =
        cc (laws.delivers sub s raw came, h) in
      elim (Result-cases (decode_event core raw)) [
        | inr (x, e) ↦ rw (came, e, fetch) refl
        | inl (event, e) ↦
            rw (came, e, fetch)
              (fetch_all waits limit sub (results ++ event ∷ []) (client.next_msg sub s).1 ms left
                ∙ joined-prepend core results event (decode_all core (take limit ms)))
      ]

  pub read_events_lem :
      (stream : String) (after_sequence : Option ℤ) (limit : ℕ) (s : S)
      → let subject = concat stream ".>" in
        let start = Option.map add_one after_sequence in
        let run = read_events core client stream after_sequence limit s in
        ((events : List EventEnvelope)
          → run.0 ≡ ok events
          → (n : ℕ) × (n ≤ limit)
            × (decode_all core (take n (messages subject start s)) ≡ ok events))
        × ((sub : Sub)
            → (client.subscribe subject start s).0 ≡ ok sub
            → AnswersWaits client pending
            → run.0 ≡ decode_all core (take limit (messages subject start s)))
  unfolding read_events fetch_and_close
  read_events_lem stream after_sequence limit s =
      let subject = concat stream ".>" in
      let start = Option.map add_one after_sequence in
      let s1 = (client.subscribe subject start s).1 in
      (
        (λ events h. elim (Result-cases (client.subscribe subject start s).0) [
          | inr (x, e) ↦ absurd (ground arith)
          | inl (sub, e) ↦
              let h' = after_ok core (fetch core client limit sub [] s1).0 _ events (rw e at h) in
              let (n, few, k) = fetch_ok limit sub [] events s1 h' in
              (
                n,
                few,
                subst (λ ms. decode_all core (take n ms) ≡ ok events)
                    (laws.subscribes subject start s sub e)
                    (sym (joined-nil core (decode_all core (take n (pending sub s1)))) ∙ k),
              )
        ]),
        (λ sub made waits.
            let got =
              fetch_all waits limit sub [] s1 (messages subject start s)
                (laws.subscribes subject start s sub made) in
            let t = (fetch core client limit sub [] s1).1 in
            rw (made, waits.closes sub t)
              (got ∙ joined-nil core (decode_all core (take limit (messages subject start s))))),
      )
