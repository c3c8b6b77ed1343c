-- ===== src/Broadcast/Past.antt =====
-- What one core of a network has delivered, seen against the messages that were sent.
use gaia_server.Base.{
  ℕ, ◌≤◌, ◌<◌, String, ◌≡◌, ◌≢◌, sym, ap, ◌⊎◌, inl, inr, Bool-cases, false, List, [], ◌∷◌, ◌++◌,
  map, append_assoc, append-nil, ◌==◌, eq_iff, All, In,
}
use gaia_server.Dict.{Dict}
use gaia_server.Broadcast.{BroadcastMessage, CausalBroadcast, sender_time, is_health}
use gaia_server.Broadcast.Clock.{counter}
use gaia_server.Broadcast.Network.{Wired, sent_by}

module _ {P : Type 0} where
  abbrev pub source : Wired P → String
  source w = w.message.source_core

  abbrev pub time : Wired P → ℕ
  time w = sender_time w.message

  abbrev pub id_of : Wired P → String
  id_of w = w.message.message_id

  -- The clock of `w` counts `v`, which is another message.
  abbrev pub Counts : Wired P → Wired P → Type 0
  Counts w v =
      ((source v ≡ source w) × (time v < time w))
      ⊎ ((source v ≢ source w) × (time v ≤ counter (source v) w.message.vector_clock))

  -- A message that was sent has this id, and the clock of `w` counts it.
  abbrev pub IsCounted : List (Wired P) → Wired P → String → Type 0
  IsCounted wire w id = (v : Wired P) × In v wire × (id ≡ id_of v) × Counts w v

  -- The messages sent, where each core `a` has sent `top a` so far.
  pub record IsWire (top : String → ℕ) (wire : List (Wired P)) : Type 0 where
    pub timed : All (λ w. time w ≤ top (source w)) wire
    pub single :
        (v w : Wired P) → In v wire → In w wire → source v ≡ source w → time v ≡ time w → v ≡ w
    pub ordered : All (λ w. is_health w.message.kind ≡ false) wire
    pub counted : All (λ w. All (IsCounted wire w) w.known) wire

  -- The message is not among those delivered before, and all that its sender knew is, but for what
  -- this core has sent itself.
  abbrev pub IsTimely : String → List (Wired P) → List (Wired P) → Wired P → Type 0
  IsTimely b wire before w =
      (In w before → ⊥) × All (λ id. In id (map id_of before) ⊎ In id (sent_by b wire)) w.known

  -- So it is for each message of the log, after those before it.
  abbrev pub AreTimely : String → List (Wired P) → List (Wired P) → List (Wired P) → Type 0
  AreTimely b wire before [] = Unit
  AreTimely b wire before (w ∷ log) =
      IsTimely b wire before w × AreTimely b wire (before ++ w ∷ []) log

  pub AreTimely-append :
      (b : String) (wire before log : List (Wired P)) (w : Wired P)
      → AreTimely b wire before log
      → IsTimely b wire (before ++ log) w
      → AreTimely b wire before (log ++ w ∷ [])
  AreTimely-append b wire before [] w h k = (rw append-nil at k, tt)
  AreTimely-append b wire before (v ∷ log) w h k =
      (h.0, AreTimely-append b wire (before ++ v ∷ []) log w h.1 (rw append_assoc k))

  pub AreTimely-mono :
      (b : String) (wire more before log : List (Wired P))
      → ((id : String) → In id (sent_by b wire) → In id (sent_by b more))
      → AreTimely b wire before log
      → AreTimely b more before log
  AreTimely-mono b wire more before [] up h = tt
  AreTimely-mono b wire more before (w ∷ log) up h =
      ((h.0.0, weaken w.known h.0.1), AreTimely-mono b wire more (before ++ w ∷ []) log up h.1)
    where
      weaken :
          (ids : List String)
          → All (λ id. In id (map id_of before) ⊎ In id (sent_by b wire)) ids
          → All (λ id. In id (map id_of before) ⊎ In id (sent_by b more)) ids
      weaken [] k = tt
      weaken (id ∷ ids) (inl e, k) = (inl e, weaken ids k)
      weaken (id ∷ ids) (inr e, k) = (inr (up id e), weaken ids k)

  pub In-map : (v : Wired P) (ws : List (Wired P)) → In v ws → In (id_of v) (map id_of ws)
  In-map v (w ∷ ws) (inl e) = inl (ap id_of e)
  In-map v (w ∷ ws) (inr h) = inr (In-map v ws h)
  In-map v [] h = absurd h

  pub In-sent_by :
      (v : Wired P) (wire : List (Wired P)) → In v wire → In (id_of v) (sent_by (source v) wire)
  In-sent_by v [] h = absurd h
  In-sent_by v (w ∷ ws) (inl e) =
      rw ((eq_iff (source w) (source v)).1 (sym (ap source e))) (inl (ap id_of e))
  In-sent_by v (w ∷ ws) (inr h) = elim (Bool-cases (source w == source v)) [
    | inl e ↦ rw e (inr (In-sent_by v ws h))
    | inr e ↦ rw e (In-sent_by v ws h)
  ]

  -- A held message is one that was sent.
  abbrev pub IsSent : List (Wired P) → BroadcastMessage P → Type 0
  IsSent wire m = (w : Wired P) × In w wire × (w.message ≡ m)

  -- A message of another core, which the clock counts.
  abbrev pub IsLogged : String → List (Wired P) → Dict ℕ → Wired P → Type 0
  IsLogged b wire clock w = In w wire × (source w ≢ b) × (time w ≤ counter (source w) clock)

module _ {P W : Type 0} where
  -- The core `b` in the state `s` has delivered `log`: just those messages of the others that its
  -- clock counts, and each in time.
  pub record HasDelivered (b : String) (wire : List (Wired P)) (top : String → ℕ)
      (s : CausalBroadcast P W) (log : List (Wired P)) : Type 0 where
    pub actor : s.local_actor ≡ b
    pub ids : s.delivered ≡ map id_of log
    pub held : All (IsSent wire) s.hold_queue
    pub logged : All (IsLogged b wire s.clock) log
    pub covers :
        (v : Wired P) → In v wire → source v ≢ b → time v ≤ counter (source v) s.clock → In v log
    pub own : counter b s.clock ≡ top b
    pub below : (a : String) → counter a s.clock ≤ top a
    pub timely : AreTimely b wire [] log

-- With one message more.
pub All-IsSent_more :
    {P : Type 0} (w : Wired P) (wire : List (Wired P)) (ms : List (BroadcastMessage P))
    → All (IsSent wire) ms
    → All (IsSent (w ∷ wire)) ms
All-IsSent_more w wire [] h = tt
All-IsSent_more w wire (m ∷ ms) ((v, on, e), h) = ((v, inr on, e), All-IsSent_more w wire ms h)

pub All-IsCounted_more :
    {P : Type 0} (u w : Wired P) (wire : List (Wired P)) (ids : List String)
    → All (IsCounted wire w) ids
    → All (IsCounted (u ∷ wire) w) ids
All-IsCounted_more u w wire [] h = tt
All-IsCounted_more u w wire (id ∷ ids) ((v, on, e, k), h) =
    ((v, inr on, e, k), All-IsCounted_more u w wire ids h)

pub sent_by-more :
    {P : Type 0} (b : String) (w : Wired P) (wire : List (Wired P)) (id : String)
    → In id (sent_by b wire)
    → In id (sent_by b (w ∷ wire))
sent_by-more b w wire id h = elim (Bool-cases (source w == b)) [
  | inl e ↦ rw e (inr h)
  | inr e ↦ rw e h
]
