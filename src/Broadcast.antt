-- ===== src/Broadcast.antt =====
-- gaia_server/ipc/causal_broadcast.py: the class CausalBroadcast. Counters of vector clocks are
-- naturals (the code counts up from 0). The payload of a message is a parameter `P`; the handlers
-- are the application's code, which runs over a state `W` of its own and may raise. They run while
-- the object's lock is held: one that calls a method which takes the lock never returns. `subscribe`
-- takes none, so a handler can append handlers; those that do are left out.
pub mod Clock
pub mod Network
pub mod Departures
pub mod Past
pub mod Arrivals
pub mod Predecessors
pub mod Growth
pub mod Eventual
pub mod Causality
pub mod Settled
pub mod Accounting
pub mod Reordering
pub mod Conservation
pub mod Stale
pub mod Sending
mod Examples
pub mod Delivery
use gaia_server.Base.{
  ℕ, zero, suc, ◌+◌, String, Bool, true, false, ◌||◌, List, [], ◌∷◌, ◌++◌, max, ltb, eqb, ◌==◌,
  if◌then◌else◌, length,
}
use gaia_server.Dict
use gaia_server.Dict.{Dict}

pub record BroadcastMessage (P : Type 0) : Type 0 where
  pub message_id : String
  pub source_core : String
  pub kind : String
  pub payload : P
  pub vector_clock : Dict ℕ
  pub trace_id : String
  pub dependencies : List String

-- A handler changes its own state, and then returns (`false`) or raises (`true`).
abbrev pub Handler : Type 0 → Type 0 → Type 0
Handler P W = BroadcastMessage P → W → W × Bool

-- `world` is the state of the handlers, which the object does not own.
pub record CausalBroadcast (P W : Type 0) : Type 0 where
  pub local_actor : String
  pub clock : Dict ℕ
  pub hold_queue : List (BroadcastMessage P)
  pub delivered : List String
  pub handlers : List (Handler P W)
  pub world : W

-- `HEALTH_KINDS`
abbrev pub is_health : String → Bool
is_health kind = kind == "health"

-- A message's own counter, `msg.vector_clock.get(msg.source_core, 0)`.
abbrev pub sender_time : {P : Type 0} → BroadcastMessage P → ℕ
sender_time m = Dict.get_or m.source_core 0 m.vector_clock

-- The loop over `vector_clock.items()` in `_is_deliverable`.
unfoldable pub others_known : String → Dict ℕ → Dict ℕ → Bool
others_known sender clock [] = true
others_known sender clock ((actor, t) ∷ vc) =
    let rest = others_known sender clock vc in
    if actor == sender then rest else if ltb (Dict.get_or actor 0 clock) t then false else rest

unfoldable pub is_deliverable : {P : Type 0} → Dict ℕ → BroadcastMessage P → Bool
is_deliverable clock m =
    if eqb (sender_time m) (Dict.get_or m.source_core 0 clock + 1)
    then others_known m.source_core clock m.vector_clock
    else false

module _ {P W : Type 0} where
  unfoldable pub init : String → W → CausalBroadcast P W
  init actor w = record {
    local_actor = actor;
    clock = (actor, 0) ∷ [];
    hold_queue = [];
    delivered = [];
    handlers = [];
    world = w;
  }

  unfoldable pub subscribe : Handler P W → CausalBroadcast P W → CausalBroadcast P W
  subscribe h s = record s { handlers = s.handlers ++ h ∷ [] }

  -- The loop over the handlers: what one raises is logged, and the next one runs.
  unfoldable pub notify : List (Handler P W) → BroadcastMessage P → W → W
  notify [] m w = w
  notify (h ∷ hs) m w = notify hs m (h m w).0

  unfoldable pub deliver : BroadcastMessage P → CausalBroadcast P W → CausalBroadcast P W
  deliver m s = record s {
    clock =
        Dict.insert m.source_core (max (Dict.get_or m.source_core 0 s.clock) (sender_time m))
          s.clock;
    delivered = s.delivered ++ m.message_id ∷ [];
    world = notify s.handlers m s.world;
  }

  -- One round of the outer loop: the inner `while`, over what is left of the hold queue, with the
  -- messages put aside in `remaining` and the flag `delivered_any`.
  unfoldable pub sweep :
      List (BroadcastMessage P)
      → List (BroadcastMessage P)
      → Bool
      → CausalBroadcast P W
      → CausalBroadcast P W × Bool
  sweep [] remaining any s = (record s { hold_queue = remaining }, any)
  sweep (m ∷ queue) remaining any s = elim (is_deliverable s.clock m) [
    | true ↦ sweep queue remaining true (deliver m s)
    | false ↦ sweep queue (remaining ++ m ∷ []) any s
  ]

  -- The outer `while delivered_any`, on fuel.
  unfoldable pub drain : ℕ → CausalBroadcast P W → CausalBroadcast P W
  drain zero s = s
  drain (suc fuel) s =
      let (s', any) = sweep s.hold_queue [] false s in
      elim any [ true ↦ drain fuel s' | false ↦ s' ]

  -- Each round but the last delivers a message, so one round more than there are messages is enough.
  unfoldable pub try_deliver_buffered : CausalBroadcast P W → CausalBroadcast P W
  try_deliver_buffered s = drain (suc (length s.hold_queue)) s

  unfoldable pub receive : BroadcastMessage P → CausalBroadcast P W → CausalBroadcast P W
  receive m s =
      if is_health m.kind
      then deliver m s
      else try_deliver_buffered (record s { hold_queue = s.hold_queue ++ m ∷ [] })

  -- `id` is the text `bc_` with the first twelve digits of a fresh UUID, which is the caller's.
  unfoldable pub send :
      String → String → P → String → CausalBroadcast P W → BroadcastMessage P × CausalBroadcast P W
  send id kind payload trace s =
      let clock' = Dict.insert s.local_actor (Dict.get_or s.local_actor 0 s.clock + 1) s.clock in
      (
        record {
          message_id = id;
          source_core = s.local_actor;
          kind = kind;
          payload = payload;
          vector_clock = clock';
          trace_id = trace;
          dependencies = [];
        },
        record s { clock = clock' },
      )

  -- `hold_queue_depth`
  unfoldable pub hold_queue_depth : CausalBroadcast P W → ℕ
  hold_queue_depth s = length s.hold_queue

  -- `clock_snapshot`
  unfoldable pub clock_snapshot : CausalBroadcast P W → Dict ℕ
  clock_snapshot s = s.clock

  -- A sequence of calls of `receive`.
  unfoldable pub receive_all : List (BroadcastMessage P) → CausalBroadcast P W → CausalBroadcast P W
  receive_all [] s = s
  receive_all (m ∷ ms) s = receive_all ms (receive m s)
