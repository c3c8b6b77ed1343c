-- ===== src/Broadcast/Network.antt =====
-- Several cores, each with its CausalBroadcast, and the messages that they send: a message may reach
-- a core late, several times or never. With each message stands what its sender knew.
use gaia_server.Base.{String, ◌≡◌, false, List, [], ◌∷◌, ◌++◌, In, ◌==◌, if◌then◌else◌}
use gaia_server.Broadcast.{
  BroadcastMessage, CausalBroadcast, Handler, is_health, init, send, receive, subscribe,
}

-- A message, and the ids of those that its sender had delivered or sent before.
pub record Wired (P : Type 0) : Type 0 where
  pub message : BroadcastMessage P
  pub known : List String

-- The cores by their actor, and the messages sent so far, the latest first.
pub record Network (P W : Type 0) : Type 0 where
  pub core : String → CausalBroadcast P W
  pub wire : List (Wired P)

abbrev pub with_core : {A : Type 0} → String → A → (String → A) → String → A
with_core a v f j = if a == j then v else f j

-- The ids of the messages of this core.
abbrev pub sent_by : {P : Type 0} → String → List (Wired P) → List String
sent_by a [] = []
sent_by a (w ∷ ws) =
    if w.message.source_core == a then w.message.message_id ∷ sent_by a ws else sent_by a ws

module _ {P W : Type 0} where
  unfoldable pub fresh_network : (String → W) → Network P W
  fresh_network world = record { core = λ a. init a (world a); wire = [] }

  unfoldable pub send_at : String → String → String → P → String → Network P W → Network P W
  send_at a id kind payload trace n =
      let (m, s) = send id kind payload trace (n.core a) in
      record {
        core = with_core a s n.core;
        wire = record { message = m; known = (n.core a).delivered ++ sent_by a n.wire } ∷ n.wire;
      }

  unfoldable pub receive_at : String → BroadcastMessage P → Network P W → Network P W
  receive_at b m n = record n { core = with_core b (receive m (n.core b)) n.core }

  unfoldable pub subscribe_at : String → Handler P W → Network P W → Network P W
  subscribe_at b h n = record n { core = with_core b (subscribe h (n.core b)) n.core }

  -- A core sends a message of a causally ordered kind; a message that was sent reaches a core; a core
  -- gets a handler.
  pub data Step : Network P W → Network P W → Type 0 where
    sends :
        (a id kind : String) (payload : P) (trace : String) (n : Network P W)
        → is_health kind ≡ false
        → Step n (send_at a id kind payload trace n)
    arrives :
        (b : String) (w : Wired P) (n : Network P W)
        → In w n.wire
        → Step n (receive_at b w.message n)
    subscribes : (b : String) (h : Handler P W) (n : Network P W) → Step n (subscribe_at b h n)

  pub data Reach (n : Network P W) : Network P W → Type 0 where
    here : Reach n n
    next : {t u : Network P W} → Reach n t → Step t u → Reach n u
