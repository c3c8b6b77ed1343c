-- ===== src/Storage/Jetstream.antt =====
-- gaia_server/storage/jetstream.py: the class JetStreamEventStore over a client of the package nats.
use Prim.Native.String.{◌++◌ as concat}
use gaia_server.Base.{
  ℕ, zero, suc, ◌≡◌, ltb, String, Bool, false, Option, List, [], ◌∷◌, ◌++◌, Result, ok, err, Exec,
  raise, ◌>>=◌,
}
use mathlib.Core.Option
use gaia_server.Base.Numbers.{ℤ, add_one}
use gaia_server.Base.Text.{Bytes, encode, before_dot}
use gaia_server.Errors.{Exn, nats_timeout, not_implemented}
use gaia_server.Core.{GaiaCore}
use gaia_server.Dict.{Dict}
use gaia_server.Storage.Minio.{or_raise}

-- nats.aio.client.Client and its JetStream context: each call may raise. `S` is the state of the
-- servers, and `Sub` a subscription.
pub record NatsClient (S Sub : Type 0) : Type 0 where
  -- Subject and content; the sequence number of the acknowledgement.
  pub publish : String → Bytes → Exec Exn S ℕ
  -- Subject, and the sequence number to start from (`none`: all messages).
  pub subscribe : String → Option ℤ → Exec Exn S Sub
  -- The next message; `nats_timeout` if none comes within half a second.
  pub next_msg : Sub → Exec Exn S Bytes
  pub unsubscribe : Sub → Exec Exn S (Unit {0})
  -- The number of messages of a stream.
  pub stream_messages : String → S → Result Exn ℕ
  pub flush : Exec Exn S (Unit {0})
  pub is_connected : S → Bool
  pub drain : Exec Exn S (Unit {0})

-- The messaging server does not write to the key-value server, whose values are `stored`.
pub record NatsFrame {S Sub : Type 0} (client : NatsClient S Sub)
    (stored : S → String → Option Bytes) : Type 0 where
  pub subscribe_frame :
      (subject : String) (start : Option ℤ) (s : S) (j : String)
      → stored (client.subscribe subject start s).1 j ≡ stored s j
  pub next_frame :
      (sub : Sub) (s : S) (j : String) → stored (client.next_msg sub s).1 j ≡ stored s j
  pub unsubscribe_frame :
      (sub : Sub) (s : S) (j : String) → stored (client.unsubscribe sub s).1 j ≡ stored s j

-- `health`
pub data NatsHealth : Type 0 where
  nats_ok : Bool → NatsHealth
  nats_error : Exn → NatsHealth

-- What `finally` does with the result of the block and that of its own call.
abbrev pub after : {A : Type 0} → Result Exn A → Result Exn (Unit {0}) → Result Exn A
after r (ok _) = r
after r (err e) = err e

module _ (core : GaiaCore) where
  open core use {Json, EventEnvelope, loads, event_of_wire}

  decode_wire : Result Exn (Dict Json) → Result Exn EventEnvelope
  decode_wire (ok wire) = or_raise (event_of_wire wire)
  decode_wire (err e) = err e

  -- `from_wire_dict(EventEnvelope, json.loads(msg.data.decode()))`
  unfoldable pub decode_event : Bytes → Result Exn EventEnvelope
  unfolding decode_wire
  decode_event raw = decode_wire (or_raise (loads raw))

module _ (core : GaiaCore) {S Sub : Type 0} (client : NatsClient S Sub) where
  open core use {EventEnvelope, CheckpointRef, dumps, event_to_wire, stream, topic}

  -- The text of the sequence number, `str(ack.seq)`, is left as the number.
  unfoldable pub write_event : EventEnvelope → Exec Exn S ℕ
  write_event envelope =
      client.publish (concat (stream envelope) (concat "." (topic envelope)))
        (encode (dumps (event_to_wire envelope)))

  -- The loop `for _ in range(limit)`: a timeout ends it, any other exception leaves it.
  unfoldable pub fetch : ℕ → Sub → List EventEnvelope → Exec Exn S (List EventEnvelope)
  fetch zero sub results s = (ok results, s)
  fetch (suc limit) sub results s = elim (client.next_msg sub s).0 [
    | err nats_timeout ↦ (ok results, (client.next_msg sub s).1)
    | err e ↦ (err e, (client.next_msg sub s).1)
    | ok raw ↦ elim (decode_event core raw) [
      | err e ↦ (err e, (client.next_msg sub s).1)
      | ok event ↦ fetch limit sub (results ++ event ∷ []) (client.next_msg sub s).1
    ]
  ]

  -- `try` with `finally: await sub.unsubscribe()`.
  unfoldable pub fetch_and_close : ℕ → Sub → Exec Exn S (List EventEnvelope)
  fetch_and_close limit sub s =
      let (r, s') = fetch limit sub [] s in
      let (closed, s'') = client.unsubscribe sub s' in (after r closed, s'')

  unfoldable pub read_events : String → Option ℤ → ℕ → Exec Exn S (List EventEnvelope)
  read_events stream_name after_sequence limit = do
    sub ← client.subscribe (concat stream_name ".>") (Option.map add_one after_sequence)
    fetch_and_close limit sub

  unfoldable pub put_checkpoint : CheckpointRef → Bytes → Exec Exn S CheckpointRef
  put_checkpoint ref payload = raise not_implemented

  unfoldable pub get_checkpoint : String → Exec Exn S (CheckpointRef × Bytes)
  get_checkpoint checkpoint_id = raise not_implemented

  -- Whether the stream has a message; its name is what stands before the first dot of the URI.
  unfoldable pub exists : String → S → Bool
  exists uri s = elim (client.stream_messages (before_dot uri) s) [ ok n ↦ ltb 0 n | err e ↦ false ]

  unfoldable pub health : Exec Exn S NatsHealth
  health s =
      let (r, s') = client.flush s in
      (elim r [ ok _ ↦ ok (nats_ok (client.is_connected s')) | err e ↦ ok (nats_error e) ], s')
