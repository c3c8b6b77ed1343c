-- ===== src/Storage/Minio.antt =====
-- gaia_server/storage/minio.py: the class MinIoCheckpointStore over a client of the package minio.
use Prim.Native.String.{◌++◌ as concat}
use gaia_server.Base.{
  ℕ, String, Bool, true, false, List, Option, none, some, Result, ok, err, Exec, pure, raise, ◌>>=◌,
  ◌>>◌, lift,
}
use gaia_server.Base.Numbers.{ℤ}
use gaia_server.Base.Text.{Bytes, encode, lstrip_slash, split_slash}
use gaia_server.Errors.{Exn, raised, not_implemented, s3_error}
use gaia_server.Core.{GaiaCore}

-- minio.Minio: each call may raise. `S` is the state of the servers.
pub record MinioClient (S : Type 0) : Type 0 where
  pub get_object : String → String → S → Result Exn Bytes
  -- Bucket, key, content and content type.
  pub put_object : String → String → Bytes → String → Exec Exn S (Unit {0})
  pub stat_object : String → String → S → Result Exn (Unit {0})
  pub bucket_exists : String → S → Result Exn Bool
  pub make_bucket : String → Exec Exn S (Unit {0})

pub record MinIoCheckpointStore (S : Type 0) : Type 0 where
  pub client : MinioClient S
  pub bucket : String

unfoldable pub manifest_key : String → String
manifest_key checkpoint_id = concat "checkpoints/" (concat checkpoint_id "/manifest.json")

unfoldable pub payload_key : String → String
payload_key checkpoint_id = concat "checkpoints/" (concat checkpoint_id "/payload.bin")

-- `health`
pub data MinioHealth : Type 0 where
  minio_ok : String → MinioHealth
  minio_error : Exn → MinioHealth

-- `x` where the library returned, an exception where it raised.
abbrev pub or_raise : {A : Type 0} → Option A → Result Exn A
or_raise none = err (raised "deserialization failed")
or_raise (some a) = ok a

module _ (core : GaiaCore) {S : Type 0} (store : MinIoCheckpointStore S) where
  open store use {client, bucket}
  open core use {
    EventEnvelope, CheckpointRef, loads, dumps, checkpoint_of_wire, checkpoint_to_wire,
    checkpoint_id,
  }

  unfoldable pub write_event : EventEnvelope → Exec Exn S String
  write_event envelope = raise not_implemented

  unfoldable pub read_events : String → Option ℤ → ℕ → Exec Exn S (List EventEnvelope)
  read_events stream after_sequence limit = raise not_implemented

  unfoldable pub put_checkpoint : CheckpointRef → Bytes → Exec Exn S CheckpointRef
  put_checkpoint ref payload = do
    client.put_object bucket (manifest_key (checkpoint_id ref))
        (encode (dumps (checkpoint_to_wire ref))) "application/json"
    client.put_object bucket (payload_key (checkpoint_id ref)) payload "application/octet-stream"
    pure ref

  -- The two reads change nothing on the server.
  unfoldable pub get_checkpoint : String → Exec Exn S (CheckpointRef × Bytes)
  get_checkpoint id s =
      (do
        raw ← lift (client.get_object bucket (manifest_key id) s)
        data_of ← lift (or_raise (loads raw))
        ref ← lift (or_raise (checkpoint_of_wire data_of))
        payload ← lift (client.get_object bucket (payload_key id) s)
        pure (ref, payload))
        s

  -- The bucket and key of a URI: its first part and the rest, or the store's bucket and the whole.
  unfoldable pub locate : String → String × String
  locate uri =
      let (head, rest) = split_slash (lstrip_slash uri) in
      elim rest [ some key ↦ (head, key) | none ↦ (bucket, head) ]

  -- An S3Error means that there is no such object; any other exception leaves the method.
  unfoldable pub exists : String → S → Result Exn Bool
  exists uri s =
      let (place, key) = locate uri in
      elim (client.stat_object place key s) [
        | ok _ ↦ ok true
        | err (s3_error code_of) ↦ ok false
        | err e ↦ err e
      ]

  unfoldable pub health : S → MinioHealth
  health s = elim (client.bucket_exists bucket s) [ ok _ ↦ minio_ok bucket | err e ↦ minio_error e ]
