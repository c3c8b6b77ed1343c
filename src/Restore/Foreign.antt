-- ===== src/Restore/Foreign.antt =====
-- The calls of the stores raise no RestoreError, where their packages raise none.
use Prim.Native.String.{◌++◌ as concat}
use mathlib.Core.Option
use gaia_server.Base.{
  ℕ, zero, suc, String, ◌≢◌, Option, List, [], ◌∷◌, ◌++◌, arith, inl, inr, Result-cases, err,
}
use gaia_server.Base.Numbers.{ℤ, add_one}
use gaia_server.Base.Text.{Bytes}
use gaia_server.Errors.{RestoreError, restore_error}
use gaia_server.Core.{GaiaCore}
use gaia_server.Storage.Minio
use gaia_server.Storage.Jetstream
use gaia_server.Storage.Jetstream.{decode_event}
use gaia_server.Storage.Registry.{StorageRegistry}

-- The packages of the clients do not raise the exceptions of this program.
pub record RaisesForeign {S Sub : Type 0} (registry : StorageRegistry S Sub) : Type 0 where
  pub gets :
      (k : String) (s : S) (e : RestoreError)
      → registry.metadata.client.client_get k s ≢ err (restore_error e)
  pub puts :
      (k : String) (v : Bytes) (l : Option ℕ) (s : S) (e : RestoreError)
      → (registry.metadata.client.client_put k v l s).0 ≢ err (restore_error e)
  pub swaps :
      (k : String) (x v : Bytes) (s : S) (e : RestoreError)
      → (registry.metadata.client.put_if_value k x v s).0 ≢ err (restore_error e)
  pub finds :
      (b k : String) (s : S) (e : RestoreError)
      → registry.checkpoints.client.get_object b k s ≢ err (restore_error e)
  pub subscribes :
      (subject : String) (start : Option ℤ) (s : S) (e : RestoreError)
      → (registry.events.subscribe subject start s).0 ≢ err (restore_error e)
  pub delivers :
      (sub : Sub) (s : S) (e : RestoreError)
      → (registry.events.next_msg sub s).0 ≢ err (restore_error e)
  pub unsubscribes :
      (sub : Sub) (s : S) (e : RestoreError)
      → (registry.events.unsubscribe sub s).0 ≢ err (restore_error e)

module _ (core : GaiaCore) {S Sub : Type 0} (registry : StorageRegistry S Sub)
    (foreign : RaisesForeign registry) (e : RestoreError) where
  open registry use {events, checkpoints}
  open core use {EventEnvelope}

  pub get_checkpoint_foreign :
      (id : String) (s : S) → (Minio.get_checkpoint core checkpoints id s).0 ≢ err (restore_error e)
  unfolding Minio.get_checkpoint
  get_checkpoint_foreign id s h = ground (
    arith,
    foreign.finds checkpoints.bucket (Minio.manifest_key id) s e,
    foreign.finds checkpoints.bucket (Minio.payload_key id) s e,
  )

  decode_event_foreign : (raw : Bytes) → decode_event core raw ≢ err (restore_error e)
  unfolding decode_event
  decode_event_foreign raw h = ground arith

  fetch_foreign :
      (limit : ℕ) (sub : Sub) (results : List EventEnvelope) (s : S)
      → (Jetstream.fetch core events limit sub results s).0 ≢ err (restore_error e)
  unfolding Jetstream.fetch
  fetch_foreign zero sub results s h = cc
  fetch_foreign (suc limit) sub results s h = elim (Result-cases (events.next_msg sub s).0) [
    | inr (x, q) ↦ ground (arith, foreign.delivers sub s e)
    | inl (raw, q) ↦ elim (Result-cases (decode_event core raw)) [
      | inr (x, d) ↦ ground (arith, decode_event_foreign raw)
      | inl (event, d) ↦
          ground (arith, fetch_foreign limit sub (results ++ event ∷ []) (events.next_msg sub s).1)
    ]
  ]

  pub read_events_foreign :
      (stream : String) (start : Option ℤ) (limit : ℕ) (s : S)
      → (Jetstream.read_events core events stream start limit s).0 ≢ err (restore_error e)
  unfolding Jetstream.read_events Jetstream.fetch_and_close
  read_events_foreign stream start limit s h =
      elim (Result-cases (events.subscribe (concat stream ".>") (Option.map add_one start) s).0) [
        | inr (x, q) ↦
            ground (arith, foreign.subscribes (concat stream ".>") (Option.map add_one start) s e)
        | inl (sub, q) ↦
            let t = (events.subscribe (concat stream ".>") (Option.map add_one start) s).1 in
            ground (
              arith,
              fetch_foreign limit sub [] t,
              foreign.unsubscribes sub (Jetstream.fetch core events limit sub [] t).1 e,
            )
      ]
