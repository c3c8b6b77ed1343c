-- ===== src/Storage/Registry.antt =====
-- gaia_server/storage/registry.py: the class StorageRegistry.
use gaia_server.Base.{
  Bool, true, false, none, some, ◌&&◌, if◌then◌else◌, Result, ok, err, ◌≡◌, inl, inr, Result-cases,
}
use gaia_server.Errors.{Exn}
use gaia_server.Core.{GaiaCore}
use gaia_server.Health.{HealthInfo}
use gaia_server.Storage.Etcd
use gaia_server.Storage.Etcd.{EtcdMetadataStore, EtcdHealth, etcd_ok, etcd_error}
use gaia_server.Storage.Minio
use gaia_server.Storage.Minio.{MinIoCheckpointStore, MinioHealth, minio_ok, minio_error}
use gaia_server.Storage.Jetstream
use gaia_server.Storage.Jetstream.{NatsClient, NatsHealth, nats_ok, nats_error}

pub record StorageRegistry (S Sub : Type 0) : Type 0 where
  pub events : NatsClient S Sub
  pub checkpoints : MinIoCheckpointStore S
  pub metadata : EtcdMetadataStore S

-- Whether a backend's mapping has the status `ok` (otherwise it has `error`).
abbrev pub etcd_is_ok : EtcdHealth → Bool
etcd_is_ok (etcd_ok leader version) = true
etcd_is_ok (etcd_error e) = false

abbrev pub minio_is_ok : MinioHealth → Bool
minio_is_ok (minio_ok bucket) = true
minio_is_ok (minio_error e) = false

abbrev pub nats_is_ok : NatsHealth → Bool
nats_is_ok (nats_ok connected) = true
nats_is_ok (nats_error e) = false

abbrev pub storage_info : Bool → HealthInfo
storage_info all_ok = record { status = some (if all_ok then "ok" else "degraded"); detail = none }

module _ (core : GaiaCore) {S Sub : Type 0} (registry : StorageRegistry S Sub) where
  open registry use {events, checkpoints, metadata}

  -- `health`: `gather` passes on what a backend's `health` raises.
  unfoldable pub health : S → Result Exn HealthInfo
  health s = elim (Jetstream.health core events s).0 [
    | err e ↦ err e
    | ok h ↦ ok (
        storage_info (
          nats_is_ok h
          && (minio_is_ok (Minio.health core checkpoints s)
              && etcd_is_ok (Etcd.health metadata s))))
  ]

  -- The registry's health never raises, and its status is `ok` or `degraded`.
  pub health_returns : (s : S) → (all_ok : Bool) × (health s ≡ ok (storage_info all_ok))
  unfolding health Jetstream.health
  health_returns s = elim (Result-cases (events.flush s).0) [
    | inl (_, e) ↦ (
      (nats_is_ok (nats_ok (events.is_connected (events.flush s).1))
          && (minio_is_ok (Minio.health core checkpoints s)
              && etcd_is_ok (Etcd.health metadata s))),
      rw (e, health, Jetstream.health),
    )
    | inr (x, e) ↦ (false, rw (e, health, Jetstream.health))
  ]
