-- ===== src/Restore/Steps.antt =====
-- What each step of a restore has established when it returns.
use Prim.Native.String.{◌++◌ as concat}
use gaia_server.Base.{
  ℕ, ◌<◌, String, ◌≡◌, refl, inl, inr, Bool, true, false, Option, none, some, arith, or_else,
  Option-cases, Result-cases, ok, List, length, ap, ◌∙◌,
}
use gaia_server.Base.Numbers.{ℤ}
use gaia_server.Base.Text.{Bytes, ends_with, truthy}
use gaia_server.Errors.{RestoreError}
use gaia_server.Core.{GaiaCore, RestoreManifest, TrustClass}
use gaia_server.Storage.Etcd
use gaia_server.Storage.Minio
use gaia_server.Storage.Jetstream
use gaia_server.Storage.Registry.{StorageRegistry}
use gaia_server.Restore.{
  needs_attestation, is_criu, granted_class, cursor_sequence, decode_manifest, load_manifest,
  manifest_digest, verify_hashes, find_attestation, verify_attestation, payload_matches,
  fetch_payload, replay_after, replay_events, check_criu_invariant, promote_trust, or_refuse,
  refuse_if,
}

pub refuse_if_ok :
    {S : Type 0} (b : Bool) (e : RestoreError) (s : S) → (refuse_if b e s).0 ≡ ok tt → b ≡ false
refuse_if_ok true e s h = cc
refuse_if_ok false e s h = refl

or_refuse_ok :
    {A : Type 0} (o : Option A) (e : RestoreError) (a : A) → or_refuse o e ≡ ok a → o ≡ some a
or_refuse_ok none e a h = cc
or_refuse_ok (some b) e a h = ground arith

module _ (core : GaiaCore) {S Sub : Type 0} (registry : StorageRegistry S Sub) where
  open registry use {events, checkpoints, metadata}
  open core use {EventEnvelope, CheckpointRef}

  pub load_manifest-keeps : (id : String) (s : S) → (load_manifest core registry id s).1 ≡ s
  unfolding load_manifest
  load_manifest-keeps id s = ground arith

  pub load_manifest_ok :
      (id : String) (s : S) (m : RestoreManifest)
      → (load_manifest core registry id s).0 ≡ ok m
      → (raw : Bytes) × (Etcd.get metadata (concat "manifests/" id) s ≡ ok (some raw))
        × (decode_manifest core registry raw ≡ some m)
        × (truthy m.manifest_hash ≡ true)
  unfolding load_manifest
  load_manifest_ok id s m h = elim (Result-cases (Etcd.get metadata (concat "manifests/" id) s)) [
    | inr (e, q) ↦ absurd (ground arith)
    | inl (none, q) ↦ absurd (ground arith)
    | inl (some raw, q) ↦ (raw, q, ground arith, ground arith)
  ]

  pub verify_hashes_ok :
      (m : RestoreManifest) (s : S)
      → (verify_hashes core registry m s).0 ≡ ok tt
      → ends_with (or_else "" m.manifest_hash) (manifest_digest core registry m) ≡ true
  unfolding verify_hashes
  verify_hashes_ok m s h = ground arith

  pub verify_hashes-keeps : (m : RestoreManifest) (s : S) → (verify_hashes core registry m s).1 ≡ s
  unfolding verify_hashes
  verify_hashes-keeps m s = ground arith

  pub verify_attestation-keeps :
      (m : RestoreManifest) (s : S) → (verify_attestation core registry m s).1 ≡ s
  unfolding verify_attestation find_attestation
  verify_attestation-keeps m s = ground arith

  pub fetch_payload-keeps : (m : RestoreManifest) (s : S) → (fetch_payload core registry m s).1 ≡ s
  unfolding fetch_payload Minio.get_checkpoint
  fetch_payload-keeps m s = ground arith

  pub check_criu-keeps :
      (m : RestoreManifest) (s : S) → (check_criu_invariant core registry m s).1 ≡ s
  unfolding check_criu_invariant
  check_criu-keeps m s = ground arith

  pub check_criu_ok :
      (m : RestoreManifest) (s : S)
      → (check_criu_invariant core registry m s).0 ≡ ok tt
      → is_criu m.restore_path ≡ true
      → truthy m.admissibility_policy_ref ≡ true
  unfolding check_criu_invariant
  check_criu_ok m s h k = ground arith

  pub fetch_payload_ok :
      (m : RestoreManifest) (s : S) (payload : Bytes)
      → (fetch_payload core registry m s).0 ≡ ok payload
      → payload_matches core registry m.payload_hash payload ≡ true
  unfolding fetch_payload
  fetch_payload_ok m s payload h = ground arith

  -- The payload that is returned was read, under the manifest's checkpoint.
  pub payload_read :
      (m : RestoreManifest) (s : S) (payload : Bytes)
      → (fetch_payload core registry m s).0 ≡ ok payload
      → (ref : CheckpointRef) × ((Minio.get_checkpoint core checkpoints m.checkpoint_id s).0
          ≡ ok (ref, payload))
  unfolding fetch_payload
  payload_read m s payload h =
      elim (Result-cases (Minio.get_checkpoint core checkpoints m.checkpoint_id s).0) [
        | inr (e, q) ↦ absurd (ground arith)
        | inl ((ref, found), q) ↦
            let same : found ≡ payload = ground arith in (ref, q ∙ ap (λ p. ok (ref, p)) same)
      ]

  pub verify_attestation_ok :
      (m : RestoreManifest) (s : S)
      → (verify_attestation core registry m s).0 ≡ ok tt
      → needs_attestation m.restore_path ≡ true
      → truthy m.attestation_ref ≡ true
  unfolding verify_attestation
  verify_attestation_ok m s h k = ground arith

  -- A reference that is given is found.
  pub attestation_found :
      (m : RestoreManifest) (s : S)
      → (verify_attestation core registry m s).0 ≡ ok tt
      → truthy m.attestation_ref ≡ true
      → (raw : Bytes) × (Etcd.get metadata (concat "attestations/" (or_else "" m.attestation_ref)) s
          ≡ ok (some raw))
  unfolding verify_attestation find_attestation
  attestation_found m s h k = elim (Option-cases m.attestation_ref) [
    | inl no_ref ↦ absurd (ground arith)
    | inr (reference, given) ↦
        let k' : truthy (some reference) ≡ true = rw given at k in
        rw given elim (Result-cases (Etcd.get metadata (concat "attestations/" reference) s)) [
          | inr (e, q) ↦ absurd (ground arith)
          | inl (none, q) ↦ absurd (ground arith)
          | inl (some raw, q) ↦ (raw, q)
        ]
  ]

  -- With a cursor, the count is that of the events that were read after its sequence number.
  pub events_read :
      (m : RestoreManifest) (stream : String) (s : S) (n : ℕ)
      → (replay_events core registry m stream s).0 ≡ ok n
      → truthy m.causal_cursor ≡ true
      → (k : ℤ) × (evs : List EventEnvelope) × (cursor_sequence (or_else "" m.causal_cursor)
          ≡ some k)
        × ((Jetstream.read_events core events stream (some k) 1000 s).0 ≡ ok evs)
        × (0 < length evs)
        × (n ≡ length evs)
  unfolding replay_events replay_after
  events_read m stream s n h given =
      elim (Option-cases (cursor_sequence (or_else "" m.causal_cursor))) [
        | inl bad ↦ absurd (ground arith)
        | inr (k, good) ↦
            elim (Result-cases (Jetstream.read_events core events stream (some k) 1000 s).0) [
              | inr (e, q) ↦ absurd (ground arith)
              | inl (evs, q) ↦ (k, evs, good, q, ground arith, ground arith)
            ]
      ]

  pub no_events_read :
      (m : RestoreManifest) (stream : String) (s : S) (n : ℕ)
      → (replay_events core registry m stream s).0 ≡ ok n
      → truthy m.causal_cursor ≡ false
      → n ≡ 0
  unfolding replay_events
  no_events_read m stream s n h k = ground arith

  pub promote_trust_ok :
      (m : RestoreManifest) (s : S) (c : TrustClass)
      → (promote_trust core registry m s).0 ≡ ok c
      → c ≡ granted_class m m.restore_path
  unfolding promote_trust
  promote_trust_ok m s c h = ground arith
