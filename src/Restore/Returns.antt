-- ===== src/Restore/Returns.antt =====
-- Each step of a restore returns where its check holds and the servers answer.
use Prim.Native.String.{◌++◌ as concat}
use gaia_server.Base.{
  ◌<◌, String, ◌≡◌, refl, Bool-cases, true, false, not, Option, none, some, List, length, arith,
  or_else, inl, inr, ok, ◌&&◌,
}
use gaia_server.Base.Numbers.{ℤ}
use gaia_server.Base.Text.{Bytes, ends_with, truthy}
use gaia_server.Core.{GaiaCore, RestoreManifest}
use gaia_server.Storage.Etcd
use gaia_server.Storage.Etcd.{EtcdClient, EtcdLaws, AnswersCalls, full_key}
use gaia_server.Storage.Minio
use gaia_server.Storage.Minio.{manifest_key, payload_key}
use gaia_server.Storage.Jetstream
use gaia_server.Storage.Jetstream.{NatsFrame}
use gaia_server.Storage.Registry.{StorageRegistry}
use gaia_server.Restore.{
  needs_attestation, is_criu, granted_class, cursor_sequence, decode_manifest, manifest_digest,
  load_manifest, verify_hashes, find_attestation, verify_attestation, payload_matches,
  fetch_payload, replay_after, replay_events, check_criu_invariant, write_trust, promote_trust,
}
use gaia_server.Restore.Promotion.{key_of, token_of, promoted_value}

module _ (core : GaiaCore) {S Sub : Type 0} (registry : StorageRegistry S Sub) where
  open registry use {events, checkpoints, metadata}
  open core use {Json, EventEnvelope, CheckpointRef, loads, checkpoint_of_wire, trust_text}

  pub load_manifest_returns :
      (id : String) (s : S) (raw : Bytes) (m : RestoreManifest)
      → Etcd.get metadata (concat "manifests/" id) s ≡ ok (some raw)
      → decode_manifest core registry raw ≡ some m
      → truthy m.manifest_hash ≡ true
      → load_manifest core registry id s ≡ (ok m, s)
  unfolding load_manifest
  load_manifest_returns id s raw m e f g = rw (e, f, g) refl

  pub verify_hashes_returns :
      (m : RestoreManifest) (s : S)
      → ends_with (or_else "" m.manifest_hash) (manifest_digest core registry m) ≡ true
      → verify_hashes core registry m s ≡ (ok tt, s)
  unfolding verify_hashes
  verify_hashes_returns m s h = rw h refl

  pub find_attestation_returns :
      (reference : Option String) (s : S)
      → (truthy reference ≡ true
          → (a : Bytes) × (Etcd.get metadata (concat "attestations/" (or_else "" reference)) s
              ≡ ok (some a)))
      → find_attestation core registry reference s ≡ (ok tt, s)
  unfolding find_attestation
  find_attestation_returns none s found = refl
  find_attestation_returns (some r) s found = elim (Bool-cases (truthy (some r))) [
    | inl given ↦ let (a, q) = found given in rw (given, q) refl
    | inr empty ↦ rw empty refl
  ]

  pub verify_attestation_returns :
      (m : RestoreManifest) (s : S)
      → (needs_attestation m.restore_path ≡ true → truthy m.attestation_ref ≡ true)
      → (truthy m.attestation_ref ≡ true
          → (a : Bytes) × (Etcd.get metadata
                (concat "attestations/" (or_else "" m.attestation_ref))
                s
              ≡ ok (some a)))
      → verify_attestation core registry m s ≡ (ok tt, s)
  unfolding verify_attestation
  verify_attestation_returns m s needs found =
      let guard : (needs_attestation m.restore_path && not (truthy m.attestation_ref)) ≡ false =
        ground (arith, needs) in
      rw guard (find_attestation_returns m.attestation_ref s found)

  pub fetch_payload_returns :
      (m : RestoreManifest) (s : S) (ref : CheckpointRef) (payload : Bytes)
      → Minio.get_checkpoint core checkpoints m.checkpoint_id s ≡ (ok (ref, payload), s)
      → payload_matches core registry m.payload_hash payload ≡ true
      → fetch_payload core registry m s ≡ (ok payload, s)
  unfolding fetch_payload
  fetch_payload_returns m s ref payload e h = rw (e, h) refl

  pub replay_events_returns :
      (m : RestoreManifest) (stream : String) (s : S) (k : ℤ) (evs : List EventEnvelope)
      → cursor_sequence (or_else "" m.causal_cursor) ≡ some k
      → (Jetstream.read_events core events stream (some k) 1000 s).0 ≡ ok evs
      → 0 < length evs
      → truthy m.causal_cursor ≡ true
      → (replay_events core registry m stream s).0 ≡ ok (length evs)
  unfolding replay_events replay_after
  replay_events_returns m stream s k evs e f h c = rw (c, e, f) (ground arith)

  pub replay_events_skips :
      (m : RestoreManifest) (stream : String) (s : S)
      → truthy m.causal_cursor ≡ false
      → (replay_events core registry m stream s).0 ≡ ok 0
  unfolding replay_events
  replay_events_skips m stream s h = rw h refl

  pub check_criu_returns :
      (m : RestoreManifest) (s : S)
      → (is_criu m.restore_path ≡ true → truthy m.admissibility_policy_ref ≡ true)
      → check_criu_invariant core registry m s ≡ (ok tt, s)
  unfolding check_criu_invariant
  check_criu_returns m s h = ground arith

  pub promote_trust_returns :
      (stored : S → String → Option Bytes) (laws : EtcdLaws metadata.client stored)
      (answers : AnswersCalls metadata.client stored) (m : RestoreManifest) (s : S)
      → (truthy m.split_brain_token ≡ true
          → stored s (key_of core registry stored laws m)
            ≡ some (token_of core registry stored laws m))
      → (promote_trust core registry m s).0 ≡ ok (granted_class m m.restore_path)
  unfolding promote_trust write_trust Etcd.compare_and_swap Etcd.put
  promote_trust_returns stored laws answers m s token =
      elim (Bool-cases (truthy m.split_brain_token)) [
        | inl e ↦ rw e (
            ground (
              arith,
              answers.swaps (key_of core registry stored laws m)
                  (token_of core registry stored laws m)
                  (promoted_value core registry stored laws m) s (token e),
            ))
        | inr e ↦ rw e (
            ground (
              arith,
              answers.puts (key_of core registry stored laws m)
                  (promoted_value core registry stored laws m) s,
            ))
      ]
