-- ===== src/Restore/Causes.antt =====
-- What each step of a refused restore has met.
use Prim.Native.String.{◌++◌ as concat}
use gaia_server.Base.{
  String, ◌≡◌, ◌≢◌, ap, ◌∙◌, Bool-cases, true, false, not, ◌&&◌, Option, Option-cases, none, some,
  [], ◌∷◌, arith, or_else, inl, inr, Result, Result-cases, ok, err, subst,
}
use gaia_server.Base.Numbers.{ℤ}
use gaia_server.Base.Text.{Bytes, encode, ends_with, truthy}
use gaia_server.Errors.{
  Exn, RestoreError, restore_error, manifest_error, causal_replay_error, attestation_error,
  trust_promotion_error, not_found, undecodable, unsigned_manifest, hash_mismatch, payload_mismatch,
  ungated_criu, bad_cursor, empty_tail, no_reference, reference_not_found,
}
use gaia_server.Core.{GaiaCore, RestoreManifest}
use gaia_server.Storage.Etcd
use gaia_server.Storage.Etcd.{EtcdClient}
use gaia_server.Storage.Minio
use gaia_server.Storage.Jetstream
use gaia_server.Storage.Jetstream.{decode_event}
use gaia_server.Storage.Registry.{StorageRegistry}
use gaia_server.Restore.{
  needs_attestation, is_criu, granted_class, trust_key, cursor_sequence, decode_manifest,
  manifest_digest, load_manifest, verify_hashes, find_attestation, verify_attestation,
  payload_matches, fetch_payload, replay_after, replay_events, check_criu_invariant, write_trust,
  promote_trust,
}
use gaia_server.Restore.Foreign.{RaisesForeign, get_checkpoint_foreign, read_events_foreign}

-- A call that does not raise a RestoreError is not what raised it.
foreign_raise :
    {A B : Type 0} (e : RestoreError) (r : Result Exn A) (x : Exn)
    → r ≡ err x
    → r ≢ err (restore_error e)
    → ◌≡◌ {A = Result Exn B} (err x) (err (restore_error e))
    → ⊥
foreign_raise e r x q other h = let k : x ≡ restore_error e = cc h in other (q ∙ ap err k)

restore_error-injective :
    {A : Type 0} (x e : RestoreError)
    → ◌≡◌ {A = Result Exn A} (err (restore_error x)) (err (restore_error e))
    → x ≡ e
restore_error-injective x e h = cc

module _ (core : GaiaCore) {S Sub : Type 0} (registry : StorageRegistry S Sub)
    (foreign : RaisesForeign registry) (C : RestoreError → Type 0) (e : RestoreError) where
  open registry use {events, checkpoints, metadata}
  open core use {EventEnvelope, CheckpointRef}

  -- The cause that a step names is that of the exception.
  names :
      {A : Type 0} (x : RestoreError)
      → C x
      → ◌≡◌ {A = Result Exn A} (err (restore_error x)) (err (restore_error e))
      → C e
  names x c h = subst C (restore_error-injective x e h) c

  pub load_manifest_cause :
      (id : String) (s : S)
      → (Etcd.get metadata (concat "manifests/" id) s ≡ ok none → C (manifest_error not_found))
      → ((raw : Bytes)
          → Etcd.get metadata (concat "manifests/" id) s ≡ ok (some raw)
          → decode_manifest core registry raw ≡ none
          → C (manifest_error undecodable))
      → ((raw : Bytes) (m : RestoreManifest)
          → Etcd.get metadata (concat "manifests/" id) s ≡ ok (some raw)
          → decode_manifest core registry raw ≡ some m
          → truthy m.manifest_hash ≡ false
          → C (manifest_error unsigned_manifest))
      → (load_manifest core registry id s).0 ≡ err (restore_error e)
      → C e
  unfolding load_manifest Etcd.get
  load_manifest_cause id s absent bad unsigned h =
      elim (Result-cases (Etcd.get metadata (concat "manifests/" id) s)) [
        | inr (x, q) ↦ absurd (foreign_raise e _ x q (foreign.gets _ s e) (rw q at h))
        | inl (none, q) ↦ names (manifest_error not_found) (absent q) (rw q at h)
        | inl (some raw, q) ↦ elim (Option-cases (decode_manifest core registry raw)) [
          | inl d ↦ names (manifest_error undecodable) (bad raw q d) (rw (q, d) at h)
          | inr (m, d) ↦ elim (Bool-cases (truthy m.manifest_hash)) [
            | inl t ↦ absurd (ground arith)
            | inr t ↦
                names (manifest_error unsigned_manifest) (unsigned raw m q d t) (rw (q, d, t) at h)
          ]
        ]
      ]

  pub verify_hashes_cause :
      (m : RestoreManifest) (s : S)
      → (ends_with (or_else "" m.manifest_hash) (manifest_digest core registry m) ≡ false
          → C (manifest_error hash_mismatch))
      → (verify_hashes core registry m s).0 ≡ err (restore_error e)
      → C e
  unfolding verify_hashes
  verify_hashes_cause m s bad h =
      elim (Bool-cases (ends_with (or_else "" m.manifest_hash) (manifest_digest core registry m))) [
        | inl t ↦ absurd (ground arith)
        | inr t ↦ names (manifest_error hash_mismatch) (bad t) (rw t at h)
      ]

  pub verify_attestation_cause :
      (m : RestoreManifest) (s : S)
      → (needs_attestation m.restore_path ≡ true
          → truthy m.attestation_ref ≡ false
          → C (attestation_error no_reference))
      → (truthy m.attestation_ref ≡ true
          → Etcd.get metadata (concat "attestations/" (or_else "" m.attestation_ref)) s ≡ ok none
          → C (attestation_error reference_not_found))
      → (verify_attestation core registry m s).0 ≡ err (restore_error e)
      → C e
  unfolding verify_attestation find_attestation Etcd.get
  verify_attestation_cause m s missing absent h =
      elim (Bool-cases (needs_attestation m.restore_path && not (truthy m.attestation_ref))) [
        | inl refused ↦
            names (attestation_error no_reference) (missing (ground arith) (ground arith))
              (rw refused at h)
        | inr passed ↦ looked_up m.attestation_ref absent (rw passed at h)
      ]
    where
      looked_up :
          (reference : Option String)
          → (truthy reference ≡ true
              → Etcd.get metadata (concat "attestations/" (or_else "" reference)) s ≡ ok none
              → C (attestation_error reference_not_found))
          → (find_attestation core registry reference s).0 ≡ err (restore_error e)
          → C e
      looked_up none absent h = cc
      looked_up (some r) absent h = elim (Bool-cases (truthy (some r))) [
        | inr empty ↦ absurd (ground arith)
        | inl given ↦ elim (Result-cases (Etcd.get metadata (concat "attestations/" r) s)) [
          | inr (x, q) ↦ absurd (foreign_raise e _ x q (foreign.gets _ s e) (rw (given, q) at h))
          | inl (some raw, q) ↦ absurd (ground arith)
          | inl (none, q) ↦
              names (attestation_error reference_not_found) (absent given q) (rw (given, q) at h)
        ]
      ]

  pub fetch_payload_cause :
      (m : RestoreManifest) (s : S)
      → ((ref : CheckpointRef) (payload : Bytes)
          → (Minio.get_checkpoint core checkpoints m.checkpoint_id s).0 ≡ ok (ref, payload)
          → payload_matches core registry m.payload_hash payload ≡ false
          → C (manifest_error payload_mismatch))
      → (fetch_payload core registry m s).0 ≡ err (restore_error e)
      → C e
  unfolding fetch_payload
  fetch_payload_cause m s bad h =
      elim (Result-cases (Minio.get_checkpoint core checkpoints m.checkpoint_id s).0) [
        | inr (x, q) ↦ absurd (
            foreign_raise e _ x q (get_checkpoint_foreign core registry foreign e m.checkpoint_id s)
              (rw q at h))
        | inl ((ref, payload), q) ↦
            elim (Bool-cases (payload_matches core registry m.payload_hash payload)) [
              | inl t ↦ absurd (ground arith)
              | inr t ↦
                  names (manifest_error payload_mismatch) (bad ref payload q t) (rw (q, t) at h)
            ]
      ]

  pub replay_events_cause :
      (m : RestoreManifest) (stream : String) (s : S)
      → (truthy m.causal_cursor ≡ true
          → cursor_sequence (or_else "" m.causal_cursor) ≡ none
          → C (causal_replay_error bad_cursor))
      → ((k : ℤ)
          → truthy m.causal_cursor ≡ true
          → cursor_sequence (or_else "" m.causal_cursor) ≡ some k
          → (Jetstream.read_events core events stream (some k) 1000 s).0 ≡ ok []
          → C (causal_replay_error empty_tail))
      → (replay_events core registry m stream s).0 ≡ err (restore_error e)
      → C e
  unfolding replay_events replay_after
  replay_events_cause m stream s bad none_left h = elim (Bool-cases (truthy m.causal_cursor)) [
    | inr no_cursor ↦ absurd (ground arith)
    | inl given ↦ elim (Option-cases (cursor_sequence (or_else "" m.causal_cursor))) [
      | inl q ↦ names (causal_replay_error bad_cursor) (bad given q) (rw (given, q) at h)
      | inr (k, q) ↦
          elim (Result-cases (Jetstream.read_events core events stream (some k) 1000 s).0) [
            | inr (x, r) ↦ absurd (
                foreign_raise e _ x r
                  (read_events_foreign core registry foreign e stream (some k) 1000 s)
                  (rw (given, q, r) at h))
            | inl ([], r) ↦
                names (causal_replay_error empty_tail) (none_left k given q r)
                  (rw (given, q, r) at h)
            | inl (event ∷ more, r) ↦ absurd (ground arith)
          ]
    ]
  ]

  pub check_criu_cause :
      (m : RestoreManifest) (s : S)
      → (is_criu m.restore_path ≡ true
          → truthy m.admissibility_policy_ref ≡ false
          → C (manifest_error ungated_criu))
      → (check_criu_invariant core registry m s).0 ≡ err (restore_error e)
      → C e
  unfolding check_criu_invariant
  check_criu_cause m s bad h =
      elim (Bool-cases (is_criu m.restore_path && not (truthy m.admissibility_policy_ref))) [
        | inl refused ↦
            names (manifest_error ungated_criu) (bad (ground arith) (ground arith))
              (rw refused at h)
        | inr passed ↦ absurd (ground arith)
      ]

  pub promote_trust_cause :
      (m : RestoreManifest) (s : S)
      → ((v : Bytes)
          → truthy m.split_brain_token ≡ true
          → (Etcd.compare_and_swap metadata
              (trust_key m)
              (encode (or_else "" m.split_brain_token))
              v
              s).0
            ≡ ok false
          → C trust_promotion_error)
      → (promote_trust core registry m s).0 ≡ err (restore_error e)
      → C e
  unfolding promote_trust write_trust Etcd.compare_and_swap Etcd.put
  promote_trust_cause m s taken h = elim (Bool-cases (truthy m.split_brain_token)) [
    | inr no_token ↦ absurd (
        ground (
          arith,
          foreign.puts (Etcd.full_key metadata.ns (trust_key m))
              (encode (core.trust_text (granted_class m m.restore_path))) none s e,
        ))
    | inl given ↦
        elim (Result-cases
          (metadata.client.put_if_value (Etcd.full_key metadata.ns (trust_key m))
            (encode (or_else "" m.split_brain_token))
            (encode (core.trust_text (granted_class m m.restore_path))) s).0) [
              | inr (x, q) ↦
                  absurd (foreign_raise e _ x q (foreign.swaps _ _ _ s e) (rw (given, q) at h))
              | inl (true, q) ↦ absurd (ground arith)
              | inl (false, q) ↦ names trust_promotion_error (taken _ given q) (rw (given, q) at h)
            ]
  ]
