-- ===== src/Restore/Diagnosis.antt =====
-- A refused restore names the check that failed.
use Prim.Native.String.{◌++◌ as concat}
use gaia_server.Base.{
  ℕ, String, ◌≡◌, true, false, none, some, [], or_else, inl, inr, ok, err, Result, >>=-eq-err,
  arith, modify, pure, ◌>>=◌, ◌>>◌,
}
use gaia_server.Base.Numbers.{ℤ}
use gaia_server.Base.Text.{Bytes, encode, ends_with, truthy}
use gaia_server.Errors.{
  Exn, RestoreError, restore_error, manifest_error, causal_replay_error, attestation_error,
  trust_promotion_error, not_found, undecodable, unsigned_manifest, hash_mismatch, payload_mismatch,
  ungated_criu, bad_cursor, empty_tail, no_reference, reference_not_found,
}
use gaia_server.Core.{GaiaCore, RestoreManifest}
use gaia_server.Storage.Etcd
use gaia_server.Storage.Minio
use gaia_server.Storage.Jetstream
use gaia_server.Storage.Registry.{StorageRegistry}
use gaia_server.Restore.{
  RestoreResult, needs_attestation, is_criu, trust_key, cursor_sequence, decode_manifest,
  manifest_digest, payload_matches, load_manifest, verify_hashes, verify_attestation, fetch_payload,
  replay_events, check_criu_invariant, promote_trust, restore,
}
use gaia_server.Restore.Steps.{
  load_manifest-keeps, load_manifest_ok, verify_hashes_ok, verify_hashes-keeps,
  verify_attestation-keeps, fetch_payload-keeps, check_criu-keeps,
}
use gaia_server.Restore.Success.{seen}
use gaia_server.Restore.Foreign.{RaisesForeign}
use gaia_server.Restore.Causes.{
  load_manifest_cause, verify_hashes_cause, verify_attestation_cause, fetch_payload_cause,
  replay_events_cause, check_criu_cause, promote_trust_cause,
}

module _ (core : GaiaCore) {S Sub : Type 0} (registry : StorageRegistry S Sub) where
  open registry use {events, checkpoints, metadata}
  open core use {CheckpointRef}

  module _ (others : ℕ → S → S) (id : String) (s : S) where
    -- A signed manifest is there when the restore reads it.
    abbrev pub IsLoaded : RestoreManifest → Type 0
    IsLoaded m =
        (raw : Bytes) × (Etcd.get metadata (concat "manifests/" id) (seen others 0 s)
          ≡ ok (some raw))
        × (decode_manifest core registry raw ≡ some m)
        × (truthy m.manifest_hash ≡ true)

    -- And its hash ends with the digest of the rest of it.
    abbrev pub IsIntact : RestoreManifest → Type 0
    IsIntact m =
        IsLoaded m
        × (ends_with (or_else "" m.manifest_hash) (manifest_digest core registry m) ≡ true)

    -- What each exception says of the servers, when the restore read them.
    abbrev pub Cause : RestoreError → Type 0
    Cause (manifest_error not_found) =
        Etcd.get metadata (concat "manifests/" id) (seen others 0 s) ≡ ok none
    Cause (manifest_error undecodable) =
        (raw : Bytes) × (Etcd.get metadata (concat "manifests/" id) (seen others 0 s)
          ≡ ok (some raw))
        × (decode_manifest core registry raw ≡ none)
    Cause (manifest_error unsigned_manifest) =
        (raw : Bytes) × (m : RestoreManifest) × (Etcd.get metadata (concat "manifests/" id)
            (seen others 0 s)
          ≡ ok (some raw))
        × (decode_manifest core registry raw ≡ some m)
        × (truthy m.manifest_hash ≡ false)
    Cause (manifest_error hash_mismatch) =
        (m : RestoreManifest) × IsLoaded m
        × (ends_with (or_else "" m.manifest_hash) (manifest_digest core registry m) ≡ false)
    Cause (attestation_error no_reference) =
        (m : RestoreManifest) × IsIntact m
        × (needs_attestation m.restore_path ≡ true)
        × (truthy m.attestation_ref ≡ false)
    Cause (attestation_error reference_not_found) =
        (m : RestoreManifest) × IsIntact m
        × (truthy m.attestation_ref ≡ true)
        × (Etcd.get metadata (concat "attestations/" (or_else "" m.attestation_ref))
              (seen others 1 s)
            ≡ ok none)
    Cause (manifest_error payload_mismatch) =
        (m : RestoreManifest) × (ref : CheckpointRef) × (payload : Bytes) × IsIntact m
        × ((Minio.get_checkpoint core checkpoints m.checkpoint_id (seen others 2 s)).0
            ≡ ok (ref, payload))
        × (payload_matches core registry m.payload_hash payload ≡ false)
    Cause (causal_replay_error bad_cursor) =
        (m : RestoreManifest) × IsIntact m
        × (truthy m.causal_cursor ≡ true)
        × (cursor_sequence (or_else "" m.causal_cursor) ≡ none)
    Cause (causal_replay_error empty_tail) =
        (m : RestoreManifest) × (k : ℤ) × IsIntact m
        × (truthy m.causal_cursor ≡ true)
        × (cursor_sequence (or_else "" m.causal_cursor) ≡ some k)
        × ((Jetstream.read_events core events "gaia-checkpoints" (some k) 1000 (seen others 3 s)).0
            ≡ ok [])
    Cause (manifest_error ungated_criu) =
        (m : RestoreManifest) × IsIntact m
        × (is_criu m.restore_path ≡ true)
        × (truthy m.admissibility_policy_ref ≡ false)
    Cause trust_promotion_error =
        (m : RestoreManifest) × (v : Bytes) × IsIntact m
        × (truthy m.split_brain_token ≡ true)
        × ((Etcd.compare_and_swap metadata (trust_key m) (encode (or_else "" m.split_brain_token)) v
              (others 4 (replay_events core registry m "gaia-checkpoints" (seen others 3 s)).1)).0
            ≡ ok false)

  -- What is left of a restore once the payload is there.
  after_fetch :
      (foreign : RaisesForeign registry) (others : ℕ → S → S) (id : String) (s : S)
      (e : RestoreError) (m : RestoreManifest) (payload : Bytes)
      → IsIntact others id s m
      → ◌≡◌ {A = Result Exn RestoreResult}
          ((do
            modify (others 3)
            events_replayed ← replay_events core registry m "gaia-checkpoints"
            check_criu_invariant core registry m
            modify (others 4)
            granted ← promote_trust core registry m
            pure (record {
              manifest_id = id;
              node_id = m.node_id;
              restore_path = m.restore_path;
              events_replayed = events_replayed;
              granted_trust_class = granted;
              payload = payload;
            }))
            (seen others 2 s)).0
          (err (restore_error e))
      → Cause others id s e
  after_fetch foreign others id s e m payload intact h =
      let C = Cause others id s in
      let s3 = seen others 3 s in
      let s3' = (replay_events core registry m "gaia-checkpoints" s3).1 in
      elim (>>=-eq-err (replay_events core registry m "gaia-checkpoints") _ s3 h) [
        | inl x ↦
            replay_events_cause core registry foreign C e m "gaia-checkpoints" s3
              (λ given bad. (m, intact, given, bad))
              (λ k given number empty. (m, k, intact, given, number, empty)) x
        | inr (n, e5, h5) ↦ elim (>>=-eq-err (check_criu_invariant core registry m) _ s3' h5) [
          | inl x ↦
              check_criu_cause core registry foreign C e m s3'
                (λ migrates ungated. (m, intact, migrates, ungated)) x
          | inr (_, e6, h6) ↦
              elim (>>=-eq-err (promote_trust core registry m) _ (others 4 s3')
                (rw (check_criu-keeps core registry m s3') at h6)) [
                  | inl x ↦
                      promote_trust_cause core registry foreign C e m (others 4 s3')
                        (λ v given taken. (m, v, intact, given, taken)) x
                  | inr (c, e7, h7) ↦ absurd (ground arith)
                ]
        ]
      ]

  -- Where the packages of the clients raise no RestoreError of their own: a restore that ends in one
  -- has met its cause, the check of this name that failed on the manifest and on the servers as they
  -- were when the restore read them. An error of the attestation, the payload, the cursor, the replay,
  -- the policy or the promotion comes only after the manifest was found signed and whole.
  pub restore-Cause :
      (foreign : RaisesForeign registry) (others : ℕ → S → S) (id : String) (s : S)
      (e : RestoreError)
      → (restore core registry others id s).0 ≡ err (restore_error e)
      → Cause others id s e
  unfolding restore
  restore-Cause foreign others id s e h =
      let C = Cause others id s in
      let s0 = seen others 0 s in
      let s1 = seen others 1 s in
      let s2 = seen others 2 s in
      let s3 = seen others 3 s in
      elim (>>=-eq-err (load_manifest core registry id) _ s0 h) [
        | inl x ↦
            load_manifest_cause core registry foreign C e id s0 (λ q. q) (λ raw q d. (raw, q, d))
              (λ raw m q d t. (raw, m, q, d, t)) x
        | inr (m, e1, h1) ↦
            let loaded : IsLoaded others id s m = load_manifest_ok core registry id s0 m e1 in
            elim (>>=-eq-err (verify_hashes core registry m) _ s0
              (rw (load_manifest-keeps core registry id s0) at h1)) [
                | inl x ↦
                    verify_hashes_cause core registry foreign C e m s0 (λ bad. (m, loaded, bad)) x
                | inr (_, e2, h2) ↦
                    let intact : IsIntact others id s m =
                      (loaded, verify_hashes_ok core registry m s0 e2) in
                    elim (>>=-eq-err (verify_attestation core registry m) _ s1
                      (rw (verify_hashes-keeps core registry m s0) at h2)) [
                        | inl x ↦
                            verify_attestation_cause core registry foreign C e m s1
                              (λ needed missing. (m, intact, needed, missing))
                              (λ given absent. (m, intact, given, absent)) x
                        | inr (_, e3, h3) ↦
                            elim (>>=-eq-err (fetch_payload core registry m) _ s2
                              (rw (verify_attestation-keeps core registry m s1) at h3)) [
                                | inl x ↦
                                    fetch_payload_cause core registry foreign C e m s2
                                      (λ ref payload got bad. (m, ref, payload, intact, got, bad)) x
                                | inr (payload, e4, h4) ↦
                                    after_fetch foreign others id s e m payload intact
                                      (rw (fetch_payload-keeps core registry m s2) at h4)
                              ]
                      ]
              ]
      ]
