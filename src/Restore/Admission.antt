-- ===== src/Restore/Admission.antt =====
-- A restore that succeeds has passed every check.
use Prim.Native.String.{◌++◌ as concat}
use gaia_server.Base.{
  ℕ, ◌<◌, String, ◌≡◌, refl, true, some, or_else, ok, >>=-eq-ok, ok-injective, subst, List, length,
  false,
}
use gaia_server.Base.Numbers.{ℤ}
use gaia_server.Base.Text.{Bytes, ends_with, truthy}
use gaia_server.Core.{GaiaCore, RestoreManifest}
use gaia_server.Storage.Etcd
use gaia_server.Storage.Minio
use gaia_server.Storage.Jetstream
use gaia_server.Storage.Registry.{StorageRegistry}
use gaia_server.Restore.{
  RestoreResult, needs_attestation, is_criu, granted_class, cursor_sequence, decode_manifest,
  manifest_digest, payload_matches, load_manifest, verify_hashes, verify_attestation, fetch_payload,
  replay_events, check_criu_invariant, promote_trust, restore,
}
use gaia_server.Restore.Steps.{
  load_manifest-keeps, load_manifest_ok, verify_hashes_ok, verify_hashes-keeps,
  verify_attestation-keeps, fetch_payload-keeps, check_criu_ok, fetch_payload_ok,
  verify_attestation_ok, attestation_found, payload_read, events_read, no_events_read,
  promote_trust_ok,
}

module _ (core : GaiaCore) {S Sub : Type 0} (registry : StorageRegistry S Sub) where
  open registry use {events, checkpoints, metadata}
  open core use {EventEnvelope, CheckpointRef}

  -- What a restore of `id` from the state `s` with the result `r` rests on.
  pub record IsAdmitted (others : ℕ → S → S) (id : String) (s : S) (r : RestoreResult)
      : Type 0 where
    pub m : RestoreManifest
    pub raw : Bytes
    -- 1. The manifest was there, signed, and its hash ends with the digest of the rest of it.
    pub stored : Etcd.get metadata (concat "manifests/" id) (others 0 s) ≡ ok (some raw)
    pub decoded : decode_manifest core registry raw ≡ some m
    pub signed : truthy m.manifest_hash ≡ true
    pub intact : ends_with (or_else "" m.manifest_hash) (manifest_digest core registry m) ≡ true
    -- 2. With a cursor, the events after its sequence number were read, and there was at least one.
    pub replayed :
        truthy m.causal_cursor ≡ true
        → (k : ℤ) × (evs : List EventEnvelope) × (cursor_sequence (or_else "" m.causal_cursor)
            ≡ some k)
          × ((Jetstream.read_events core events "gaia-checkpoints"
                (some k)
                1000
                (others 3 (others 2 (others 1 (others 0 s))))).0
              ≡ ok evs)
          × (0 < length evs)
          × (r.events_replayed ≡ length evs)
    pub none_replayed : truthy m.causal_cursor ≡ false → r.events_replayed ≡ 0
    -- 3. A path to another host has an attestation, and one that is given was found.
    pub attested : needs_attestation m.restore_path ≡ true → truthy m.attestation_ref ≡ true
    pub found :
        truthy m.attestation_ref ≡ true
        → (a : Bytes) × (Etcd.get metadata
              (concat "attestations/" (or_else "" m.attestation_ref))
              (others 1 (others 0 s))
            ≡ ok (some a))
    -- 4. A CRIU migration names its policy.
    pub gated : is_criu m.restore_path ≡ true → truthy m.admissibility_policy_ref ≡ true
    -- The result: its payload was read under the manifest's checkpoint.
    pub payload_is :
        (ref : CheckpointRef) × ((Minio.get_checkpoint core checkpoints m.checkpoint_id
            (others 2 (others 1 (others 0 s)))).0
          ≡ ok (ref, r.payload))
    pub payload_intact : payload_matches core registry m.payload_hash r.payload ≡ true
    pub granted : r.granted_trust_class ≡ granted_class m m.restore_path
    pub id_is : r.manifest_id ≡ id
    pub node_is : r.node_id ≡ m.node_id
    pub path_is : r.restore_path ≡ m.restore_path

  -- A restore that returns, whatever other processes do to the servers between its steps, has
  -- passed all four restore invariants on the manifest that it read. Its result has the payload
  -- that was read under that manifest's checkpoint id and fits its payload hash, if it has one; the
  -- number of the events read after the manifest's cursor, which is positive, or 0 without a
  -- cursor; and the trust class of the manifest's path.
  pub restore-IsAdmitted :
      (others : ℕ → S → S) (id : String) (s : S) (r : RestoreResult)
      → (restore core registry others id s).0 ≡ ok r
      → IsAdmitted others id s r
  unfolding restore
  restore-IsAdmitted others id s r h =
      let (m, e1, h1) = >>=-eq-ok (load_manifest core registry id) _ (others 0 s) h in
      let (raw, stored, decoded, signed) = load_manifest_ok core registry id (others 0 s) m e1 in
      let h1' = rw (load_manifest-keeps core registry id (others 0 s)) at h1 in
      let (_, e2, h2) = >>=-eq-ok (verify_hashes core registry m) _ (others 0 s) h1' in
      let h2' = rw (verify_hashes-keeps core registry m (others 0 s)) at h2 in
      let s1 = others 1 (others 0 s) in
      let (_, e3, h3) = >>=-eq-ok (verify_attestation core registry m) _ s1 h2' in
      let h3' = rw (verify_attestation-keeps core registry m s1) at h3 in
      let s2 = others 2 s1 in
      let (payload, e4, h4) = >>=-eq-ok (fetch_payload core registry m) _ s2 h3' in
      let h4' = rw (fetch_payload-keeps core registry m s2) at h4 in
      let s3 = others 3 s2 in
      let (n, e5, h5) = >>=-eq-ok (replay_events core registry m "gaia-checkpoints") _ s3 h4' in
      let (_, e6, h6) = >>=-eq-ok (check_criu_invariant core registry m) _ _ h5 in
      let (c, e7, h7) = >>=-eq-ok (promote_trust core registry m) _ _ h6 in
      subst (IsAdmitted others id s) (ok-injective h7) (record {
        m = m;
        raw = raw;
        stored = stored;
        decoded = decoded;
        signed = signed;
        intact = verify_hashes_ok core registry m (others 0 s) e2;
        replayed = events_read core registry m "gaia-checkpoints" s3 n e5;
        none_replayed = no_events_read core registry m "gaia-checkpoints" s3 n e5;
        attested = verify_attestation_ok core registry m s1 e3;
        found = attestation_found core registry m s1 e3;
        gated = check_criu_ok core registry m _ e6;
        payload_is = payload_read core registry m s2 payload e4;
        payload_intact = fetch_payload_ok core registry m s2 payload e4;
        granted = promote_trust_ok core registry m _ c e7;
        id_is = refl;
        node_is = refl;
        path_is = refl;
      })
