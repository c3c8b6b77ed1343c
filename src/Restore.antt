-- ===== src/Restore.antt =====
-- gaia_server/restore/orchestrator.py: the class RestoreOrchestrator.
pub mod Steps
pub mod Admission
pub mod Promotion
pub mod Refusal
pub mod Returns
pub mod Success
pub mod Foreign
pub mod Causes
pub mod Diagnosis
mod Examples
use Prim.Native.String.{◌++◌ as concat}
use gaia_server.Base.{
  ℕ, zero, suc, String, Bool, true, false, not, ◌&&◌, Option, none, some, List, [], ◌∷◌, ◌==◌,
  if◌then◌else◌, eqb, ◌||◌, or_else, length, Result, ok, err, Exec, pure, raise, raise_if, lift,
  modify, ◌>>=◌, ◌>>◌,
}
use gaia_server.Base.Numbers.{ℤ, int}
use gaia_server.Base.Text.{Bytes, codes, encode, ends_with, truthy}
use gaia_server.Errors.{
  Exn, RestoreError, restore_error, manifest_error, causal_replay_error, attestation_error,
  trust_promotion_error, not_found, undecodable, unsigned_manifest, hash_mismatch, payload_mismatch,
  ungated_criu, bad_cursor, empty_tail, no_reference, reference_not_found,
}
use gaia_server.Core.{
  GaiaCore, RestoreManifest, RestorePath, cross_host, k8s_stateful_restore,
  quarantined_foreign_host, criu_migration, other_path, TrustClass, degraded, quarantined,
}
use gaia_server.Dict
use gaia_server.Dict.{Dict}
use gaia_server.Storage.Etcd
use gaia_server.Storage.Minio
use gaia_server.Storage.Jetstream
use gaia_server.Storage.Registry.{StorageRegistry}

pub record RestoreResult : Type 0 where
  pub manifest_id : String
  pub node_id : String
  pub restore_path : RestorePath
  pub events_replayed : ℕ
  pub granted_trust_class : TrustClass
  pub payload : Bytes

-- The set `cross_host_paths` of `verify_attestation`.
abbrev pub needs_attestation : RestorePath → Bool
needs_attestation cross_host = true
needs_attestation k8s_stateful_restore = true
needs_attestation quarantined_foreign_host = true
needs_attestation criu_migration = true
needs_attestation (other_path p) = false

-- The branches of `promote_trust` on the path.
unfoldable pub granted_class : RestoreManifest → RestorePath → TrustClass
granted_class m cross_host = degraded
granted_class m k8s_stateful_restore = degraded
granted_class m criu_migration = degraded
granted_class m quarantined_foreign_host = quarantined
granted_class m (other_path p) = m.requested_trust_class

abbrev pub is_criu : RestorePath → Bool
is_criu criu_migration = true
is_criu cross_host = false
is_criu k8s_stateful_restore = false
is_criu quarantined_foreign_host = false
is_criu (other_path p) = false

unfoldable pub trust_key : RestoreManifest → String
trust_key m = concat "nodes/" (concat m.node_id "/trust")

-- The text begins with `seq:`.
abbrev starts_with_seq : List ℕ → Bool
starts_with_seq (a ∷ b ∷ c ∷ d ∷ cs) = eqb a b's' && eqb b b'e' && eqb c b'q' && eqb d b':'
starts_with_seq _ = false

-- `s.replace("seq:", "")`, with the number of characters of the current match still to skip.
unfoldable pub remove_seq : ℕ → List ℕ → List ℕ
remove_seq n [] = []
remove_seq (suc n) (c ∷ cs) = remove_seq n cs
remove_seq zero (c ∷ cs) =
    let skipped = remove_seq 3 cs in
    let kept = c ∷ remove_seq 0 cs in if starts_with_seq (c ∷ cs) then skipped else kept

-- The cursor's sequence number, or `none` where `int` raises.
unfoldable pub cursor_sequence : String → Option ℤ
unfolding remove_seq int
cursor_sequence cursor = int (remove_seq 0 (codes cursor))

-- `raise e` for a RestoreError, on a test.
abbrev pub refuse_if : {S : Type 0} → Bool → RestoreError → Exec Exn S (Unit {0})
refuse_if b e = raise_if b (restore_error e)

-- What a failed call of a library turns into.
abbrev pub or_refuse : {A : Type 0} → Option A → RestoreError → Result Exn A
or_refuse none e = err (restore_error e)
or_refuse (some a) e = ok a

module _ (core : GaiaCore) {S Sub : Type 0} (registry : StorageRegistry S Sub) where
  open core use {
    Json, EventEnvelope, loads, dumps_canonical, sha256_hex, manifest_of_wire, manifest_to_wire,
    trust_text,
  }
  open registry use {events, checkpoints, metadata}

  -- The two calls in the `try` of `load_manifest`.
  abbrev pub decode_manifest : Bytes → Option RestoreManifest
  decode_manifest raw = elim (loads raw) [ none ↦ none | some wire ↦ manifest_of_wire wire ]

  unfoldable pub load_manifest : String → Exec Exn S RestoreManifest
  load_manifest manifest_id s =
      (do
        found ← lift (Etcd.get metadata (concat "manifests/" manifest_id) s)
        raw ← lift (or_refuse found (manifest_error not_found))
        m ← lift (or_refuse (decode_manifest raw) (manifest_error undecodable))
        refuse_if (not (truthy m.manifest_hash)) (manifest_error unsigned_manifest)
        pure m)
        s

  -- The digest of the wire form without `manifest_hash`, with `_sha256_dict`.
  unfoldable pub manifest_digest : RestoreManifest → String
  manifest_digest m =
      sha256_hex (encode (dumps_canonical (Dict.erase "manifest_hash" (manifest_to_wire m))))

  -- Without a hash the code would raise AttributeError here; `load_manifest` has refused that before.
  unfoldable pub verify_hashes : RestoreManifest → Exec Exn S (Unit {0})
  verify_hashes m =
      refuse_if (not (ends_with (or_else "" m.manifest_hash) (manifest_digest m)))
        (manifest_error hash_mismatch)

  -- The lookup of a reference that is present; an absent or empty one is not looked up.
  unfoldable pub find_attestation : Option String → Exec Exn S (Unit {0})
  find_attestation none s = (ok tt, s)
  find_attestation (some reference) s =
      if truthy (some reference)
      then (do
        raw ← lift (Etcd.get metadata (concat "attestations/" reference) s)
        lift (or_refuse raw (attestation_error reference_not_found))
        pure tt)
          s
      else (ok tt, s)

  unfoldable pub verify_attestation : RestoreManifest → Exec Exn S (Unit {0})
  verify_attestation m = do
    refuse_if (needs_attestation m.restore_path && not (truthy m.attestation_ref))
        (attestation_error no_reference)
    find_attestation m.attestation_ref

  -- The comparison is skipped where the manifest has no payload hash.
  unfoldable pub payload_matches : Option String → Bytes → Bool
  payload_matches expected payload =
      not (truthy expected) || concat "sha256:" (sha256_hex payload) == or_else "" expected

  unfoldable pub fetch_payload : RestoreManifest → Exec Exn S Bytes
  fetch_payload m = do
    found ← Minio.get_checkpoint core checkpoints m.checkpoint_id
    refuse_if (not (payload_matches m.payload_hash found.1)) (manifest_error payload_mismatch)
    pure found.1

  unfoldable pub replay_after : String → String → Exec Exn S ℕ
  replay_after cursor stream = do
    after_seq ← lift (or_refuse (cursor_sequence cursor) (causal_replay_error bad_cursor))
    found ← Jetstream.read_events core events stream (some after_seq) 1000
    refuse_if (eqb (length found) 0) (causal_replay_error empty_tail)
    pure (length found)

  unfoldable pub replay_events : RestoreManifest → String → Exec Exn S ℕ
  replay_events m stream =
      if truthy m.causal_cursor then replay_after (or_else "" m.causal_cursor) stream else pure 0

  unfoldable pub check_criu_invariant : RestoreManifest → Exec Exn S (Unit {0})
  check_criu_invariant m =
      refuse_if (is_criu m.restore_path && not (truthy m.admissibility_policy_ref))
        (manifest_error ungated_criu)

  -- The last write: a compare-and-swap from the token, or a plain put where there is none.
  unfoldable pub write_trust : RestoreManifest → Bytes → Exec Exn S (Unit {0})
  write_trust m new_value =
      if truthy m.split_brain_token
      then (do
        swapped ←
            Etcd.compare_and_swap metadata (trust_key m) (encode (or_else "" m.split_brain_token))
              new_value
        refuse_if (not swapped) trust_promotion_error)
      else Etcd.put metadata (trust_key m) new_value none

  unfoldable pub promote_trust : RestoreManifest → Exec Exn S TrustClass
  promote_trust m = do
    let granted = granted_class m m.restore_path
    write_trust m (encode (trust_text granted))
    pure granted

  -- `restore`. Between its steps other processes use the same servers: `others i` is what they do
  -- before the step `i`.
  unfoldable pub restore : (ℕ → S → S) → String → Exec Exn S RestoreResult
  restore others manifest_id = do
    modify (others 0)
    m ← load_manifest manifest_id
    verify_hashes m
    modify (others 1)
    verify_attestation m
    modify (others 2)
    payload ← fetch_payload m
    modify (others 3)
    events_replayed ← replay_events m "gaia-checkpoints"
    check_criu_invariant m
    modify (others 4)
    granted ← promote_trust m
    pure (record {
      manifest_id = manifest_id;
      node_id = m.node_id;
      restore_path = m.restore_path;
      events_replayed = events_replayed;
      granted_trust_class = granted;
      payload = payload;
    })
