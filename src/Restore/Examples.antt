-- ===== src/Restore/Examples.antt =====
-- The theorems on restores at a concrete manifest, over servers that hold their keys in a dict.
use gaia_server.Base.{
  arith, ℕ, ◌≤◌, String, ◌≡◌, refl, true, none, some, [], ◌∷◌, ok, err, if◌then◌else◌, ◌==◌,
}
use gaia_server.Base.Numbers.{add_one}
use gaia_server.Base.Text.{encode, truthy, lstrip_slash, ends_with}
use gaia_server.Errors.{restore_error, attestation_error, no_reference}
use gaia_server.Core.{RestoreManifest, TrustClass, cross_host, degraded}
use gaia_server.Dict
use gaia_server.Dict.{Dict, get-insert}
use gaia_server.Storage.Etcd
use gaia_server.Storage.Etcd.{EtcdClient, EtcdLaws, full_key}
use gaia_server.Storage.Minio
use gaia_server.Storage.Minio.{MinioClient}
use gaia_server.Storage.Jetstream
use gaia_server.Storage.Jetstream.{NatsClient, NatsFrame}
use gaia_server.Storage.InMemory.{
  Servers, stored, etcd-EtcdLaws, nats-NatsFrame, core_with, registry, moved, servers,
}
use gaia_server.Restore.{
  RestoreResult, restore, promote_trust, trust_key, granted_class, load_manifest, verify_hashes,
  manifest_digest, verify_attestation, find_attestation, fetch_payload, payload_matches,
  replay_events, replay_after, cursor_sequence, check_criu_invariant, write_trust,
}
use gaia_server.Restore.Admission.{IsAdmitted, restore-IsAdmitted}
use gaia_server.Restore.Refusal.{refused_restore_writes_nothing}
use gaia_server.Restore.Promotion.{
  key_of, token_of, promote_trust_stores, IsGrant, Contends, contend, token_is_used_once,
}
use gaia_server.Base.Numbers.{pos}
use gaia_server.Storage.Reading.{decode_all}
use gaia_server.Storage.InMemory.{
  etcd-AnswersCalls, minio-MinioLaws, nats-DeliveryLaws, nats-AnswersWaits, class_text,
}
use gaia_server.Restore.Success.{IsReady, restore_succeeds}
use gaia_server.Restore.Foreign.{RaisesForeign}
use gaia_server.Restore.Diagnosis.{Cause, restore-Cause}

abbrev nothing : ℕ → Servers → Servers
nothing i s = s

abbrev restored : RestoreResult
restored = record {
  manifest_id = "mfst-001";
  node_id = "node-alpha";
  restore_path = cross_host;
  events_replayed = 2;
  granted_trust_class = degraded;
  payload = [];
}

-- Everything that a run goes through: naming this in an `unfolding` line opens all of it.
run_through : Unit {0}
unfolding restore load_manifest verify_hashes manifest_digest verify_attestation find_attestation
    fetch_payload payload_matches replay_events replay_after cursor_sequence check_criu_invariant
    promote_trust write_trust trust_key granted_class full_key Etcd.get Etcd.compare_and_swap
    Etcd.put Minio.get_checkpoint Minio.manifest_key Minio.payload_key Jetstream.read_events
    Jetstream.fetch_and_close Jetstream.fetch Jetstream.decode_event add_one Dict.get Dict.erase
    lstrip_slash ends_with encode
run_through = tt

restore_runs : (restore (core_with moved) registry nothing "mfst-001" servers).0 ≡ ok restored
unfolding run_through
restore_runs = refl

restore-IsAdmitted_example :
    IsAdmitted (core_with moved) registry nothing "mfst-001" servers restored
restore-IsAdmitted_example =
    restore-IsAdmitted (core_with moved) registry nothing "mfst-001" servers restored restore_runs

-- The same without an attestation.
abbrev unattested : RestoreManifest
unattested = record moved { attestation_ref = none }

refused :
    (restore (core_with unattested) registry nothing "mfst-001" servers).0
    ≡ err (restore_error (attestation_error no_reference))
unfolding run_through
refused = refl

refused_restore_writes_nothing_example :
    stored
      (restore (core_with unattested) registry nothing "mfst-001" servers).1
      "/gaia/nodes/node-alpha/trust"
    ≡ some (encode "unverified")
unfolding Dict.get
refused_restore_writes_nothing_example =
    refused_restore_writes_nothing (core_with unattested) registry stored nats-NatsFrame
      "/gaia/nodes/node-alpha/trust" etcd-EtcdLaws nothing (λ i s. refl) "mfst-001" servers
      (attestation_error no_reference) refused

promoted : (promote_trust (core_with moved) registry moved servers).0 ≡ ok degraded
unfolding run_through
promoted = refl

promote_trust_stores_example :
    IsGrant moved degraded
    × ((j : String)
        → stored (promote_trust (core_with moved) registry moved servers).1 j ≡ (
            if key_of (core_with moved) registry stored etcd-EtcdLaws moved == j
            then some (encode "degraded")
            else stored servers j))
    × (truthy moved.split_brain_token ≡ true
        → stored servers (key_of (core_with moved) registry stored etcd-EtcdLaws moved)
          ≡ some (token_of (core_with moved) registry stored etcd-EtcdLaws moved))
promote_trust_stores_example =
    promote_trust_stores (core_with moved) registry stored etcd-EtcdLaws moved servers degraded
      promoted

moved-Contends :
    Contends
      (core_with moved)
      registry
      stored
      etcd-EtcdLaws
      "/gaia/nodes/node-alpha/trust"
      (encode "unverified")
      moved
unfolding run_through
moved-Contends = record {
  same_key = refl;
  same_token = refl;
  has_token = refl;
  other_value = λ e. cc e;
}

token_is_used_once_example :
    contend (core_with moved) registry stored etcd-EtcdLaws nothing (moved ∷ moved ∷ []) servers ≤ 1
token_is_used_once_example =
    token_is_used_once (core_with moved) registry stored etcd-EtcdLaws
      "/gaia/nodes/node-alpha/trust" (encode "unverified") nothing (moved ∷ moved ∷ []) servers
      (λ i s. refl) (moved-Contends, (moved-Contends, tt))

servers-IsReady :
    IsReady
      (core_with moved)
      registry
      etcd-EtcdLaws
      etcd-AnswersCalls
      minio-MinioLaws
      nats-DeliveryLaws
      nats-AnswersWaits
      nats-NatsFrame
      nothing
      "mfst-001"
      servers
      moved
      []
      (tt ∷ tt ∷ [])
unfolding run_through decode_all
servers-IsReady = record {
  raw = [];
  manifest = refl;
  decoded = refl;
  signed = refl;
  intact = refl;
  attested = λ _. refl;
  attestation = λ _. ([], refl);
  blob = [];
  wire = [];
  ref = tt;
  described = refl;
  loaded = refl;
  readable = refl;
  content = refl;
  matching = refl;
  replayable = λ _. (pos 100, refl, refl, omega arith, tt, refl);
  gated = λ h. cc;
  token = λ _. refl;
  quiet = λ t. refl;
}

restore_succeeds_example :
    (c : TrustClass) × IsGrant moved c
    × ((restore (core_with moved) registry nothing "mfst-001" servers).0
        ≡ ok (record {
          manifest_id = "mfst-001";
          node_id = "node-alpha";
          restore_path = cross_host;
          events_replayed = 2;
          granted_trust_class = c;
          payload = [];
        }))
    × (stored
          (restore (core_with moved) registry nothing "mfst-001" servers).1
          (key_of (core_with moved) registry stored etcd-EtcdLaws moved)
        ≡ some (encode (class_text c)))
restore_succeeds_example =
    restore_succeeds (core_with moved) registry etcd-EtcdLaws etcd-AnswersCalls minio-MinioLaws
      nats-DeliveryLaws nats-AnswersWaits nats-NatsFrame nothing "mfst-001" servers moved []
      (tt ∷ tt ∷ []) servers-IsReady

registry-RaisesForeign : RaisesForeign registry
registry-RaisesForeign = record {
  gets = λ k s e h. cc;
  puts = λ k v l s e h. cc;
  swaps = λ k x v s e h. ground arith;
  finds = λ b k s e h. ground arith;
  subscribes = λ subject start s e h. cc;
  delivers = λ sub s e h. ground arith;
  unsubscribes = λ sub s e h. cc;
}

restore-Cause_example :
    Cause
      (core_with unattested)
      registry
      nothing
      "mfst-001"
      servers
      (attestation_error no_reference)
restore-Cause_example =
    restore-Cause (core_with unattested) registry registry-RaisesForeign nothing "mfst-001" servers
      (attestation_error no_reference) refused
