-- ===== src/Storage/InMemory.antt =====
-- Servers that hold their keys in a dict, for the tests: every client call of the storage code, and
-- a package gaia_core that reads one manifest.
use gaia_server.Base.{
  String, ◌≡◌, refl, ap, Bool, true, false, Option, none, some, List, [], ◌∷◌, length, ◌&&◌, ◌==◌,
  arith, inl, inr, Bool-cases, Result, ok, err, if◌then◌else◌, ok-injective,
}
use gaia_server.Base.Text.{equal_bytes, equal_bytes→eq, equal_bytes_refl, encode, Bytes}
use gaia_server.Errors.{Exn, nats_timeout, s3_error}
use gaia_server.Core.{
  cross_host, GaiaCore, RestoreManifest, TrustClass, degraded, quarantined, other_class,
}
use gaia_server.Dict
use gaia_server.Dict.{Dict, get-insert}
use gaia_server.Storage.Etcd.{EtcdClient, EtcdLaws, AnswersCalls}
use gaia_server.Storage.Minio.{MinioClient}
use gaia_server.Storage.Jetstream.{NatsClient, NatsFrame}
use gaia_server.Storage.Checkpoints.{MinioLaws}
use gaia_server.Storage.Reading.{DeliveryLaws, AnswersWaits}
use gaia_server.Base.Numbers.{ℤ}
use gaia_server.Storage.Registry.{StorageRegistry}

-- The keys of the metadata server, the objects by bucket and key, and the messages still to come from
-- the event server.
pub record Servers : Type 0 where
  pub kv : Dict Bytes
  pub blobs : String → String → Option Bytes
  pub to_come : List Bytes

abbrev holds : Option Bytes → Bytes → Bool
holds none e = false
holds (some v) e = equal_bytes v e

abbrev pub etcd : EtcdClient Servers
etcd = record {
  client_get = λ k s. ok (Dict.get k s.kv);
  lease = λ n s. (ok n, s);
  client_put = λ k v l s. (ok tt, record s { kv = Dict.insert k v s.kv });
  client_delete = λ k s. (ok tt, record s { kv = Dict.erase k s.kv });
  put_if_value = λ k e v s.
      if holds (Dict.get k s.kv) e
      then (ok true, record s { kv = Dict.insert k v s.kv })
      else (ok false, s);
  client_get_prefix = λ k s. ok [];
  status = λ s. ok (1, "3.5");
}

abbrev pub stored : Servers → String → Option Bytes
stored s k = Dict.get k s.kv

holds→eq : (o : Option Bytes) (e : Bytes) → holds o e ≡ true → o ≡ some e
holds→eq none e h = cc
holds→eq (some v) e h = ap some (equal_bytes→eq v e h)

pub etcd-EtcdLaws : EtcdLaws etcd stored
etcd-EtcdLaws = record {
  get_reports = λ k s v h. ground arith;
  put_stores = λ k v l s h j. get-insert k j v s.kv;
  swap_stores = λ k e v s h. elim (Bool-cases (holds (Dict.get k s.kv) e)) [
    | inl yes' ↦ (holds→eq _ e yes', λ j. rw yes' (get-insert k j v s.kv))
    | inr no' ↦ absurd (ground arith)
  ];
  failed_swap_keeps = λ k e v s h j. ground arith;
  raised_swap = λ k e v s x h. absurd (ground arith);
  put_raises = λ k v l s e h. cc;
  swap_raises = λ k x v s e h. ground arith;
}

eq→holds : (o : Option Bytes) (e : Bytes) → o ≡ some e → holds o e ≡ true
eq→holds o e h = rw h (equal_bytes_refl e)

pub etcd-AnswersCalls : AnswersCalls etcd stored
etcd-AnswersCalls = record {
  gets = λ k s. refl;
  puts = λ k v s. refl;
  swaps = λ k e v s h. rw (eq→holds _ e h) refl;
}

abbrev found : Option Bytes → Result Exn Bytes
found none = err (s3_error "NoSuchKey")
found (some v) = ok v

abbrev pub minio : MinioClient Servers
minio = record {
  get_object = λ b k s. found (s.blobs b k);
  put_object = λ b k v t s.
      (ok tt, record s { blobs = λ c j. if b == c && k == j then some v else s.blobs c j });
  stat_object = λ b k s. ok tt;
  bucket_exists = λ b s. ok true;
  make_bucket = λ b s. (ok tt, s);
}

abbrev pub objects : Servers → String → String → Option Bytes
objects s = s.blobs

pub minio-MinioLaws : MinioLaws minio objects
minio-MinioLaws = record {
  put_stores = λ b k v t s h c j. refl;
  get_finds = λ b k s v h. rw h refl;
  get_misses = λ b k s h. rw h refl;
}

abbrev next_of : List Bytes → Servers → Result Exn Bytes × Servers
next_of [] s = (err nats_timeout, s)
next_of (raw ∷ rest) s = (ok raw, record s { to_come = rest })

abbrev pub nats : NatsClient Servers (Unit {0})
nats = record {
  publish = λ subject content s. (ok 1, s);
  subscribe = λ subject start s. (ok tt, s);
  next_msg = λ sub s. next_of s.to_come s;
  unsubscribe = λ sub s. (ok tt, s);
  stream_messages = λ name s. ok (length s.to_come);
  flush = λ s. (ok tt, s);
  is_connected = λ s. true;
  drain = λ s. (ok tt, s);
}

next_of-stored :
    (ms : List Bytes) (s : Servers) (j : String) → stored (next_of ms s).1 j ≡ stored s j
next_of-stored [] s j = refl
next_of-stored (raw ∷ rest) s j = refl

pub nats-NatsFrame : NatsFrame nats stored
nats-NatsFrame = record {
  subscribe_frame = λ subject start s j. refl;
  next_frame = λ sub s j. next_of-stored s.to_come s j;
  unsubscribe_frame = λ sub s j. refl;
}

abbrev pub pending : Unit {0} → Servers → List Bytes
pending sub s = s.to_come

abbrev pub messages : String → Option ℤ → Servers → List Bytes
messages subject start s = s.to_come

next_of_ok :
    (ms : List Bytes) (s : Servers) (raw : Bytes)
    → (next_of ms s).0 ≡ ok raw
    → ms ≡ raw ∷ (next_of ms s).1.to_come
next_of_ok [] s raw h = absurd (ground arith)
next_of_ok (m ∷ rest) s raw h = ap (λ x. x ∷ rest) (ok-injective h)

pub nats-DeliveryLaws : DeliveryLaws nats messages pending
nats-DeliveryLaws = record {
  subscribes = λ subject start s sub h. refl;
  delivers = λ sub s raw h. next_of_ok s.to_come s raw h;
}

pub nats-AnswersWaits : AnswersWaits nats pending
nats-AnswersWaits = record {
  comes = λ sub s raw rest h. rw h refl;
  times_out = λ sub s h. rw h refl;
  closes = λ sub s. refl;
}

abbrev pub class_text : TrustClass → String
class_text degraded = "degraded"
class_text quarantined = "quarantined"
class_text (other_class t) = t

-- Every stored manifest is read as `m`, and every digest is 0a.
abbrev pub core_with : RestoreManifest → GaiaCore
core_with m = record {
  Json = String;
  EventEnvelope = Unit {0};
  CheckpointRef = Unit {0};
  loads = λ raw. some [];
  dumps_canonical = λ d. "{}";
  dumps = λ d. "{}";
  sha256_hex = λ b. "0a";
  manifest_of_wire = λ d. some m;
  event_of_wire = λ d. some tt;
  checkpoint_of_wire = λ d. some tt;
  manifest_to_wire = λ x. [];
  event_to_wire = λ e. [];
  checkpoint_to_wire = λ c. [];
  stream = λ e. "gaia-events";
  topic = λ e. "t";
  checkpoint_id = λ c. "ckpt-001";
  trust_text = class_text;
}

abbrev pub registry : StorageRegistry Servers (Unit {0})
registry = record {
  events = nats;
  checkpoints = record { client = minio; bucket = "gaia-checkpoints" };
  metadata = record { client = etcd; ns = "gaia" };
}

abbrev pub moved : RestoreManifest
moved = record {
  manifest_id = "mfst-001";
  checkpoint_id = "ckpt-001";
  node_id = "node-alpha";
  restore_path = cross_host;
  requested_trust_class = other_class "trusted";
  manifest_hash = some "sha256:0a";
  payload_hash = none;
  causal_cursor = some "seq:100";
  attestation_ref = some "att-1";
  admissibility_policy_ref = none;
  split_brain_token = some "unverified";
}

abbrev pub servers : Servers
servers = record {
  kv =
      ("/gaia/manifests/mfst-001", [])
      ∷ ("/gaia/attestations/att-1", [])
      ∷ ("/gaia/nodes/node-alpha/trust", encode "unverified")
      ∷ [];
  blobs = λ b k. some [];
  to_come = [] ∷ [] ∷ [];
}
