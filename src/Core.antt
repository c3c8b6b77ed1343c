-- ===== src/Core.antt =====
-- What the storage and restore code takes from the package gaia_core (the types of manifests,
-- events and checkpoints, and their wire form) and from Python's json and hashlib.
use gaia_server.Base.{String, Option}
use gaia_server.Base.Text.{Bytes}
use gaia_server.Dict.{Dict}

-- gaia_core.restore.manifest.RestorePath: the members that the code names, and any other.
pub data RestorePath : Type 0 where
  cross_host k8s_stateful_restore quarantined_foreign_host criu_migration : RestorePath
  other_path : String → RestorePath

-- gaia_core.security.tpm.contracts.TrustClass: the members that the code names, and any other.
pub data TrustClass : Type 0 where
  degraded quarantined : TrustClass
  other_class : String → TrustClass

-- gaia_core.restore.manifest.RestoreManifest: the fields that the code reads.
pub record RestoreManifest : Type 0 where
  pub manifest_id : String
  pub checkpoint_id : String
  pub node_id : String
  pub restore_path : RestorePath
  pub requested_trust_class : TrustClass
  pub manifest_hash : Option String
  pub payload_hash : Option String
  pub causal_cursor : Option String
  pub attestation_ref : Option String
  pub admissibility_policy_ref : Option String
  pub split_brain_token : Option String

pub record GaiaCore : Type 1 where
  -- A JSON value, and the types of events and checkpoints.
  pub Json : Type 0
  pub EventEnvelope : Type 0
  pub CheckpointRef : Type 0
  -- `json.loads(raw.decode())`, or `none` where it raises.
  pub loads : Bytes → Option (Dict Json)
  -- `json.dumps(d, sort_keys=True, separators=(",", ":"))`
  pub dumps_canonical : Dict Json → String
  -- `json.dumps(d)`
  pub dumps : Dict Json → String
  -- `hashlib.sha256(b).hexdigest()`
  pub sha256_hex : Bytes → String
  -- `from_wire_dict(T, d)`, or `none` where it raises.
  pub manifest_of_wire : Dict Json → Option RestoreManifest
  pub event_of_wire : Dict Json → Option EventEnvelope
  pub checkpoint_of_wire : Dict Json → Option CheckpointRef
  -- `to_wire_dict(x)`
  pub manifest_to_wire : RestoreManifest → Dict Json
  pub event_to_wire : EventEnvelope → Dict Json
  pub checkpoint_to_wire : CheckpointRef → Dict Json
  -- Fields.
  pub stream : EventEnvelope → String
  pub topic : EventEnvelope → String
  pub checkpoint_id : CheckpointRef → String
  -- The text of a trust class, which is a `str`.
  pub trust_text : TrustClass → String
