-- ===== src/Errors.antt =====
-- gaia_server/restore/errors.py, and the other exceptions that the storage code meets.
use gaia_server.Base.{String}

-- The messages of ManifestError.
pub data ManifestReason : Type 0 where
  not_found undecodable unsigned_manifest hash_mismatch payload_mismatch ungated_criu :
      ManifestReason

-- The messages of CausalReplayError.
pub data ReplayReason : Type 0 where
  bad_cursor empty_tail : ReplayReason

-- The messages of AttestationError.
pub data AttestationReason : Type 0 where
  no_reference reference_not_found : AttestationReason

-- The subclasses of RestoreError.
pub data RestoreError : Type 0 where
  manifest_error : ManifestReason → RestoreError
  causal_replay_error : ReplayReason → RestoreError
  attestation_error : AttestationReason → RestoreError
  trust_promotion_error : RestoreError

-- `key_error` and `attribute_error` are Python's KeyError and AttributeError, and `raised` any other exception of a library, with its text.
pub data Exn : Type 0 where
  restore_error : RestoreError → Exn
  not_implemented : Exn
  nats_timeout : Exn
  nats_not_found : Exn
  s3_error : String → Exn
  key_error : String → Exn
  attribute_error : String → Exn
  value_error : Exn
  raised : String → Exn
