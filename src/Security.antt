-- ===== src/Security.antt =====
-- gaia_server/security: the post-quantum profile (pqc_profile.py) with its two backends, and the
-- artifact signer (artifact_signer.py). `P` is the type of payloads. What `os.urandom` gives is an
-- argument, and the time of a signature is left out.
mod Backends
mod Examples
mod Signing
use gaia_server.Base.{
  ℕ, ◌+◌, String, Bool, true, false, Option, none, some, List, [], ◌∷◌, ◌++◌, ◌==◌, ◌||◌, ◌&&◌, not,
  ltb, eqb, if◌then◌else◌, Result, ok, err, Exec, continue,
}
use gaia_server.Base.Text.{Bytes, encode, truthy, equal_bytes}

-- hashlib, hmac and json: `sha256(b).digest()` and `.hexdigest()`, `hmac.new(key, b, sha256)`, and
-- `json.dumps(payload, sort_keys=True, default=str)`.
pub record Crypto (P : Type 0) : Type 0 where
  pub sha256 : Bytes → Bytes
  pub sha256_hex : Bytes → String
  pub hmac_sha256 : Bytes → Bytes → Bytes
  pub dumps_sorted : P → String

pub data PqcError : Type 0 where
  value_error runtime_error not_implemented_error : PqcError

pub record KemResult : Type 0 where
  pub ciphertext : Bytes
  pub shared_secret : Bytes
  pub algorithm : String

pub record SignatureResult : Type 0 where
  pub signature : Bytes
  pub algorithm : String
  pub signer_id : String

pub record VerificationResult : Type 0 where
  pub verified : Bool
  pub algorithm : String
  pub reason : String

pub record PqcProfile : Type 0 where
  pub backend : String
  pub signer_id : String

-- `(major, minor) < (3, 5)`; `none` where the text of the version has no two such numbers.
unfoldable pub check_openssl35 : Option (ℕ × ℕ) → Bool
check_openssl35 none = false
check_openssl35 (some (major, minor)) = not (ltb major 3 || eqb major 3 && ltb minor 5)

unfoldable pub init : Option (ℕ × ℕ) → String → String → Result PqcError PqcProfile
init version backend signer_id =
    if backend == "software-stub"
    then ok (record { backend = backend; signer_id = signer_id })
    else if backend == "openssl35"
    then (if check_openssl35 version
        then ok (record { backend = backend; signer_id = signer_id })
        else err runtime_error)
    else err value_error

-- `if self.backend == "software-stub"`, or NotImplementedError.
abbrev pub if_stub : {A : Type 0} → PqcProfile → A → Result PqcError A
if_stub pqc a = if pqc.backend == "software-stub" then ok a else err not_implemented_error

-- 32 random bytes twice.
unfoldable pub generate_kem_keypair : Bytes → Bytes → PqcProfile → Result PqcError (Bytes × Bytes)
generate_kem_keypair random_pub random_priv pqc = if_stub pqc (random_pub, random_priv)

-- 32 and 64 random bytes.
unfoldable pub generate_sig_keypair : Bytes → Bytes → PqcProfile → Result PqcError (Bytes × Bytes)
generate_sig_keypair random_pub random_priv pqc = if_stub pqc (random_pub, random_priv)

pub record SignedArtifact (P : Type 0) : Type 0 where
  pub artifact_kind : String
  pub payload_digest : String
  pub payload : P
  pub signature : Bytes
  pub algorithm : String
  pub signer_id : String
  pub manifest_version : ℕ
  pub sequence : ℕ
  pub kem_metadata : String
  pub notes : List String

pub record ArtifactSigner : Type 0 where
  pub pqc : PqcProfile
  pub private_key : Bytes
  pub public_key : Bytes
  pub sequence : ℕ

unfoldable pub new_signer : PqcProfile → Bytes → Bytes → ArtifactSigner
new_signer pqc private_key public_key = record {
  pqc = pqc;
  private_key = private_key;
  public_key = public_key;
  sequence = 0;
}

module _ {P : Type 0} (crypto : Crypto P) where
  open crypto use {sha256, sha256_hex, hmac_sha256, dumps_sorted}

  -- 16 random bytes salt the secret, and 48 are the ciphertext.
  unfoldable pub kem_encapsulate : Bytes → Bytes → Bytes → PqcProfile → Result PqcError KemResult
  kem_encapsulate salt random peer_public_key pqc = if_stub pqc (record {
    ciphertext = random;
    shared_secret = sha256 (peer_public_key ++ salt);
    algorithm = "ML-KEM-768";
  })

  unfoldable pub kem_decapsulate : Bytes → Bytes → PqcProfile → Result PqcError Bytes
  kem_decapsulate private_key ciphertext pqc = if_stub pqc (sha256 (private_key ++ ciphertext))

  unfoldable pub sign_artifact : Bytes → Bytes → PqcProfile → Result PqcError SignatureResult
  sign_artifact private_key payload pqc = if_stub pqc (record {
    signature = hmac_sha256 private_key payload;
    algorithm = "ML-DSA-65";
    signer_id = pqc.signer_id;
  })

  unfoldable pub verify_artifact :
      Bytes → Bytes → Bytes → PqcProfile → Result PqcError VerificationResult
  verify_artifact public_key payload signature pqc =
      let verified = equal_bytes signature (hmac_sha256 public_key payload) in
      if_stub pqc (record {
        verified = verified;
        algorithm = "ML-DSA-65-stub";
        reason = if verified then "" else "signature mismatch (stub)";
      })

  -- The canonical text of a payload, as bytes.
  abbrev pub canonical : P → Bytes
  canonical payload = encode (dumps_sorted payload)

  unfoldable pub sign : String → P → Exec PqcError ArtifactSigner (SignedArtifact P)
  sign artifact_kind payload signer =
      continue (sign_artifact signer.private_key (canonical payload) signer.pqc)
        (λ sig s. (
          ok (record {
            artifact_kind = artifact_kind;
            payload_digest = sha256_hex (canonical payload);
            payload = payload;
            signature = sig.signature;
            algorithm = sig.algorithm;
            signer_id = if truthy (some sig.signer_id) then sig.signer_id else s.pqc.signer_id;
            manifest_version = 1;
            sequence = s.sequence + 1;
            kem_metadata = "ML-KEM-768";
            notes = [];
          }),
          record s { sequence = s.sequence + 1 },
        ))
        signer

  unfoldable pub verify : SignedArtifact P → ArtifactSigner → Result PqcError VerificationResult
  verify artifact signer =
      if sha256_hex (canonical artifact.payload) == artifact.payload_digest
      then verify_artifact signer.public_key (canonical artifact.payload) artifact.signature
          signer.pqc
      else ok (record {
        verified = false;
        algorithm = artifact.algorithm;
        reason = "payload digest mismatch";
      })

  unfoldable pub sign_consciousness_snapshot : P → Exec PqcError ArtifactSigner (SignedArtifact P)
  sign_consciousness_snapshot snapshot = sign "consciousness_snapshot" snapshot

  unfoldable pub sign_checkpoint : P → Exec PqcError ArtifactSigner (SignedArtifact P)
  sign_checkpoint checkpoint = sign "audit_checkpoint" checkpoint

pub record TlsProfile : Type 0 where
  pub min_protocol : String
  pub max_protocol : String
  pub group_preference : String
  pub cipher_suites : List String
  pub compliance_policy : String
  pub istio_min_version : String

unfoldable pub negotiate_tls_profile : PqcProfile → TlsProfile
negotiate_tls_profile profile = record {
  min_protocol = "TLSv1.3";
  max_protocol = "TLSv1.3";
  group_preference = "X25519MLKEM768:X25519:SecP256r1MLKEM768";
  cipher_suites = "TLS_AES_256_GCM_SHA384" ∷ "TLS_AES_128_GCM_SHA256" ∷ [];
  compliance_policy = "pqc";
  istio_min_version = "1.29.x";
}
