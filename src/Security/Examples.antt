-- ===== src/Security/Examples.antt =====
-- The theorems on profiles and signers at concrete keys.
use gaia_server.Base.{◌+◌, String, true, ◌≡◌, refl, ◌↔◌, none, [], ◌∷◌, ◌++◌, map, ok}
use gaia_server.Base.Text.{Bytes}
use gaia_server.Security.{
  Crypto, PqcProfile, SignedArtifact, ArtifactSigner, VerificationResult, init, canonical, sign,
  verify,
}
use gaia_server.Security.Signing.{
  Consecutive, sign_all, verify_accepts, sign_then_verify, artifacts_are_numbered,
}
use gaia_server.Security.Backends.{IsBackend, profiles_are_two}

-- Texts as payloads, the bytes as their own hash, and the key before the text as the keyed hash.
abbrev crypto : Crypto String
crypto = record {
  sha256 = λ b. b;
  sha256_hex = λ b. "0a";
  hmac_sha256 = λ key b. key ++ b;
  dumps_sorted = λ p. p;
}

abbrev stub : PqcProfile
stub = record { backend = "software-stub"; signer_id = "node-alpha" }

abbrev signer : ArtifactSigner
signer = record { pqc = stub; private_key = 7 ∷ []; public_key = 8 ∷ []; sequence = 4 }

-- An artifact of another signer.
abbrev foreign : SignedArtifact String
foreign = record {
  artifact_kind = "audit_checkpoint";
  payload_digest = "0a";
  payload = "{}";
  signature = 9 ∷ [];
  algorithm = "ML-DSA-65";
  signer_id = "node-beta";
  manifest_version = 1;
  sequence = 1;
  kem_metadata = "ML-KEM-768";
  notes = [];
}

verify_accepts_example :
    ((r : VerificationResult) × (verify crypto foreign signer ≡ ok r) × (r.verified ≡ true)) ↔ (
      (crypto.sha256_hex (canonical crypto "{}") ≡ "0a")
      × (◌≡◌ {A = Bytes} (9 ∷ []) (crypto.hmac_sha256 (8 ∷ []) (canonical crypto "{}"))))
verify_accepts_example = verify_accepts crypto signer foreign refl

sign_then_verify_example :
    (a : SignedArtifact String) × (sign crypto "audit_checkpoint" "{}" signer
      ≡ (ok a, record signer { sequence = signer.sequence + 1 }))
    × (a.payload ≡ "{}")
    × (r : VerificationResult) × (verify crypto a (record signer { sequence = signer.sequence + 1 })
        ≡ ok r)
    × ((r.verified ≡ true) ↔ (
        crypto.hmac_sha256 (7 ∷ []) (canonical crypto "{}")
        ≡ crypto.hmac_sha256 (8 ∷ []) (canonical crypto "{}")))
sign_then_verify_example = sign_then_verify crypto signer "audit_checkpoint" "{}" refl

artifacts_are_numbered_example : Consecutive 4 (
    map SignedArtifact.sequence
      (sign_all crypto (("policy_update", "{}") ∷ ("backup_manifest", "[]") ∷ []) signer))
artifacts_are_numbered_example =
    artifacts_are_numbered crypto (("policy_update", "{}") ∷ ("backup_manifest", "[]") ∷ []) signer

profiles_are_two_example : (stub.signer_id ≡ "node-alpha") × IsBackend crypto none stub
unfolding init
profiles_are_two_example = profiles_are_two crypto none "software-stub" "node-alpha" stub refl
