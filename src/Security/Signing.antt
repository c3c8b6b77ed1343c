-- ===== src/Security/Signing.antt =====
-- When a signature is accepted, and how the artifacts of a signer are numbered.
use gaia_server.Base.{
  ℕ, ◌+◌, String, Bool-cases, true, false, ◌≡◌, refl, sym, ◌∙◌, ok-injective, ap, subst, ◌↔◌, inl,
  inr, some, List, [], ◌∷◌, map, ◌==◌, eq_iff, Result, ok, err, if◌then◌else◌, false≢true,
}
use gaia_server.Base.Text.{truthy, equal_bytes, equal_bytes→eq, equal_bytes_refl}
use gaia_server.Security.{
  Crypto, PqcError, not_implemented_error, VerificationResult, SignedArtifact, ArtifactSigner,
  sign_artifact, verify_artifact, canonical, sign, verify,
}

-- Each number is the one after the number before it.
abbrev pub Consecutive : ℕ → List ℕ → Type 0
Consecutive n [] = Unit
Consecutive n (x ∷ xs) = (x ≡ n + 1) × Consecutive x xs

module _ {P : Type 0} (crypto : Crypto P) where
  open crypto use {sha256_hex, hmac_sha256}

  -- The artifacts that a signer makes of these kinds and payloads, in this order.
  abbrev pub keep :
      Result PqcError (SignedArtifact P) → List (SignedArtifact P) → List (SignedArtifact P)
  keep (ok a) artifacts = a ∷ artifacts
  keep (err e) artifacts = artifacts

  unfoldable pub sign_all : List (String × P) → ArtifactSigner → List (SignedArtifact P)
  sign_all [] signer = []
  sign_all ((kind, payload) ∷ rest) signer =
      keep (sign crypto kind payload signer).0 (sign_all rest (sign crypto kind payload signer).1)

  verify_stub :
      (signer : ArtifactSigner) (a : SignedArtifact P)
      → signer.pqc.backend ≡ "software-stub"
      → (r : VerificationResult) × (verify crypto a signer ≡ ok r)
        × ((r.verified ≡ true) ↔ (
            (sha256_hex (canonical crypto a.payload) ≡ a.payload_digest)
            × (a.signature ≡ hmac_sha256 signer.public_key (canonical crypto a.payload))))
  unfolding verify verify_artifact
  verify_stub signer a h =
      let text = canonical crypto a.payload in
      let expected = hmac_sha256 signer.public_key text in
      elim (Bool-cases (sha256_hex text == a.payload_digest)) [
        | inr e ↦ (
          record { verified = false; algorithm = a.algorithm; reason = "payload digest mismatch" },
          rw e,
          (
            (λ k. absurd (false≢true k)),
            λ k. absurd (false≢true (sym e ∙ (eq_iff (sha256_hex text) a.payload_digest).1 k.0)),
          ),
        )
        | inl e ↦ (
          record {
            verified = equal_bytes a.signature expected;
            algorithm = "ML-DSA-65-stub";
            reason = if equal_bytes a.signature expected then "" else "signature mismatch (stub)";
          },
          rw (e, h),
          (
            (λ k. (
              (eq_iff (sha256_hex text) a.payload_digest).0 e,
              equal_bytes→eq a.signature expected k,
            )),
            λ k. ap (λ b. equal_bytes b expected) k.1 ∙ equal_bytes_refl expected,
          ),
        )
      ]

  -- With the stub backend, an artifact is accepted exactly when the digest of its payload is the one
  -- that it carries and its signature is the keyed hash of its payload under the public key.
  pub verify_accepts :
      (signer : ArtifactSigner) (a : SignedArtifact P)
      → signer.pqc.backend ≡ "software-stub"
      → ((r : VerificationResult) × (verify crypto a signer ≡ ok r) × (r.verified ≡ true)) ↔ (
          (sha256_hex (canonical crypto a.payload) ≡ a.payload_digest)
          × (a.signature ≡ hmac_sha256 signer.public_key (canonical crypto a.payload)))
  verify_accepts signer a h =
      let (r, e, iff) = verify_stub signer a h in
      (
        (λ k.
            let (q, f, g) = k in
            iff.0 (subst (λ x. x.verified ≡ true) (ok-injective (sym f ∙ e)) g)),
        λ k. (r, e, iff.1 k),
      )

  artifact_of : ArtifactSigner → String → P → SignedArtifact P
  artifact_of signer kind payload = record {
    artifact_kind = kind;
    payload_digest = sha256_hex (canonical crypto payload);
    payload = payload;
    signature = hmac_sha256 signer.private_key (canonical crypto payload);
    algorithm = "ML-DSA-65";
    signer_id =
        if truthy (some signer.pqc.signer_id) then signer.pqc.signer_id else signer.pqc.signer_id;
    manifest_version = 1;
    sequence = signer.sequence + 1;
    kem_metadata = "ML-KEM-768";
    notes = [];
  }

  sign_lem :
      (kind : String) (payload : P) (signer : ArtifactSigner)
      → (signer.pqc.backend == "software-stub") ≡ true
      → sign crypto kind payload signer
        ≡ (ok (artifact_of signer kind payload), record signer { sequence = signer.sequence + 1 })
  unfolding sign sign_artifact artifact_of
  sign_lem kind payload signer e = rw e

  sign_refused :
      (kind : String) (payload : P) (signer : ArtifactSigner)
      → (signer.pqc.backend == "software-stub") ≡ false
      → sign crypto kind payload signer ≡ (err not_implemented_error, signer)
  unfolding sign sign_artifact
  sign_refused kind payload signer e = rw e

  -- With the stub backend, signing gives an artifact of the payload and counts on by one, and
  -- the same signer accepts the artifact exactly when the keyed hashes of the payload under the
  -- private and the public key are the same.
  pub sign_then_verify :
      (signer : ArtifactSigner) (kind : String) (payload : P)
      → signer.pqc.backend ≡ "software-stub"
      → (a : SignedArtifact P) × (sign crypto kind payload signer
          ≡ (ok a, record signer { sequence = signer.sequence + 1 }))
        × (a.payload ≡ payload)
        × (r : VerificationResult) × (verify crypto a
              (record signer { sequence = signer.sequence + 1 })
            ≡ ok r)
        × ((r.verified ≡ true) ↔ (
            hmac_sha256 signer.private_key (canonical crypto payload)
            ≡ hmac_sha256 signer.public_key (canonical crypto payload)))
  unfolding artifact_of
  sign_then_verify signer kind payload h =
      let next : ArtifactSigner = record signer { sequence = signer.sequence + 1 } in
      let (r, e, iff) = verify_stub next (artifact_of signer kind payload) h in
      (
        artifact_of signer kind payload,
        sign_lem kind payload signer ((eq_iff signer.pqc.backend "software-stub").1 h),
        refl,
        r,
        e,
        ((λ k. (iff.0 k).1), λ k. iff.1 (refl, k)),
      )

  -- The artifacts that a signer makes, in any number of calls and with any backend, carry the
  -- numbers that follow the signer's, one after the other.
  pub artifacts_are_numbered :
      (jobs : List (String × P)) (signer : ArtifactSigner)
      → Consecutive signer.sequence (map SignedArtifact.sequence (sign_all jobs signer))
  unfolding sign_all artifact_of
  artifacts_are_numbered [] signer = tt
  artifacts_are_numbered ((kind, payload) ∷ jobs) signer =
      elim (Bool-cases (signer.pqc.backend == "software-stub")) [
        | inl e ↦
            rw (sign_lem kind payload signer e)
              (refl, artifacts_are_numbered jobs (record signer { sequence = signer.sequence + 1 }))
        | inr e ↦ rw (sign_refused kind payload signer e) (artifacts_are_numbered jobs signer)
      ]
