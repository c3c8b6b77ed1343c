-- ===== src/Security/Backends.antt =====
-- Which profiles there are, and which of them sign.
use gaia_server.Base.{
  ℕ, ◌≤◌, ◌<◌, String, Bool-cases, true, ◌≡◌, refl, sym, ok-injective, ◌⊎◌, inl, inr, Option, none,
  some, arith, ◌==◌, eq_iff, ok, err, ltb, ltb→lt,
}
use gaia_server.Base.Text.{Bytes}
use gaia_server.Security.{
  Crypto, not_implemented_error, PqcProfile, SignatureResult, VerificationResult, init,
  check_openssl35, sign_artifact, verify_artifact,
}

-- OpenSSL 3.5 or later was found.
abbrev pub IsRecent : Option (ℕ × ℕ) → Type 0
IsRecent none = ⊥
IsRecent (some (major, minor)) = (3 < major) ⊎ ((major ≡ 3) × (5 ≤ minor))

-- The stub, which signs and verifies, or a backend of a recent OpenSSL, which does neither.
abbrev pub IsBackend : {P : Type 0} → Crypto P → Option (ℕ × ℕ) → PqcProfile → Type 0
IsBackend crypto version pqc =
    ((pqc.backend ≡ "software-stub")
      × ((key payload signature : Bytes)
          → ((s : SignatureResult) × (sign_artifact crypto key payload pqc ≡ ok s))
            × ((v : VerificationResult) × (verify_artifact crypto key payload signature pqc
                  ≡ ok v))))
    ⊎ ((pqc.backend ≡ "openssl35")
        × IsRecent version
        × ((key payload signature : Bytes)
            → (sign_artifact crypto key payload pqc ≡ err not_implemented_error)
              × (verify_artifact crypto key payload signature pqc ≡ err not_implemented_error)))

check_openssl35→IsRecent :
    (version : Option (ℕ × ℕ)) → check_openssl35 version ≡ true → IsRecent version
unfolding check_openssl35
check_openssl35→IsRecent none h = cc
check_openssl35→IsRecent (some (major, minor)) h = elim (Bool-cases (ltb 3 major)) [
  | inl e ↦ inl (ltb→lt 3 major e)
  | inr e ↦ inr (ground arith, ground arith)
]

init_ok :
    (version : Option (ℕ × ℕ)) (backend signer_id : String) (pqc : PqcProfile)
    → init version backend signer_id ≡ ok pqc
    → (pqc ≡ record { backend = backend; signer_id = signer_id })
      × ((backend ≡ "software-stub") ⊎ ((backend ≡ "openssl35") × (check_openssl35 version ≡ true)))
unfolding init
init_ok version backend signer_id pqc h = elim (Bool-cases (backend == "software-stub")) [
  | inl e ↦ (sym (ok-injective (rw e at h)), inl ((eq_iff backend "software-stub").0 e))
  | inr e ↦ elim (Bool-cases (backend == "openssl35")) [
    | inr f ↦ absurd (ground arith)
    | inl f ↦ elim (Bool-cases (check_openssl35 version)) [
      | inr g ↦ absurd (ground arith)
      | inl g ↦ (sym (ok-injective (rw (e, f, g) at h)), inr ((eq_iff backend "openssl35").0 f, g))
    ]
  ]
]

made : String → String → PqcProfile
made backend signer_id = record { backend = backend; signer_id = signer_id }

stub-IsBackend :
    {P : Type 0} (crypto : Crypto P) (version : Option (ℕ × ℕ)) (signer_id : String)
    → IsBackend crypto version (made "software-stub" signer_id)
unfolding made sign_artifact verify_artifact
stub-IsBackend crypto version signer_id =
    inl (refl, λ key payload signature. ((_, refl), (_, refl)))

openssl35-IsBackend :
    {P : Type 0} (crypto : Crypto P) (version : Option (ℕ × ℕ)) (signer_id : String)
    → IsRecent version
    → IsBackend crypto version (made "openssl35" signer_id)
unfolding made sign_artifact verify_artifact
openssl35-IsBackend crypto version signer_id recent =
    inr (refl, recent, λ key payload signature. (refl, refl))

-- A profile that is made has the given signer, and is either the stub backend, under which signing
-- and verifying return, or the OpenSSL backend with OpenSSL 3.5 or later, under which both raise
-- NotImplementedError.
pub profiles_are_two :
    {P : Type 0} (crypto : Crypto P) (version : Option (ℕ × ℕ)) (backend signer_id : String)
    (pqc : PqcProfile)
    → init version backend signer_id ≡ ok pqc
    → (pqc.signer_id ≡ signer_id) × IsBackend crypto version pqc
unfolding made
profiles_are_two crypto version backend signer_id pqc h =
    let (same, which) = init_ok version backend signer_id pqc h in
    (
      rw same refl,
      rw same (elim which [
        | inl e ↦ rw e (stub-IsBackend crypto version signer_id)
        | inr k ↦
            rw (k.0)
              (openssl35-IsBackend crypto version signer_id (check_openssl35→IsRecent version k.1))
      ]),
    )
