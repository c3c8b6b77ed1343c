-- ===== src/Restore/Promotion.antt =====
-- What a promotion writes, and that one split-brain token is good for one promotion.
use gaia_server.Base.{
  ℕ, suc, ◌+◌, ◌≤◌, String, ◌≡◌, ◌≢◌, refl, sym, subst, ◌⊎◌, ◌∙◌, inl, inr, true, false, Option,
  none, some, List, [], ◌∷◌, arith, All, if◌then◌else◌, or_else, Bool-cases, Result-cases, Result,
  ok, err, ◌==◌, eq_iff,
}
use gaia_server.Base.Text.{Bytes, encode, truthy}
use gaia_server.Errors.{Exn}
use gaia_server.Core.{
  GaiaCore, RestoreManifest, TrustClass, degraded, quarantined, cross_host, k8s_stateful_restore,
  criu_migration, quarantined_foreign_host, other_path,
}
use gaia_server.Storage.Etcd
use gaia_server.Storage.Etcd.{EtcdLaws}
use gaia_server.Storage.Registry.{StorageRegistry}
use gaia_server.Restore.{trust_key, granted_class, write_trust, promote_trust}

-- The class for the manifest's path: quarantined on a quarantined host, degraded after a move to
-- another host, and the requested class otherwise.
pub record IsGrant (m : RestoreManifest) (c : TrustClass) : Type 0 where
  pub quarantined_host : m.restore_path ≡ quarantined_foreign_host → c ≡ quarantined
  pub other_host :
      (m.restore_path ≡ cross_host)
        ⊎ ((m.restore_path ≡ k8s_stateful_restore) ⊎ (m.restore_path ≡ criu_migration))
      → c ≡ degraded
  pub same_host : (name : String) → m.restore_path ≡ other_path name → c ≡ m.requested_trust_class

module _ (core : GaiaCore) {S Sub : Type 0} (registry : StorageRegistry S Sub)
    (stored : S → String → Option Bytes) (laws : EtcdLaws registry.metadata.client stored) where
  open registry use {metadata}
  open core use {trust_text}

  -- The key that a promotion of the manifest writes, and what it writes there.
  abbrev pub key_of : RestoreManifest → String
  key_of m = Etcd.full_key metadata.ns (trust_key m)

  abbrev pub promoted_value : RestoreManifest → Bytes
  promoted_value m = encode (trust_text (granted_class m m.restore_path))

  abbrev pub token_of : RestoreManifest → Bytes
  token_of m = encode (or_else "" m.split_brain_token)

  write_trust_ok :
      (m : RestoreManifest) (v : Bytes) (s : S)
      → (write_trust core registry m v s).0 ≡ ok tt
      → ((j : String)
          → stored (write_trust core registry m v s).1 j
            ≡ (if key_of m == j then some v else stored s j))
        × (truthy m.split_brain_token ≡ true → stored s (key_of m) ≡ some (token_of m))
  unfolding write_trust Etcd.compare_and_swap Etcd.put
  write_trust_ok m v s h = elim (Bool-cases (truthy m.split_brain_token)) [
    | inr no_token ↦
        let h' : (metadata.client.client_put (key_of m) v none s).0 ≡ ok tt = ground arith in
        ((λ j. rw no_token (laws.put_stores (key_of m) v none s h' j)), λ k. cc)
    | inl token ↦ elim (Result-cases (metadata.client.put_if_value (key_of m) (token_of m) v s).0) [
      | inl (true, q) ↦
          let (was, is) = laws.swap_stores (key_of m) (token_of m) v s q in
          ((λ j. ground (arith, is j)), λ _. was)
      | inl (false, q) ↦ absurd (ground arith)
      | inr (x, q) ↦ absurd (ground arith)
    ]
  ]

  promote_trust_ok :
      (m : RestoreManifest) (s : S) (c : TrustClass)
      → (promote_trust core registry m s).0 ≡ ok c
      → (c ≡ granted_class m m.restore_path)
        × ((j : String)
            → stored (promote_trust core registry m s).1 j
              ≡ (if key_of m == j then some (encode (trust_text c)) else stored s j))
        × (truthy m.split_brain_token ≡ true → stored s (key_of m) ≡ some (token_of m))
  unfolding promote_trust
  promote_trust_ok m s c h =
      elim (Result-cases (write_trust core registry m (promoted_value m) s).0) [
        | inr (x, q) ↦ absurd (ground arith)
        | inl (_, q) ↦
            let (new, old) = write_trust_ok m (promoted_value m) s q in
            let same : c ≡ granted_class m m.restore_path = ground arith in
            (same, (λ j. rw same (ground (arith, new j))), old)
      ]

  granted_class-IsGrant : (m : RestoreManifest) → IsGrant m (granted_class m m.restore_path)
  unfolding granted_class
  granted_class-IsGrant m = record {
    quarantined_host = λ h. rw h;
    other_host = λ h. elim h [ inl e ↦ rw e | inr k ↦ elim k [ inl e ↦ rw e | inr e ↦ rw e ] ];
    same_host = λ name h. rw h;
  }

  -- A promotion that returns has stored the text of the granted class under the node's trust key
  -- and no other value; it grants DEGRADED to a move to another
  -- host (a plain one, one in Kubernetes or a CRIU migration), QUARANTINED to one on a quarantined
  -- host, and what was requested to any other; and where the manifest has a
  -- split-brain token, the trust key held that token just before.
  pub promote_trust_stores :
      (m : RestoreManifest) (s : S) (c : TrustClass)
      → (promote_trust core registry m s).0 ≡ ok c
      → IsGrant m c
        × ((j : String)
            → stored (promote_trust core registry m s).1 j
              ≡ (if key_of m == j then some (encode (trust_text c)) else stored s j))
        × (truthy m.split_brain_token ≡ true → stored s (key_of m) ≡ some (token_of m))
  promote_trust_stores m s c h =
      let (e, new, old) = promote_trust_ok m s c h in
      (subst (IsGrant m) (sym e) (granted_class-IsGrant m), new, old)

  -- Where the token is no longer there, the promotion fails and the token stays away.
  abbrev pub IsTaken : String → Bytes → S → Type 0
  IsTaken key token s = stored s key ≢ some token

  -- A manifest that contends for the token of a node, and writes something else there.
  pub record Contends (key : String) (token : Bytes) (m : RestoreManifest) : Type 0 where
    pub same_key : key_of m ≡ key
    pub same_token : token_of m ≡ token
    pub has_token : truthy m.split_brain_token ≡ true
    pub other_value : promoted_value m ≢ token

  abbrev pub successes : Result Exn TrustClass → ℕ
  successes (ok c) = 1
  successes (err e) = 0

  -- Promotions one after the other, in the order in which their transactions reach etcd, with what
  -- other processes do in between; the number of those that return.
  unfoldable pub contend : (ℕ → S → S) → List RestoreManifest → S → ℕ
  contend others [] s = 0
  contend others (m ∷ ms) s =
      let (r, s') = promote_trust core registry m (others 0 s) in
      successes r + contend (λ i. others (suc i)) ms s'

  promote_trust-state :
      (m : RestoreManifest) (s : S)
      → truthy m.split_brain_token ≡ true
      → (promote_trust core registry m s).1
        ≡ (metadata.client.put_if_value (key_of m) (token_of m) (promoted_value m) s).1
  unfolding promote_trust write_trust Etcd.compare_and_swap
  promote_trust-state m s token = rw token (ground arith)

  module _ (key : String) (token : Bytes) where
    IsTaken-swap :
        (v : Bytes) (s : S)
        → IsTaken key token s
        → IsTaken key token (metadata.client.put_if_value key token v s).1
    IsTaken-swap v s taken now =
        elim (Result-cases (metadata.client.put_if_value key token v s).0) [
          | inl (true, q) ↦ taken (laws.swap_stores key token v s q).0
          | inl (false, q) ↦ taken (sym (laws.failed_swap_keeps key token v s q key) ∙ now)
          | inr (x, q) ↦ elim (laws.raised_swap key token v s x q) [
            | inl same ↦ taken (sym (same key) ∙ now)
            | inr (was, _) ↦ taken was
          ]
        ]

    IsTaken-promote :
        (m : RestoreManifest) (s : S)
        → Contends key token m
        → IsTaken key token s
        → IsTaken key token (promote_trust core registry m s).1
    IsTaken-promote m s h taken =
        rw (promote_trust-state m s h.has_token)
          (rw (h.same_key, h.same_token) (IsTaken-swap (promoted_value m) s taken))

    promote-IsTaken :
        (m : RestoreManifest) (s : S) (c : TrustClass)
        → Contends key token m
        → (promote_trust core registry m s).0 ≡ ok c
        → (stored s key ≡ some token) × IsTaken key token (promote_trust core registry m s).1
    promote-IsTaken m s c h q =
        let (granted, new, old) = promote_trust_ok m s c q in
        (
          rw (h.same_key, h.same_token) at (old h.has_token),
          λ now.
              h.other_value (ground (arith, new key, granted, h.same_key, eq_iff (key_of m) key)),
        )

    contend-taken :
        (others : ℕ → S → S) (ms : List RestoreManifest) (s : S)
        → ((i : ℕ) (t : S) → stored (others i t) key ≡ stored t key)
        → All (Contends key token) ms
        → IsTaken key token s
        → contend others ms s ≡ 0
    unfolding contend
    contend-taken others [] s quiet h taken = refl
    contend-taken others (m ∷ ms) s quiet h taken =
        let s0 = others 0 s in
        let taken0 : IsTaken key token s0 = (λ now. taken (sym (quiet 0 s) ∙ now)) in
        let rest =
          contend-taken (λ i. others (suc i)) ms (promote_trust core registry m s0).1
            (λ i. quiet (suc i)) h.1 (IsTaken-promote m s0 h.0 taken0) in
        elim (Result-cases (promote_trust core registry m s0).0) [
          | inl (c, q) ↦ absurd (taken0 (promote-IsTaken m s0 c h.0 q).0)
          | inr (x, q) ↦ rw q (omega (arith, rest))
        ]

    -- Of any number of promotions that carry the same split-brain token for the same node, and
    -- whose granted class is not written like the token, at most one returns, whatever other
    -- processes do in between, as long as they leave that trust key alone.
    pub token_is_used_once :
        (others : ℕ → S → S) (ms : List RestoreManifest) (s : S)
        → ((i : ℕ) (t : S) → stored (others i t) key ≡ stored t key)
        → All (Contends key token) ms
        → contend others ms s ≤ 1
    unfolding contend
    token_is_used_once others [] s quiet h = omega arith
    token_is_used_once others (m ∷ ms) s quiet h =
        let s0 = others 0 s in
        let s1 = (promote_trust core registry m s0).1 in
        elim (Result-cases (promote_trust core registry m s0).0) [
          | inl (c, q) ↦ rw q (
              omega (
                arith,
                contend-taken (λ i. others (suc i)) ms s1 (λ i. quiet (suc i)) h.1
                    (promote-IsTaken m s0 c h.0 q).1,
              ))
          | inr (x, q) ↦ rw q (
              omega
                (arith, token_is_used_once (λ i. others (suc i)) ms s1 (λ i. quiet (suc i)) h.1))
        ]
