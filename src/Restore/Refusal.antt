-- ===== src/Restore/Refusal.antt =====
-- A restore that is refused has written nothing.
use gaia_server.Base.{
  ℕ, zero, suc, String, ◌≡◌, refl, ◌∙◌, inl, inr, ap, true, false, Option, none, some, List, [],
  ◌∷◌, ◌++◌, modify, arith, or_else, Bool-cases, Result-cases, Result, ok, err, Exec, pure, ◌>>=◌,
}
use gaia_server.Base.Numbers.{ℤ}
use gaia_server.Base.Text.{Bytes, encode, truthy}
use gaia_server.Errors.{Exn, RestoreError, restore_error}
use gaia_server.Core.{GaiaCore, RestoreManifest}
use gaia_server.Storage.Etcd
use gaia_server.Storage.Etcd.{EtcdLaws}
use gaia_server.Storage.Jetstream
use gaia_server.Storage.Jetstream.{NatsFrame, decode_event}
use gaia_server.Storage.Registry.{StorageRegistry}
use gaia_server.Restore.{
  trust_key, load_manifest, verify_hashes, verify_attestation, fetch_payload, replay_after,
  replay_events, check_criu_invariant, write_trust, promote_trust, restore,
}
use gaia_server.Restore.Steps.{
  load_manifest-keeps, verify_hashes-keeps, verify_attestation-keeps, fetch_payload-keeps,
  check_criu-keeps,
}

module _ {S : Type 0} (stored : S → String → Option Bytes) (k : String) where
  -- The action leaves the value of the key `k` as it is.
  pub record IsSilent {A : Type 0} (act : Exec Exn S A) : Type 0 where
    pub same : (s : S) → stored (act s).1 k ≡ stored s k

  -- It does so when it ends in a RestoreError.
  pub record IsSafe {A : Type 0} (act : Exec Exn S A) : Type 0 where
    pub same :
        (s : S) (e : RestoreError)
        → (act s).0 ≡ err (restore_error e)
        → stored (act s).1 k ≡ stored s k

  IsSilent-keeps : {A : Type 0} (act : Exec Exn S A) → ((s : S) → (act s).1 ≡ s) → IsSilent act
  IsSilent-keeps act h = record { same = λ s. ap (λ t. stored t k) (h s) }

  module _ {A B : Type 0} where
    IsSilent-bind :
        (act : Exec Exn S A) (f : A → Exec Exn S B)
        → IsSilent act
        → ((a : A) → IsSilent (f a))
        → IsSilent (act >>= f)
    IsSilent-bind act f h g = record {
      same = λ s. elim (Result-cases (act s).0) [
        | inl (a, e) ↦ rw e ((g a).same (act s).1 ∙ h.same s)
        | inr (x, e) ↦ rw e (h.same s)
      ];
    }

    IsSafe-bind :
        (act : Exec Exn S A) (f : A → Exec Exn S B)
        → IsSilent act
        → ((a : A) → IsSafe (f a))
        → IsSafe (act >>= f)
    IsSafe-bind act f h g = record {
      same = λ s x refused. elim (Result-cases (act s).0) [
        | inl (a, e) ↦ rw e ((g a).same (act s).1 x (rw e at refused) ∙ h.same s)
        | inr (y, e) ↦ rw e (h.same s)
      ];
    }

    IsSafe-last : (act : Exec Exn S A) (f : A → B) → IsSafe act → IsSafe (act >>= λ a. pure (f a))
    IsSafe-last act f h = record {
      same = λ s x refused. elim (Result-cases (act s).0) [
        | inl (a, e) ↦
            let clash : ◌≡◌ {A = Result Exn B} (ok (f a)) (err (restore_error x)) =
              rw e at refused in
            cc clash
        | inr (y, e) ↦
            let refused' : ◌≡◌ {A = Result Exn B} (err y) (err (restore_error x)) =
              rw e at refused in
            rw e (h.same s x (e ∙ err-cast y x refused'))
      ];
    }
      where
        err-cast :
            (y : Exn) (x : RestoreError)
            → ◌≡◌ {A = Result Exn B} (err y) (err (restore_error x))
            → ◌≡◌ {A = Result Exn A} (err y) (err (restore_error x))
        err-cast y x h = cc

module _ (core : GaiaCore) {S Sub : Type 0} (registry : StorageRegistry S Sub)
    (stored : S → String → Option Bytes) (frame : NatsFrame registry.events stored)
    (k : String) where
  open registry use {events, checkpoints, metadata}
  open core use {EventEnvelope, loads, event_of_wire}

  fetch-IsSilent :
      (limit : ℕ) (sub : Sub) (results : List EventEnvelope)
      → IsSilent stored k (Jetstream.fetch core events limit sub results)
  unfolding Jetstream.fetch
  fetch-IsSilent zero sub results = record { same = λ s. refl }
  fetch-IsSilent (suc limit) sub results = record {
    same = λ s. elim (Result-cases (events.next_msg sub s).0) [
      | inr (x, e) ↦ ground (arith, frame.next_frame sub s k)
      | inl (raw, e) ↦ elim (Result-cases (decode_event core raw)) [
        | inr (x, q) ↦ ground (arith, frame.next_frame sub s k)
        | inl (event, q) ↦ ground (
          arith,
          (fetch-IsSilent limit sub (results ++ event ∷ [])).same (events.next_msg sub s).1,
          frame.next_frame sub s k,
        )
      ]
    ];
  }

  fetch_and_close-IsSilent :
      (limit : ℕ) (sub : Sub) → IsSilent stored k (Jetstream.fetch_and_close core events limit sub)
  unfolding Jetstream.fetch_and_close
  fetch_and_close-IsSilent limit sub = record {
    same = λ s.
        frame.unsubscribe_frame sub (Jetstream.fetch core events limit sub [] s).1 k
        ∙ (fetch-IsSilent limit sub []).same s;
  }

  read_events-IsSilent :
      (stream : String) (start : Option ℤ) (limit : ℕ)
      → IsSilent stored k (Jetstream.read_events core events stream start limit)
  unfolding Jetstream.read_events
  read_events-IsSilent stream start limit =
      IsSilent-bind stored k _ _ (record { same = λ s. frame.subscribe_frame _ _ s k })
        (fetch_and_close-IsSilent limit)

  replay_after-IsSilent :
      (cursor stream : String) → IsSilent stored k (replay_after core registry cursor stream)
  unfolding replay_after
  replay_after-IsSilent cursor stream =
      IsSilent-bind stored k _ _ (record { same = λ s. refl })
        λ start.
          IsSilent-bind stored k _ _ (read_events-IsSilent stream (some start) 1000)
            λ found. record { same = λ s. ground arith }

  pub replay_events-IsSilent :
      (m : RestoreManifest) (stream : String)
      → IsSilent stored k (replay_events core registry m stream)
  unfolding replay_events
  replay_events-IsSilent m stream = elim (Bool-cases (truthy m.causal_cursor)) [
    | inl given ↦ rw given (replay_after-IsSilent (or_else "" m.causal_cursor) stream)
    | inr not_given ↦ rw not_given (record { same = λ s. refl })
  ]

  module _ (laws : EtcdLaws metadata.client stored) where
    write_trust-IsSafe :
        (m : RestoreManifest) (v : Bytes) → IsSafe stored k (write_trust core registry m v)
    unfolding write_trust Etcd.compare_and_swap Etcd.put
    write_trust-IsSafe m v = elim (Bool-cases (truthy m.split_brain_token)) [
      | inr no_token ↦
          rw no_token (record { same = λ s e h. absurd (laws.put_raises _ v none s e h) })
      | inl token ↦ rw token (record {
        same = λ s e h.
            let key = Etcd.full_key metadata.ns (trust_key m) in
            let expected = encode (or_else "" m.split_brain_token) in
            elim (Result-cases (metadata.client.put_if_value key expected v s).0) [
              | inl (true, q) ↦ absurd (ground arith)
              | inl (false, q) ↦ ground (arith, laws.failed_swap_keeps key expected v s q k)
              | inr (x, q) ↦ absurd (ground (arith, laws.swap_raises key expected v s e))
            ];
      })
    ]

    promote_trust-IsSafe : (m : RestoreManifest) → IsSafe stored k (promote_trust core registry m)
    unfolding promote_trust
    promote_trust-IsSafe m = IsSafe-last stored k _ _ (write_trust-IsSafe m _)

    -- A restore that ends in a RestoreError leaves every key of the metadata store as it is, if
    -- the other processes do not write that key between its steps.
    pub refused_restore_writes_nothing :
        (others : ℕ → S → S)
        → ((i : ℕ) (s : S) → stored (others i s) k ≡ stored s k)
        → (id : String) (s : S) (e : RestoreError)
        → (restore core registry others id s).0 ≡ err (restore_error e)
        → stored (restore core registry others id s).1 k ≡ stored s k
    unfolding restore
    refused_restore_writes_nothing others quiet id s e h = safe.same s e h
      where
        silent : (i : ℕ) → IsSilent stored k (modify {E = Exn} (others i))
        silent i = record { same = quiet i }

        safe : IsSafe stored k (restore core registry others id)
        safe = IsSafe-bind stored k _ _ (silent 0) λ _.
            IsSafe-bind stored k _ _
              (IsSilent-keeps stored k (load_manifest core registry id)
                (load_manifest-keeps core registry id))
              λ m.
                IsSafe-bind stored k _ _
                  (IsSilent-keeps stored k (verify_hashes core registry m)
                    (verify_hashes-keeps core registry m))
                  λ _. IsSafe-bind stored k _ _ (silent 1) λ _.
                    IsSafe-bind stored k _ _
                      (IsSilent-keeps stored k (verify_attestation core registry m)
                        (verify_attestation-keeps core registry m))
                      λ _. IsSafe-bind stored k _ _ (silent 2) λ _.
                        IsSafe-bind stored k _ _
                          (IsSilent-keeps stored k (fetch_payload core registry m)
                            (fetch_payload-keeps core registry m))
                          λ payload. IsSafe-bind stored k _ _ (silent 3) λ _.
                            IsSafe-bind stored k _ _ (replay_events-IsSilent m "gaia-checkpoints")
                              λ n.
                                IsSafe-bind stored k _ _
                                  (IsSilent-keeps stored k (check_criu_invariant core registry m)
                                    (check_criu-keeps core registry m))
                                  λ _. IsSafe-bind stored k _ _ (silent 4) λ _.
                                    IsSafe-last stored k (promote_trust core registry m)
                                      (λ granted. record {
                                        manifest_id = id;
                                        node_id = m.node_id;
                                        restore_path = m.restore_path;
                                        events_replayed = n;
                                        granted_trust_class = granted;
                                        payload = payload;
                                      })
                                      (promote_trust-IsSafe m)
