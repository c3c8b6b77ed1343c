-- ===== src/Restore/Success.antt =====
-- A restore whose checks all hold returns, where the servers answer.
use Prim.Native.String.{◌++◌ as concat}
use gaia_server.Base.{
  ℕ, zero, suc, ◌<◌, String, ◌≡◌, refl, ap, ◌∙◌, Bool-cases, true, Option, some, List, length,
  or_else, if◌then◌else◌, inl, inr, Result, ok, >>=-runs, eq_refl,
}
use gaia_server.Base.Numbers.{ℤ, add_one}
use gaia_server.Base.Slices.{take}
use gaia_server.Base.Text.{Bytes, encode, ends_with, truthy}
use gaia_server.Errors.{Exn}
use gaia_server.Core.{GaiaCore, RestoreManifest, TrustClass}
use gaia_server.Dict.{Dict}
use gaia_server.Storage.Etcd
use gaia_server.Storage.Etcd.{EtcdClient, EtcdLaws, AnswersCalls, full_key}
use gaia_server.Storage.Minio
use gaia_server.Storage.Minio.{manifest_key, payload_key}
use gaia_server.Storage.Jetstream.{NatsFrame}
use gaia_server.Storage.Checkpoints.{MinioLaws}
use gaia_server.Storage.Reading.{DeliveryLaws, AnswersWaits, decode_all, read_events_lem}
use gaia_server.Storage.Registry.{StorageRegistry}
use gaia_server.Restore.{
  RestoreResult, needs_attestation, is_criu, granted_class, cursor_sequence, decode_manifest,
  manifest_digest, load_manifest, verify_hashes, verify_attestation, payload_matches, fetch_payload,
  replay_events, check_criu_invariant, promote_trust, restore,
}
use gaia_server.Restore.Promotion.{IsGrant, key_of, token_of, promote_trust_stores}
use gaia_server.Restore.Refusal.{replay_events-IsSilent}
use gaia_server.Restore.Returns.{
  load_manifest_returns, verify_hashes_returns, verify_attestation_returns, fetch_payload_returns,
  replay_events_returns, replay_events_skips, check_criu_returns, promote_trust_returns,
}

-- What the restore reads at its `i`th place, where nothing it does before writes anything.
abbrev pub seen : {S : Type 0} → (ℕ → S → S) → ℕ → S → S
seen others zero s = others 0 s
seen others (suc i) s = others (suc i) (seen others i s)

module _ (core : GaiaCore) {S Sub : Type 0} (registry : StorageRegistry S Sub)
    {stored : S → String → Option Bytes} {objects : S → String → String → Option Bytes}
    {messages : String → Option ℤ → S → List Bytes} {pending : Sub → S → List Bytes}
    (laws : EtcdLaws registry.metadata.client stored)
    (answers : AnswersCalls registry.metadata.client stored)
    (blobs : MinioLaws registry.checkpoints.client objects)
    (delivery : DeliveryLaws registry.events messages pending)
    (waits : AnswersWaits registry.events pending) (frame : NatsFrame registry.events stored) where
  open registry use {events, checkpoints, metadata}
  open core use {Json, EventEnvelope, CheckpointRef, loads, checkpoint_of_wire, trust_text}

  -- The servers hold a sound manifest, its attestation, its checkpoint, events after its cursor and
  -- its token, each when the restore reads it.
  pub record IsReady (others : ℕ → S → S) (id : String) (s : S) (m : RestoreManifest)
      (payload : Bytes) (evs : List EventEnvelope) : Type 0 where
    pub raw : Bytes
    pub manifest :
        stored (seen others 0 s) (full_key metadata.ns (concat "manifests/" id)) ≡ some raw
    pub decoded : decode_manifest core registry raw ≡ some m
    pub signed : truthy m.manifest_hash ≡ true
    pub intact : ends_with (or_else "" m.manifest_hash) (manifest_digest core registry m) ≡ true
    pub attested : needs_attestation m.restore_path ≡ true → truthy m.attestation_ref ≡ true
    pub attestation :
        truthy m.attestation_ref ≡ true
        → (a : Bytes) × (stored
              (seen others 1 s)
              (full_key metadata.ns (concat "attestations/" (or_else "" m.attestation_ref)))
            ≡ some a)
    pub blob : Bytes
    pub ref : CheckpointRef
    pub described :
        objects (seen others 2 s) checkpoints.bucket (manifest_key m.checkpoint_id) ≡ some blob
    pub wire : Dict Json
    pub loaded : loads blob ≡ some wire
    pub readable : checkpoint_of_wire wire ≡ some ref
    pub content :
        objects (seen others 2 s) checkpoints.bucket (payload_key m.checkpoint_id) ≡ some payload
    pub matching : payload_matches core registry m.payload_hash payload ≡ true
    pub replayable :
        truthy m.causal_cursor ≡ true
        → (k : ℤ) × (cursor_sequence (or_else "" m.causal_cursor) ≡ some k)
          × (decode_all core
                (take 1000 (messages "gaia-checkpoints.>" (some (add_one k)) (seen others 3 s)))
              ≡ ok evs)
          × (0 < length evs)
          × (sub : Sub) × ((events.subscribe "gaia-checkpoints.>"
                (some (add_one k))
                (seen others 3 s)).0
              ≡ ok sub)
    pub gated : is_criu m.restore_path ≡ true → truthy m.admissibility_policy_ref ≡ true
    pub token :
        truthy m.split_brain_token ≡ true
        → stored (seen others 3 s) (key_of core registry stored laws m)
          ≡ some (token_of core registry stored laws m)
    pub quiet :
        (t : S)
        → stored (others 4 t) (key_of core registry stored laws m)
          ≡ stored t (key_of core registry stored laws m)

  module _ (others : ℕ → S → S) (id : String) (s : S) (m : RestoreManifest) (payload : Bytes)
      (evs : List EventEnvelope) (h : IsReady others id s m payload evs) where
    loads_manifest : load_manifest core registry id (seen others 0 s) ≡ (ok m, seen others 0 s)
    unfolding Etcd.get
    loads_manifest =
        load_manifest_returns core registry id (seen others 0 s) h.raw m
          (answers.gets _ (seen others 0 s) ∙ ap ok h.manifest) h.decoded h.signed

    finds_attestation :
        verify_attestation core registry m (seen others 1 s) ≡ (ok tt, seen others 1 s)
    unfolding Etcd.get
    finds_attestation =
        verify_attestation_returns core registry m (seen others 1 s) h.attested λ given.
          let (a, e) = h.attestation given in (a, answers.gets _ (seen others 1 s) ∙ ap ok e)

    fetches : fetch_payload core registry m (seen others 2 s) ≡ (ok payload, seen others 2 s)
    unfolding Minio.get_checkpoint
    fetches =
        fetch_payload_returns core registry m (seen others 2 s) h.ref payload
          (rw
            (
              blobs.get_finds checkpoints.bucket _ (seen others 2 s) h.blob h.described,
              h.loaded,
              h.readable,
              blobs.get_finds checkpoints.bucket _ (seen others 2 s) payload h.content,
            )
            refl)
          h.matching

    abbrev replayed : ℕ
    replayed = if truthy m.causal_cursor then length evs else 0

    replays : (replay_events core registry m "gaia-checkpoints" (seen others 3 s)).0 ≡ ok replayed
    replays = elim (Bool-cases (truthy m.causal_cursor)) [
      | inl given ↦
          let (k, number, read, some_events, sub, made) = h.replayable given in
          rw given (
            replay_events_returns core registry m "gaia-checkpoints" (seen others 3 s) k evs number
              ((read_events_lem core events messages pending delivery "gaia-checkpoints" (some k)
                    1000 (seen others 3 s)).1
                  sub made waits
                ∙ read)
              some_events given)
      | inr no_cursor ↦
          rw no_cursor (replay_events_skips core registry m _ (seen others 3 s) no_cursor)
    ]

    abbrev replay : Result Exn ℕ × S
    replay = replay_events core registry m "gaia-checkpoints" (seen others 3 s)

    abbrev after_replay : S
    after_replay = others 4 replay.1

    token_still_there :
        truthy m.split_brain_token ≡ true
        → stored after_replay (key_of core registry stored laws m)
          ≡ some (token_of core registry stored laws m)
    token_still_there given =
        h.quiet _
        ∙ (replay_events-IsSilent core registry stored frame _ m "gaia-checkpoints").same
            (seen others 3 s)
        ∙ h.token given

    promotes : (promote_trust core registry m after_replay).0 ≡ ok (granted_class m m.restore_path)
    promotes =
        promote_trust_returns core registry stored laws answers m after_replay token_still_there

    abbrev outcome : RestoreResult
    outcome = record {
      manifest_id = id;
      node_id = m.node_id;
      restore_path = m.restore_path;
      events_replayed = replayed;
      granted_trust_class = granted_class m m.restore_path;
      payload = payload;
    }

    runs_through :
        restore core registry others id s
        ≡ (ok outcome, (promote_trust core registry m after_replay).1)
    unfolding restore
    runs_through = >>=-runs (load_manifest core registry id) _ (seen others 0 s) loads_manifest (
        >>=-runs (verify_hashes core registry m) _ (seen others 0 s)
          (verify_hashes_returns core registry m (seen others 0 s) h.intact)
          (>>=-runs (verify_attestation core registry m) _ (seen others 1 s) finds_attestation (
            >>=-runs (fetch_payload core registry m) _ (seen others 2 s) fetches (
              >>=-runs (replay_events core registry m "gaia-checkpoints") _ (seen others 3 s)
                (ap (λ r. (r, replay.1)) replays)
                (>>=-runs (check_criu_invariant core registry m) _ replay.1
                  (check_criu_returns core registry m _ h.gated)
                  (>>=-runs (promote_trust core registry m) _ after_replay
                    (ap (λ r. (r, (promote_trust core registry m after_replay).1)) promotes)
                    refl))))))

    -- With servers that answer (AnswersCalls, and AnswersWaits for the messages) and keep their laws: a
    -- restore whose manifest,
    -- attestation, checkpoint, events and token are sound and there when it reads them (IsReady)
    -- returns. Its result has the manifest's node and path and the checkpoint's payload; it
    -- counts the events that were read, or none without a cursor; it grants the class that the path
    -- asks for, and the text of that class is what the trust key then holds.
    pub restore_succeeds :
        (c : TrustClass) × IsGrant m c
        × ((restore core registry others id s).0
            ≡ ok (record {
              manifest_id = id;
              node_id = m.node_id;
              restore_path = m.restore_path;
              events_replayed = if truthy m.causal_cursor then length evs else 0;
              granted_trust_class = c;
              payload = payload;
            }))
        × (stored (restore core registry others id s).1 (key_of core registry stored laws m)
            ≡ some (encode (trust_text c)))
    restore_succeeds =
        let (granted, new, _) =
          promote_trust_stores core registry stored laws m after_replay _ promotes in
        (
          granted_class m m.restore_path,
          granted,
          ap (λ r. r.0) runs_through,
          rw runs_through (
              new (key_of core registry stored laws m)
              ∙ rw (eq_refl (key_of core registry stored laws m)) refl),
        )
