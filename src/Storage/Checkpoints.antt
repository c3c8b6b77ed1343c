-- ===== src/Storage/Checkpoints.antt =====
-- Checkpoints in object storage: what is put under an id is what is read back.
use Prim.Native.Char.{code}
use Prim.Native.String.{◌++◌ as concat}
use text.Mathlib.TextLemmas
use gaia_server.Base.{
  ℕ, String, ◌≡◌, ◌≢◌, refl, sym, ap, ◌∙◌, Bool-cases, true, false, Option, Option-cases, none,
  some, arith, ◌==◌, eq_iff, ◌&&◌, if◌then◌else◌, inl, inr, Result-cases, ok, err, ok-injective,
}
use gaia_server.Base.Text.{Bytes, encode}
use gaia_server.Errors.{s3_error}
use gaia_server.Core.{GaiaCore}
use gaia_server.Storage.Minio.{
  MinioClient, MinIoCheckpointStore, manifest_key, payload_key, put_checkpoint, get_checkpoint,
}

-- What the object server promises, of the objects that it holds, by bucket and key.
pub record MinioLaws {S : Type 0} (client : MinioClient S)
    (objects : S → String → String → Option Bytes) : Type 0 where
  -- A put that returns has stored the content, and nothing else.
  pub put_stores :
      (b k : String) (v : Bytes) (t : String) (s : S)
      → (client.put_object b k v t s).0 ≡ ok tt
      → (c j : String)
      → objects (client.put_object b k v t s).1 c j
        ≡ (if b == c && k == j then some v else objects s c j)
  -- A read finds the object, or raises NoSuchKey.
  pub get_finds :
      (b k : String) (s : S) (v : Bytes) → objects s b k ≡ some v → client.get_object b k s ≡ ok v
  pub get_misses :
      (b k : String) (s : S)
      → objects s b k ≡ none
      → client.get_object b k s ≡ err (s3_error "NoSuchKey")

-- The wire form of checkpoints can be read back.
pub record CheckpointCodec (core : GaiaCore) : Type 0 where
  pub loads-dumps :
      (ref : core.CheckpointRef)
      → core.loads (encode (core.dumps (core.checkpoint_to_wire ref)))
        ≡ some (core.checkpoint_to_wire ref)
  pub of_wire-to_wire :
      (ref : core.CheckpointRef) → core.checkpoint_of_wire (core.checkpoint_to_wire ref) ≡ some ref

-- The code point before the last one.
last_two : ℕ × ℕ → String → ℕ × ℕ
last_two p String.[] = p
last_two p (String.◌∷◌ c s) = last_two (p.1, code c) s

last_two-concat : (p : ℕ × ℕ) (s t : String) → last_two p (concat s t) ≡ last_two (last_two p s) t
unfolding last_two
last_two-concat p String.[] t = ap (last_two p) (TextLemmas.nil-append t)
last_two-concat p (String.◌∷◌ c s) t =
    ap (last_two p) (TextLemmas.cons-append c s t) ∙ last_two-concat (p.1, code c) s t

manifest-ne-payload : (i j : String) → manifest_key i ≢ payload_key j
unfolding manifest_key payload_key last_two
manifest-ne-payload i j h = absurd (
    omega (
      arith,
      ap (λ (p : ℕ × ℕ). p.0)
          (sym (last_two-concat (0, 0) i "/manifest.json")
            ∙ ap (last_two (0, 0)) (TextLemmas.append_cancel_left "checkpoints/" _ _ h)
            ∙ last_two-concat (0, 0) j "/payload.bin"),
    ))

manifest_key-injective : (i j : String) → manifest_key i ≡ manifest_key j → i ≡ j
unfolding manifest_key
manifest_key-injective i j h =
    TextLemmas.append_cancel_right i j "/manifest.json"
      (TextLemmas.append_cancel_left "checkpoints/" _ _ h)

payload_key-injective : (i j : String) → payload_key i ≡ payload_key j → i ≡ j
unfolding payload_key
payload_key-injective i j h =
    TextLemmas.append_cancel_right i j "/payload.bin"
      (TextLemmas.append_cancel_left "checkpoints/" _ _ h)

same_text : (s : String) → (s == s) ≡ true
same_text s = (eq_iff s s).1 refl

other_text : (s t : String) → s ≢ t → (s == t) ≡ false
other_text s t ne = elim (Bool-cases (s == t)) [
  | inl e ↦ absurd (ne ((eq_iff s t).0 e))
  | inr e ↦ e
]

module _ (core : GaiaCore) {S : Type 0} (store : MinIoCheckpointStore S)
    {objects : S → String → String → Option Bytes} (laws : MinioLaws store.client objects) where
  open core use {CheckpointRef, checkpoint_id, loads, dumps, checkpoint_of_wire, checkpoint_to_wire}
  open store use {client, bucket}

  -- What the bucket holds after a put that returned.
  bucket_after :
      (k : String) (v : Bytes) (t : String) (s : S)
      → (client.put_object bucket k v t s).0 ≡ ok tt
      → (j : String)
      → objects (client.put_object bucket k v t s).1 bucket j
        ≡ (if k == j then some v else objects s bucket j)
  bucket_after k v t s h j =
      let e = laws.put_stores bucket k v t s h bucket j in rw (same_text bucket) at e

  put_checkpoint_ok :
      (ref ref' : CheckpointRef) (payload : Bytes) (s : S)
      → (put_checkpoint core store ref payload s).0 ≡ ok ref'
      → (ref' ≡ ref)
        × ((j : String)
            → objects (put_checkpoint core store ref payload s).1 bucket j ≡ (
                if payload_key (checkpoint_id ref) == j
                then some payload
                else if manifest_key (checkpoint_id ref) == j
                then some (encode (dumps (checkpoint_to_wire ref)))
                else objects s bucket j))
  unfolding put_checkpoint
  put_checkpoint_ok ref ref' payload s h =
      let wire = encode (dumps (checkpoint_to_wire ref)) in
      let first =
        client.put_object bucket (manifest_key (checkpoint_id ref)) wire "application/json" s in
      let second =
        client.put_object bucket (payload_key (checkpoint_id ref)) payload
          "application/octet-stream" first.1 in
      elim (Result-cases first.0) [
        | inr (x, e) ↦ absurd (ground arith)
        | inl (_, e) ↦ elim (Result-cases second.0) [
          | inr (x, f) ↦ absurd (ground arith)
          | inl (_, f) ↦ (
            sym (ok-injective (rw (e, f) at h)),
            λ j.
                rw (e, f)
                  (bucket_after (payload_key (checkpoint_id ref)) payload "application/octet-stream"
                      first.1 f j
                    ∙ ap (λ o. if payload_key (checkpoint_id ref) == j then some payload else o)
                        (bucket_after (manifest_key (checkpoint_id ref)) wire "application/json" s e
                          j)),
          )
        ]
      ]

  get_found :
      (codec : CheckpointCodec core) (ref : CheckpointRef) (id : String) (payload : Bytes) (s : S)
      → objects s bucket (manifest_key id) ≡ some (encode (dumps (checkpoint_to_wire ref)))
      → objects s bucket (payload_key id) ≡ some payload
      → get_checkpoint core store id s ≡ (ok (ref, payload), s)
  unfolding get_checkpoint
  get_found codec ref id payload s h k = rw (
    laws.get_finds bucket (manifest_key id) s (encode (dumps (checkpoint_to_wire ref))) h,
    codec.loads-dumps ref,
    codec.of_wire-to_wire ref,
    laws.get_finds bucket (payload_key id) s payload k,
  )

  same_reads :
      (k : String) (s t : S)
      → objects t bucket k ≡ objects s bucket k
      → client.get_object bucket k t ≡ client.get_object bucket k s
  same_reads k s t e = elim (Option-cases (objects s bucket k)) [
    | inl h ↦ laws.get_misses bucket k t (e ∙ h) ∙ sym (laws.get_misses bucket k s h)
    | inr (v, h) ↦ laws.get_finds bucket k t v (e ∙ h) ∙ sym (laws.get_finds bucket k s v h)
  ]

  get_same :
      (id : String) (s t : S)
      → client.get_object bucket (manifest_key id) t ≡ client.get_object bucket (manifest_key id) s
      → client.get_object bucket (payload_key id) t ≡ client.get_object bucket (payload_key id) s
      → (get_checkpoint core store id t).0 ≡ (get_checkpoint core store id s).0
  unfolding get_checkpoint
  get_same id s t h k = elim (Result-cases (client.get_object bucket (manifest_key id) s)) [
    | inr (x, e) ↦ rw (h, e) refl
    | inl (raw, e) ↦ elim (Option-cases (loads raw)) [
      | inl n ↦ rw (h, e, n) refl
      | inr (wire, f) ↦ elim (Option-cases (checkpoint_of_wire wire)) [
        | inl n ↦ rw (h, e, f, n) refl
        | inr (ref, g) ↦ elim (Result-cases (client.get_object bucket (payload_key id) s)) [
          | inr (x, q) ↦ rw (h, e, f, g, k, q) refl
          | inl (payload, q) ↦ rw (h, e, f, g, k, q) refl
        ]
      ]
    ]
  ]

  -- With an object server that keeps MinioLaws, and a wire form that can be read back: a checkpoint
  -- whose put returned is read back, with its reference and its payload; a checkpoint under another
  -- id reads as before the put.
  pub put_then_get :
      (codec : CheckpointCodec core) (ref ref' : CheckpointRef) (payload : Bytes) (s : S)
      (id : String)
      → (put_checkpoint core store ref payload s).0 ≡ ok ref'
      → id ≢ checkpoint_id ref
      → let t = (put_checkpoint core store ref payload s).1 in
        (ref' ≡ ref)
        × (get_checkpoint core store (checkpoint_id ref) t ≡ (ok (ref, payload), t))
        × ((get_checkpoint core store id t).0 ≡ (get_checkpoint core store id s).0)
  put_then_get codec ref ref' payload s id h ne =
      let t = (put_checkpoint core store ref payload s).1 in
      let own = checkpoint_id ref in
      let (same, after) = put_checkpoint_ok ref ref' payload s h in
      let wire = encode (dumps (checkpoint_to_wire ref)) in
      let apart : (j k : String) → (payload_key j == manifest_key k) ≡ false =
        λ j k. other_text (payload_key j) (manifest_key k) (λ e. manifest-ne-payload k j (sym e)) in
      (
        same,
        get_found codec ref own payload t
            (after (manifest_key own) ∙ rw (apart own own, same_text (manifest_key own)) refl)
            (after (payload_key own) ∙ rw (same_text (payload_key own)) refl),
        get_same id s t
            (same_reads (manifest_key id) s t (
              after (manifest_key id)
              ∙ rw
                  (
                    apart own id,
                    other_text (manifest_key own) (manifest_key id)
                        (λ e. ne (sym (manifest_key-injective own id e))),
                  )
                  refl))
            (same_reads (payload_key id) s t (
              after (payload_key id)
              ∙ rw
                  (
                    other_text (payload_key own) (payload_key id)
                        (λ e. ne (sym (payload_key-injective own id e))),
                    other_text (manifest_key own) (payload_key id) (manifest-ne-payload own id),
                  )
                  refl)),
      )
