-- ===== src/Storage/Examples.antt =====
-- The theorems on the adapters at concrete servers.
use gaia_server.Base.{ok, String, ◌≡◌, ◌≢◌, refl, none, List, [], ◌∷◌, arith, eq_iff, ok}
use gaia_server.Base.Text.{Bytes}
use gaia_server.Core.{GaiaCore}
use gaia_server.Storage.Minio.{put_checkpoint, get_checkpoint}
use gaia_server.Storage.InMemory.{Servers, core_with, moved, registry, minio-MinioLaws}
use gaia_server.Storage.Checkpoints.{CheckpointCodec, put_then_get}

abbrev core : GaiaCore
core = core_with moved

core-CheckpointCodec : CheckpointCodec core
core-CheckpointCodec = record { loads-dumps = λ ref. refl; of_wire-to_wire = λ ref. refl }

-- The servers with nothing in them but these messages.
abbrev empty : List Bytes → Servers
empty ms = record { kv = []; blobs = λ b k. none; to_come = ms }

another_id : ◌≢◌ {A = String} "ckpt-002" "ckpt-001"
another_id = ground (arith, eq_iff "ckpt-002" "ckpt-001")

put_then_get_example :
    let t = (put_checkpoint core registry.checkpoints tt (1 ∷ 2 ∷ []) (empty [])).1 in
    (◌≡◌ {A = Unit {0}} tt tt)
    × (get_checkpoint core registry.checkpoints "ckpt-001" t ≡ (ok (tt, 1 ∷ 2 ∷ []), t))
    × ((get_checkpoint core registry.checkpoints "ckpt-002" t).0
        ≡ (get_checkpoint core registry.checkpoints "ckpt-002" (empty [])).0)
unfolding put_checkpoint
put_then_get_example =
    put_then_get core registry.checkpoints minio-MinioLaws core-CheckpointCodec tt tt (1 ∷ 2 ∷ [])
      (empty []) "ckpt-002" refl another_id

abbrev three : Servers
three = empty ((1 ∷ []) ∷ (2 ∷ []) ∷ (3 ∷ []) ∷ [])
