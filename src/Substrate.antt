-- ===== src/Substrate.antt =====
-- What the server takes from the substrate of the package gaia_core. `V` is the type of scores and
-- notes. An entry that the code asks for may be missing.
use gaia_server.Base.{ℕ, String, Option, none, some, Result, ok, err}
use gaia_server.Dict.{Dict}
use gaia_server.Errors.{Exn, key_error}

-- `consciousness_snapshot()`: each core's `last_summary`, the workspace's `epoch` and the scores.
pub record ConsciousnessSnapshot (V : Type 0) : Type 0 where
  pub core_states : Option (Dict (Option String))
  pub epoch : Option ℕ
  pub evidence : Option (Dict V)
  pub memory_event_count : Option ℕ

-- `d[key]` for an entry of this name, or KeyError.
abbrev pub entry : {A : Type 0} → String → Option A → Result Exn A
entry key none = err (key_error key)
entry key (some a) = ok a
