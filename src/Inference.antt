-- ===== src/Inference.antt =====
-- gaia_server/inference: the router (router.py), its factory (factory.py) and the mock backend
-- (backends/mock.py). `W` is the state of the world that the backends look at.
pub mod Answers
mod Examples
pub mod LlamaCpp
pub mod Routing
pub mod Settings
use Prim.Native.String.{◌++◌ as concat}
use gaia_server.Base.{
  ℕ, String, Bool, true, false, Option, none, some, List, [], ◌∷◌, ◌==◌, ◌&&◌, if◌then◌else◌,
  or_else, Result, ok, err, is_some,
}
use gaia_server.Base.Numbers.{ℤ, is_positive}
use gaia_server.Base.Text.{truthy, take_chars, word_count}
use gaia_server.Errors.{Exn}
use gaia_server.Dict
use gaia_server.Dict.{Dict}
use gaia_server.Health.{HealthInfo, status_of}

-- gaia_core.inference.contracts.RuntimeBackend: the members that the code names, and any other.
pub data RuntimeBackend : Type 0 where
  mock llama_cpp : RuntimeBackend
  other_backend : String → RuntimeBackend

-- gaia_core.inference.contracts.TaskType, of which the code tells one member from the others.
pub data TaskType : Type 0 where
  embed_task generate_task : TaskType
  other_task : String → TaskType

-- gaia_core.inference.contracts.InferRequest: the fields that the code reads.
pub record InferRequest : Type 0 where
  pub request_id : String
  pub core_id : String
  pub task_type : TaskType
  pub backend : Option RuntimeBackend
  pub model_id : Option String
  pub prompt : Option String
  pub text : Option String
  pub stop : Option (List String)
  pub max_tokens : Option ℤ
  pub temperature : Option String

-- The `result` of a response: none, a text, a text with its finish reason, or an embedding with its
-- number of dimensions. Floats are kept as they are printed.
pub data InferResult : Type 0 where
  no_result : InferResult
  generated : String → InferResult
  completed : String → Option String → InferResult
  embedded : List String → ℕ → InferResult

-- gaia_core.inference.contracts.InferResponse. `usage` is by name.
pub record InferResponse : Type 0 where
  pub request_id : String
  pub accepted : Bool
  pub core_id : String
  pub task_type : TaskType
  pub backend : RuntimeBackend
  pub model_id : Option String
  pub result : InferResult
  pub usage : Dict ℕ
  pub latency_ms : ℕ
  pub error_code : Option String
  pub error_message : Option String

-- How a wait of positive length for a backend ends: with a response, by the timeout, or with an
-- exception of this text.
pub data Outcome : Type 0 where
  responded : InferResponse → Outcome
  timed_out : Outcome
  failed : String → Outcome

pub record Backend (W : Type 0) : Type 0 where
  pub generate : InferRequest → W → Outcome
  pub embed : InferRequest → W → Outcome
  pub health : W → Result Exn HealthInfo

-- What the enum class of RuntimeBackend does, `str(b)` and the text that `b` equals as a key; and
-- how `ms / 1000.0` is printed.
pub record Texts : Type 0 where
  pub str_of : RuntimeBackend → String
  pub key_of : RuntimeBackend → String
  pub seconds_text : ℤ → String

unfoldable pub mock_generate : InferRequest → InferResponse
mock_generate r = record {
  request_id = r.request_id;
  accepted = true;
  core_id = r.core_id;
  task_type = generate_task;
  backend = mock;
  model_id = if truthy r.model_id then r.model_id else some "mock";
  result = generated (concat "[mock] echo: " (take_chars 120 (or_else "" r.prompt)));
  usage = ("prompt_tokens", word_count (or_else "" r.prompt)) ∷ ("completion_tokens", 8) ∷ [];
  latency_ms = 1;
  error_code = none;
  error_message = none;
}

unfoldable pub mock_embed : InferRequest → InferResponse
mock_embed r = record {
  request_id = r.request_id;
  accepted = true;
  core_id = r.core_id;
  task_type = embed_task;
  backend = mock;
  model_id = if truthy r.model_id then r.model_id else some "mock";
  result = embedded ("0.25" ∷ "0.25" ∷ "0.25" ∷ "0.25" ∷ []) 4;
  usage = ("tokens", word_count (or_else "" r.text)) ∷ [];
  latency_ms = 1;
  error_code = none;
  error_message = none;
}

unfoldable pub mock_backend : {W : Type 0} → Backend W
mock_backend = record {
  generate = λ r w. responded (mock_generate r);
  embed = λ r w. responded (mock_embed r);
  health = λ w. ok (record { status = some "ok"; detail = none });
}

-- `_error_response`
unfoldable pub error_response : InferRequest → String → String → InferResponse
error_response r code message = record {
  request_id = r.request_id;
  accepted = false;
  core_id = r.core_id;
  task_type = r.task_type;
  backend = or_else mock r.backend;
  model_id = r.model_id;
  result = no_result;
  usage = [];
  latency_ms = 0;
  error_code = some code;
  error_message = some message;
}

-- `_dispatch`
unfoldable pub dispatch : {W : Type 0} → Backend W → InferRequest → W → Outcome
dispatch b r w = elim r.task_type [ embed_task ↦ b.embed r w | _ ↦ b.generate r w ]

-- asyncio.wait_for: without a positive timeout a coroutine that has not begun is cancelled.
unfoldable pub wait_for : ℤ → Outcome → Outcome
wait_for timeout_ms outcome = if is_positive timeout_ms then outcome else timed_out

-- `_timeout_s`, in milliseconds.
pub record InferenceRouter (W : Type 0) : Type 0 where
  pub backends : Dict (Backend W)
  pub default_backend : String
  pub timeout_ms : ℤ

-- gaia_server/inference/settings.py
pub record InferenceSettings : Type 0 where
  pub llama_model_path : Option String
  pub llama_n_ctx : ℤ
  pub llama_n_gpu_layers : ℤ
  pub llama_n_threads : ℤ
  pub llama_verbose : Bool
  pub inference_timeout_ms : ℤ
  pub inference_max_tokens : ℤ
  pub inference_default_backend : String

-- The status of a backend in `health`: one that raises has `error`.
abbrev pub backend_is_ok : Result Exn HealthInfo → Bool
backend_is_ok (err e) = false
backend_is_ok (ok info) = or_else "" info.status == "ok"

unfoldable pub all_backends_ok : {W : Type 0} → Dict (Backend W) → W → Bool
all_backends_ok [] w = true
all_backends_ok ((key, b) ∷ d) w = backend_is_ok (b.health w) && all_backends_ok d w

module _ (names : Texts) {W : Type 0} where
  unfoldable pub register : RuntimeBackend → Backend W → InferenceRouter W → InferenceRouter W
  register b backend router = record router {
    backends = Dict.insert (names.str_of b) backend router.backends;
  }

  unfoldable pub init : String → ℤ → InferenceRouter W
  init default_name timeout =
      register mock mock_backend
        (record { backends = []; default_backend = default_name; timeout_ms = timeout })

  unfoldable pub backend_key : InferRequest → InferenceRouter W → String
  backend_key r router = elim r.backend [ none ↦ router.default_backend | some b ↦ names.str_of b ]

  -- `self._backends.get(backend_key) or self._backends.get(RuntimeBackend.MOCK)`
  unfoldable pub select : InferRequest → InferenceRouter W → Option (Backend W)
  select r router = elim (Dict.get (backend_key r router) router.backends) [
    | some b ↦ some b
    | none ↦ Dict.get (names.key_of mock) router.backends
  ]

  unfoldable pub infer : InferRequest → InferenceRouter W → W → InferResponse
  infer r router w = elim (select r router) [
    | none ↦
        error_response r "NO_BACKEND"
          (concat "No backend registered for '" (concat (backend_key r router) "'"))
    | some b ↦ elim (wait_for router.timeout_ms (dispatch b r w)) [
      | responded response ↦ response
      | timed_out ↦
          error_response r "TIMEOUT" (
            concat "Inference timed out after " (concat (names.seconds_text router.timeout_ms) "s"))
      | failed text ↦ error_response r "BACKEND_ERROR" text
    ]
  ]

  unfoldable pub health : InferenceRouter W → W → Result Exn HealthInfo
  health router w = ok (record {
    status = some (if all_backends_ok router.backends w then "ok" else "degraded");
    detail = none;
  })

  -- `create_router`; `load` is LlamaCppBackend.load, which may raise.
  unfoldable pub create_router :
      (InferenceSettings → Result Exn (Backend W)) → InferenceSettings → InferenceRouter W
  create_router load cfg =
      let router = init cfg.inference_default_backend cfg.inference_timeout_ms in
      if truthy cfg.llama_model_path
      then elim (load cfg) [ ok llama ↦ register llama_cpp llama router | err e ↦ router ]
      else router
