-- ===== src/Inference/LlamaCpp.antt =====
-- gaia_server/inference/backends/llamacpp.py. The package llama_cpp is a parameter: `M` is a loaded
-- model.
use gaia_server.Base.{
  ℕ, zero, String, Bool, true, false, Option, none, some, List, [], ◌∷◌, or_else, length,
  if◌then◌else◌, Result, ok, err,
}
use gaia_server.Base.Numbers.{ℤ, pos}
use gaia_server.Base.Text.{truthy, word_count}
use gaia_server.Errors.{Exn, raised}
use gaia_server.Health.{HealthInfo}
use gaia_server.Inference.{
  InferRequest, InferResponse, completed, embedded, generate_task, embed_task, llama_cpp, Outcome,
  responded, failed, Backend, InferenceSettings,
}

-- The parts of a completion that the code reads; each may be missing.
pub record Choice : Type 0 where
  pub text : Option String
  pub finish_reason : Option String

pub record TokenUsage : Type 0 where
  pub prompt_tokens : Option ℕ
  pub completion_tokens : Option ℕ

pub record Completion : Type 0 where
  pub choices : Option (List Choice)
  pub token_usage : Option TokenUsage

-- The package llama_cpp, in the world `W`. A call ends with an answer or the text of an exception,
-- and takes so many milliseconds.
pub record LlamaPackage (M W : Type 0) : Type 0 where
  -- Path, n_ctx, n_gpu_layers, n_threads, verbose and embedding.
  pub make : Option String → ℤ → ℤ → ℤ → Bool → Bool → Result Exn M
  -- Prompt, max_tokens, temperature, stop and echo.
  pub call : M → String → ℤ → String → List String → Bool → W → Result String Completion × ℕ
  pub embed_text : M → String → W → Result String (List String) × ℕ
  -- The attribute `model_path`, which a model may lack; or what its text raises.
  pub model_path : M → Result String (Option String)

-- `request.max_tokens or 512`
abbrev pub max_tokens_of : Option ℤ → ℤ
max_tokens_of none = pos 512
max_tokens_of (some (pos zero)) = pos 512
max_tokens_of (some n) = n

-- `output["choices"][0] if output.get("choices") else {}`
abbrev pub first_choice : Option (List Choice) → Choice
first_choice (some (c ∷ cs)) = c
first_choice o = record { text = none; finish_reason = none }

-- `output.get("usage", {})`
abbrev pub usage_of : Option TokenUsage → TokenUsage
usage_of (some u) = u
usage_of none = record { prompt_tokens = none; completion_tokens = none }

unfoldable pub completion_response : InferRequest → Completion → ℕ → InferResponse
completion_response r output latency_ms =
    let choice = first_choice output.choices in
    let usage = usage_of output.token_usage in
    record {
      request_id = r.request_id;
      accepted = true;
      core_id = r.core_id;
      task_type = generate_task;
      backend = llama_cpp;
      model_id = if truthy r.model_id then r.model_id else some "llama.cpp";
      result = completed (or_else "" choice.text) choice.finish_reason;
      usage =
          ("prompt_tokens", or_else 0 usage.prompt_tokens)
          ∷ ("completion_tokens", or_else 0 usage.completion_tokens)
          ∷ [];
      latency_ms = latency_ms;
      error_code = none;
      error_message = none;
    }

unfoldable pub embedding_response : InferRequest → List String → ℕ → InferResponse
embedding_response r embedding latency_ms = record {
  request_id = r.request_id;
  accepted = true;
  core_id = r.core_id;
  task_type = embed_task;
  backend = llama_cpp;
  model_id = if truthy r.model_id then r.model_id else some "llama.cpp";
  result = embedded embedding (length embedding);
  usage = ("tokens", word_count (or_else "" r.text)) ∷ [];
  latency_ms = latency_ms;
  error_code = none;
  error_message = none;
}

module _ {M W : Type 0} (llama : LlamaPackage M W) where
  unfoldable pub generate : M → InferRequest → W → Outcome
  generate model r w =
      let output =
        llama.call model (or_else "" r.prompt) (max_tokens_of r.max_tokens)
          (or_else "0.7" r.temperature) (or_else [] r.stop) false w in
      elim output.0 [
        | ok completion ↦ responded (completion_response r completion output.1)
        | err text ↦ failed text
      ]

  unfoldable pub embed : M → InferRequest → W → Outcome
  embed model r w =
      let output = llama.embed_text model (or_else "" r.text) w in
      elim output.0 [
        | ok embedding ↦ responded (embedding_response r embedding output.1)
        | err text ↦ failed text
      ]

  unfoldable pub health : M → Result Exn HealthInfo
  health model = elim (llama.model_path model) [
    | ok path ↦ ok (record { status = some "ok"; detail = none })
    | err text ↦ ok (record { status = some "error"; detail = some (raised text) })
  ]

  -- An instance of `LlamaCppBackend`.
  unfoldable pub llama_backend : M → Backend W
  llama_backend model = record {
    generate = generate model;
    embed = embed model;
    health = λ w. health model;
  }

  abbrev pub with_model : Result Exn M → Result Exn (Backend W)
  with_model (ok model) = ok (llama_backend model)
  with_model (err e) = err e

module _ {M W : Type 0} where
  -- `LlamaCppBackend.load`; without the package its import fails.
  unfoldable pub load : Option (LlamaPackage M W) → InferenceSettings → Result Exn (Backend W)
  load none cfg = err (
      raised
        "llama-cpp-python is not installed. Install gaia-server with the 'llama' extra or set INFERENCE_DEFAULT_BACKEND=mock.")
  load (some llama) cfg = with_model llama (
      llama.make cfg.llama_model_path cfg.llama_n_ctx cfg.llama_n_gpu_layers cfg.llama_n_threads
        cfg.llama_verbose true)
