-- ===== src/Inference/Settings.antt =====
-- gaia_server/inference/settings.py: InferenceSettings.from_env.
use gaia_server.Base.{String, none, Result, ok, if◌then◌else◌}
use gaia_server.Base.Text.{truthy, is_true}
use gaia_server.Dict
use gaia_server.Dict.{Dict, get_or}
use gaia_server.Environ.{int_var, with_int}
use gaia_server.Errors.{Exn}
use gaia_server.Inference.{InferenceSettings}

unfoldable pub from_env : Dict String → Result Exn InferenceSettings
from_env env =
    let path = Dict.get "LLAMA_MODEL_PATH" env in
    with_int (int_var "LLAMA_N_CTX" "4096" env) (λ n_ctx.
      with_int (int_var "LLAMA_N_GPU_LAYERS" "0" env) (λ n_gpu_layers.
        with_int (int_var "LLAMA_N_THREADS" "4" env) (λ n_threads.
          with_int (int_var "INFERENCE_TIMEOUT_MS" "30000" env) (λ timeout_ms.
            with_int (int_var "INFERENCE_MAX_TOKENS" "512" env) (λ max_tokens. ok (record {
              llama_model_path = if truthy path then path else none;
              llama_n_ctx = n_ctx;
              llama_n_gpu_layers = n_gpu_layers;
              llama_n_threads = n_threads;
              llama_verbose = is_true (get_or "LLAMA_VERBOSE" "false" env);
              inference_timeout_ms = timeout_ms;
              inference_max_tokens = max_tokens;
              inference_default_backend = get_or "INFERENCE_DEFAULT_BACKEND" "mock" env;
            }))))))
