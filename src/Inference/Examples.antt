-- ===== src/Inference/Examples.antt =====
-- The theorems on the router at a concrete request.
use gaia_server.Base.{
  String, ◌≡◌, ◌≢◌, true, refl, ◌⊎◌, false, ok, none, some, [], ◌∷◌, err, Result,
}
use gaia_server.Base.Numbers.{pos, is_positive}
use gaia_server.Errors.{Exn, raised}
use gaia_server.Inference.{
  RuntimeBackend, mock, llama_cpp, other_backend, generate_task, InferRequest, InferenceSettings,
  Backend, failed, Outcome, embed_task, Texts, infer, create_router,
}
use gaia_server.Inference.LlamaCpp.{LlamaPackage, load as load_llama}
use gaia_server.Inference.Answers.{IsAnswerTo, answers_are_for_the_request}
use gaia_server.Inference.Routing.{
  IsRefusal, register_all, IsKeyOf, IsChosen, Follows, every_request_is_served,
}

abbrev text_of : RuntimeBackend → String
text_of mock = "mock"
text_of llama_cpp = "llama_cpp"
text_of (other_backend name) = name

-- An enum class whose members are their texts.
abbrev names : Texts
names = record { str_of = text_of; key_of = text_of; seconds_text = λ ms. "30.0" }

abbrev settings : InferenceSettings
settings = record {
  llama_model_path = some "/models/a.gguf";
  llama_n_ctx = pos 4096;
  llama_n_gpu_layers = pos 0;
  llama_n_threads = pos 4;
  llama_verbose = false;
  inference_timeout_ms = pos 30000;
  inference_max_tokens = pos 512;
  inference_default_backend = "mock";
}

abbrev request : InferRequest
request = record {
  request_id = "r1";
  core_id = "c1";
  task_type = generate_task;
  backend = some llama_cpp;
  model_id = none;
  prompt = some "hello world";
  text = none;
  stop = none;
  max_tokens = none;
  temperature = none;
}

-- A backend that raises.
abbrev broken : Backend (Unit {0})
broken = record {
  generate = λ r w. failed "out of memory";
  embed = λ r w. failed "out of memory";
  health = λ w. err (raised "out of memory");
}

abbrev load : InferenceSettings → Result Exn (Backend (Unit {0}))
load cfg = err (raised "no such file")

every_request_is_served_example :
    let router =
      register_all names ((llama_cpp, broken) ∷ []) (create_router names load settings) in
    let answer = infer names request router tt in
    (key : String) × (b : Backend (Unit {0})) × (o : Outcome) × IsKeyOf names settings request key
    × IsChosen names key router b
    × (request.task_type ≡ embed_task → o ≡ b.embed request tt)
    × (request.task_type ≢ embed_task → o ≡ b.generate request tt)
    × (is_positive settings.inference_timeout_ms ≡ true → Follows request o answer)
    × (is_positive settings.inference_timeout_ms ≡ false → IsRefusal request "TIMEOUT" answer)
every_request_is_served_example =
    every_request_is_served names load settings ((llama_cpp, broken) ∷ []) request tt refl

-- A package whose models answer.
abbrev package_of : LlamaPackage (Unit {0}) (Unit {0})
package_of = record {
  make = λ path n_ctx layers threads verbose embedding. ok tt;
  call = λ model prompt max_tokens temperature stop echo w. (
    ok (record {
      choices = some (record { text = some "hi"; finish_reason = some "stop" } ∷ []);
      token_usage = none;
    }),
    12,
  );
  embed_text = λ model text w. (ok ("0.5" ∷ []), 3);
  model_path = λ model. ok none;
}

answers_are_for_the_request_example :
    let answer =
      infer names request (create_router names (load_llama (some package_of)) settings) tt in
    IsAnswerTo request answer
    ⊎ (IsRefusal request "TIMEOUT" answer ⊎ IsRefusal request "BACKEND_ERROR" answer)
answers_are_for_the_request_example =
    answers_are_for_the_request names (some package_of) settings [] request tt tt refl
