-- ===== src/Inference/Answers.antt =====
-- Whose answers a request gets: a backend is faithful where all that it responds is for the request
-- it was given. The mock and the llama.cpp backend are.
use gaia_server.Base.{
  none-ne-some, some-injective, String, ◌≡◌, refl, sym, ◌∙◌, ◌⊎◌, inl, inr, Bool-cases, true, false,
  Option, none, some, List, [], ◌∷◌, arith, ◌==◌, or_else, Result, Result-cases, ok, err,
  ok-injective, subst,
}
use gaia_server.Base.Numbers.{ℤ, is_positive}
use gaia_server.Base.Text.{truthy}
use gaia_server.Errors.{Exn}
use gaia_server.Dict
use gaia_server.Dict.{get-insert}
use gaia_server.Inference.{
  TaskType, embed_task, generate_task, other_task, mock, llama_cpp, RuntimeBackend, mock_generate,
  mock_embed, InferRequest, InferResponse, Outcome, responded, timed_out, failed, Backend, Texts,
  mock_backend, dispatch, wait_for, InferenceRouter, InferenceSettings, register, init, infer,
  create_router, backend_key,
}
use gaia_server.Inference.LlamaCpp.{
  LlamaPackage, max_tokens_of, completion_response, embedding_response, generate, embed,
  llama_backend, with_model, load,
}
use gaia_server.Inference.Routing.{IsRefusal, Follows, register_all, IsChosen, infer-IsChosen}

-- An accepted answer to this request.
pub record IsAnswerTo (r : InferRequest) (answer : InferResponse) : Type 0 where
  pub same_id : answer.request_id ≡ r.request_id
  pub same_core : answer.core_id ≡ r.core_id
  pub accepted : answer.accepted ≡ true
  pub no_code : answer.error_code ≡ none

-- An outcome that, if it is a response, is an accepted answer to this request.
abbrev pub IsFor : InferRequest → Outcome → Type 0
IsFor r (responded answer) = IsAnswerTo r answer
IsFor r timed_out = Unit
IsFor r (failed text) = Unit

pub record IsFaithful {W : Type 0} (b : Backend W) : Type 0 where
  pub generates : (r : InferRequest) (w : W) → IsFor r (b.generate r w)
  pub embeds : (r : InferRequest) (w : W) → IsFor r (b.embed r w)

mock-IsFaithful : {W : Type 0} → IsFaithful (mock_backend {W = W})
unfolding mock_backend mock_generate mock_embed
mock-IsFaithful = record {
  generates = λ r w. record { same_id = refl; same_core = refl; accepted = refl; no_code = refl };
  embeds = λ r w. record { same_id = refl; same_core = refl; accepted = refl; no_code = refl };
}

outcome-IsFor :
    {A : Type 0} (r : InferRequest) (f : A → InferResponse) (o : Result String A)
    → ((c : A) → IsAnswerTo r (f c))
    → IsFor r (elim o [ ok c ↦ responded (f c) | err text ↦ failed text ])
outcome-IsFor r f (ok c) h = h c
outcome-IsFor r f (err text) h = tt

module _ {M W : Type 0} (llama : LlamaPackage M W) where
  llama-IsFaithful : (model : M) → IsFaithful (llama_backend llama model)
  unfolding llama_backend generate embed completion_response embedding_response
  llama-IsFaithful model = record {
    generates = λ r w.
        let output =
          llama.call model (or_else "" r.prompt) (max_tokens_of r.max_tokens)
            (or_else "0.7" r.temperature) (or_else [] r.stop) false w in
        outcome-IsFor r (λ c. completion_response r c output.1) output.0
          (λ c. record { same_id = refl; same_core = refl; accepted = refl; no_code = refl });
    embeds = λ r w.
        let output = llama.embed_text model (or_else "" r.text) w in
        outcome-IsFor r (λ e. embedding_response r e output.1) output.0
          (λ e. record { same_id = refl; same_core = refl; accepted = refl; no_code = refl });
  }

  with_model-IsFaithful :
      (loaded : Result Exn M) (b : Backend W) → with_model llama loaded ≡ ok b → IsFaithful b
  with_model-IsFaithful (ok model) b h = subst IsFaithful (ok-injective h) (llama-IsFaithful model)
  with_model-IsFaithful (err e) b h = absurd (ground arith)

load-IsFaithful :
    {M W : Type 0} (o : Option (LlamaPackage M W)) (cfg : InferenceSettings) (b : Backend W)
    → load o cfg ≡ ok b
    → IsFaithful b
unfolding load
load-IsFaithful none cfg b h = absurd (ground arith)
load-IsFaithful (some llama) cfg b h =
    with_model-IsFaithful llama
      (llama.make cfg.llama_model_path cfg.llama_n_ctx cfg.llama_n_gpu_layers cfg.llama_n_threads
        cfg.llama_verbose true)
      b h

dispatch-IsFor :
    {W : Type 0} (b : Backend W) (r : InferRequest) (w : W)
    → IsFaithful b
    → IsFor r (dispatch b r w)
unfolding dispatch
dispatch-IsFor b r w f = go r.task_type
  where
    go : (task : TaskType) → IsFor r (elim task [ embed_task ↦ b.embed r w | _ ↦ b.generate r w ])
    go embed_task = f.embeds r w
    go generate_task = f.generates r w
    go (other_task name) = f.generates r w

wait_for-IsFor : (r : InferRequest) (t : ℤ) (o : Outcome) → IsFor r o → IsFor r (wait_for t o)
unfolding wait_for
wait_for-IsFor r t o h = elim (Bool-cases (is_positive t)) [ inl e ↦ rw e h | inr e ↦ rw e tt ]

Follows-IsFor :
    (r : InferRequest) (o : Outcome) (answer : InferResponse)
    → IsFor r o
    → Follows r o answer
    → IsAnswerTo r answer ⊎ (IsRefusal r "TIMEOUT" answer ⊎ IsRefusal r "BACKEND_ERROR" answer)
Follows-IsFor r (responded response) answer h e = inl (subst (IsAnswerTo r) (sym e) h)
Follows-IsFor r timed_out answer h e = inr (inl e)
Follows-IsFor r (failed text) answer h e = inr (inr e.0)

module _ (names : Texts) {W : Type 0} where
  -- Every backend of the router is faithful.
  AllFaithful : InferenceRouter W → Type 0
  AllFaithful router =
      (k : String) (b : Backend W) → Dict.get k router.backends ≡ some b → IsFaithful b

  register-AllFaithful :
      (id : RuntimeBackend) (backend : Backend W) (router : InferenceRouter W)
      → IsFaithful backend
      → AllFaithful router
      → AllFaithful (register names id backend router)
  unfolding register AllFaithful
  register-AllFaithful id backend router f h k b e =
      let found =
        sym (get-insert {V = Backend W} (names.str_of id) k backend router.backends) ∙ e in
      elim (Bool-cases (names.str_of id == k)) [
        | inl same ↦ subst IsFaithful (some-injective (rw same at found)) f
        | inr other ↦ h k b (rw other at found)
      ]

  abbrev pub EachFaithful : List (RuntimeBackend × Backend W) → Type 0
  EachFaithful [] = Unit
  EachFaithful ((id, backend) ∷ bs) = IsFaithful backend × EachFaithful bs

  register_all-AllFaithful :
      (bs : List (RuntimeBackend × Backend W)) (router : InferenceRouter W)
      → EachFaithful bs
      → AllFaithful router
      → AllFaithful (register_all names bs router)
  register_all-AllFaithful [] router hs h = h
  register_all-AllFaithful ((id, backend) ∷ bs) router hs h =
      register_all-AllFaithful bs (register names id backend router) hs.1
        (register-AllFaithful id backend router hs.0 h)

  IsChosen-IsFaithful :
      (key : String) (router : InferenceRouter W) (b : Backend W)
      → AllFaithful router
      → IsChosen names key router b
      → IsFaithful b
  unfolding AllFaithful
  IsChosen-IsFaithful key router b h (inl e) = h _ b e
  IsChosen-IsFaithful key router b h (inr (_, e)) = h _ b e

module _ (names : Texts) (W : Type 0) where
  init-AllFaithful : (d : String) (t : ℤ) → AllFaithful names (init names {W = W} d t)
  unfolding init register AllFaithful Dict.get
  init-AllFaithful d t =
      register-AllFaithful names mock mock_backend
        (record { backends = []; default_backend = d; timeout_ms = t }) mock-IsFaithful
        (λ k b e. absurd (none-ne-some e))

module _ (names : Texts) {M W : Type 0} where
  create_router-AllFaithful :
      (o : Option (LlamaPackage M W)) (cfg : InferenceSettings)
      → AllFaithful names (create_router names (load o) cfg)
  unfolding create_router
  create_router-AllFaithful o cfg =
      let fresh = init-AllFaithful names W cfg.inference_default_backend cfg.inference_timeout_ms in
      elim (Bool-cases (truthy cfg.llama_model_path)) [
        | inr e ↦ rw e fresh
        | inl e ↦ elim (Result-cases (load o cfg)) [
          | inr (x, f) ↦ rw (e, f) fresh
          | inl (llama, f) ↦
              rw (e, f)
                (register-AllFaithful names llama_cpp llama
                  (init names cfg.inference_default_backend cfg.inference_timeout_ms)
                  (load-IsFaithful o cfg llama f) fresh)
        ]
      ]

  -- Take the router that the factory makes, with or without the package llama_cpp, and register any
  -- further faithful backends; let the mock backend stand under the key that the fallback asks for.
  -- Then no request gets the answer to another one: what it gets is an accepted answer with its id
  -- and its core, without an error code, or a refusal of this request with `TIMEOUT` or with
  -- `BACKEND_ERROR`.
  pub answers_are_for_the_request :
      (o : Option (LlamaPackage M W)) (cfg : InferenceSettings)
      (bs : List (RuntimeBackend × Backend W)) (r : InferRequest) (w : W)
      → EachFaithful names bs
      → names.str_of mock ≡ names.key_of mock
      → let answer = infer names r (register_all names bs (create_router names (load o) cfg)) w in
        IsAnswerTo r answer ⊎ (IsRefusal r "TIMEOUT" answer ⊎ IsRefusal r "BACKEND_ERROR" answer)
  answers_are_for_the_request o cfg bs r w faithful h =
      let router = register_all names bs (create_router names (load o) cfg) in
      let (b, chosen, follows) = infer-IsChosen names (load o) cfg bs r w h in
      let all =
        register_all-AllFaithful names bs (create_router names (load o) cfg) faithful
          (create_router-AllFaithful o cfg) in
      Follows-IsFor r (wait_for router.timeout_ms (dispatch b r w)) (infer names r router w)
        (wait_for-IsFor r router.timeout_ms (dispatch b r w) (
          dispatch-IsFor b r w
            (IsChosen-IsFaithful names (backend_key names r router) router b all chosen)))
        follows
