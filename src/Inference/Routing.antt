-- ===== src/Inference/Routing.antt =====
-- Which backend answers a request, and with what.
use gaia_server.Base.{
  String, ◌≡◌, refl, ◌⊎◌, inl, inr, Bool, true, false, false≢true, none, some, List, [], ◌∷◌, arith,
  eq_iff, ok, err, Result, if◌then◌else◌, Option-cases, Bool-cases, is_some, ◌≢◌, Result-cases, ◌∙◌,
}
use gaia_server.Base.Numbers.{ℤ, is_positive}
use gaia_server.Base.Text.{truthy}
use gaia_server.Errors.{Exn}
use gaia_server.Dict
use gaia_server.Dict.{get-insert}
use gaia_server.Inference.{
  TaskType, embed_task, generate_task, other_task, RuntimeBackend, mock, llama_cpp, InferRequest,
  InferResponse, Outcome, responded, timed_out, failed, Backend, Texts, dispatch, InferenceRouter,
  InferenceSettings, register, init, backend_key, select, infer, wait_for, create_router,
  error_response,
}

-- The answer is a refusal of this request, with this code and this message.
pub record IsRefusal (r : InferRequest) (code : String) (answer : InferResponse) : Type 0 where
  pub refused_id : answer.request_id ≡ r.request_id
  pub refused_core : answer.core_id ≡ r.core_id
  pub refused : answer.accepted ≡ false
  pub refused_code : answer.error_code ≡ some code

-- What the router makes of the outcome of the chosen backend.
abbrev pub Follows : InferRequest → Outcome → InferResponse → Type 0
Follows r (responded response) answer = answer ≡ response
Follows r timed_out answer = IsRefusal r "TIMEOUT" answer
Follows r (failed text) answer =
    IsRefusal r "BACKEND_ERROR" answer × (answer.error_message ≡ some text)

-- An accepted answer of the mock backend to this request.
abbrev pub IsMockAnswer : InferRequest → InferResponse → Type 0
IsMockAnswer r answer =
    (answer.request_id ≡ r.request_id)
    × (answer.core_id ≡ r.core_id)
    × (answer.accepted ≡ true)
    × (answer.backend ≡ mock)
    × (answer.error_code ≡ none)

-- The key under which a request is served: the text of the backend that it names, or else the
-- configured default.
abbrev pub IsKeyOf : Texts → InferenceSettings → InferRequest → String → Type 0
IsKeyOf names cfg r key =
    (r.backend ≡ none → key ≡ cfg.inference_default_backend)
    × ((b : RuntimeBackend) → r.backend ≡ some b → key ≡ names.str_of b)

module _ (names : Texts) {W : Type 0} where
  -- The backends that were registered after the factory returned, in this order.
  abbrev pub register_all :
      List (RuntimeBackend × Backend W) → InferenceRouter W → InferenceRouter W
  register_all [] router = router
  register_all ((b, backend) ∷ bs) router = register_all bs (register names b backend router)

  -- The text of the mock backend is a key.
  HasMock : InferenceRouter W → Type 0
  HasMock router = is_some (Dict.get (names.key_of mock) router.backends) ≡ true

  -- `b` is the backend under this key, or the mock backend if there is none.
  abbrev pub IsChosen : String → InferenceRouter W → Backend W → Type 0
  IsChosen key router b =
      (Dict.get key router.backends ≡ some b)
      ⊎ ((Dict.get key router.backends ≡ none)
          × (Dict.get (names.key_of mock) router.backends ≡ some b))

  register-HasMock :
      (b : RuntimeBackend) (backend : Backend W) (router : InferenceRouter W)
      → HasMock router
      → HasMock (register names b backend router)
  unfolding register HasMock
  register-HasMock b backend router h =
      ground (arith, get-insert (names.str_of b) (names.key_of mock) backend router.backends)

  register_all-HasMock :
      (bs : List (RuntimeBackend × Backend W)) (router : InferenceRouter W)
      → HasMock router
      → HasMock (register_all bs router)
  register_all-HasMock [] router h = h
  register_all-HasMock ((b, backend) ∷ bs) router h =
      register_all-HasMock bs (register names b backend router)
        (register-HasMock b backend router h)

module _ (names : Texts) (W : Type 0) where
  init-HasMock :
      (d : String) (t : ℤ)
      → names.str_of mock ≡ names.key_of mock
      → HasMock names (init names {W = W} d t)
  unfolding init register HasMock Dict.insert Dict.get
  init-HasMock d t h = ground (arith, h, eq_iff (names.str_of mock) (names.key_of mock))

module _ (names : Texts) {W : Type 0} where
  module _ (mock_is_key : names.str_of mock ≡ names.key_of mock) where
    create_router-HasMock :
        (load : InferenceSettings → Result Exn (Backend W)) (cfg : InferenceSettings)
        → HasMock names (create_router names load cfg)
    unfolding create_router
    create_router-HasMock load cfg = go (truthy cfg.llama_model_path) (load cfg)
      where
        fresh : InferenceRouter W
        fresh = init names cfg.inference_default_backend cfg.inference_timeout_ms

        go :
            (has_path : Bool) (loaded : Result Exn (Backend W))
            → HasMock names (
                if has_path
                then elim loaded [ ok llama ↦ register names llama_cpp llama fresh | err e ↦ fresh ]
                else fresh)
        go true (ok llama) = register-HasMock names llama_cpp llama fresh (
            init-HasMock names W cfg.inference_default_backend cfg.inference_timeout_ms mock_is_key)
        go true (err e) =
            init-HasMock names W cfg.inference_default_backend cfg.inference_timeout_ms mock_is_key
        go false loaded =
            init-HasMock names W cfg.inference_default_backend cfg.inference_timeout_ms mock_is_key

  select-IsChosen :
      (r : InferRequest) (router : InferenceRouter W)
      → HasMock names router
      → (b : Backend W) × (select names r router ≡ some b)
        × IsChosen names (backend_key names r router) router b
  unfolding HasMock select
  select-IsChosen r router h =
      elim (Option-cases (Dict.get (backend_key names r router) router.backends)) [
        | inr (b, e) ↦ (b, rw (e, select), inl e)
        | inl e ↦ elim (Option-cases (Dict.get (names.key_of mock) router.backends)) [
          | inr (b, f) ↦ (b, rw (e, f, select), inr (e, f))
          | inl f ↦ absurd (false≢true (rw f at h))
        ]
      ]

  infer-Follows :
      (r : InferRequest) (router : InferenceRouter W) (w : W) (b : Backend W)
      → select names r router ≡ some b
      → Follows r (wait_for router.timeout_ms (dispatch b r w)) (infer names r router w)
  unfolding infer error_response
  infer-Follows r router w b e = go (wait_for router.timeout_ms (dispatch b r w)) refl
    where
      go :
          (o : Outcome)
          → wait_for router.timeout_ms (dispatch b r w) ≡ o
          → Follows r o (infer names r router w)
      go (responded response) f = rw (e, f, infer)
      go timed_out f =
          rw (e, f, infer)
            (record { refused_id = refl; refused_core = refl; refused = refl; refused_code = refl })
      go (failed text) f =
          rw (e, f, infer)
            (
              record {
                refused_id = refl;
                refused_core = refl;
                refused = refl;
                refused_code = refl;
              },
              refl,
            )

  -- What is chosen, in terms of the router.
  pub infer-IsChosen :
      (load : InferenceSettings → Result Exn (Backend W)) (cfg : InferenceSettings)
      (bs : List (RuntimeBackend × Backend W)) (r : InferRequest) (w : W)
      → names.str_of mock ≡ names.key_of mock
      → let router = register_all names bs (create_router names load cfg) in
        (b : Backend W) × IsChosen names (backend_key names r router) router b
        × Follows r (wait_for router.timeout_ms (dispatch b r w)) (infer names r router w)
  infer-IsChosen load cfg bs r w h =
      let router = register_all names bs (create_router names load cfg) in
      let (b, chosen, k) = select-IsChosen r router (
        register_all-HasMock names bs (create_router names load cfg)
          (create_router-HasMock h load cfg)) in
      (b, k, infer-Follows r router w b chosen)

  register_all-keeps :
      (bs : List (RuntimeBackend × Backend W)) (router : InferenceRouter W)
      → ((register_all names bs router).default_backend ≡ router.default_backend)
        × ((register_all names bs router).timeout_ms ≡ router.timeout_ms)
  unfolding register
  register_all-keeps [] router = (refl, refl)
  register_all-keeps ((b, backend) ∷ bs) router =
      register_all-keeps bs (register names b backend router)

  create_router-keeps :
      (load : InferenceSettings → Result Exn (Backend W)) (cfg : InferenceSettings)
      → ((create_router names load cfg).default_backend ≡ cfg.inference_default_backend)
        × ((create_router names load cfg).timeout_ms ≡ cfg.inference_timeout_ms)
  unfolding create_router init register
  create_router-keeps load cfg = elim (Bool-cases (truthy cfg.llama_model_path)) [
    | inr no_path ↦ rw no_path (refl, refl)
    | inl path ↦ elim (Result-cases (load cfg)) [
      | inl (llama, e) ↦ rw (path, e) (refl, refl)
      | inr (x, e) ↦ rw (path, e) (refl, refl)
    ]
  ]

  backend_key-IsKeyOf :
      (cfg : InferenceSettings) (r : InferRequest) (router : InferenceRouter W)
      → router.default_backend ≡ cfg.inference_default_backend
      → IsKeyOf names cfg r (backend_key names r router)
  unfolding backend_key
  backend_key-IsKeyOf cfg r router h = (λ e. rw e h, λ b e. rw e refl)

  dispatch_by_task :
      (b : Backend W) (r : InferRequest) (w : W)
      → (r.task_type ≡ embed_task → dispatch b r w ≡ b.embed r w)
        × (r.task_type ≢ embed_task → dispatch b r w ≡ b.generate r w)
  unfolding dispatch
  dispatch_by_task b r w = go r.task_type
    where
      go :
          (t : TaskType)
          → let o : Outcome = elim t [ embed_task ↦ b.embed r w | _ ↦ b.generate r w ] in
            (t ≡ embed_task → o ≡ b.embed r w) × (t ≢ embed_task → o ≡ b.generate r w)
      go embed_task = (λ e. refl, λ n. absurd (n refl))
      go generate_task = (λ e. cc, λ n. refl)
      go (other_task name) = (λ e. cc, λ n. refl)

  -- Take a router of the factory, with any further backends registered, whose mock backend stands
  -- under the key that the fallback asks for. Every request is served: the backend chosen is the
  -- one under the text of the backend that the request names, or under the configured default if it
  -- names none, or else the mock backend if that key has none. It embeds for an embedding task and
  -- generates for any other. With a positive configured timeout, if it responds, the answer is
  -- its response; if it times out or raises, the answer refuses this request with `TIMEOUT`, or with
  -- `BACKEND_ERROR` and the text of the exception. With any other timeout the answer refuses this
  -- request with `TIMEOUT`.
  pub every_request_is_served :
      (load : InferenceSettings → Result Exn (Backend W)) (cfg : InferenceSettings)
      (bs : List (RuntimeBackend × Backend W)) (r : InferRequest) (w : W)
      → names.str_of mock ≡ names.key_of mock
      → let router = register_all names bs (create_router names load cfg) in
        let answer = infer names r router w in
        (key : String) × (b : Backend W) × (o : Outcome) × IsKeyOf names cfg r key
        × IsChosen names key router b
        × (r.task_type ≡ embed_task → o ≡ b.embed r w)
        × (r.task_type ≢ embed_task → o ≡ b.generate r w)
        × (is_positive cfg.inference_timeout_ms ≡ true → Follows r o answer)
        × (is_positive cfg.inference_timeout_ms ≡ false → IsRefusal r "TIMEOUT" answer)
  unfolding wait_for
  every_request_is_served load cfg bs r w h =
      let fresh = create_router names load cfg in
      let router = register_all names bs fresh in
      let (b, chosen, follows) = infer-IsChosen load cfg bs r w h in
      let (embeds, generates) = dispatch_by_task b r w in
      let by_default : router.default_backend ≡ cfg.inference_default_backend =
        (register_all-keeps bs fresh).0 ∙ (create_router-keeps load cfg).0 in
      let follows' =
        rw ((register_all-keeps bs fresh).1 ∙ (create_router-keeps load cfg).1) at follows in
      (
        backend_key names r router,
        b,
        dispatch b r w,
        backend_key-IsKeyOf cfg r router by_default,
        chosen,
        embeds,
        generates,
        λ p. rw p at follows',
        λ p. rw p at follows',
      )
