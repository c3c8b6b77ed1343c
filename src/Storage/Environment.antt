-- ===== src/Storage/Environment.antt =====
-- What the storage settings are in an environment, and when there are none.
use gaia_server.Base.{
  String, ◌≡◌, refl, ◌↔◌, ◌⊎◌, inl, inr, true, Option, Option-cases, ◌∙◌, none, some, ok, err,
}
use gaia_server.Base.Text.{codes, lowered, is_true, equal_bytes→eq, equal_bytes_refl}
use gaia_server.Base.Numbers.{ℤ, int}
use gaia_server.Dict
use gaia_server.Dict.{Dict, get_or}
use gaia_server.Errors.{value_error}
use gaia_server.Environ.{int_var}
use gaia_server.Storage.Settings.{StorageSettings, from_env}

pub is_true_iff : (s : String) → (is_true s ≡ true) ↔ (lowered (codes s) ≡ codes "true")
unfolding is_true
is_true_iff s = (
  (λ h. equal_bytes→eq (lowered (codes s)) (codes "true") h),
  λ h. rw h (equal_bytes_refl (codes "true")),
)

-- The text of a variable, or the default where the variable is missing.
abbrev pub Reads : Dict String → String → String → String → Type 0
Reads env name default text =
    (Dict.get name env ≡ some text) ⊎ ((Dict.get name env ≡ none) × (text ≡ default))

get_or-Reads :
    (env : Dict String) (name default : String) → Reads env name default (get_or name default env)
get_or-Reads env name default = elim (Option-cases (Dict.get name env)) [
  | inl e ↦ inr (e, rw e refl)
  | inr (text, e) ↦ inl (e ∙ rw e refl)
]

-- The same of a text that is read as an integer, and of one that is none.
abbrev pub ReadsInt : Dict String → String → String → Option ℤ → Type 0
ReadsInt env name default n = (text : String) × Reads env name default text × (int (codes text) ≡ n)

int_var-ReadsInt :
    (env : Dict String) (name default : String) (n : Option ℤ)
    → int_var name default env ≡ n
    → ReadsInt env name default n
int_var-ReadsInt env name default n h = (get_or name default env, get_or-Reads env name default, h)

-- Each setting is that of its variable, or the default.
pub record IsRead (env : Dict String) (cfg : StorageSettings) : Type 0 where
  pub connect_timeout : ReadsInt env "NATS_CONNECT_TIMEOUT" "5" (some cfg.nats_connect_timeout)
  pub max_reconnect : ReadsInt env "NATS_MAX_RECONNECT" "10" (some cfg.nats_max_reconnect)
  pub port : ReadsInt env "ETCD_PORT" "2379" (some cfg.etcd_port)
  pub timeout : ReadsInt env "ETCD_TIMEOUT" "5" (some cfg.etcd_timeout)
  pub url : Reads env "NATS_URL" "nats://localhost:4222" cfg.nats_url
  pub endpoint : Reads env "MINIO_ENDPOINT" "localhost:9000" cfg.minio_endpoint
  pub access_key : Reads env "MINIO_ACCESS_KEY" "minioadmin" cfg.minio_access_key
  pub secret_key : Reads env "MINIO_SECRET_KEY" "minioadmin" cfg.minio_secret_key
  pub bucket : Reads env "MINIO_BUCKET" "gaia-checkpoints" cfg.minio_bucket
  pub secure :
      (text : String) × Reads env "MINIO_SECURE" "false" text
      × ((cfg.minio_secure ≡ true) ↔ (lowered (codes text) ≡ codes "true"))
  pub host : Reads env "ETCD_HOST" "localhost" cfg.etcd_host
  pub namespace : Reads env "ETCD_NAMESPACE" "gaia" cfg.etcd_namespace

-- One of the four numbers is no integer.
abbrev pub HasBadNumber : Dict String → Type 0
HasBadNumber env =
    ReadsInt env "NATS_CONNECT_TIMEOUT" "5" none
    ⊎ (ReadsInt env "NATS_MAX_RECONNECT" "10" none
        ⊎ (ReadsInt env "ETCD_PORT" "2379" none ⊎ ReadsInt env "ETCD_TIMEOUT" "5" none))

-- The settings are read from any environment: each is that of its variable, or its default where the
-- variable is missing; but if one of the four numbers is no integer, ValueError is raised.
pub from_env_outcomes :
    (env : Dict String)
    → ((cfg : StorageSettings) × (from_env env ≡ ok cfg) × IsRead env cfg)
      ⊎ ((from_env env ≡ err value_error) × HasBadNumber env)
unfolding from_env
from_env_outcomes env = elim (Option-cases (int_var "NATS_CONNECT_TIMEOUT" "5" env)) [
  | inl a ↦ inr (rw a refl, inl (int_var-ReadsInt env "NATS_CONNECT_TIMEOUT" "5" none a))
  | inr (n, a) ↦ elim (Option-cases (int_var "NATS_MAX_RECONNECT" "10" env)) [
    | inl b ↦
        inr (rw (a, b) refl, inr (inl (int_var-ReadsInt env "NATS_MAX_RECONNECT" "10" none b)))
    | inr (k, b) ↦ elim (Option-cases (int_var "ETCD_PORT" "2379" env)) [
      | inl c ↦
          inr (rw (a, b, c) refl, inr (inr (inl (int_var-ReadsInt env "ETCD_PORT" "2379" none c))))
      | inr (p, c) ↦ elim (Option-cases (int_var "ETCD_TIMEOUT" "5" env)) [
        | inl d ↦
            inr (
              rw (a, b, c, d) refl,
              inr (inr (inr (int_var-ReadsInt env "ETCD_TIMEOUT" "5" none d))),
            )
        | inr (t, d) ↦ inl (
          _,
          rw (a, b, c, d) refl,
          record {
            connect_timeout = int_var-ReadsInt env "NATS_CONNECT_TIMEOUT" "5" _ a;
            max_reconnect = int_var-ReadsInt env "NATS_MAX_RECONNECT" "10" _ b;
            port = int_var-ReadsInt env "ETCD_PORT" "2379" _ c;
            timeout = int_var-ReadsInt env "ETCD_TIMEOUT" "5" _ d;
            url = get_or-Reads env "NATS_URL" "nats://localhost:4222";
            endpoint = get_or-Reads env "MINIO_ENDPOINT" "localhost:9000";
            access_key = get_or-Reads env "MINIO_ACCESS_KEY" "minioadmin";
            secret_key = get_or-Reads env "MINIO_SECRET_KEY" "minioadmin";
            bucket = get_or-Reads env "MINIO_BUCKET" "gaia-checkpoints";
            secure = (
              _,
              get_or-Reads env "MINIO_SECURE" "false",
              is_true_iff (get_or "MINIO_SECURE" "false" env),
            );
            host = get_or-Reads env "ETCD_HOST" "localhost";
            namespace = get_or-Reads env "ETCD_NAMESPACE" "gaia";
          },
        )
      ]
    ]
  ]
]
