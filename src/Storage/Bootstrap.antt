-- ===== src/Storage/Bootstrap.antt =====
-- gaia_server/storage/bootstrap.py and gaia_server/storage/factory.py: the streams that the server
-- needs, and the making of a storage registry.
use gaia_server.Base.{
  ℕ, String, Bool, true, false, List, [], ◌∷◌, Result, ok, err, Exec, pure, lift, ◌>>=◌, ◌>>◌,
}
use gaia_server.Base.Numbers.{ℤ}
use gaia_server.Dict.{Dict}
use gaia_server.Errors.{Exn, nats_not_found}
use gaia_server.Storage.Settings.{StorageSettings}
use gaia_server.Storage.Etcd.{EtcdClient}
use gaia_server.Storage.Minio.{MinioClient}
use gaia_server.Storage.Jetstream.{NatsClient}
use gaia_server.Storage.Registry.{StorageRegistry}

-- nats.js.api: the members that the code names.
pub data RetentionPolicy : Type 0 where
  limits : RetentionPolicy

pub data StorageType : Type 0 where
  in_file : StorageType

pub data DiscardPolicy : Type 0 where
  old : DiscardPolicy

pub record StreamConfig : Type 0 where
  pub name : String
  pub subjects : List String
  pub retention : RetentionPolicy
  pub max_age : ℕ
  pub storage : StorageType
  pub num_replicas : ℕ
  pub discard : DiscardPolicy

-- A connection of the package nats: the client, and the two calls on streams, by the names that the
-- code uses. A call that a version of the package does not have raises `attribute_error`.
pub record NatsConnection (S Sub : Type 0) : Type 0 where
  pub client : NatsClient S Sub
  pub find_stream : String → S → Result Exn (Unit {0})
  pub add_stream : StreamConfig → Exec Exn S (Unit {0})

-- What the packages nats, minio and etcd3 make of an address.
pub record Packages (S Sub : Type 0) : Type 0 where
  -- URL, timeout of the connection and number of reconnections.
  pub nats_connect : String → ℤ → ℤ → Exec Exn S (NatsConnection S Sub)
  -- Endpoint, access key, secret key and whether the connection is secure.
  pub minio : String → String → String → Bool → Result Exn (MinioClient S)
  -- Host, port and timeout.
  pub etcd3 : String → ℤ → ℤ → Exec Exn S (EtcdClient S)

-- `_STREAMS`
abbrev pub streams : Dict (List String)
streams =
    ("gaia-events", "gaia.events.>" ∷ [])
    ∷ ("gaia-checkpoints", "gaia.checkpoints.>" ∷ [])
    ∷ ("gaia-federation", "gaia.federation.>" ∷ [])
    ∷ ("gaia-governance", "gaia.governance.>" ∷ [])
    ∷ ("gaia-validation", "gaia.validation.>" ∷ [])
    ∷ []

-- `_MAX_AGE_SECONDS`: seven days.
abbrev pub max_age_seconds : ℕ
max_age_seconds = 604800

unfoldable pub config_of : String → List String → StreamConfig
config_of name subjects = record {
  name = name;
  subjects = subjects;
  retention = limits;
  max_age = max_age_seconds;
  storage = in_file;
  num_replicas = 1;
  discard = old;
}

module _ {S : Type 0} where
  -- The `try` of `_ensure_stream`: only NotFoundError of the search is caught.
  abbrev pub after_search :
      Result Exn (Unit {0}) → Result Exn (Unit {0}) × S → S → Result Exn (Unit {0}) × S
  after_search (ok _) added s = (ok tt, s)
  after_search (err nats_not_found) added s = added
  after_search (err e) added s = (err e, s)

  abbrev pub make_missing : MinioClient S → String → Bool → Exec Exn S (Unit {0})
  make_missing client bucket true = pure tt
  make_missing client bucket false = client.make_bucket bucket

  -- `_ensure_bucket`
  unfoldable pub ensure_bucket : MinioClient S → String → Exec Exn S (Unit {0})
  ensure_bucket client bucket s =
      (do there ← lift (client.bucket_exists bucket s); make_missing client bucket there) s

module _ {S Sub : Type 0} where
  -- `_ensure_stream`
  unfoldable pub ensure_stream : NatsConnection S Sub → String → List String → Exec Exn S (Unit {0})
  ensure_stream nc name subjects s =
      after_search (nc.find_stream name s) (nc.add_stream (config_of name subjects) s) s

  -- The loop of `ensure_streams` over the streams that are left.
  unfoldable pub ensure_each : NatsConnection S Sub → Dict (List String) → Exec Exn S (Unit {0})
  ensure_each nc [] = pure tt
  ensure_each nc ((name, subjects) ∷ rest) = ensure_stream nc name subjects >> ensure_each nc rest

  unfoldable pub ensure_streams : NatsConnection S Sub → Exec Exn S (Unit {0})
  ensure_streams nc = ensure_each nc streams

  -- `create_registry`, from the settings on.
  unfoldable pub create_registry :
      Packages S Sub → StorageSettings → Exec Exn S (StorageRegistry S Sub)
  create_registry packages cfg = do
    nc ← packages.nats_connect cfg.nats_url cfg.nats_connect_timeout cfg.nats_max_reconnect
    ensure_streams nc
    minio_client ← lift (
        packages.minio cfg.minio_endpoint cfg.minio_access_key cfg.minio_secret_key
          cfg.minio_secure)
    ensure_bucket minio_client cfg.minio_bucket
    etcd_client ← packages.etcd3 cfg.etcd_host cfg.etcd_port cfg.etcd_timeout
    pure (record {
      events = nc.client;
      checkpoints = record { client = minio_client; bucket = cfg.minio_bucket };
      metadata = record { client = etcd_client; ns = cfg.etcd_namespace };
    })
