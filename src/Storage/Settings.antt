-- ===== src/Storage/Settings.antt =====
-- gaia_server/storage/settings.py: the class StorageSettings. An environment is a dict of texts.
use gaia_server.Base.{String, Bool, Result, ok}
use gaia_server.Base.Numbers.{ℤ}
use gaia_server.Base.Text.{is_true}
use gaia_server.Dict.{Dict, get_or}
use gaia_server.Environ.{int_var, with_int}
use gaia_server.Errors.{Exn}

pub record StorageSettings : Type 0 where
  pub nats_url : String
  pub nats_connect_timeout : ℤ
  pub nats_max_reconnect : ℤ
  pub minio_endpoint : String
  pub minio_access_key : String
  pub minio_secret_key : String
  pub minio_bucket : String
  pub minio_secure : Bool
  pub etcd_host : String
  pub etcd_port : ℤ
  pub etcd_namespace : String
  pub etcd_timeout : ℤ

unfoldable pub from_env : Dict String → Result Exn StorageSettings
from_env env = with_int (int_var "NATS_CONNECT_TIMEOUT" "5" env) (λ connect_timeout.
    with_int (int_var "NATS_MAX_RECONNECT" "10" env) (λ max_reconnect.
      with_int (int_var "ETCD_PORT" "2379" env) (λ port.
        with_int (int_var "ETCD_TIMEOUT" "5" env) (λ timeout. ok (record {
          nats_url = get_or "NATS_URL" "nats://localhost:4222" env;
          nats_connect_timeout = connect_timeout;
          nats_max_reconnect = max_reconnect;
          minio_endpoint = get_or "MINIO_ENDPOINT" "localhost:9000" env;
          minio_access_key = get_or "MINIO_ACCESS_KEY" "minioadmin" env;
          minio_secret_key = get_or "MINIO_SECRET_KEY" "minioadmin" env;
          minio_bucket = get_or "MINIO_BUCKET" "gaia-checkpoints" env;
          minio_secure = is_true (get_or "MINIO_SECURE" "false" env);
          etcd_host = get_or "ETCD_HOST" "localhost" env;
          etcd_port = port;
          etcd_namespace = get_or "ETCD_NAMESPACE" "gaia" env;
          etcd_timeout = timeout;
        })))))
