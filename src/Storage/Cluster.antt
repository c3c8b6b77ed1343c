-- ===== src/Storage/Cluster.antt =====
-- Packages over servers that keep nothing but their streams and buckets, for the examples.
use gaia_server.Base.{
  String, Bool, true, false, Option, none, some, [], ◌==◌, if◌then◌else◌, Result, ok, err,
}
use gaia_server.Errors.{Exn, nats_not_found, nats_timeout, s3_error}
use gaia_server.Storage.Etcd.{EtcdClient}
use gaia_server.Storage.Minio.{MinioClient}
use gaia_server.Storage.Jetstream.{NatsClient}
use gaia_server.Storage.Bootstrap.{StreamConfig, NatsConnection, Packages}

-- The streams by name, and the buckets.
pub record Cluster : Type 0 where
  pub stream_of : String → Option StreamConfig
  pub has_bucket : String → Bool

abbrev pub found : Option StreamConfig → Result Exn (Unit {0})
found none = err nats_not_found
found (some c) = ok tt

abbrev pub nats_client : NatsClient Cluster (Unit {0})
nats_client = record {
  publish = λ subject content s. (ok 1, s);
  subscribe = λ subject start s. (ok tt, s);
  next_msg = λ sub s. (err nats_timeout, s);
  unsubscribe = λ sub s. (ok tt, s);
  stream_messages = λ name s. ok 0;
  flush = λ s. (ok tt, s);
  is_connected = λ s. true;
  drain = λ s. (ok tt, s);
}

abbrev pub connection : NatsConnection Cluster (Unit {0})
connection = record {
  client = nats_client;
  find_stream = λ name s. found (s.stream_of name);
  add_stream =
      λ c s. (ok tt, record s { stream_of = λ j. if c.name == j then some c else s.stream_of j });
}

abbrev pub minio_client : MinioClient Cluster
minio_client = record {
  get_object = λ b k s. err (s3_error "NoSuchKey");
  put_object = λ b k v t s. (ok tt, s);
  stat_object = λ b k s. ok tt;
  bucket_exists = λ b s. ok (s.has_bucket b);
  make_bucket =
      λ b s. (ok tt, record s { has_bucket = λ j. if b == j then true else s.has_bucket j });
}

abbrev pub etcd_client : EtcdClient Cluster
etcd_client = record {
  client_get = λ k s. ok none;
  lease = λ n s. (ok 1, s);
  client_put = λ k v l s. (ok tt, s);
  client_delete = λ k s. (ok tt, s);
  put_if_value = λ k a b s. (ok false, s);
  client_get_prefix = λ p s. ok [];
  status = λ s. ok (1, "3.5");
}

abbrev pub packages : Packages Cluster (Unit {0})
packages = record {
  nats_connect = λ url timeout tries s. (ok connection, s);
  minio = λ e a k secure. ok minio_client;
  etcd3 = λ host port timeout s. (ok etcd_client, s);
}

abbrev pub empty_cluster : Cluster
empty_cluster = record { stream_of = λ j. none; has_bucket = λ b. false }
