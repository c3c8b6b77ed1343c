-- ===== src/Config.antt =====
-- gaia_server/config.py: the class ServerConfig. `coordination_target_ms` is a float in the source,
-- with the whole value 10.0, and is kept as a number of milliseconds.
use gaia_server.Base.{ℕ, String, Bool, true, false, List, [], ◌∷◌}

pub record ServerConfig : Type 0 where
  pub node_id : String
  pub cluster_id : String
  pub grpc_port : ℕ
  pub health_port : ℕ
  pub worker_threads : ℕ
  pub coordination_target_ms : ℕ
  pub checkpoint_interval_seconds : ℕ
  pub max_tenants : ℕ
  pub tenant_isolation : String
  pub pqc_enabled : Bool
  pub pqc_kem_algorithm : String
  pub pqc_sig_algorithm : String
  pub tls_min_version : String
  pub tls_group_preference : String
  pub metrics_enabled : Bool
  pub tracing_enabled : Bool
  pub audit_log_path : String
  pub state_root : String
  pub preempt_rt_required : Bool
  pub cgroup_isolation : Bool
  pub sched_ext_enabled : Bool
  pub allowed_tenants : List String

abbrev pub default_server_config : ServerConfig
default_server_config = record {
  node_id = "gaia-server-node-01";
  cluster_id = "gaia-cluster-main";
  grpc_port = 50051;
  health_port = 8080;
  worker_threads = 8;
  coordination_target_ms = 10;
  checkpoint_interval_seconds = 300;
  max_tenants = 64;
  tenant_isolation = "namespace";
  pqc_enabled = true;
  pqc_kem_algorithm = "ML-KEM-768";
  pqc_sig_algorithm = "ML-DSA-65";
  tls_min_version = "TLSv1.3";
  tls_group_preference = "X25519MLKEM768";
  metrics_enabled = true;
  tracing_enabled = true;
  audit_log_path = ".gaia_server_state/audit.jsonl";
  state_root = ".gaia_server_state";
  preempt_rt_required = false;
  cgroup_isolation = false;
  sched_ext_enabled = false;
  allowed_tenants = "default" ∷ [];
}
