-- ===== src/Tenancy.antt =====
-- gaia_server/tenancy/tenant_registry.py: the class TenantRegistry. Each method holds the object's
-- lock from its first read to its last write, so calls from several threads are a sequence.
pub mod Registration
pub mod Audit
pub mod Listing
mod Examples
use Prim.Native.String.{◌++◌ as concat}
use gaia_server.Base.{
  ℕ, ◌+◌, String, Bool, true, false, Option, none, some, List, [], ◌∷◌, map, leb, if◌then◌else◌,
  or_else, Result, ok, err,
}
use gaia_server.Config.{ServerConfig}
use gaia_server.Dict
use gaia_server.Dict.{Dict}

pub record TenantRecord : Type 0 where
  pub tenant_id : String
  pub namespace : String
  pub isolation_mode : String
  pub active : Bool
  pub metadata : Dict String

pub record TenantRegistry : Type 0 where
  pub config : ServerConfig
  pub tenants : Dict TenantRecord

-- What the methods raise: RuntimeError, with the limit and the name that is refused, and KeyError.
pub data TenantError : Type 0 where
  max_tenants_reached : ℕ → String → TenantError
  unknown_tenant : String → TenantError

unfoldable pub init : ServerConfig → TenantRegistry
init config = record { config = config; tenants = [] }

-- `sum(1 for t in self._tenants.values() if t.active)`
unfoldable pub active_count : Dict TenantRecord → ℕ
active_count [] = 0
active_count ((k, t) ∷ d) = (if t.active then 1 else 0) + active_count d

-- `f"gaia-{tenant_id}"`
unfoldable pub namespace_of : String → String
namespace_of tenant_id = concat "gaia-" tenant_id

unfoldable pub new_record : ServerConfig → String → Option (Dict String) → TenantRecord
new_record config tenant_id metadata = record {
  tenant_id = tenant_id;
  namespace = namespace_of tenant_id;
  isolation_mode = config.tenant_isolation;
  active = true;
  metadata = or_else [] metadata;
}

abbrev pub register_known :
    Option TenantRecord
    → String
    → Option (Dict String)
    → TenantRegistry
    → Result TenantError TenantRecord × TenantRegistry
register_known (some t) tenant_id metadata r = (ok t, r)
register_known none tenant_id metadata r =
    let t = new_record r.config tenant_id metadata in
    (ok t, record r { tenants = Dict.insert tenant_id t r.tenants })

unfoldable pub register :
    String
    → Option (Dict String)
    → TenantRegistry
    → Result TenantError TenantRecord × TenantRegistry
register tenant_id metadata r =
    if leb r.config.max_tenants (active_count r.tenants)
    then (err (max_tenants_reached r.config.max_tenants tenant_id), r)
    else register_known (Dict.get tenant_id r.tenants) tenant_id metadata r

abbrev pub deregister_known :
    Option TenantRecord → String → TenantRegistry → Result TenantError (Unit {0}) × TenantRegistry
deregister_known none tenant_id r = (err (unknown_tenant tenant_id), r)
deregister_known (some t) tenant_id r =
    (ok tt, record r { tenants = Dict.insert tenant_id (record t { active = false }) r.tenants })

unfoldable pub deregister : String → TenantRegistry → Result TenantError (Unit {0}) × TenantRegistry
deregister tenant_id r = deregister_known (Dict.get tenant_id r.tenants) tenant_id r

-- `TenantRegistry.get`
unfoldable pub get_tenant : String → TenantRegistry → Result TenantError TenantRecord
get_tenant tenant_id r = elim (Dict.get tenant_id r.tenants) [
  | none ↦ err (unknown_tenant tenant_id)
  | some t ↦ ok t
]

active_ids : Dict TenantRecord → List String
active_ids [] = []
active_ids ((k, t) ∷ d) = let rest = active_ids d in if t.active then k ∷ rest else rest

unfoldable pub list_tenants : TenantRegistry → List String
unfolding active_ids
list_tenants r = active_ids r.tenants

pub record TenantSummary : Type 0 where
  pub tenant_id : String
  pub namespace : String
  pub isolation_mode : String
  pub active : Bool

abbrev pub summary : TenantRecord → TenantSummary
summary t = record {
  tenant_id = t.tenant_id;
  namespace = t.namespace;
  isolation_mode = t.isolation_mode;
  active = t.active;
}

unfoldable pub snapshot : TenantRegistry → List TenantSummary
snapshot r = map summary (Dict.values r.tenants)

-- A call of one of the two methods that change the registry.
pub data Request : Type 0 where
  register_call : String → Option (Dict String) → Request
  deregister_call : String → Request

unfoldable pub serve : Request → TenantRegistry → TenantRegistry
serve (register_call tenant_id metadata) r = (register tenant_id metadata r).1
serve (deregister_call tenant_id) r = (deregister tenant_id r).1

unfoldable pub serve_all : List Request → TenantRegistry → TenantRegistry
serve_all [] r = r
serve_all (q ∷ qs) r = serve_all qs (serve q r)
