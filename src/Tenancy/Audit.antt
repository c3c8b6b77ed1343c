-- ===== src/Tenancy/Audit.antt =====
-- What a registry keeps for ever, and what its queries report.
use Prim.Native.String.{◌++◌ as concat}
use gaia_server.Base.{
  ok, err, ◌≤◌, ◌<◌, String, ◌≡◌, ◌≢◌, refl, true, false, Option, none, some, List, [], ◌∷◌, arith,
  ◌==◌, eq_iff, Option-cases, inl, inr, Bool-cases,
}
use gaia_server.Config.{ServerConfig}
use gaia_server.Dict
use gaia_server.Dict.{Dict, IsUnique, get-insert, get-insert_self}
use gaia_server.Tenancy.{
  TenantRecord, TenantRegistry, max_tenants_reached, register, register_known, deregister,
  deregister_known, namespace_of, new_record, active_count, get_tenant, Request, register_call,
  deregister_call, serve, serve_all,
}
use gaia_server.Tenancy.Registration.{register-full, register-again, register-new}

-- The second record is the first, but it may have become inactive.
pub record IsLater (t u : TenantRecord) : Type 0 where
  pub id : u.tenant_id ≡ t.tenant_id
  pub place : u.namespace ≡ t.namespace
  pub mode : u.isolation_mode ≡ t.isolation_mode
  pub data_of : u.metadata ≡ t.metadata
  pub still_off : t.active ≡ false → u.active ≡ false

IsLater-refl : (t : TenantRecord) → IsLater t t
IsLater-refl t = record { id = refl; place = refl; mode = refl; data_of = refl; still_off = λ h. h }

IsLater-trans : {t u v : TenantRecord} → IsLater t u → IsLater u v → IsLater t v
IsLater-trans h k = record {
  id = cc (h.id, k.id);
  place = cc (h.place, k.place);
  mode = cc (h.mode, k.mode);
  data_of = cc (h.data_of, k.data_of);
  still_off = λ off. k.still_off (h.still_off off);
}

-- The tenant `k` has a record in `r` that comes from `t`.
abbrev pub Keeps : String → TenantRecord → TenantRegistry → Type 0
Keeps k t r = (u : TenantRecord) × (Dict.get k r.tenants ≡ some u) × IsLater t u

register-Keeps :
    (k tid : String) (metadata : Option (Dict String)) (t : TenantRecord) (r : TenantRegistry)
    → Dict.get k r.tenants ≡ some t
    → Keeps k t (register tid metadata r).1
unfolding register
register-Keeps k tid metadata t r at_k = (t, same, IsLater-refl t)
  where
    same : Dict.get k (register tid metadata r).1.tenants ≡ some t
    same = elim (Option-cases (Dict.get tid r.tenants)) [
      | inr (u, known) ↦ rw (known, register_known) (ground arith)
      | inl fresh ↦
          rw (fresh, register_known)
            (ground
              (arith, eq_iff tid k, get-insert tid k (new_record r.config tid metadata) r.tenants))
    ]

deregister-Keeps :
    (k tid : String) (t : TenantRecord) (r : TenantRegistry)
    → Dict.get k r.tenants ≡ some t
    → Keeps k t (deregister tid r).1
unfolding deregister
deregister-Keeps k tid t r at_k = elim (Option-cases (Dict.get tid r.tenants)) [
  | inl unknown ↦ rw (unknown, deregister_known) (t, at_k, IsLater-refl t)
  | inr (u, known) ↦
      let off : TenantRecord = record u { active = false } in
      elim (Bool-cases (tid == k)) [
        | inl same ↦
            rw (known, deregister_known)
              (
                off,
                ground (arith, get-insert tid k off r.tenants),
                record {
                  id = ground (arith, eq_iff tid k);
                  place = ground (arith, eq_iff tid k);
                  mode = ground (arith, eq_iff tid k);
                  data_of = ground (arith, eq_iff tid k);
                  still_off = λ _. refl;
                },
              )
        | inr other ↦
            rw (known, deregister_known)
              (t, ground (arith, get-insert tid k off r.tenants), IsLater-refl t)
      ]
]

serve-Keeps :
    (q : Request) (k : String) (t : TenantRecord) (r : TenantRegistry)
    → Dict.get k r.tenants ≡ some t
    → Keeps k t (serve q r)
unfolding serve
serve-Keeps (register_call tid metadata) k t r at_k = register-Keeps k tid metadata t r at_k
serve-Keeps (deregister_call tid) k t r at_k = deregister-Keeps k tid t r at_k

-- A tenant that is known stays known under every sequence of calls, with the same id, namespace,
-- isolation mode and metadata; and once it is inactive it stays so, also when it is registered
-- again.
pub audit_trail :
    (qs : List Request) (k : String) (t : TenantRecord) (r : TenantRegistry)
    → Dict.get k r.tenants ≡ some t
    → Keeps k t (serve_all qs r)
unfolding serve_all
audit_trail [] k t r at_k = (t, at_k, IsLater-refl t)
audit_trail (q ∷ qs) k t r at_k =
    let (u, at_u, later) = serve-Keeps q k t r at_k in
    let (v, at_v, last) = audit_trail qs k u (serve q r) at_u in (v, at_v, IsLater-trans later last)

-- The record of a tenant that is new: active, in its own namespace, with the configured isolation
-- mode and the metadata given.
pub record IsNew (config : ServerConfig) (tid : String) (metadata : Option (Dict String))
    (t : TenantRecord) : Type 0 where
  pub id : t.tenant_id ≡ tid
  pub place : t.namespace ≡ concat "gaia-" tid
  pub mode : t.isolation_mode ≡ config.tenant_isolation
  pub on : t.active ≡ true
  pub given : (d : Dict String) → metadata ≡ some d → t.metadata ≡ d
  pub not_given : metadata ≡ none → t.metadata ≡ []

new_record-IsNew :
    (config : ServerConfig) (tid : String) (metadata : Option (Dict String))
    → IsNew config tid metadata (new_record config tid metadata)
unfolding new_record namespace_of
new_record-IsNew config tid metadata = record {
  id = refl;
  place = refl;
  mode = refl;
  on = refl;
  given = λ d h. rw h refl;
  not_given = λ h. rw h refl;
}

-- The three outcomes of `register`, and the registry after each: at the limit it raises and
-- changes nothing, also for a tenant that is already registered; below the limit a known tenant's
-- record is returned as it is, active or not, and nothing changes; and an unknown one gets a new,
-- active record with its own namespace, the configured isolation mode and the metadata given, which
-- then stands under its id, while every other id has what it had.
pub register_outcomes :
    (tid : String) (metadata : Option (Dict String)) (r : TenantRegistry)
    → (r.config.max_tenants ≤ active_count r.tenants
        → register tid metadata r ≡ (err (max_tenants_reached r.config.max_tenants tid), r))
      × ((t : TenantRecord)
          → active_count r.tenants < r.config.max_tenants
          → Dict.get tid r.tenants ≡ some t
          → register tid metadata r ≡ (ok t, r))
      × (active_count r.tenants < r.config.max_tenants
          → Dict.get tid r.tenants ≡ none
          → (t : TenantRecord) × IsNew r.config tid metadata t
            × ((register tid metadata r).0 ≡ ok t)
            × (get_tenant tid (register tid metadata r).1 ≡ ok t)
            × ((register tid metadata r).1.config ≡ r.config)
            × ((j : String)
                → j ≢ tid
                → Dict.get j (register tid metadata r).1.tenants ≡ Dict.get j r.tenants))
unfolding get_tenant
register_outcomes tid metadata r = (
  register-full tid metadata r,
  λ t room known. register-again tid metadata r room known,
  λ room fresh.
      let e = register-new tid metadata r room fresh in
      let t = new_record r.config tid metadata in
      (
        t,
        new_record-IsNew r.config tid metadata,
        rw e,
        rw e (rw (get-insert_self tid t r.tenants, get_tenant)),
        rw e refl,
        (λ j ne. rw e (ground (arith, get-insert tid j t r.tenants, eq_iff tid j))),
      ),
)
