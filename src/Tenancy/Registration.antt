-- ===== src/Tenancy/Registration.antt =====
-- The invariant of the registry, under every sequence of calls.
use text.Mathlib.TextLemmas.{append_cancel_left}
use native.Mathlib.Decide.{dec_le}
use gaia_server.Base.{
  ok, err, ◌+◌, ◌≤◌, ◌<◌, String, ◌≡◌, ◌≢◌, refl, sym, ap, subst, ◌∙◌, false, Option, none, some,
  List, [], ◌∷◌, arith, eq_iff, Option-cases, inl, inr,
}
use gaia_server.Config.{ServerConfig}
use gaia_server.Dict
use gaia_server.Dict.{IsUnique-insert, Dict, IsUnique, get-insert}
use gaia_server.Tenancy.{
  TenantRecord, TenantRegistry, max_tenants_reached, init, active_count, namespace_of, new_record,
  register, register_known, deregister, deregister_known, Request, register_call, deregister_call,
  serve, serve_all,
}

-- A record stands under its own id, in the namespace and with the isolation of its registration.
pub record IsOwn (config : ServerConfig) (k : String) (t : TenantRecord) : Type 0 where
  pub id : t.tenant_id ≡ k
  pub place : t.namespace ≡ namespace_of k
  pub mode : t.isolation_mode ≡ config.tenant_isolation

pub record IsValid (config : ServerConfig) (r : TenantRegistry) : Type 0 where
  pub same_config : r.config ≡ config
  pub within : active_count r.tenants ≤ config.max_tenants
  pub unique : IsUnique r.tenants
  pub own : (k : String) (t : TenantRecord) → Dict.get k r.tenants ≡ some t → IsOwn config k t

active_count-insert_new :
    (k : String) (t : TenantRecord) (d : Dict TenantRecord)
    → Dict.get k d ≡ none
    → active_count (Dict.insert k t d) ≤ active_count d + 1
unfolding active_count Dict.insert Dict.get
active_count-insert_new k t [] h = ground arith
active_count-insert_new k t ((j, w) ∷ d) h = ground (arith, active_count-insert_new k t d)

active_count-insert_off :
    (k : String) (t : TenantRecord) (d : Dict TenantRecord)
    → t.active ≡ false
    → active_count (Dict.insert k t d) ≤ active_count d
unfolding active_count Dict.insert
active_count-insert_off k t [] h = ground arith
active_count-insert_off k t ((j, w) ∷ d) h = ground (arith, active_count-insert_off k t d h)

module _ (tid : String) (metadata : Option (Dict String)) (r : TenantRegistry) where
  pub register-full :
      r.config.max_tenants ≤ active_count r.tenants
      → register tid metadata r ≡ (err (max_tenants_reached r.config.max_tenants tid), r)
  unfolding register
  register-full full = ground arith

  pub register-again :
      {t : TenantRecord}
      → active_count r.tenants < r.config.max_tenants
      → Dict.get tid r.tenants ≡ some t
      → register tid metadata r ≡ (ok t, r)
  unfolding register
  register-again room known = rw (known, register_known) (ground arith)

  pub register-new :
      active_count r.tenants < r.config.max_tenants
      → Dict.get tid r.tenants ≡ none
      → register tid metadata r ≡ (
        ok (new_record r.config tid metadata),
        record r { tenants = Dict.insert tid (new_record r.config tid metadata) r.tenants },
      )
  unfolding register
  register-new room fresh = rw (fresh, register_known) (ground arith)

module _ (config : ServerConfig) where
  IsOwn-insert :
      (k : String) (t : TenantRecord) (d : Dict TenantRecord)
      → IsOwn config k t
      → ((j : String) (u : TenantRecord) → Dict.get j d ≡ some u → IsOwn config j u)
      → (j : String) (u : TenantRecord) → Dict.get j (Dict.insert k t d) ≡ some u
      → IsOwn config j u
  IsOwn-insert k t d here there j u e =
      ground (arith, get-insert k j t d, eq_iff k j, here, there j u)

  new_record-IsOwn :
      (tid : String) (metadata : Option (Dict String))
      → IsOwn config tid (new_record config tid metadata)
  unfolding new_record
  new_record-IsOwn tid metadata = record { id = refl; place = refl; mode = refl }

  -- A registration keeps the invariant on every branch.
  pub register-IsValid :
      (tid : String) (metadata : Option (Dict String)) (r : TenantRegistry)
      → IsValid config r
      → IsValid config (register tid metadata r).1
  register-IsValid tid metadata r v = elim (dec_le r.config.max_tenants (active_count r.tenants)) [
    | yes full ↦ rw (register-full tid metadata r full) v
    | no gt ↦
        let room : active_count r.tenants < r.config.max_tenants = omega arith in
        elim (Option-cases (Dict.get tid r.tenants)) [
          | inr (t, known) ↦ rw (register-again tid metadata r room known) v
          | inl fresh ↦
              let t = new_record r.config tid metadata in
              rw (register-new tid metadata r room fresh) (record {
                same_config = v.same_config;
                within = omega (
                  arith,
                  active_count-insert_new tid t r.tenants fresh,
                  ap (λ (c : ServerConfig). c.max_tenants) v.same_config,
                );
                unique = IsUnique-insert tid t r.tenants v.unique;
                own =
                    IsOwn-insert tid t r.tenants
                      (subst (λ (c : ServerConfig). IsOwn config tid (new_record c tid metadata))
                        (sym v.same_config) (new_record-IsOwn tid metadata))
                      v.own;
              })
        ]
  ]

  deregister-IsValid :
      (tid : String) (r : TenantRegistry) → IsValid config r → IsValid config (deregister tid r).1
  unfolding deregister
  deregister-IsValid tid r v = elim (Option-cases (Dict.get tid r.tenants)) [
    | inl unknown ↦ rw (unknown, deregister_known) v
    | inr (t, known) ↦
        let t' : TenantRecord = record t { active = false } in
        let own = v.own tid t known in
        rw (known, deregister_known)
          (record {
            same_config = v.same_config;
            within = omega (arith, v.within, active_count-insert_off tid t' r.tenants refl);
            unique = IsUnique-insert tid t' r.tenants v.unique;
            own =
                IsOwn-insert tid t' r.tenants
                  (record { id = own.id; place = own.place; mode = own.mode }) v.own;
          })
  ]

  serve-IsValid : (q : Request) (r : TenantRegistry) → IsValid config r → IsValid config (serve q r)
  unfolding serve
  serve-IsValid (register_call tid metadata) r v = register-IsValid tid metadata r v
  serve-IsValid (deregister_call tid) r v = deregister-IsValid tid r v

  serve_all_from-IsValid :
      (qs : List Request) (r : TenantRegistry) → IsValid config r → IsValid config (serve_all qs r)
  unfolding serve_all
  serve_all_from-IsValid [] r v = v
  serve_all_from-IsValid (q ∷ qs) r v = serve_all_from-IsValid qs (serve q r) (serve-IsValid q r v)

  init-IsValid : IsValid config (init config)
  unfolding init active_count Dict.get
  init-IsValid = record { same_config = refl; within = omega arith; unique = tt; own = λ k t e. cc }

  IsValid-disjoint :
      (r : TenantRegistry)
      → IsValid config r
      → (j k : String) (t u : TenantRecord) → Dict.get j r.tenants ≡ some t
      → Dict.get k r.tenants ≡ some u
      → j ≢ k
      → t.namespace ≢ u.namespace
  unfolding namespace_of
  IsValid-disjoint r v j k t u at_j at_k ne same =
      ne (
        append_cancel_left "gaia-" j k (sym (v.own j t at_j).place ∙ same ∙ (v.own k u at_k).place))

  -- After any calls on a new registry, failed ones included: at most `max_tenants` tenants are
  -- active, no id has two records, and every record stands under its own id, with the namespace of
  -- that id and the configured isolation mode; and the namespaces of two different tenants are
  -- different.
  pub serve_all-IsValid :
      (qs : List Request)
      → let r = serve_all qs (init config) in
        IsValid config r
        × ((j k : String) (t u : TenantRecord)
            → Dict.get j r.tenants ≡ some t
            → Dict.get k r.tenants ≡ some u
            → j ≢ k
            → t.namespace ≢ u.namespace)
  serve_all-IsValid qs =
      let v = serve_all_from-IsValid qs (init config) init-IsValid in
      (v, IsValid-disjoint (serve_all qs (init config)) v)
