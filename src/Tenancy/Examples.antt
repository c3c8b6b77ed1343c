-- ===== src/Tenancy/Examples.antt =====
-- The theorems on the registry of tenants at concrete calls.
use gaia_server.Base.{
  ◌≤◌, ◌<◌, String, ◌≡◌, ◌≢◌, refl, none, some, List, [], ◌∷◌, count, length, ok, err,
}
use gaia_server.Config.{ServerConfig, default_server_config}
use gaia_server.Dict
use gaia_server.Tenancy.{
  TenantRecord, TenantRegistry, max_tenants_reached, init, active_count, new_record, register,
  get_tenant, list_tenants, Request, register_call, deregister_call, serve, serve_all,
}
use gaia_server.Tenancy.Registration.{IsValid, serve_all-IsValid}
use gaia_server.Tenancy.Audit.{IsNew, Keeps, audit_trail, register_outcomes}
use gaia_server.Tenancy.Listing.{times_listed, listing_is_exact}

abbrev small : ServerConfig
small = record default_server_config { max_tenants = 2 }

-- The third registration is refused, and so is a second one of a tenant while the registry is full.
abbrev calls : List Request
calls =
    register_call "x" none
    ∷ register_call "y" none
    ∷ register_call "z" none
    ∷ register_call "x" none
    ∷ []

runs : list_tenants (serve_all calls (init small)) ≡ "x" ∷ "y" ∷ []
unfolding serve_all serve register init new_record active_count list_tenants Dict.insert Dict.get
runs = refl

serve_all-IsValid_example :
    let r = serve_all calls (init small) in
    IsValid small r
    × ((j k : String) (t u : TenantRecord)
        → Dict.get j r.tenants ≡ some t
        → Dict.get k r.tenants ≡ some u
        → j ≢ k
        → t.namespace ≢ u.namespace)
serve_all-IsValid_example = serve_all-IsValid small calls

abbrev one : TenantRegistry
one = serve_all (register_call "x" none ∷ []) (init small)

one_has_x : Dict.get "x" one.tenants ≡ some (new_record small "x" none)
unfolding serve_all serve register init active_count Dict.insert Dict.get
one_has_x = refl

audit_trail_example :
    Keeps "x"
      (new_record small "x" none)
      (serve_all (deregister_call "x" ∷ register_call "x" none ∷ []) one)
audit_trail_example =
    audit_trail (deregister_call "x" ∷ register_call "x" none ∷ []) "x" (new_record small "x" none)
      one one_has_x

register_outcomes_example :
    (one.config.max_tenants ≤ active_count one.tenants
      → register "y" none one ≡ (err (max_tenants_reached one.config.max_tenants "y"), one))
    × ((t : TenantRecord)
        → active_count one.tenants < one.config.max_tenants
        → Dict.get "y" one.tenants ≡ some t
        → register "y" none one ≡ (ok t, one))
    × (active_count one.tenants < one.config.max_tenants
        → Dict.get "y" one.tenants ≡ none
        → (t : TenantRecord) × IsNew one.config "y" none t
          × ((register "y" none one).0 ≡ ok t)
          × (get_tenant "y" (register "y" none one).1 ≡ ok t)
          × ((register "y" none one).1.config ≡ one.config)
          × ((j : String)
              → j ≢ "y"
              → Dict.get j (register "y" none one).1.tenants ≡ Dict.get j one.tenants))
register_outcomes_example = register_outcomes "y" none one

listing_is_exact_example :
    let r = serve_all calls (init small) in
    (count "x" (list_tenants r) ≡ times_listed (Dict.get "x" r.tenants))
    × (length (list_tenants r) ≤ 2)
listing_is_exact_example = listing_is_exact small calls "x"
