-- ===== src/Tenancy/Listing.antt =====
-- What `list_tenants` reports.
use gaia_server.Base.{
  ℕ, String, ◌≡◌, ◌≤◌, Option, none, some, List, [], ◌∷◌, arith, eq_iff, if◌then◌else◌, count,
  length,
}
use gaia_server.Dict
use gaia_server.Dict.{Dict, IsUnique}
use gaia_server.Config.{ServerConfig}
use gaia_server.Tenancy.{
  TenantRecord, active_ids, active_count, list_tenants, Request, init, serve_all,
}
use gaia_server.Tenancy.Registration.{serve_all-IsValid}

-- How often a tenant with this record is to be listed.
abbrev pub times_listed : Option TenantRecord → ℕ
times_listed none = 0
times_listed (some t) = if t.active then 1 else 0

count-active_ids :
    (k : String) (d : Dict TenantRecord)
    → IsUnique d
    → count k (active_ids d) ≡ times_listed (Dict.get k d)
unfolding active_ids Dict.get
count-active_ids k [] u = omega arith
count-active_ids k ((j, t) ∷ d) u = ground (arith, eq_iff j k, count-active_ids k d u.1)

length-active_ids : (d : Dict TenantRecord) → length (active_ids d) ≡ active_count d
unfolding active_ids active_count
length-active_ids [] = omega arith
length-active_ids ((k, t) ∷ d) = ground (arith, length-active_ids d)

-- After any calls on a new registry, the list of tenants has each active tenant once and no other,
-- and is no longer than `max_tenants`.
pub listing_is_exact :
    (config : ServerConfig) (qs : List Request) (k : String)
    → let r = serve_all qs (init config) in
      (count k (list_tenants r) ≡ times_listed (Dict.get k r.tenants))
      × (length (list_tenants r) ≤ config.max_tenants)
unfolding list_tenants
listing_is_exact config qs k =
    let r = serve_all qs (init config) in
    let (v, _) = serve_all-IsValid config qs in
    (count-active_ids k r.tenants v.unique, omega (arith, v.within, length-active_ids r.tenants))
