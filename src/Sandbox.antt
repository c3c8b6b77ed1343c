-- ===== src/Sandbox.antt =====
-- gaia_server/sandbox/guest_sandbox.py: the class GuestSandbox.
mod Examples
mod Lifecycle
use Prim.Native.String.{◌++◌ as concat}
use gaia_server.Base.{
  ℕ, String, Bool, true, false, Option, none, some, List, [], ◌∷◌, map, or_else, is_some,
  if◌then◌else◌, Result, ok, err, Exec, pure, raise, modify, gets, ◌>>=◌, ◌>>◌,
}
use gaia_server.Dict
use gaia_server.Dict.{Dict}

-- The values of a resource profile.
pub data Resource : Type 0 where
  amount : ℕ → Resource
  label : String → Resource
  absent : Resource

abbrev pub ResourceProfile : Type 0
ResourceProfile = Dict Resource

-- What `launch_app` returns: the entries that the code reads, and the others.
pub record LaunchResult : Type 0 where
  pub status : Option String
  pub codex_aligned : Option Bool
  pub entries : Dict String

-- How a call of an optional package ends: it returns, the package is missing (ImportError), or it
-- raises another exception of this text.
pub data Call (A : Type 0) : Type 0 where
  returned : A → Call A
  missing : Call A
  failed : String → Call A

-- The packages gaia_hypervisor and gaia_core, over the state `S` of the node: the install gate (of
-- the package and the tenant), `launch_app` (of the package and the intent), the report of the
-- energy draw, and a stage of the codex.
pub record Host (S : Type 0) : Type 0 where
  pub enforce_codex_on_install : String → String → S → Call (Unit {0}) × S
  pub launch_app : String → String → S → Call LaunchResult × S
  pub report : String → ResourceProfile → String → String → S → Call (Unit {0}) × S
  pub invoke_stage : String → S → Call (Unit {0}) × S

pub data SandboxError : Type 0 where
  admission_error : String → SandboxError
  raised : String → SandboxError

pub record Guest : Type 0 where
  pub package_url : String
  pub intent : String
  pub result : LaunchResult
  pub resource_profile : ResourceProfile

pub record GuestSandbox : Type 0 where
  pub tenant_id : String
  pub node_id : String
  pub active_guests : Dict Guest

pub record Admission : Type 0 where
  pub guest_id : String
  pub status : String
  pub tenant_id : String
  pub node_id : String
  pub codex_aligned : Bool
  pub resource_profile : ResourceProfile

pub record Termination : Type 0 where
  pub guest_id : String
  pub status : String
  pub codex_aligned : Bool

-- An entry of `list_guests`: a guest without its launch result.
pub record GuestSummary : Type 0 where
  pub guest_id : String
  pub package_url : String
  pub intent : String
  pub resource_profile : ResourceProfile

unfoldable pub init : String → String → GuestSandbox
init tenant_id node_id = record { tenant_id = tenant_id; node_id = node_id; active_guests = [] }

abbrev pub viriditas_defaults : ResourceProfile
viriditas_defaults =
    ("cpu_cores", amount 2)
    ∷ ("memory_mib", amount 2048)
    ∷ ("gpu", absent)
    ∷ ("energy_budget", label "viriditas-balanced")
    ∷ ("priority", label "normal")
    ∷ []

-- `resource_profile or self._viriditas_defaults()`: an empty profile is false.
unfoldable pub profile_of : Option ResourceProfile → ResourceProfile
profile_of none = viriditas_defaults
profile_of (some []) = viriditas_defaults
profile_of (some (e ∷ profile)) = e ∷ profile

-- The `try` of the install gate, which is skipped where the package is missing.
abbrev pub gate_result : Call (Unit {0}) → Result SandboxError (Unit {0})
gate_result (returned u) = ok tt
gate_result missing = ok tt
gate_result (failed text) =
    err (admission_error (concat "Guest rejected at Codex install gate: " text))

-- The `try` of the launch, with the result of a stub where the package is missing.
unfoldable pub launch_result : String → Call LaunchResult → Result SandboxError LaunchResult
launch_result package_url (returned r) = ok r
launch_result package_url missing = ok (record {
  status = some "stub-running";
  codex_aligned = some false;
  entries = ("guest_type", "unknown") ∷ ("package_url", package_url) ∷ [];
})
launch_result package_url (failed text) =
    err (admission_error (concat "UNIVERSE.launch_app failed: " text))

-- The `try` of `_report_energy_draw`, which catches ImportError only.
abbrev pub report_result : Call (Unit {0}) → Result SandboxError (Unit {0})
report_result (returned u) = ok tt
report_result missing = ok tt
report_result (failed text) = err (raised text)

-- A stage of the codex: the stub codex stands in where the package is missing.
abbrev pub stage_result : Call (Unit {0}) → Result SandboxError (Unit {0})
stage_result = report_result

unfoldable pub guest_id_of : GuestSandbox → String → String
guest_id_of box package_url = concat box.tenant_id (concat ":" package_url)

unfoldable pub add_guest : String → Guest → GuestSandbox → GuestSandbox
add_guest guest_id guest box = record box {
  active_guests = Dict.insert guest_id guest box.active_guests;
}

module _ {S : Type 0} (host : Host S) where
  -- The state: the sandbox, and the node.
  abbrev pub Act : Type 0 → Type 0
  Act A = Exec SandboxError (GuestSandbox × S) A

  -- A call of a package, and what the code makes of its end.
  abbrev pub calling :
      {A B : Type 0} → (GuestSandbox → S → Call A × S) → (Call A → Result SandboxError B) → Act B
  calling f k (box, s) = (k (f box s).0, (box, (f box s).1))

  unfoldable pub admit_guest : String → String → Option ResourceProfile → Act Admission
  admit_guest package_url intent resource_profile = do
    calling (λ box s. host.enforce_codex_on_install package_url box.tenant_id s) gate_result
    result ← calling (λ box s. host.launch_app package_url intent s) (launch_result package_url)
    modify (λ t. (
      add_guest (guest_id_of t.0 package_url)
          (record {
            package_url = package_url;
            intent = intent;
            result = result;
            resource_profile = profile_of resource_profile;
          })
          t.0,
      t.1,
    ))
    calling
        (λ box s.
          host.report (guest_id_of box package_url) (profile_of resource_profile) box.tenant_id
            box.node_id s)
        report_result
    gets (λ t. record {
      guest_id = guest_id_of t.0 package_url;
      status = or_else "unknown" result.status;
      tenant_id = t.0.tenant_id;
      node_id = t.0.node_id;
      codex_aligned = or_else false result.codex_aligned;
      resource_profile = profile_of resource_profile;
    })

  unfoldable pub terminate_guest : String → Act Termination
  terminate_guest guest_id t =
      if Dict.contains guest_id t.0.active_guests
      then (do
        modify (λ u. (record u.0 { active_guests = Dict.erase guest_id u.0.active_guests }, u.1))
        calling (λ box s. host.invoke_stage "Joyful Rejoicing of Celebration" s) stage_result
        pure (record { guest_id = guest_id; status = "terminated"; codex_aligned = true }))
          t
      else (ok (record { guest_id = guest_id; status = "not_found"; codex_aligned = true }), t)

unfoldable pub list_guests : GuestSandbox → List GuestSummary
list_guests box =
    map
      (λ e. record {
        guest_id = e.0;
        package_url = e.1.package_url;
        intent = e.1.intent;
        resource_profile = e.1.resource_profile;
      })
      box.active_guests
