-- ===== src/Sandbox/Examples.antt =====
-- The theorems on guests at a concrete node.
use Prim.Native.String.{◌++◌ as concat}
use gaia_server.Base.{◌≢◌, String, true, false, none, ◌≡◌, refl, ◌⊎◌, ok, err}
use gaia_server.Dict
use gaia_server.Sandbox.{
  Call, failed, LaunchResult, launch_result, profile_of, returned, missing, Host, admission_error,
  raised, Guest, GuestSandbox, Admission, init, viriditas_defaults, guest_id_of, add_guest,
  admit_guest, terminate_guest,
}
use gaia_server.Sandbox.Lifecycle.{IsAdded, Answers, admit_outcomes, admit_then_terminate}

-- A node without the packages.
abbrev host : Host (Unit {0})
host = record {
  enforce_codex_on_install = λ url tenant s. (missing, s);
  launch_app = λ url intent s. (missing, s);
  report = λ id profile tenant node s. (missing, s);
  invoke_stage = λ stage s. (returned tt, s);
}

abbrev box : GuestSandbox
box = init "acme" "node-0"

admit_outcomes_example :
    let (result, (box', t)) = admit_guest host "u" "tests" none (box, tt) in
    ((text : String)
      → ◌≡◌ {A = Call (Unit {0})} missing (failed text)
      → (result ≡ err (admission_error (concat "Guest rejected at Codex install gate: " text)))
        × (box' ≡ box)
        × (t ≡ tt))
    × ((text : String)
        → ((x : String) → ◌≢◌ {A = Call (Unit {0})} missing (failed x))
        → ◌≡◌ {A = Call LaunchResult} missing (failed text)
        → (result ≡ err (admission_error (concat "UNIVERSE.launch_app failed: " text)))
          × (box' ≡ box))
    × (((x : String) → ◌≢◌ {A = Call (Unit {0})} missing (failed x))
        → ((x : String) → ◌≢◌ {A = Call LaunchResult} missing (failed x))
        → (g : Guest) × IsAdded "u" "tests" none missing g
          × (box' ≡ record box {
            active_guests = Dict.insert (concat box.tenant_id (concat ":" "u")) g box.active_guests;
          })
          × (((text : String)
                → ◌≡◌ {A = Call (Unit {0})} missing (failed text)
                → result ≡ err (raised text))
              × (((x : String) → ◌≢◌ {A = Call (Unit {0})} missing (failed x))
                  → (a : Admission) × Answers "u" box g a × (result ≡ ok a))))
admit_outcomes_example = admit_outcomes host "u" "tests" none box tt

abbrev reply : Admission
reply = record {
  guest_id = "acme:u";
  status = "stub-running";
  tenant_id = "acme";
  node_id = "node-0";
  codex_aligned = false;
  resource_profile = viriditas_defaults;
}

admit_then_terminate_example :
    let (result, (box', t)) =
      terminate_guest host "acme:u" (admit_guest host "u" "tests" none (box, tt)).1 in
    (box' ≡ box)
    × ((result ≡ ok (record { guest_id = "acme:u"; status = "terminated"; codex_aligned = true }))
        ⊎ ((text : String) × (result ≡ err (raised text))))
unfolding admit_guest init guest_id_of add_guest launch_result profile_of Dict.get
admit_then_terminate_example = admit_then_terminate host "u" "tests" none box tt reply refl refl
