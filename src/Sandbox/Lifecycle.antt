-- ===== src/Sandbox/Lifecycle.antt =====
-- What an admission does to the registry of guests, and the life of a guest.
use Prim.Native.String.{◌++◌ as concat}
use gaia_server.Base.{
  String, true, false, Option, none, some, [], ◌∷◌, ◌≡◌, ◌≢◌, refl, sym, or_else, ok-injective, ◌∙◌,
  ap, ◌⊎◌, inl, inr, arith, eq_iff, Result, ok, err, Result-cases,
}
use gaia_server.Dict
use gaia_server.Dict.{Dict, get-insert_self}
use gaia_server.Sandbox.{
  Call, returned, missing, failed, Host, LaunchResult, SandboxError, admission_error, raised, Guest,
  GuestSandbox, Admission, Resource, ResourceProfile, gate_result, launch_result, report_result,
  profile_of, guest_id_of, add_guest, admit_guest, terminate_guest,
}

err-injective :
    {A : Type 0} {a b : SandboxError} → ◌≡◌ {A = Result SandboxError A} (err a) (err b) → a ≡ b
err-injective h = cc

gate_result-err :
    (c : Call (Unit {0})) (x : SandboxError)
    → gate_result c ≡ err x
    → (text : String) × (x ≡ admission_error text)
gate_result-err (returned u) x h = absurd (ground arith)
gate_result-err missing x h = absurd (ground arith)
gate_result-err (failed text) x h = (_, sym (err-injective h))

launch_result-err :
    (url : String) (c : Call LaunchResult) (x : SandboxError)
    → launch_result url c ≡ err x
    → (text : String) × (x ≡ admission_error text)
unfolding launch_result
launch_result-err url (returned r) x h = absurd (ground arith)
launch_result-err url missing x h = absurd (ground arith)
launch_result-err url (failed text) x h = (_, sym (err-injective h))

report_result-err :
    (c : Call (Unit {0})) (x : SandboxError)
    → report_result c ≡ err x
    → (text : String) × (x ≡ raised text)
report_result-err (returned u) x h = absurd (ground arith)
report_result-err missing x h = absurd (ground arith)
report_result-err (failed text) x h = (_, sym (err-injective h))

profile_of-nonempty : (p : Option ResourceProfile) → profile_of p ≢ []
unfolding profile_of
profile_of-nonempty none h = cc
profile_of-nonempty (some []) h = cc
profile_of-nonempty (some (e ∷ p)) h = cc

-- The guest that an admission adds has this package and intent, and a profile that is not empty.
abbrev pub IsFor : String → String → Guest → Type 0
IsFor url intent g = (g.package_url ≡ url) × (g.intent ≡ intent) × (g.resource_profile ≢ [])

-- The reply names the guest, its tenant and its profile.
abbrev pub Names : GuestSandbox → String → Guest → Admission → Type 0
Names box url g a =
    (a.guest_id ≡ guest_id_of box url)
    × (a.tenant_id ≡ box.tenant_id)
    × (a.resource_profile ≡ g.resource_profile)

ok_ne_err :
    {A : Type 0} {a : A} {e : SandboxError} → ◌≡◌ {A = Result SandboxError A} (ok a) (err e) → ⊥
ok_ne_err h = cc

erase-insert :
    {V : Type 0} (k : String) (v : V) (d : Dict V)
    → Dict.get k d ≡ none
    → Dict.erase k (Dict.insert k v d) ≡ d
unfolding Dict.get Dict.insert Dict.erase
erase-insert k v [] h = ground (arith, eq_iff k k)
erase-insert k v ((j, w) ∷ d) h = ground (arith, erase-insert k v d)

gate_passes : (c : Call (Unit {0})) → ((x : String) → c ≢ failed x) → gate_result c ≡ ok tt
gate_passes (returned u) h = refl
gate_passes missing h = refl
gate_passes (failed text) h = absurd (h text refl)

launch_passes :
    (url : String) (c : Call LaunchResult)
    → ((x : String) → c ≢ failed x)
    → (r : LaunchResult) × (launch_result url c ≡ ok r)
unfolding launch_result
launch_passes url (returned r) h = (r, refl)
launch_passes url missing h = (_, refl)
launch_passes url (failed text) h = absurd (h text refl)

report_passes : (c : Call (Unit {0})) → ((x : String) → c ≢ failed x) → report_result c ≡ ok tt
report_passes (returned u) h = refl
report_passes missing h = refl
report_passes (failed text) h = absurd (h text refl)

-- The guest that an admission adds has this package and intent, what the launch returned or, where
-- the package is missing, the stub, and the given profile or, where none or an empty one is given,
-- one that is not empty.
pub record IsAdded (url intent : String) (profile : Option ResourceProfile)
    (launch : Call LaunchResult) (g : Guest) : Type 0 where
  pub code : g.package_url ≡ url
  pub wish : g.intent ≡ intent
  pub launched : (r : LaunchResult) → launch ≡ returned r → g.result ≡ r
  pub stub : launch ≡ missing → g.result.status ≡ some "stub-running"
  pub given :
      (e : String × Resource) (p : ResourceProfile)
      → profile ≡ some (e ∷ p)
      → g.resource_profile ≡ e ∷ p
  pub never_empty : g.resource_profile ≢ []

-- The reply to an admission names the guest, its tenant, node and profile, and passes on what the
-- launch said.
pub record Answers (url : String) (box : GuestSandbox) (g : Guest) (a : Admission) : Type 0 where
  pub id : a.guest_id ≡ concat box.tenant_id (concat ":" url)
  pub tenant : a.tenant_id ≡ box.tenant_id
  pub node : a.node_id ≡ box.node_id
  pub profile_is : a.resource_profile ≡ g.resource_profile
  pub status_is : a.status ≡ or_else "unknown" g.result.status
  pub aligned : a.codex_aligned ≡ or_else false g.result.codex_aligned

unfoldable guest_of : String → String → Option ResourceProfile → LaunchResult → Guest
guest_of url intent profile r = record {
  package_url = url;
  intent = intent;
  result = r;
  resource_profile = profile_of profile;
}

guest_of-IsAdded :
    (url intent : String) (profile : Option ResourceProfile) (launch : Call LaunchResult)
    (r : LaunchResult)
    → launch_result url launch ≡ ok r
    → IsAdded url intent profile launch (guest_of url intent profile r)
unfolding launch_result guest_of profile_of
guest_of-IsAdded url intent profile launch r h = record {
  code = refl;
  wish = refl;
  launched = λ q e. ok-injective (sym (rw e at h));
  stub = λ e. ap (λ r. r.status) (ok-injective (sym (rw e at h)));
  given = λ e p q. rw q refl;
  never_empty = profile_of-nonempty profile;
}

module _ {S : Type 0} (host : Host S) where
  -- The two ways in which an admission leaves the registry.
  admit_ends :
      (url intent : String) (profile : Option ResourceProfile) (box : GuestSandbox) (s : S)
      → let (result, (box', t)) = admit_guest host url intent profile (box, s) in
        ((text : String) × (result ≡ err (admission_error text)) × (box' ≡ box))
        ⊎ ((g : Guest) × (box' ≡ add_guest (guest_id_of box url) g box)
            × IsFor url intent g
            × (((a : Admission) × (result ≡ ok a) × Names box url g a)
                ⊎ ((text : String) × (result ≡ err (raised text)))))
  unfolding admit_guest guest_id_of add_guest
  admit_ends url intent profile box s =
      let gate = host.enforce_codex_on_install url box.tenant_id s in
      let launch = host.launch_app url intent gate.1 in
      let id = guest_id_of box url in
      let draw = host.report id (profile_of profile) box.tenant_id box.node_id launch.1 in
      elim (Result-cases (gate_result gate.0)) [
        | inr (x, e) ↦
            let (text, same) = gate_result-err gate.0 x e in
            inl (text, rw (e, same) refl, rw e refl)
        | inl (_, e) ↦ elim (Result-cases (launch_result url launch.0)) [
          | inr (x, f) ↦
              let (text, same) = launch_result-err url launch.0 x f in
              inl (text, rw (e, f, same) refl, rw (e, f) refl)
          | inl (r, f) ↦ elim (Result-cases (report_result draw.0)) [
            | inr (x, k) ↦
                let (text, same) = report_result-err draw.0 x k in
                inr (guest r, rw (e, f, k) refl, fits r, inr (text, rw (e, f, k, same) refl))
            | inl (_, k) ↦ inr (
              guest r,
              rw (e, f, k) refl,
              fits r,
              inl (reply r, rw (e, f, k) refl, (refl, refl, refl)),
            )
          ]
        ]
      ]
    where
      guest : LaunchResult → Guest
      guest r = record {
        package_url = url;
        intent = intent;
        result = r;
        resource_profile = profile_of profile;
      }

      reply : LaunchResult → Admission
      reply r = record {
        guest_id = guest_id_of box url;
        status = or_else "unknown" r.status;
        tenant_id = box.tenant_id;
        node_id = box.node_id;
        codex_aligned = or_else false r.codex_aligned;
        resource_profile = profile_of profile;
      }

      fits : (r : LaunchResult) → IsFor url intent (guest r)
      fits r = (refl, refl, profile_of-nonempty profile)

  -- The call of the install gate.
  abbrev pub gated : String → GuestSandbox → S → Call (Unit {0}) × S
  gated url box s = host.enforce_codex_on_install url box.tenant_id s

  -- An admission calls the install gate. If the gate raises, SandboxAdmissionError is raised with
  -- its text, nothing is launched and the registry stays as it was. Otherwise the guest is launched;
  -- if that raises, SandboxAdmissionError is raised with its text and the registry stays as it was.
  -- Otherwise the guest stands under its id in the registry, with no other entry changed; and if the
  -- report of the energy draw raises, that exception passes on, and else the reply is on that guest.
  -- A package that is missing does not raise.
  pub admit_outcomes :
      (url intent : String) (profile : Option ResourceProfile) (box : GuestSandbox) (s : S)
      → let (result, (box', t)) = admit_guest host url intent profile (box, s) in
        let gate = gated url box s in
        let launch = host.launch_app url intent gate.1 in
        ((text : String)
          → gate.0 ≡ failed text
          → (result ≡ err (admission_error (concat "Guest rejected at Codex install gate: " text)))
            × (box' ≡ box)
            × (t ≡ gate.1))
        × ((text : String)
            → ((x : String) → gate.0 ≢ failed x)
            → launch.0 ≡ failed text
            → (result ≡ err (admission_error (concat "UNIVERSE.launch_app failed: " text)))
              × (box' ≡ box))
        × (((x : String) → gate.0 ≢ failed x)
            → ((x : String) → launch.0 ≢ failed x)
            → (g : Guest) × IsAdded url intent profile launch.0 g
              × (box' ≡ record box {
                active_guests =
                    Dict.insert (concat box.tenant_id (concat ":" url)) g box.active_guests;
              })
              × (let draw =
                    host.report
                      (concat box.tenant_id (concat ":" url))
                      g.resource_profile
                      box.tenant_id
                      box.node_id
                      launch.1 in
                  ((text : String) → draw.0 ≡ failed text → result ≡ err (raised text))
                  × (((x : String) → draw.0 ≢ failed x)
                      → (a : Admission) × Answers url box g a × (result ≡ ok a))))
  unfolding admit_guest guest_id_of add_guest launch_result guest_of
  admit_outcomes url intent profile box s =
      let gate = gated url box s in
      let launch = host.launch_app url intent gate.1 in
      (
        (λ text e. (rw e refl, rw e refl, rw e refl)),
        (λ text open' e. let g = gate_passes gate.0 open' in (rw (g, e) refl, rw (g, e) refl)),
        (λ open' flies.
            let g = gate_passes gate.0 open' in
            let (r, l) = launch_passes url launch.0 flies in
            let draw =
              (host.report (guest_id_of box url) (profile_of profile) box.tenant_id box.node_id
                launch.1).0 in
            (
              guest_of url intent profile r,
              guest_of-IsAdded url intent profile launch.0 r l,
              (elim (Result-cases (report_result draw)) [
                | inl (u, k) ↦ rw (g, l, k) refl
                | inr (x, k) ↦ rw (g, l, k) refl
              ]),
              (
                (λ text e. rw (g, l, e) refl),
                (λ quiet. (
                  record {
                    guest_id = guest_id_of box url;
                    status = or_else "unknown" r.status;
                    tenant_id = box.tenant_id;
                    node_id = box.node_id;
                    codex_aligned = or_else false r.codex_aligned;
                    resource_profile = profile_of profile;
                  },
                  record {
                    id = refl;
                    tenant = refl;
                    node = refl;
                    profile_is = refl;
                    status_is = refl;
                    aligned = refl;
                  },
                  rw (g, l, report_passes draw quiet) refl,
                )),
              ),
            )),
      )

  terminate_added :
      (id : String) (g : Guest) (box : GuestSandbox) (t : S)
      → Dict.get id box.active_guests ≡ none
      → let (result, (box', t')) = terminate_guest host id (add_guest id g box, t) in
        (box' ≡ box)
        × ((result ≡ ok (record { guest_id = id; status = "terminated"; codex_aligned = true }))
            ⊎ ((text : String) × (result ≡ err (raised text))))
  unfolding terminate_guest add_guest
  terminate_added id g box t new =
      let kept = erase-insert id g box.active_guests new in
      let there = get-insert_self id g box.active_guests in
      let stage = host.invoke_stage "Joyful Rejoicing of Celebration" t in
      let emptied = ap (λ d. record box { active_guests = d }) kept in
      elim (Result-cases (report_result stage.0)) [
        | inl (_, e) ↦ (rw (there, e) emptied, inl (rw (there, e) refl))
        | inr (x, e) ↦
            let (text, same) = report_result-err stage.0 x e in
            (rw (there, e) emptied, inr (text, rw (there, e, same) refl))
      ]

  -- A guest under an id that was not in use, once admitted, can be terminated under the id of the
  -- reply: the registry is then what it was before the admission, and the reply says `terminated`,
  -- unless the last stage of the codex raises.
  pub admit_then_terminate :
      (url intent : String) (profile : Option ResourceProfile) (box : GuestSandbox) (s : S)
      (a : Admission)
      → Dict.get (guest_id_of box url) box.active_guests ≡ none
      → (admit_guest host url intent profile (box, s)).0 ≡ ok a
      → let (result, (box', t)) =
          terminate_guest host a.guest_id (admit_guest host url intent profile (box, s)).1 in
        (box' ≡ box)
        × ((result
              ≡ ok (record { guest_id = a.guest_id; status = "terminated"; codex_aligned = true }))
            ⊎ ((text : String) × (result ≡ err (raised text))))
  admit_then_terminate url intent profile box s a new h =
      elim (admit_ends url intent profile box s) [
        | inl (text, e, same) ↦ absurd (ok_ne_err (sym h ∙ e))
        | inr (g, added, fits, inr (text, e)) ↦ absurd (ok_ne_err (sym h ∙ e))
        | inr (g, added, fits, inl (b, e, names)) ↦
            let out = (admit_guest host url intent profile (box, s)).1 in
            go g out.0 out.1 a.guest_id added
              (ap Admission.guest_id (ok-injective (sym h ∙ e)) ∙ names.0)
      ]
    where
      go :
          (g : Guest) (box' : GuestSandbox) (t : S) (id : String)
          → box' ≡ add_guest (guest_id_of box url) g box
          → id ≡ guest_id_of box url
          → ((terminate_guest host id (box', t)).1.0 ≡ box)
            × (((terminate_guest host id (box', t)).0
                  ≡ ok (record { guest_id = id; status = "terminated"; codex_aligned = true }))
                ⊎ ((text : String) × ((terminate_guest host id (box', t)).0 ≡ err (raised text))))
      go g box' t id e k = rw (e, k) (terminate_added (guest_id_of box url) g box t new)
