-- ===== src/Health/Verdict.antt =====
-- What the overall status of a health report says of the checks.
use gaia_server.Base.{
  String, Bool, Bool-cases, ◌&&◌, ◌||◌, ◌≡◌, refl, ◌↔◌, ◌⊎◌, inl, inr, true, false, false≢true,
  false≢true, [], ◌∷◌, arith, All, ◌==◌, eq_iff, ok, err, Result,
}
use gaia_server.Errors.{Exn}
use gaia_server.Dict.{Dict}
use gaia_server.Health.{
  HealthInfo, HealthAggregator, Check, info_of, status_of, all_ok, any_down, overall, gather, check,
}

-- The check returned, with this status (`unknown` where its mapping has none).
abbrev pub Answers : String → Result Exn HealthInfo → Type 0
Answers status (ok info) = status_of info ≡ status
Answers status (err e) = ⊥

-- The check raised, or it returned the status `down`.
abbrev pub IsDown : Result Exn HealthInfo → Type 0
IsDown (ok info) = status_of info ≡ "down"
IsDown (err e) = Unit

-- Some check of the dict is down.
abbrev pub HasDown : {W : Type 0} → W → Dict (Check W) → Type 0
HasDown w [] = ⊥
HasDown w ((name, check_fn) ∷ d) = IsDown (check_fn w) ⊎ HasDown w d

Answers-ok : (r : Result Exn HealthInfo) → ((status_of (info_of r) == "ok") ≡ true) ↔ Answers "ok" r
Answers-ok (ok info) = (
  λ h. ground (arith, eq_iff (status_of info) "ok"),
  λ h. ground (arith, eq_iff (status_of info) "ok"),
)
Answers-ok (err e) = (λ h. ground (arith, eq_iff "down" "ok"), λ h. absurd h)

is_down : (r : Result Exn HealthInfo) → ((status_of (info_of r) == "down") ≡ true) ↔ IsDown r
is_down (ok info) = (
  λ h. ground (arith, eq_iff (status_of info) "down"),
  λ h. ground (arith, eq_iff (status_of info) "down"),
)
is_down (err e) = (λ h. tt, λ h. refl)

&&-true : {P Q : Type 0} (a b : Bool) → (a ≡ true) ↔ P → (b ≡ true) ↔ Q → (a && b ≡ true) ↔ (P × Q)
&&-true a b f g =
    (λ h. (f.0 (ground arith), g.0 (ground arith)), λ h. ground (arith, f.1 h.0, g.1 h.1))

||-true : {P Q : Type 0} (a b : Bool) → (a ≡ true) ↔ P → (b ≡ true) ↔ Q → (a || b ≡ true) ↔ (P ⊎ Q)
||-true true b f g = (λ h. inl (f.0 refl), λ h. refl)
||-true false b f g =
    (λ h. inr (g.0 h), λ h. elim h [ inl p ↦ absurd (false≢true (f.1 p)) | inr q ↦ g.1 q ])

module _ {W : Type 0} (w : W) where
  all_ok-gather :
      (d : Dict (Check W)) → (all_ok (gather d w) ≡ true) ↔ All (λ e. Answers "ok" (e.1 w)) d
  unfolding all_ok gather
  all_ok-gather [] = (λ h. tt, λ h. refl)
  all_ok-gather ((name, check_fn) ∷ d) =
      &&-true (status_of (info_of (check_fn w)) == "ok") (all_ok (gather d w))
        (Answers-ok (check_fn w)) (all_ok-gather d)

  any_down-gather : (d : Dict (Check W)) → (any_down (gather d w) ≡ true) ↔ HasDown w d
  unfolding any_down gather
  any_down-gather [] = (λ h. cc, λ h. absurd h)
  any_down-gather ((name, check_fn) ∷ d) =
      ||-true (status_of (info_of (check_fn w)) == "down") (any_down (gather d w))
        (is_down (check_fn w)) (any_down-gather d)

  not_both : (d : Dict (Check W)) → all_ok (gather d w) ≡ true → any_down (gather d w) ≡ true → ⊥
  unfolding all_ok any_down gather
  not_both [] h k = cc
  not_both ((name, check_fn) ∷ d) h k = ground (
    arith,
    not_both d,
    eq_iff (status_of (info_of (check_fn w))) "ok",
    eq_iff (status_of (info_of (check_fn w))) "down",
    eq_iff "ok" "down",
  )

overall_ok : (d : Dict HealthInfo) → (overall d ≡ "ok") ↔ (all_ok d ≡ true)
unfolding overall
overall_ok d = (λ h. ground (arith, eq_iff "ok" "down", eq_iff "ok" "degraded"), λ h. ground arith)

overall_down :
    (d : Dict HealthInfo)
    → (all_ok d ≡ true → any_down d ≡ true → ⊥)
    → (overall d ≡ "down") ↔ (any_down d ≡ true)
unfolding overall
overall_down d ne =
    (λ h. ground (arith, eq_iff "ok" "down", eq_iff "down" "degraded"), λ h. ground (arith, ne))

overall_cases :
    (d : Dict HealthInfo) → (overall d ≡ "ok") ⊎ ((overall d ≡ "down") ⊎ (overall d ≡ "degraded"))
unfolding overall
overall_cases d = elim (Bool-cases (all_ok d)) [
  | inl h ↦ inl (rw h)
  | inr h ↦ elim (Bool-cases (any_down d)) [
    | inl k ↦ inr (inl (rw (h, k)))
    | inr k ↦ inr (inr (rw (h, k)))
  ]
]

module _ {W : Type 0} where
  status_lem :
      (d : Dict (Check W)) (w : W) → (check (record { checks = d }) w).status ≡ overall (gather d w)
  unfolding check overall all_ok gather
  status_lem [] w = refl
  status_lem (c ∷ d) w = refl

↔-trans : {P Q R : Type 0} → P ↔ Q → Q ↔ R → P ↔ R
↔-trans f g = (λ p. g.0 (f.0 p), λ r. f.1 (g.1 r))

-- The report of an aggregator has the status `ok` exactly when every check returned with the
-- status `ok` (so with no check at all), `down` exactly when some check raised or returned `down`,
-- and otherwise `degraded`.
pub check_verdict :
    {W : Type 0} (agg : HealthAggregator W) (w : W)
    → (((check agg w).status ≡ "ok") ↔ All (λ e. Answers "ok" (e.1 w)) agg.checks)
      × (((check agg w).status ≡ "down") ↔ HasDown w agg.checks)
      × (((check agg w).status ≡ "ok")
          ⊎ (((check agg w).status ≡ "down") ⊎ ((check agg w).status ≡ "degraded")))
check_verdict {W} agg w = go (check agg w).status (status_lem agg.checks w)
  where
    d : Dict HealthInfo
    d = gather agg.checks w

    go :
        (status : String)
        → status ≡ overall d
        → ((status ≡ "ok") ↔ All (λ e. Answers "ok" (e.1 w)) agg.checks)
          × ((status ≡ "down") ↔ HasDown w agg.checks)
          × ((status ≡ "ok") ⊎ ((status ≡ "down") ⊎ (status ≡ "degraded")))
    go status e = rw e (
      ↔-trans (overall_ok d) (all_ok-gather w agg.checks),
      ↔-trans (overall_down d (not_both w agg.checks)) (any_down-gather w agg.checks),
      overall_cases d,
    )
