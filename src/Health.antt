-- ===== src/Health.antt =====
-- gaia_server/health.py: the class HealthAggregator. `W` is the state of the servers that the
-- checks look at.
mod Examples
mod Verdict
use gaia_server.Base.{
  String, Bool, true, false, Option, none, some, List, [], ◌∷◌, ◌==◌, ◌&&◌, ◌||◌, if◌then◌else◌,
  or_else, Result, ok, err,
}
use gaia_server.Errors.{Exn}
use gaia_server.Dict
use gaia_server.Dict.{Dict}

-- The mapping that a check returns: its entry `status`, and the exception that it reports.
pub record HealthInfo : Type 0 where
  pub status : Option String
  pub detail : Option Exn

pub record HealthReport : Type 0 where
  pub status : String
  pub subsystems : Dict HealthInfo

-- `HealthReport.is_ok`
unfoldable pub is_ok : HealthReport → Bool
is_ok report = report.status == "ok"

-- A check returns a mapping, or raises.
abbrev pub Check : Type 0 → Type 0
Check W = W → Result Exn HealthInfo

pub record HealthAggregator (W : Type 0) : Type 0 where
  pub checks : Dict (Check W)

-- A check that raised is down.
abbrev pub info_of : Result Exn HealthInfo → HealthInfo
info_of (ok info) = info
info_of (err e) = record { status = some "down"; detail = some e }

abbrev pub status_of : HealthInfo → String
status_of info = or_else "unknown" info.status

-- `statuses == {"ok"}`, for a set that is not empty.
unfoldable pub all_ok : Dict HealthInfo → Bool
all_ok [] = true
all_ok ((name, info) ∷ d) = status_of info == "ok" && all_ok d

-- `"down" in statuses`
unfoldable pub any_down : Dict HealthInfo → Bool
any_down [] = false
any_down ((name, info) ∷ d) = status_of info == "down" || any_down d

unfoldable pub overall : Dict HealthInfo → String
overall subsystems =
    if all_ok subsystems then "ok" else if any_down subsystems then "down" else "degraded"

module _ {W : Type 0} where
  unfoldable pub init : HealthAggregator W
  init = record { checks = [] }

  unfoldable pub register : String → Check W → HealthAggregator W → HealthAggregator W
  register name check_fn agg = record { checks = Dict.insert name check_fn agg.checks }

  -- `gather` and the loop over its results: the names are the keys of a dict, so each result gets
  -- an entry of its own.
  unfoldable pub gather : Dict (Check W) → W → Dict HealthInfo
  gather [] w = []
  gather ((name, check_fn) ∷ d) w = (name, info_of (check_fn w)) ∷ gather d w

  unfoldable pub check : HealthAggregator W → W → HealthReport
  check agg w = elim agg.checks [
    | [] ↦ record { status = "ok"; subsystems = [] }
    | _ ∷ _ ↦ record { status = overall (gather agg.checks w); subsystems = gather agg.checks w }
  ]
