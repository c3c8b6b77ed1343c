-- ===== src/Planetary/Examples.antt =====
-- The theorems on the hub at concrete pushes.
use gaia_server.Base.{
  ℕ, ◌+◌, max, String, ◌≡◌, ◌≢◌, true, false, Option, none, some, List, [], ◌∷◌, arith, eq_iff,
  length, count, if◌then◌else◌, is_some,
}
use gaia_server.Planetary.{
  Values, NodeView, PlanetarySnapshot, Payload, snapshot, init, fleet_summary, node_count,
  planetary_state_push, planetary_state_snapshot, node, hub_not_wired,
}
use gaia_server.Planetary.Latest.{Shows, push_all, last_of, hub_is_latest, push_then_request}

-- Hundredths for floats, and the number of its entries for an object.
abbrev values : Values
values = record {
  Float = ℕ;
  Object = ℕ;
  zero_float = 0;
  add = λ a b. a + b;
  divide = λ a n. a;
  round_four = λ a. a;
  greater = max;
  empty_object = 0;
  object_length = λ o. o;
}

abbrev payload : Payload values
payload = record {
  timestamp = some 1200;
  observations = some 3;
  energy = none;
  climate = none;
  biosphere = none;
  network = none;
  integrity = none;
  love_score = some 50;
  metadata = none;
}

abbrev from : String → ℕ → PlanetarySnapshot values
from n t = record {
  node_id = n;
  timestamp = t;
  observations = 1;
  energy = 0;
  climate = 0;
  biosphere = 0;
  network = 0;
  integrity = 0;
  love_score = 50;
  metadata = 0;
}

abbrev pushes : List (PlanetarySnapshot values)
pushes = from "a" 1 ∷ from "b" 2 ∷ from "a" 3 ∷ []

hub_is_latest_example :
    (snapshot values "a" (push_all values pushes (init values)) ≡ last_of values "a" pushes none)
    × (count "a" (fleet_summary values (push_all values pushes (init values))).nodes
        ≡ (if is_some (last_of values "a" pushes none) then 1 else 0))
    × ((fleet_summary values (push_all values pushes (init values))).node_count
        ≡ length (fleet_summary values (push_all values pushes (init values))).nodes)
    × (node_count values (push_all values pushes (init values))
        ≡ length (fleet_summary values (push_all values pushes (init values))).nodes)
hub_is_latest_example = hub_is_latest values pushes "a"

b_is_not_a : ◌≢◌ {A = String} "b" "a"
b_is_not_a = ground (arith, eq_iff "b" "a")

push_then_request_example :
    ((planetary_state_push values 9 "a" payload (some (init values))).0.accepted ≡ true)
    × ((view : NodeView values) × Shows values 9 "a" payload view
        × (planetary_state_snapshot values
              (some "a")
              (planetary_state_push values 9 "a" payload (some (init values))).1
            ≡ node view))
    × (planetary_state_snapshot values
          (some "b")
          (planetary_state_push values 9 "a" payload (some (init values))).1
        ≡ planetary_state_snapshot values (some "b") (some (init values)))
    × ((planetary_state_push values 9 "a" payload none).0.accepted ≡ false)
    × ((planetary_state_push values 9 "a" payload none).1 ≡ none)
    × ((request : Option String) → planetary_state_snapshot values request none ≡ hub_not_wired)
push_then_request_example = push_then_request values 9 "a" "b" payload (init values) b_is_not_a
