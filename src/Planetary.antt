-- ===== src/Planetary.antt =====
-- gaia_server/planetary/state_hub.py: the class PlanetaryStateHub, and the methods of the class
-- GaiaGrpcServer (gaia_server/ipc/grpc_server.py) that serve it.
mod Latest
mod Examples
use gaia_server.Base.{
  ℕ, String, Bool, true, false, Option, none, some, List, [], ◌∷◌, map, length, or_else,
}
use gaia_server.Dict
use gaia_server.Dict.{Dict}

-- Python's floats and JSON objects: the sum, the quotient by a count, the rounding to four places
-- and the greater of two floats; the number of entries of an object.
pub record Values : Type 1 where
  pub Float : Type 0
  pub Object : Type 0
  pub zero_float : Float
  pub add : Float → Float → Float
  pub divide : Float → ℕ → Float
  pub round_four : Float → Float
  pub greater : Float → Float → Float
  pub empty_object : Object
  pub object_length : Object → ℕ

module _ (values : Values) where
  open values use {
    Float, Object, zero_float, add, divide, round_four, greater, empty_object, object_length,
  }

  pub record PlanetarySnapshot : Type 0 where
    pub node_id : String
    pub timestamp : Float
    pub observations : Object
    pub energy : Object
    pub climate : Object
    pub biosphere : Object
    pub network : Object
    pub integrity : Object
    pub love_score : Float
    pub metadata : Object

  -- The payload of a push: each entry may be missing.
  pub record Payload : Type 0 where
    pub timestamp : Option Float
    pub observations : Option Object
    pub energy : Option Object
    pub climate : Option Object
    pub biosphere : Option Object
    pub network : Option Object
    pub integrity : Option Object
    pub love_score : Option Float
    pub metadata : Option Object

  abbrev pub Hub : Type 0
  Hub = Dict PlanetarySnapshot

  pub record NodeSummary : Type 0 where
    pub timestamp : Float
    pub love_score : Float
    pub observation_count : ℕ

  -- The last two entries are missing where there is no node.
  pub record FleetSummary : Type 0 where
    pub node_count : ℕ
    pub nodes : List String
    pub fleet_love_score : Float
    pub latest_snapshot_ts : Option Float
    pub snapshots : Option (Dict NodeSummary)

  unfoldable pub init : Hub
  init = []

  unfoldable pub push : PlanetarySnapshot → Hub → Hub
  push snapshot hub = Dict.insert snapshot.node_id snapshot hub

  -- `now` is the clock's time.
  unfoldable pub snapshot_of : Float → String → Payload → PlanetarySnapshot
  snapshot_of now node_id payload = record {
    node_id = node_id;
    timestamp = or_else now payload.timestamp;
    observations = or_else empty_object payload.observations;
    energy = or_else empty_object payload.energy;
    climate = or_else empty_object payload.climate;
    biosphere = or_else empty_object payload.biosphere;
    network = or_else empty_object payload.network;
    integrity = or_else empty_object payload.integrity;
    love_score = or_else zero_float payload.love_score;
    metadata = or_else empty_object payload.metadata;
  }

  unfoldable pub push_dict : Float → String → Payload → Hub → PlanetarySnapshot × Hub
  push_dict now node_id payload hub =
      let snap = snapshot_of now node_id payload in (snap, push snap hub)

  unfoldable pub snapshot : String → Hub → Option PlanetarySnapshot
  snapshot node_id hub = Dict.get node_id hub

  -- The sum, from the left.
  unfoldable pub total : Float → Hub → Float
  total acc [] = acc
  total acc ((node_id, s) ∷ hub) = total (add acc s.love_score) hub

  unfoldable pub latest : Float → Hub → Float
  latest t [] = t
  latest t ((node_id, s) ∷ hub) = latest (greater t s.timestamp) hub

  unfoldable pub node_summary : PlanetarySnapshot → NodeSummary
  node_summary s = record {
    timestamp = s.timestamp;
    love_score = s.love_score;
    observation_count = object_length s.observations;
  }

  unfoldable pub fleet_summary : Hub → FleetSummary
  fleet_summary [] = record {
    node_count = 0;
    nodes = [];
    fleet_love_score = zero_float;
    latest_snapshot_ts = none;
    snapshots = none;
  }
  fleet_summary ((node_id, s) ∷ hub) = record {
    node_count = length (Dict.keys ((node_id, s) ∷ hub));
    nodes = Dict.keys ((node_id, s) ∷ hub);
    fleet_love_score =
        round_four (divide (total zero_float ((node_id, s) ∷ hub)) (length ((node_id, s) ∷ hub)));
    latest_snapshot_ts = some (latest s.timestamp hub);
    snapshots = some (map (λ e. (e.0, node_summary e.1)) ((node_id, s) ∷ hub));
  }

  unfoldable pub all_snapshots : Hub → List PlanetarySnapshot
  all_snapshots hub = Dict.values hub

  unfoldable pub node_count : Hub → ℕ
  node_count hub = length hub

  unfoldable pub clear : Hub → Hub
  clear hub = []

  -- `planetary_state_push`: its answer, and the hub afterwards. `none` is a server with no hub.
  pub record PushReply : Type 0 where
    pub accepted : Bool
    pub node_id : String
    pub timestamp : Option Float
    pub reason : Option String

  unfoldable pub planetary_state_push :
      Float → String → Payload → Option Hub → PushReply × Option Hub
  planetary_state_push now node_id payload none = (
    record { accepted = false; node_id = node_id; timestamp = none; reason = some "hub_not_wired" },
    none,
  )
  planetary_state_push now node_id payload (some hub) =
      let (snap, hub') = push_dict now node_id payload hub in
      (
        record {
          accepted = true;
          node_id = node_id;
          timestamp = some snap.timestamp;
          reason = none;
        },
        some hub',
      )

  pub record NodeView : Type 0 where
    pub node_id : String
    pub timestamp : Float
    pub love_score : Float
    pub observation_count : ℕ
    pub energy : Object
    pub climate : Object
    pub biosphere : Object
    pub network : Object
    pub integrity : Object
    pub metadata : Object

  unfoldable pub node_view : PlanetarySnapshot → NodeView
  node_view snap = record {
    node_id = snap.node_id;
    timestamp = snap.timestamp;
    love_score = snap.love_score;
    observation_count = object_length snap.observations;
    energy = snap.energy;
    climate = snap.climate;
    biosphere = snap.biosphere;
    network = snap.network;
    integrity = snap.integrity;
    metadata = snap.metadata;
  }

  pub data SnapshotReply : Type 0 where
    hub_not_wired : SnapshotReply
    fleet : FleetSummary → SnapshotReply
    not_found : String → SnapshotReply
    node : NodeView → SnapshotReply

  abbrev pub reply_of : String → Option PlanetarySnapshot → SnapshotReply
  reply_of node_id none = not_found node_id
  reply_of node_id (some snap) = node (node_view snap)

  unfoldable pub planetary_state_snapshot : Option String → Option Hub → SnapshotReply
  planetary_state_snapshot node_id none = hub_not_wired
  planetary_state_snapshot none (some hub) = fleet (fleet_summary hub)
  planetary_state_snapshot (some node_id) (some hub) = reply_of node_id (snapshot node_id hub)
