-- ===== src/Planetary/Latest.antt =====
-- The hub holds the last snapshot of each node, and what the service returns of it.
use gaia_server.Base.{
  String, ◌≡◌, refl, sym, ap, ◌∙◌, Bool-cases, inl, inr, ◌≢◌, true, false, Option, none, some, List,
  [], ◌∷◌, ◌==◌, eq_iff, length, count, if◌then◌else◌, is_some, suc, or_else,
}
use gaia_server.Dict
use gaia_server.Dict.{IsUnique, IsUnique-insert, count-keys, get-insert, get-insert_self}
use gaia_server.Planetary.{
  Values, NodeView, PlanetarySnapshot, Payload, Hub, hub_not_wired, node, init, push, push_dict,
  snapshot_of, snapshot, fleet_summary, node_count, planetary_state_push, planetary_state_snapshot,
  node_view, reply_of,
}

ne_test : (n j : String) → j ≢ n → (n == j) ≡ false
ne_test n j ne = elim (Bool-cases (n == j)) [
  | inl e ↦ absurd (ne (sym ((eq_iff n j).0 e)))
  | inr e ↦ e
]

module _ (values : Values) where
  -- The pushes in this order.
  abbrev pub push_all : List (PlanetarySnapshot values) → Hub values → Hub values
  push_all [] hub = hub
  push_all (s ∷ snaps) hub = push_all snaps (push values s hub)

  -- The last snapshot of the node in the list, or `old`.
  abbrev pub last_of :
      String
      → List (PlanetarySnapshot values)
      → Option (PlanetarySnapshot values)
      → Option (PlanetarySnapshot values)
  last_of n [] old = old
  last_of n (s ∷ snaps) old = last_of n snaps (if s.node_id == n then some s else old)

  push_all-snapshot :
      (n : String) (snaps : List (PlanetarySnapshot values)) (hub : Hub values)
      → snapshot values n (push_all snaps hub) ≡ last_of n snaps (snapshot values n hub)
  unfolding snapshot push
  push_all-snapshot n [] hub = refl
  push_all-snapshot n (s ∷ snaps) hub =
      rw (← get-insert s.node_id n s hub) (push_all-snapshot n snaps (push values s hub))

  push_all-IsUnique :
      (snaps : List (PlanetarySnapshot values)) (hub : Hub values)
      → IsUnique hub
      → IsUnique (push_all snaps hub)
  unfolding push
  push_all-IsUnique [] hub u = u
  push_all-IsUnique (s ∷ snaps) hub u =
      push_all-IsUnique snaps (push values s hub) (IsUnique-insert s.node_id s hub u)

  nodes_are_keys : (hub : Hub values) → (fleet_summary values hub).nodes ≡ Dict.keys hub
  unfolding fleet_summary
  nodes_are_keys [] = refl
  nodes_are_keys ((n, s) ∷ hub) = refl

  summary_count :
      (hub : Hub values)
      → (fleet_summary values hub).node_count ≡ length (fleet_summary values hub).nodes
  unfolding fleet_summary
  summary_count [] = refl
  summary_count ((n, s) ∷ hub) = refl

  length-keys : (hub : Hub values) → length hub ≡ length (Dict.keys hub)
  length-keys [] = refl
  length-keys ((n, s) ∷ hub) = ap suc (length-keys hub)

  -- After any pushes on a new hub: each node's snapshot is the last one that it pushed; the summary
  -- of the fleet lists each node that has pushed once, and no other; and both counts of nodes are
  -- the length of that list.
  pub hub_is_latest :
      (snaps : List (PlanetarySnapshot values)) (n : String)
      → let hub = push_all snaps (init values) in
        (snapshot values n hub ≡ last_of n snaps none)
        × (count n (fleet_summary values hub).nodes
            ≡ (if is_some (last_of n snaps none) then 1 else 0))
        × ((fleet_summary values hub).node_count ≡ length (fleet_summary values hub).nodes)
        × (node_count values hub ≡ length (fleet_summary values hub).nodes)
  unfolding snapshot node_count init Dict.get
  hub_is_latest snaps n =
      let hub = push_all snaps (init values) in
      let latest = push_all-snapshot n snaps (init values) in
      (
        latest,
        rw (nodes_are_keys hub) (
            rw (count-keys n hub (push_all-IsUnique snaps (init values) tt))
              (ap (λ o. if is_some o then 1 else 0) latest)),
        summary_count hub,
        rw (nodes_are_keys hub) (length-keys hub),
      )

  -- The view of a node has the values of a push at the time `now`.
  pub record Shows (now : values.Float) (n : String) (payload : Payload values)
      (view : NodeView values) : Type 0 where
    pub id : view.node_id ≡ n
    pub at : view.timestamp ≡ or_else now payload.timestamp
    pub score : view.love_score ≡ or_else values.zero_float payload.love_score
    pub observed :
        view.observation_count
        ≡ values.object_length (or_else values.empty_object payload.observations)
    pub energy_is : view.energy ≡ or_else values.empty_object payload.energy
    pub climate_is : view.climate ≡ or_else values.empty_object payload.climate
    pub biosphere_is : view.biosphere ≡ or_else values.empty_object payload.biosphere
    pub network_is : view.network ≡ or_else values.empty_object payload.network
    pub integrity_is : view.integrity ≡ or_else values.empty_object payload.integrity
    pub metadata_is : view.metadata ≡ or_else values.empty_object payload.metadata

  node_view-Shows :
      (now : values.Float) (n : String) (payload : Payload values)
      → Shows now n payload (node_view values (snapshot_of values now n payload))
  unfolding node_view snapshot_of
  node_view-Shows now n payload = record {
    id = refl;
    at = refl;
    score = refl;
    observed = refl;
    energy_is = refl;
    climate_is = refl;
    biosphere_is = refl;
    network_is = refl;
    integrity_is = refl;
    metadata_is = refl;
  }

  -- A server with a hub accepts each push; a request for that node then gets the values of the
  -- push, with the time, empty objects and zero in place of those that were missing, and a request
  -- for another node what it got before. A server with no hub refuses each push and every request.
  pub push_then_request :
      (now : values.Float) (n j : String) (payload : Payload values) (hub : Hub values)
      → j ≢ n
      → let after = (planetary_state_push values now n payload (some hub)).1 in
        ((planetary_state_push values now n payload (some hub)).0.accepted ≡ true)
        × ((view : NodeView values) × Shows now n payload view
            × (planetary_state_snapshot values (some n) after ≡ node view))
        × (planetary_state_snapshot values (some j) after
            ≡ planetary_state_snapshot values (some j) (some hub))
        × ((planetary_state_push values now n payload none).0.accepted ≡ false)
        × ((planetary_state_push values now n payload none).1 ≡ none)
        × ((request : Option String) → planetary_state_snapshot values request none ≡ hub_not_wired)
  unfolding planetary_state_push planetary_state_snapshot push_dict push snapshot snapshot_of
  push_then_request now n j payload hub ne =
      let snap = snapshot_of values now n payload in
      (
        refl,
        (
          node_view values snap,
          node_view-Shows now n payload,
          ap (reply_of values n) (get-insert_self n snap hub),
        ),
        ap (reply_of values j) (get-insert n j snap hub ∙ rw (ne_test n j ne) refl),
        refl,
        refl,
        λ request. refl,
      )
