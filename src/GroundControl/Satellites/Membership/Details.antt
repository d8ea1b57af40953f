-- ===== src/GroundControl/Satellites/Membership/Details.antt =====
-- What the loops over a satellite's groups gather, as lists of its groups.
use harbor_satellite.Common.{List, String, [], none, some, sym, ℕ, ◌++◌, ◌∙◌, ◌∷◌, ◌≡◌}
use harbor_satellite.GroundControl.Fleet.{
  Config, Fleet, Group, SatelliteConfig, SatelliteGroup, get_group_by_id, satellite_group_list,
}
use harbor_satellite.GroundControl.Fleet.Settings.{get_config_by_id, satellite_config}
use harbor_satellite.GroundControl.Action.{World, ok}
use harbor_satellite.GroundControl.Action.Steps.{
  >>=-ok, obtain, obtain_pair, obtain_two, query_one-end, query_one-ok, return-end,
}
use harbor_satellite.GroundControl.Harbor.{Env, Harbor, assemble_group_state}
use harbor_satellite.GroundControl.Satellites.{
  Call, fetch_satellite_config, get_group_states, group_details,
}

-- The groups of some memberships.
unfoldable pub groups_of : List SatelliteGroup → Fleet → List Group
groups_of [] db = []
groups_of (row ∷ rows) db =
    let rest = groups_of rows db in
    elim (get_group_by_id row.group_id db) [ none ↦ rest | some group ↦ group ∷ rest ]

groups_of_cons :
    (row : SatelliteGroup) (rows : List SatelliteGroup) (db : Fleet) {group : Group}
    → get_group_by_id row.group_id db ≡ some group
    → groups_of (row ∷ rows) db ≡ group ∷ groups_of rows db
unfolding groups_of
groups_of_cons row rows db found = rw (found, groups_of)

unfoldable pub all_projects : List Group → List String
all_projects [] = []
all_projects (group ∷ groups) = group.projects ++ all_projects groups

unfoldable pub group_states : Env → List Group → List String
group_states v [] = []
group_states v (group ∷ groups) = assemble_group_state v group.group_name ∷ group_states v groups

-- The groups that a satellite is in, by the tables.
unfoldable pub satellite_groups : ℕ → Fleet → List Group
unfolding groups_of
satellite_groups id db = groups_of (satellite_group_list id db) db

module _ (h : Harbor) (c : Call) (view : Fleet → Fleet) (message : String) where
  pub group_details-ok :
      (rows : List SatelliteGroup) (w : World h.Remote) {d : List String × List String}
      {w' : World h.Remote}
      → group_details h c view message rows w ≡ (ok d, w')
      → (w' ≡ w)
        × (d.0 ≡ all_projects (groups_of rows (view w.db)))
        × (d.1 ≡ group_states c.env (groups_of rows (view w.db)))
  unfolding group_details all_projects group_states
  group_details-ok [] w h0 =
      let (made, same) = return-end _ _ h0 in unfold groups_of in (same, cc, cc)
  group_details-ok (row ∷ rows) w h0 =
      let (group, found, h1) = query_one-ok _ _ _ _ _ h0 in
      let (rest, w1, h2, h3) = >>=-ok _ _ _ h1 in
      let (same, projects, states) = group_details-ok rows w h2 in
      let (made, last) = return-end _ _ h3 in
      let found_group = groups_of_cons row rows (view w.db) found in
      rw found_group (last ∙ same, cc, cc)

module _ (h : Harbor) (c : Call) (view : Fleet → Fleet) where
  pub fetch_satellite_config-ok :
      (id : ℕ) (w : World h.Remote) {config : Config} {w' : World h.Remote}
      → fetch_satellite_config h c view id w ≡ (ok config, w')
      → (w' ≡ w)
        × ((link : SatelliteConfig) × (satellite_config id (view w.db) ≡ some link)
            × (get_config_by_id link.config_id (view w.db) ≡ some config))
  unfolding fetch_satellite_config
  fetch_satellite_config-ok id w h0 =
      let (link, linked, h1) = query_one-ok _ _ _ _ _ h0 in
      let (found, same) = query_one-end _ _ _ _ h1 in (same, (link, linked, found))

module _ (h : Harbor) (c : Call) where
  pub get_group_states-ok :
      (rows : List SatelliteGroup) (w : World h.Remote) {states : List String} {w' : World h.Remote}
      → get_group_states h c rows w ≡ (ok states, w')
      → (w' ≡ w) × (states ≡ group_states c.env (groups_of rows w.db))
  unfolding get_group_states
  get_group_states-ok rows w h0 = obtain_two (>>=-ok _ _ _ h0) λ details w1 gathered h1.
      obtain (group_details-ok h c _ _ _ _ gathered) λ same1 projects states.
        obtain_pair (return-end _ _ h1) λ made same2. (same2 ∙ same1, sym made ∙ states)
