-- ===== src/GroundControl/Satellites/Register.antt =====
-- Registering a satellite by token: registerSatelliteHandler of satellite_handlers.go, and its helpers in
-- helpers.go.
pub mod Permitted
pub mod Registered
use harbor_satellite.GroundControl.Fleet.Settings
use harbor_satellite.GroundControl.Fleet.Credentials
use harbor_satellite.Common.{Bool, List, Option, String, [], none, not, some, ℕ, ◌*◌, ◌+◌, ◌∷◌, ◌⧺◌}
use harbor_satellite.GroundControl.Fleet.{Fleet, Satellite}
use harbor_satellite.GroundControl.Action.{
  Action, Query, app_error, ask, check, exec, exec_one, in_transaction, on_error, or_raise,
  other_error, query_many, query_one, return, with_error, ◌>>=◌, ◌>>◌,
}
use harbor_satellite.GroundControl.Harbor.{
  Harbor, RobotCreated, assemble_group_state, create_or_update_sat_state_artifact,
  create_rob_acc_for_satellite, ensure_satellite_project_exists, is_robot_present,
  update_robot_projects,
}
use harbor_satellite.GroundControl.Satellites.{
  Call, cleanup_robot, commit, is_valid_name, robot_expiry,
}
use harbor_satellite.GroundControl.Fleet

abbrev pub token_lifetime : ℕ
token_lifetime = 24 * 3600 * 1000000000

pub record RegisterSatelliteParams : Type 0 where
  pub name : String
  pub groups : List String
  pub config_name : String

module _ (h : Harbor) (c : Call) where
  -- The names of the groups are those of the request; none if it has no list.
  unfoldable pub add_satellite_to_groups : List String → ℕ → Action h.Remote (List String)
  add_satellite_to_groups [] id = return []
  add_satellite_to_groups (name ∷ names) id = do
    replications ←
        ask (app_error 400 "Error: Group does not exist in replication")
          (h.list_replication_policies ("name=" ⧺ name))
    group ←
        query_one (c.fails (Query.get_group_by_name name))
          (app_error 400 "Error: Invalid Group Name") (Fleet.get_group_by_name name)
    exec (c.fails (Query.add_satellite_to_group group.id)) other_error
        (Fleet.add_satellite_to_group id group.id)
    states ← add_satellite_to_groups names id
    return (assemble_group_state c.env name ∷ states)

  -- Each round replaces the permissions that the one before gave.
  unfoldable pub assign_permissions_to_robot : List String → ℕ → Action h.Remote (Unit {0})
  assign_permissions_to_robot [] robot_id = return tt
  assign_permissions_to_robot (name ∷ names) robot_id = do
    rows ←
        query_many (c.fails (Query.get_projects_of_group name))
          (app_error 500 "Error: failed to fetch projects for group")
          (Fleet.get_projects_of_group name)
    projects ←
        or_raise (app_error 500 "Error: no projects found for group")
          (elim rows [ [] ↦ none | p ∷ ps ↦ some p ])
    with_error (app_error 500 "Error: failed to update robot account permissions")
        (update_robot_projects h c.env projects robot_id)
    assign_permissions_to_robot names robot_id

  -- From the new robot account to the commit.
  unfoldable pub register_robot :
      RegisterSatelliteParams → Satellite → List String → RobotCreated → Action h.Remote String
  unfolding commit robot_expiry
  register_robot req satellite states robot = do
    secret_hash ←
        or_raise (app_error 500 "Error: failed to hash robot credentials") (c.hash robot.secret)
    stored ←
        exec_one (c.fails Query.add_robot_account)
          (app_error 500 "Error: failed to store robot account")
          (Credentials.add_robot_account robot.name secret_hash robot.id satellite.id
            (robot_expiry robot.expires_at))
    assign_permissions_to_robot req.groups robot.id
    config ←
        query_one (c.fails Query.get_config_by_name) other_error
          (Settings.get_config_by_name req.config_name)
    exec (c.fails Query.set_satellite_config) other_error
        (Settings.set_satellite_config satellite.id config.id)
    create_or_update_sat_state_artifact h c.env req.name states req.config_name
    drawn ← or_raise other_error c.random_token
    token ←
        exec_one (c.fails Query.add_token) other_error
          (Credentials.add_token satellite.id drawn (c.now + token_lifetime))
    commit h c
    return token

  unfoldable pub register_body : RegisterSatelliteParams → Action h.Remote String
  unfolding register_robot cleanup_robot
  register_body req = do
    satellite ←
        exec_one (c.fails Query.create_satellite)
          (app_error 400 "Error: failed to create satellite") (Fleet.create_satellite req.name)
    states ← add_satellite_to_groups req.groups satellite.id
    ensure_satellite_project_exists h c.env
    robot ←
        with_error (app_error 400 "Error: failed to create robot account")
          (create_rob_acc_for_satellite h c.env ("satellite" ∷ []) satellite.name)
    on_error (cleanup_robot h c robot.id) (register_robot req satellite states robot)

  -- registerSatelliteHandler; the flag says whether SPIFFE is enabled, and the body may not decode.
  unfoldable pub register_satellite_handler :
      Bool → Option RegisterSatelliteParams → Action h.Remote String
  unfolding register_body is_valid_name
  register_satellite_handler spiffe body = do
    check (not spiffe) (app_error 400 "satellite registration via this endpoint is disabled")
    req ← or_raise (app_error 400 "Invalid request body") body
    check (is_valid_name req.name) (app_error 400 "invalid satellite name")
    check (is_valid_name req.config_name) (app_error 400 "invalid or empty config_name")
    present ←
        with_error (app_error 400 "Error querying for robot account")
          (is_robot_present h c.env req.name)
    check (not present) (app_error 400 "Error: Robot Account name already present")
    in_transaction (c.fails Query.begin) other_error (register_body req)
