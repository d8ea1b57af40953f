-- ===== src/GroundControl/Satellites/Spiffe.antt =====
-- Zero-touch registration by a SPIFFE identity: spiffeZtrHandler, autoRegisterSatellite,
-- ensureSatelliteRobotAccount and ensureSatelliteConfig of satellite_handlers.go.
pub mod Lost
use harbor_satellite.GroundControl.Fleet.Settings
use harbor_satellite.GroundControl.Fleet.Credentials
use harbor_satellite.Common.{List, Option, String, [], if◌then◌else◌, none, some, ℕ, ◌==◌, ◌∷◌, ◌⧺◌}
use harbor_satellite.GroundControl.Fleet.{Config, Fleet, RobotAccount, Satellite}
use harbor_satellite.GroundControl.Action.{
  Action, Query, app_error, exec, exec_one, ignore_error, in_transaction, on_error, or_else,
  or_raise, other_error, query_many, raise, return, try_query, with_error, ◌>>=◌, ◌>>◌,
}
use harbor_satellite.GroundControl.Harbor.{
  Harbor, assemble_satellite_state, create_and_push_config_state_artifact,
  create_or_update_sat_state_artifact, create_rob_acc_for_satellite,
  ensure_satellite_project_exists,
}
use harbor_satellite.GroundControl.Satellites.{
  Call, cleanup_robot, commit, fetch_satellite_config, get_group_states, robot_expiry,
}
use harbor_satellite.GroundControl.Satellites.Ztr.{
  StateConfig, placeholder_secret, refresh_robot_secret,
}
use harbor_satellite.GroundControl.Fleet

-- What the middleware found: a satellite's name, or an identity with the name that it holds, if any.
pub data Identity : Type 0 where
  no_identity : Identity
  named : String → Identity
  spiffe_id : Option String → Identity

-- A robot account that has been created but not stored: name, id, secret and expiry.
pub record NewRobot : Type 0 where
  pub name : String
  pub id : ℕ
  pub secret : String
  pub expiry : Option ℕ

-- The literal defaultConfigJSON.
abbrev pub default_config_json : String
default_config_json =
    "{\n  \"app_config\": {\n    \"log_level\": \"info\",\n    \"state_replication_interval\": \"@every 00h00m30s\",\n    \"register_satellite_interval\": \"@every 00h00m05s\",\n    \"heartbeat_interval\": \"@every 00h00m30s\",\n    \"local_registry\": {\n      \"url\": \"http://127.0.0.1:8585\"\n    }\n  },\n  \"zot_config\": {\n    \"distSpecVersion\": \"1.1.0\",\n    \"storage\": { \"rootDirectory\": \"./zot\" },\n    \"http\": { \"address\": \"0.0.0.0\", \"port\": \"8585\" },\n    \"log\": { \"level\": \"info\" }\n  }\n}"

module _ (h : Harbor) (c : Call) where
  -- ensureSatelliteRobotAccount, up to the account in Harbor …
  unfoldable pub create_robot : Satellite → Action h.Remote NewRobot
  unfolding robot_expiry
  create_robot satellite =
      if c.env.skip_health_check
      then return (record {
        name = "robot$satellite-" ⧺ satellite.name;
        id = 0;
        secret = placeholder_secret;
        expiry = none;
      })
      else (do
        ensure_satellite_project_exists h c.env
        robot ← create_rob_acc_for_satellite h c.env ("satellite" ∷ []) satellite.name
        return (record {
          name = robot.name;
          id = robot.id;
          secret = robot.secret;
          expiry = robot_expiry robot.expires_at;
        }))

  -- … and its row.
  unfoldable pub store_robot : Satellite → NewRobot → String → Action h.Remote RobotAccount
  store_robot satellite robot secret_hash =
      exec_one (c.fails Query.add_robot_account) other_error
        (Credentials.add_robot_account robot.name secret_hash robot.id satellite.id robot.expiry)

  unfoldable pub default_config : Option Config → Action h.Remote Config
  default_config (some config) = return config
  default_config none = do
    config ←
        exec_one (c.fails Query.create_config) other_error
          (Settings.create_config "default" c.env.url default_config_json)
    ignore_error (create_and_push_config_state_artifact h c.env default_config_json "default")
    return config

  -- ensureSatelliteConfig, where the satellite has no config or reading it fails.
  unfoldable pub link_default : Satellite → Action h.Remote (Unit {0})
  unfolding default_config
  link_default satellite = do
    found ← try_query (c.fails Query.get_config_by_name) (Settings.get_config_by_name "default")
    config ← default_config found
    exec (c.fails Query.set_satellite_config) other_error
        (Settings.set_satellite_config satellite.id config.id)

  unfoldable pub ensure_satellite_config : Satellite → Action h.Remote (Unit {0})
  unfolding link_default fetch_satellite_config
  ensure_satellite_config satellite =
      or_else (do config ← fetch_satellite_config h c (λ db. db) satellite.id; return tt)
        (link_default satellite)

  -- The errors after the account exists are followed by its clean-up, except where hashing fails.
  unfoldable pub auto_register_body : String → Action h.Remote Satellite
  unfolding create_robot store_robot ensure_satellite_config commit cleanup_robot
  auto_register_body name = do
    satellite ← exec_one (c.fails Query.create_satellite) other_error (Fleet.create_satellite name)
    robot ← create_robot satellite
    secret_hash ← or_raise other_error (c.hash robot.secret)
    on_error (cleanup_robot h c robot.id) (do
      row ← store_robot satellite robot secret_hash
      ensure_satellite_config satellite
      commit h c
      return satellite)

  unfoldable pub auto_register_satellite : String → Action h.Remote Satellite
  unfolding auto_register_body
  auto_register_satellite name =
      in_transaction (c.fails Query.begin) other_error (auto_register_body name)

  unfoldable pub satellite_name : Identity → Action h.Remote String
  satellite_name no_identity = raise (app_error 401 "Error: SPIFFE authentication required")
  satellite_name (named name) = return name
  satellite_name (spiffe_id name) =
      or_raise (app_error 400 "Error: Invalid SPIFFE ID format for satellite") name

  unfoldable pub found_or_registered : String → Option Satellite → Action h.Remote Satellite
  unfolding auto_register_satellite
  found_or_registered name (some satellite) = return satellite
  found_or_registered name none =
      with_error (app_error 500 "Error: failed to auto-register satellite")
        (auto_register_satellite name)

  -- No transaction: the row of the account stays where the config fails, and the account goes.
  unfoldable pub new_credentials : Satellite → Action h.Remote (RobotAccount × String)
  unfolding create_robot store_robot ensure_satellite_config cleanup_robot
  new_credentials satellite = do
    robot ←
        with_error (app_error 500 "Error: failed to create robot account") (create_robot satellite)
    secret_hash ←
        or_raise (app_error 500 "Error: failed to create robot account") (c.hash robot.secret)
    row ←
        with_error (app_error 500 "Error: failed to create robot account")
          (store_robot satellite robot secret_hash)
    on_error (cleanup_robot h c robot.id) (
        with_error (app_error 500 "Error: failed to ensure satellite config")
          (ensure_satellite_config satellite))
    return (row, robot.secret)

  unfoldable pub fresh_credentials :
      Satellite → Option RobotAccount → Action h.Remote (RobotAccount × String)
  unfolding new_credentials refresh_robot_secret
  fresh_credentials satellite none = new_credentials satellite
  fresh_credentials satellite (some robot) = do
    secret ←
        with_error (app_error 500 "Error: failed to refresh robot secret")
          (refresh_robot_secret h c robot)
    return (robot, secret)

  unfoldable pub published_state : Satellite → List String → Action h.Remote String
  unfolding fetch_satellite_config
  published_state satellite states =
      if c.env.skip_health_check
      then return ("placeholder://spiffe-testing/" ⧺ satellite.name)
      else (do
        config ← fetch_satellite_config h c (λ db. db) satellite.id
        create_or_update_sat_state_artifact h c.env satellite.name states config.config_name
        return (assemble_satellite_state c.env satellite.name))

  unfoldable pub spiffe_ztr_handler : Identity → Action h.Remote StateConfig
  unfolding satellite_name found_or_registered fresh_credentials published_state
  spiffe_ztr_handler identity = do
    name ← satellite_name identity
    found ← try_query (c.fails Query.get_satellite_by_name) (Fleet.get_satellite_by_name name)
    satellite ← found_or_registered name found
    robot ←
        try_query (c.fails (Query.get_robot_acc_by_satellite_id satellite.id))
          (Credentials.get_robot_acc_by_satellite_id satellite.id)
    credentials ← fresh_credentials satellite robot
    groups ←
        query_many (c.fails (Query.satellite_group_list satellite.id))
          (app_error 500 "Error: Satellite Groups List Failed")
          (Fleet.satellite_group_list satellite.id)
    states ←
        with_error (app_error 500 "Error: Get Group By ID Failed") (get_group_states h c groups)
    state_url ← published_state satellite states
    return (record {
      state_url = state_url;
      username = credentials.0.robot_name;
      password = credentials.1;
      registry_url = if c.env.url == "" then "http://placeholder-registry:5000" else c.env.url;
    })
