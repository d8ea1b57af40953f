-- ===== src/GroundControl/Satellites/Ztr.antt =====
-- A satellite's first request, with its token: ztrHandler and refreshRobotSecret of
-- satellite_handlers.go.
pub mod Once
use harbor_satellite.GroundControl.Fleet.Credentials
use harbor_satellite.Common.{String, if◌then◌else◌, ltb, not, ◌==◌}
use harbor_satellite.GroundControl.Fleet.{Fleet, RobotAccount}
use harbor_satellite.GroundControl.Action.{
  Action, Query, app_error, ask, check, exec, or_raise, other_error, query_many, query_one, return,
  send, with_error, ◌>>=◌, ◌>>◌,
}
use harbor_satellite.GroundControl.Harbor.{
  Harbor, assemble_satellite_state, create_or_update_sat_state_artifact,
}
use harbor_satellite.GroundControl.Satellites.{
  Call, fetch_satellite_config, get_group_states, robot_expiry,
}
use harbor_satellite.GroundControl.Fleet

-- config.StateConfig, which the satellite is answered with.
pub record StateConfig : Type 0 where
  pub state_url : String
  pub username : String
  pub password : String
  pub registry_url : String

abbrev pub placeholder_secret : String
placeholder_secret = "spiffe-auto-registered-placeholder-secret"

module _ (h : Harbor) (c : Call) where
  -- refreshRobotSecret, past the test of the development mode.
  unfoldable pub refresh_in_harbor : RobotAccount → Action h.Remote String
  unfolding robot_expiry
  refresh_in_harbor robot = do
    payload ← send other_error (h.refresh_sec robot.robot_id)
    secret ← or_raise other_error payload
    check (not (secret == "")) other_error
    secret_hash ← or_raise other_error (c.hash secret)
    details ← ask other_error (h.get_robot_by_id robot.robot_id)
    exec (c.fails Query.update_robot_account) other_error (
        Credentials.update_robot_account robot.id robot.robot_name secret_hash robot.robot_id
          (robot_expiry details.expires_at))
    return secret

  unfoldable pub refresh_robot_secret : RobotAccount → Action h.Remote String
  unfolding refresh_in_harbor
  refresh_robot_secret robot =
      if c.env.skip_health_check then return placeholder_secret else refresh_in_harbor robot

  -- ztrHandler: the satellite's first request, with its token.
  unfoldable pub ztr_handler : String → Action h.Remote StateConfig
  unfolding refresh_robot_secret get_group_states fetch_satellite_config
  ztr_handler token = do
    info ←
        query_one (c.fails Query.get_token_by_value) (app_error 400 "Error: Invalid Token")
          (Credentials.get_token_by_value token)
    check (not (ltb info.expires_at c.now)) (app_error 401 "Error: Token Expired")
    robot ←
        query_one (c.fails (Query.get_robot_acc_by_satellite_id info.satellite_id))
          (app_error 500 "Error: Robot Account Not Found for Satellite")
          (Credentials.get_robot_acc_by_satellite_id info.satellite_id)
    secret ←
        with_error (app_error 500 "Error: failed to refresh robot secret")
          (refresh_robot_secret robot)
    groups ←
        query_many (c.fails (Query.satellite_group_list info.satellite_id))
          (app_error 500 "Error: Satellite Groups List Failed")
          (Fleet.satellite_group_list info.satellite_id)
    states ← get_group_states h c groups
    satellite ←
        query_one (c.fails (Query.get_satellite info.satellite_id))
          (app_error 404 "satellite not found") (Fleet.get_satellite info.satellite_id)
    config ← fetch_satellite_config h c (λ db. db) info.satellite_id
    create_or_update_sat_state_artifact h c.env satellite.name states config.config_name
    exec (c.fails Query.delete_token) (app_error 500 "Error: Error deleting token")
        (Credentials.delete_token token)
    return (record {
      state_url = assemble_satellite_state c.env satellite.name;
      username = robot.robot_name;
      password = secret;
      registry_url = c.env.url;
    })
