-- ===== src/GroundControl/Satellites/Membership.antt =====
-- Putting a satellite into a group and taking it out: addSatelliteToGroup and removeSatelliteFromGroup of
-- satellite_handlers.go.
pub mod Details
pub mod Followed
pub mod Handled
use harbor_satellite.GroundControl.Fleet.Credentials
use harbor_satellite.Common.{Bool, Option, String, false, true}
use harbor_satellite.GroundControl.Fleet.{Fleet, Group, Satellite}
use harbor_satellite.GroundControl.Action.{
  Action, Query, app_error, check, exec, in_transaction, or_raise, other_error, query_many,
  query_one, return, with_error, ◌>>=◌, ◌>>◌,
}
use harbor_satellite.GroundControl.Harbor.{
  Harbor, create_or_update_sat_state_artifact, update_robot_projects,
}
use harbor_satellite.GroundControl.Satellites.{
  Call, commit, fetch_satellite_config, group_details, is_valid_name,
}
use harbor_satellite.GroundControl.Fleet

module _ (h : Harbor) (c : Call) where
  -- From the row of the new member to the commit. The tables outside of the transaction are read too.
  unfoldable pub add_body : Fleet → Satellite → Group → Action h.Remote (Unit {0})
  unfolding group_details fetch_satellite_config commit
  add_body outside satellite group = do
    exec (c.fails (Query.add_satellite_to_group group.id))
        (app_error 500 "Error: Failed to add satellite to group")
        (Fleet.add_satellite_to_group satellite.id group.id)
    groups ←
        query_many (c.fails (Query.satellite_group_list satellite.id))
          (app_error 500 "Error: Failed to get updated satellite group list")
          (Fleet.satellite_group_list satellite.id)
    details ← group_details h c (λ db. outside) "Error: Failed to get group details" groups
    config ← fetch_satellite_config h c (λ db. outside) satellite.id
    robot ←
        query_one (c.fails (Query.get_robot_acc_by_satellite_id satellite.id))
          (app_error 500 "Error: Failed to get robot account for satellite")
          (λ db. Credentials.get_robot_acc_by_satellite_id satellite.id outside)
    with_error (app_error 500 "Error: Failed to update robot account permissions")
        (update_robot_projects h c.env details.0 robot.robot_id)
    create_or_update_sat_state_artifact h c.env satellite.name details.1 config.config_name
    commit h c

  unfoldable pub add_if_absent : Bool → Satellite → Group → Action h.Remote (Unit {0})
  unfolding add_body
  add_if_absent true satellite group = return tt
  add_if_absent false satellite group = do
    outside ← query_many false other_error (λ db. db)
    in_transaction (c.fails Query.begin)
        (app_error 500 "Error: Failed to start database transaction")
        (add_body outside satellite group)

  -- addSatelliteToGroup, with the names of the satellite and of the group, if the body decodes.
  unfoldable pub add_satellite_to_group_handler :
      Option (String × String) → Action h.Remote (Unit {0})
  unfolding add_if_absent is_valid_name
  add_satellite_to_group_handler body = do
    req ← or_raise (app_error 400 "Invalid request body") body
    check (is_valid_name req.0) (app_error 400 "invalid satellite name")
    satellite ←
        query_one (c.fails Query.get_satellite_by_name) (app_error 400 "Error: Satellite Not Found")
          (Fleet.get_satellite_by_name req.0)
    group ←
        query_one (c.fails (Query.get_group_by_name req.1)) (app_error 400 "Error: Group Not Found")
          (Fleet.get_group_by_name req.1)
    already ←
        query_many (c.fails Query.check_satellite_in_group)
          (app_error 500 "Error: Failed to check satellite in group")
          (Fleet.check_satellite_in_group satellite.id group.id)
    add_if_absent already satellite group

  -- removeSatelliteFromGroup
  unfoldable pub remove_body : String → String → Action h.Remote (Unit {0})
  unfolding group_details fetch_satellite_config commit
  remove_body group_name satellite_name = do
    satellite ←
        query_one (c.fails Query.get_satellite_by_name) (app_error 400 "Error: Satellite Not Found")
          (Fleet.get_satellite_by_name satellite_name)
    group ←
        query_one (c.fails (Query.get_group_by_name group_name))
          (app_error 400 "Error: Group Not Found") (Fleet.get_group_by_name group_name)
    exec (c.fails (Query.remove_satellite_from_group satellite.id))
        (app_error 500 "Error: Failed to Remove Satellite from Group")
        (Fleet.remove_satellite_from_group satellite.id group.id)
    robot ←
        query_one (c.fails (Query.get_robot_acc_by_satellite_id satellite.id))
          (app_error 500 "Error: Failed to Add permission to robot account")
          (Credentials.get_robot_acc_by_satellite_id satellite.id)
    groups ←
        query_many (c.fails (Query.satellite_group_list satellite.id))
          (app_error 500 "Error: Failed to refresh satellite group list")
          (Fleet.satellite_group_list satellite.id)
    details ← group_details h c (λ db. db) "Error: Failed to to refresh satellite group list" groups
    with_error (app_error 500 "Error: Failed to update robot account permissions")
        (update_robot_projects h c.env details.0 robot.robot_id)
    config ← fetch_satellite_config h c (λ db. db) satellite.id
    create_or_update_sat_state_artifact h c.env satellite.name details.1 config.config_name
    commit h c

  unfoldable pub remove_satellite_from_group_handler : String → String → Action h.Remote (Unit {0})
  unfolding remove_body
  remove_satellite_from_group_handler group_name satellite_name =
      in_transaction (c.fails Query.begin)
        (app_error 500 "Error: Failed to start database transaction")
        (remove_body group_name satellite_name)
