-- ===== src/GroundControl/GroupSync.antt =====
-- internal/groundcontrol/server/group_handlers.go: the state of a group as Harbor's adapter sends it,
-- reading groups, and the deletion of a group.
pub mod Narrowed
use harbor_satellite.GroundControl.Fleet.Credentials
use harbor_satellite.Common.{List, Option, String, [], some, Bool, ◌∷◌}
use harbor_satellite.GroundControl.Fleet.{Fleet, Group, Satellite, SatelliteGroup}
use harbor_satellite.GroundControl.Action.{
  Action, Query, app_error, check, exec, exec_one, in_transaction, or_raise, other_error,
  query_many, query_one, return, with_error, ◌>>=◌, ◌>>◌,
}
use harbor_satellite.GroundControl.Harbor.{
  Artifact, Harbor, construct_harbor_delete_url, create_or_update_sat_state_artifact,
  create_state_artifact, delete_artifact, ensure_satellite_project_exists, get_project_names,
  update_robot_projects,
}
use harbor_satellite.GroundControl.Satellites.{Call, commit, fetch_satellite_config, group_details}
use harbor_satellite.GroundControl.Fleet

module _ (h : Harbor) (c : Call) where
  -- The permissions of each satellite in the group are replaced by the projects of this group.
  unfoldable pub update_robots : List String → List SatelliteGroup → Action h.Remote (Unit {0})
  update_robots projects [] = return tt
  update_robots projects (row ∷ rows) = do
    robot ←
        query_one (c.fails (Query.get_robot_acc_by_satellite_id row.satellite_id)) other_error
          (Credentials.get_robot_acc_by_satellite_id row.satellite_id)
    update_robot_projects h c.env projects robot.robot_id
    update_robots projects rows

  unfoldable pub groups_sync_body : String → List Artifact → Action h.Remote Group
  unfolding update_robots commit
  groups_sync_body name artifacts = do
    group ←
        exec_one (c.fails Query.create_group) other_error
          (λ db. some (Fleet.create_group name c.env.url (get_project_names artifacts) db))
    satellites ←
        query_many (c.fails Query.group_satellite_list) other_error
          (Fleet.group_satellite_list group.id)
    update_robots (get_project_names artifacts) satellites
    ensure_satellite_project_exists h c.env
    create_state_artifact h c.env name artifacts
    commit h c
    return group

  -- groupsSyncHandler, with the group and its artifacts, if the body decodes.
  unfoldable pub groups_sync_handler : Option (String × List Artifact) → Action h.Remote Group
  unfolding groups_sync_body
  groups_sync_handler body = do
    req ← or_raise (app_error 400 "Invalid request body") body
    in_transaction (c.fails Query.begin) other_error (groups_sync_body req.0 req.1)

  unfoldable pub get_group_handler : String → Action h.Remote Group
  get_group_handler name =
      query_one (c.fails (Query.get_group_by_name name)) (app_error 404 "Group not found")
        (Fleet.get_group_by_name name)

  unfoldable pub list_group_handler : Action h.Remote (List Group)
  list_group_handler = query_many (c.fails Query.list_groups) other_error (λ db. db.groups)

  -- groupSatelliteHandler
  unfoldable pub group_satellite_handler : String → Action h.Remote (List Satellite)
  group_satellite_handler name = do
    exists ←
        query_many (c.fails Query.check_group_exists) (app_error 500 "error: failed to get group")
          (Fleet.check_group_exists name)
    check exists (app_error 404 "error: group not found")
    query_many (c.fails Query.get_satellites_by_group_name)
        (app_error 500 "error: failed to get satellites for group")
        (Fleet.get_satellites_by_group_name name)

  -- One round of the loop of deleteGroupHandler.
  unfoldable pub detach : Group → SatelliteGroup → Action h.Remote (Unit {0})
  unfolding group_details fetch_satellite_config
  detach group row = do
    exec (c.fails (Query.remove_satellite_from_group row.satellite_id))
        (app_error 500 "Error: Failed to remove group from satellite")
        (Fleet.remove_satellite_from_group row.satellite_id group.id)
    robot ←
        query_one (c.fails (Query.get_robot_acc_by_satellite_id row.satellite_id))
          (app_error 500 "Error: Failed to update satellite permissions")
          (Credentials.get_robot_acc_by_satellite_id row.satellite_id)
    groups ←
        query_many (c.fails (Query.satellite_group_list row.satellite_id))
          (app_error 500 "Error: Failed to update satellite state")
          (Fleet.satellite_group_list row.satellite_id)
    details ← group_details h c (λ db. db) "Error: Failed to update satellite state" groups
    with_error (app_error 500 "Error: Failed to update satellite permissions")
        (update_robot_projects h c.env details.0 robot.robot_id)
    satellite ←
        query_one (c.fails (Query.get_satellite row.satellite_id))
          (app_error 500 "Error: Failed to update satellite state")
          (Fleet.get_satellite row.satellite_id)
    config ← fetch_satellite_config h c (λ db. db) satellite.id
    with_error (app_error 500 "Error: Failed to update satellite state")
        (create_or_update_sat_state_artifact h c.env satellite.name details.1 config.config_name)

  unfoldable pub detach_all : Group → List SatelliteGroup → Action h.Remote (Unit {0})
  unfolding detach
  detach_all group [] = return tt
  detach_all group (row ∷ rows) = do detach group row; detach_all group rows

  unfoldable pub delete_group_body : String → Action h.Remote (Unit {0})
  unfolding detach_all commit
  delete_group_body name = do
    group ←
        query_one (c.fails (Query.get_group_by_name name)) (app_error 404 "Error: Group Not Found")
          (Fleet.get_group_by_name name)
    satellites ←
        query_many (c.fails Query.group_satellite_list)
          (app_error 500 "Error: Failed to list satellites for group")
          (Fleet.group_satellite_list group.id)
    detach_all group satellites
    exec (c.fails Query.delete_group) (app_error 500 "Error: Failed to delete group")
        (Fleet.delete_group group.id)
    commit h c

  -- deleteGroupHandler: the group's artifact goes after the commit.
  unfoldable pub delete_group_handler : String → Action h.Remote (Unit {0})
  unfolding delete_group_body
  delete_group_handler name = do
    in_transaction (c.fails Query.begin)
        (app_error 500 "Error: Failed to start database transaction") (delete_group_body name)
    with_error (app_error 500 "Error: Failed to delete group state")
        (delete_artifact h c.env (construct_harbor_delete_url c.env name "group"))
