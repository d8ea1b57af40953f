-- ===== src/GroundControl/Satellites/Delete.antt =====
-- DeleteSatelliteByName of satellite_handlers.go.
pub mod Blocked
pub mod Stuck
use harbor_satellite.GroundControl.Fleet.Credentials
use harbor_satellite.Common.{String}
use harbor_satellite.GroundControl.Fleet.{Fleet}
use harbor_satellite.GroundControl.Action.{
  Action, Query, app_error, exec, in_transaction, query_one, send, ◌>>=◌, ◌>>◌,
}
use harbor_satellite.GroundControl.Harbor.{Harbor, construct_harbor_delete_url, delete_artifact}
use harbor_satellite.GroundControl.Satellites.{Call, commit}
use harbor_satellite.GroundControl.Fleet

module _ (h : Harbor) (c : Call) where
  -- DeleteSatelliteByName
  unfoldable pub delete_satellite_body : String → Action h.Remote (Unit {0})
  unfolding commit
  delete_satellite_body name = do
    satellite ←
        query_one (c.fails Query.get_satellite_by_name) (app_error 400 "Error: Satellite Not Found")
          (Fleet.get_satellite_by_name name)
    robot ←
        query_one (c.fails (Query.get_robot_acc_by_satellite_id satellite.id))
          (app_error 500 "Error: Failed to Delete Satellite")
          (Credentials.get_robot_acc_by_satellite_id satellite.id)
    exec (c.fails Query.delete_satellite_by_name)
        (app_error 500 "Error: Failed to Delete Satellite") (Fleet.delete_satellite_by_name name)
    send (app_error 500 "Error: Failed to Delete Satellite") (h.delete_robot robot.robot_id)
    delete_artifact h c.env (construct_harbor_delete_url c.env satellite.name "satellite")
    commit h c

  unfoldable pub delete_satellite_handler : String → Action h.Remote (Unit {0})
  unfolding delete_satellite_body
  delete_satellite_handler name =
      in_transaction (c.fails Query.begin)
        (app_error 500 "Error: Failed to start database transaction") (delete_satellite_body name)
