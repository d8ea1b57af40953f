-- ===== src/GroundControl/GroupSync/Narrowed.antt =====
-- What groupsSyncHandler has done where it answers without an error.
use harbor_satellite.Common.{List, String, some, ◌≡◌}
use harbor_satellite.GroundControl.Fleet.{Fleet, RobotAccount, SatelliteGroup}
use harbor_satellite.GroundControl.Fleet.Credentials.{get_robot_acc_by_satellite_id}
use harbor_satellite.GroundControl.Harbor.{Harbor}
use harbor_satellite.GroundControl.Harbor.Contract.{HarborLaws}
use harbor_satellite.GroundControl.Harbor.Robots.{Permitted}
use harbor_satellite.GroundControl.Satellites.{Call}

module _ (h : Harbor) (laws : HarborLaws h) (c : Call) where
  -- The robot account of a row's satellite may read these projects and no others.
  abbrev pub Narrowed : List String → Fleet → h.Remote → SatelliteGroup → Type 0
  Narrowed projects db after row =
      (robot : RobotAccount) × (get_robot_acc_by_satellite_id row.satellite_id db ≡ some robot)
      × Permitted h robot.robot_id projects after
