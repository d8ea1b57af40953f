-- ===== src/GroundControl/Satellites.antt =====
-- internal/groundcontrol/server/satellite_handlers.go and helpers.go: registering satellites by token,
-- their first requests, putting them into groups, and deleting them. Harbor is a parameter; a call
-- says which of its queries fail, what the clock shows, and what hashing a secret and drawing a token
-- return. The audit log is left out.
pub mod Register
pub mod Ztr
pub mod Delete
pub mod Membership
pub mod Spiffe
pub mod Sample
pub mod Tests
use Prim.Native.Char.{Char, code}
use Prim.Native.String.{len}
use harbor_satellite.GroundControl.Fleet.Settings
use harbor_satellite.Common.{
  ℕ, ◌+◌, ◌*◌, String, ◌⧺◌, Bool, true, false, not, ◌&&◌, ◌||◌, Option, none, some, List, [], ◌∷◌,
  ◌++◌, ltb, leb, eqb, ◌==◌, if◌then◌else◌, ℤ, pos, negsuc,
}
use harbor_satellite.GroundControl.Fleet.{
  Fleet, Satellite, Group, RobotAccount, SatelliteToken, SatelliteGroup, Config,
}
use harbor_satellite.GroundControl.Fleet
use harbor_satellite.GroundControl.Action.{
  Query, app_error, other_error, Action, return, raise, ◌>>=◌, ◌>>◌, or_raise, check, query_one,
  query_many, exec, exec_one, ask, send, with_error, ignore_error, on_error, in_transaction,
}
use harbor_satellite.GroundControl.Harbor.{
  Harbor, Env, RobotCreated, assemble_group_state, assemble_satellite_state, is_robot_present,
  create_rob_acc_for_satellite, update_robot_projects, create_or_update_sat_state_artifact,
  delete_artifact, construct_harbor_delete_url, ensure_satellite_project_exists,
}

pub record Call : Type 0 where
  pub env : Env
  pub now : ℕ
  pub hash : String → Option String
  pub random_token : Option String
  pub fails : Query → Bool

-- ^[a-z0-9][a-z0-9._-]*$
abbrev pub is_lower_or_digit : ℕ → Bool
is_lower_or_digit c = (leb b'a' c && leb c b'z') || (leb b'0' c && leb c b'9')

unfoldable pub name_rest : String → Bool
name_rest String.[] = true
name_rest (String.◌∷◌ c s) =
    (is_lower_or_digit (code c) || eqb (code c) b'.' || eqb (code c) b'_' || eqb (code c) b'-')
    && name_rest s

unfoldable pub name_pattern : String → Bool
unfolding name_rest
name_pattern String.[] = false
name_pattern (String.◌∷◌ c s) = is_lower_or_digit (code c) && name_rest s

-- utils.IsValidName
unfoldable pub is_valid_name : String → Bool
unfolding name_pattern
is_valid_name name = leb 1 (len name) && leb (len name) 255 && name_pattern name

-- time.Unix(expiresAt, 0), if it is positive, in nanoseconds.
unfoldable pub robot_expiry : ℤ → Option ℕ
robot_expiry (pos n) = if ltb 0 n then some (n * 1000000000) else none
robot_expiry (negsuc n) = none

module _ (h : Harbor) (c : Call) where
  -- The loops that gather the projects and the states of a satellite's groups. `view` is what a query
  -- reads: the transaction's tables, or those outside of it.
  unfoldable pub group_details :
      (Fleet → Fleet) → String → List SatelliteGroup → Action h.Remote (List String × List String)
  group_details view message [] = return ([], [])
  group_details view message (row ∷ rows) = do
    group ←
        query_one (c.fails (Query.get_group_by_id row.group_id)) (app_error 500 message)
          (λ db. Fleet.get_group_by_id row.group_id (view db))
    rest ← group_details view message rows
    return (group.projects ++ rest.0, assemble_group_state c.env group.group_name ∷ rest.1)

  unfoldable pub get_group_states : List SatelliteGroup → Action h.Remote (List String)
  unfolding group_details
  get_group_states rows = do
    details ← group_details (λ db. db) "Error: Get Group By ID Failed" rows
    return details.1

  unfoldable pub fetch_satellite_config : (Fleet → Fleet) → ℕ → Action h.Remote Config
  fetch_satellite_config view id = do
    link ←
        query_one (c.fails Query.satellite_config)
          (app_error 500 "Error: Failed to fetch satellite config")
          (λ db. Settings.satellite_config id (view db))
    query_one (c.fails Query.get_config_by_id)
        (app_error 500 "Error: Failed to fetch satellite config")
        (λ db. Settings.get_config_by_id link.config_id (view db))

  -- The deferred clean-up: no account has the id 0.
  unfoldable pub cleanup_robot : ℕ → Action h.Remote (Unit {0})
  cleanup_robot id = if eqb id 0 then return tt else send other_error (h.delete_robot id)

  unfoldable pub commit : Action h.Remote (Unit {0})
  commit = check (not (c.fails Query.commit)) (app_error 500 "Error: Could not commit transaction")

  -- listSatelliteHandler
  unfoldable pub list_satellite_handler : Action h.Remote (List Satellite)
  list_satellite_handler =
      query_many (c.fails Query.list_satellites) (app_error 500 "Error: Failed to List Satellites")
        (λ db. db.satellites)

  -- GetSatelliteByName
  unfoldable pub get_satellite_handler : String → Action h.Remote Satellite
  get_satellite_handler name =
      query_one (c.fails Query.get_satellite_by_name)
        (app_error 500 "Error: Failed to Get Satellite") (Fleet.get_satellite_by_name name)
