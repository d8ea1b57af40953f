-- ===== src/GroundControl/Configs.antt =====
-- internal/groundcontrol/server/config_handlers.go: creating, updating, assigning and deleting the
-- configs of satellites. A config is the JSON text that json.Marshal made of it, `none` where that
-- fails, and jsonpatch.MergePatch is a parameter. What the audit log records is in
-- Redaction.
use harbor_satellite.GroundControl.Fleet.Settings
use harbor_satellite.Common.{Bool, List, Option, String, [], false, not, true, ◌∷◌}
use harbor_satellite.GroundControl.Fleet.{Config, Fleet, Satellite}
use harbor_satellite.GroundControl.Action.{
  Action, Query, app_error, check, exec, exec_one, in_transaction, or_raise, other_error,
  query_many, query_one, return, with_error, ◌>>=◌, ◌>>◌,
}
use harbor_satellite.GroundControl.Harbor.{
  Harbor, construct_harbor_delete_url, create_and_push_config_state_artifact,
  create_or_update_sat_state_artifact, delete_artifact, ensure_satellite_project_exists,
}
use harbor_satellite.GroundControl.Satellites.{Call, group_details, is_valid_name}
use harbor_satellite.GroundControl.Fleet

module _ (h : Harbor) (c : Call) where
  unfoldable commit : Action h.Remote (Unit {0})
  commit = check (not (c.fails Query.commit)) (app_error 500 "Error: Failed to commit transaction")

  unfoldable pub create_config_body : String → Option String → Action h.Remote (Unit {0})
  unfolding commit
  create_config_body name marshalled = do
    json ← or_raise other_error marshalled
    ensure_satellite_project_exists h c.env
    check (not (c.fails Query.create_config)) other_error
    config ←
        exec_one false (app_error 409 "error: config already exists")
          (Settings.create_config name c.env.url json)
    create_and_push_config_state_artifact h c.env json name
    commit

  unfoldable pub create_config_handler :
      Option (String × Option String) → Action h.Remote (Unit {0})
  unfolding create_config_body is_valid_name
  create_config_handler body = do
    req ← or_raise (app_error 400 "Invalid request body") body
    check (is_valid_name req.0) (app_error 400 "invalid or empty config_name")
    in_transaction (c.fails Query.begin)
        (app_error 500 "error: failed to start database transaction")
        (create_config_body req.0 req.1)

  module _ (merge_patch : String → String → Option String) where
    unfoldable pub update_config_body : String → Option String → Action h.Remote Config
    unfolding commit
    update_config_body name marshalled = do
      check (not (c.fails Query.get_config_by_name)) (app_error 500 "error: failed to get config")
      existing ←
          query_one false (app_error 404 "error: config not found")
            (Settings.get_config_by_name name)
      json ← or_raise other_error marshalled
      patched ←
          or_raise (app_error 400 "error: unable to apply patch") (merge_patch existing.config json)
      ensure_satellite_project_exists h c.env
      result ←
          exec_one (c.fails Query.update_config) other_error
            (Settings.update_config name c.env.url patched)
      create_and_push_config_state_artifact h c.env patched name
      commit
      return result

    unfoldable pub update_config_handler : String → Option (Option String) → Action h.Remote Config
    unfolding update_config_body is_valid_name
    update_config_handler name body = do
      req ← or_raise (app_error 400 "Invalid request body") body
      check (is_valid_name name) (app_error 400 "invalid or empty config_name")
      in_transaction (c.fails Query.begin)
          (app_error 500 "error: failed to start database transaction")
          (update_config_body name req)

  unfoldable pub list_configs_handler : Action h.Remote (List Config)
  list_configs_handler = query_many (c.fails Query.list_configs) other_error (λ db. db.configs)

  unfoldable pub get_config_handler : String → Action h.Remote Config
  get_config_handler name =
      query_one (c.fails Query.get_config_by_name) (app_error 404 "Config not found")
        (Settings.get_config_by_name name)

  -- setSatelliteConfig of helpers.go
  unfoldable pub link_config : String → String → Action h.Remote Satellite
  link_config satellite_name config_name = do
    satellite ←
        query_one (c.fails Query.get_satellite_by_name) (app_error 400 "Error: Satellite Not Found")
          (Fleet.get_satellite_by_name satellite_name)
    config ←
        query_one (c.fails Query.get_config_by_name) (app_error 400 "Error: Config Not Found")
          (Settings.get_config_by_name config_name)
    exec (c.fails Query.set_satellite_config)
        (app_error 500 "Error: Failed to Set Satellite config")
        (Settings.set_satellite_config satellite.id config.id)
    return satellite

  unfoldable pub set_config_body : String → String → Action h.Remote (Unit {0})
  unfolding link_config group_details commit
  set_config_body satellite_name config_name = do
    satellite ← link_config satellite_name config_name
    groups ←
        query_many (c.fails (Query.satellite_group_list satellite.id))
          (app_error 500 "Error: Failed to Add satellite to config")
          (Fleet.satellite_group_list satellite.id)
    details ← group_details h c (λ db. db) "Error: Failed to Add satellite to config" groups
    create_or_update_sat_state_artifact h c.env satellite.name details.1 config_name
    commit

  -- The handler setSatelliteConfig, with the names of the satellite and of the config.
  unfoldable pub set_config_handler : Option (String × String) → Action h.Remote (Unit {0})
  unfolding set_config_body
  set_config_handler body = do
    req ← or_raise (app_error 400 "Invalid request body") body
    in_transaction (c.fails Query.begin) other_error (set_config_body req.0 req.1)

  unfoldable pub is_config_in_use : Config → Action h.Remote Bool
  is_config_in_use config = do
    satellites ←
        query_many (c.fails Query.config_satellite_list) other_error
          (Settings.config_satellite_list config.id)
    return (elim satellites [ [] ↦ false | s ∷ rest ↦ true ])

  -- deleteConfigHandler: no transaction.
  unfoldable pub delete_config_handler : String → Action h.Remote (Unit {0})
  unfolding is_config_in_use
  delete_config_handler name = do
    config ←
        query_one (c.fails Query.get_config_by_name) (app_error 500 "Error: Failed to get Config")
          (Settings.get_config_by_name name)
    in_use ← is_config_in_use config
    check (not in_use) (app_error 400 "Cannot delete config that is in use")
    with_error (app_error 500 "Error: Could not delete config state artifact")
        (delete_artifact h c.env (construct_harbor_delete_url c.env name "config"))
    exec (c.fails Query.delete_config) other_error (Settings.delete_config config.id)
