-- ===== src/GroundControl/Satellites/Tests.antt =====
-- The handlers of satellites and groups at a Harbor in memory.
use harbor_satellite.Common.{
  List, String, [], false, find, keep, none, refl, some, true, ◌∷◌, ◌≡◌, ◌⊎◌,
}
use harbor_satellite.GroundControl.Fleet.{
  Group, Satellite, add_satellite_to_group, check_satellite_in_group, create_satellite,
  get_group_by_id, get_group_by_name, get_projects_of_group, get_satellite, get_satellite_by_name,
  remove_satellite_from_group, satellite_group_list, update_where,
}
use harbor_satellite.GroundControl.Fleet.Credentials.{
  add_robot_account, add_token, delete_token, get_robot_acc_by_satellite_id, get_token_by_value,
  update_robot_account,
}
use harbor_satellite.GroundControl.Fleet.Settings.{
  get_config_by_id, get_config_by_name, satellite_config, set_satellite_config,
}
use harbor_satellite.GroundControl.Action.{
  World, app_error, ask, check, cleaned, continue, err, exec, exec_one, in_transaction, ok,
  on_error, or_raise, query_many, query_one, raise, replaced, return, rolled_back, send, with_error,
  write, ◌>>=◌,
}
use harbor_satellite.GroundControl.Harbor.{
  Artifact, after_protocol, assemble_config_state, assemble_group_state, assemble_satellite_state,
  create_if_missing, create_or_update_sat_state_artifact, create_rob_acc_for_satellite,
  ensure_satellite_project_exists, gen_robot_perms, is_robot_present, publish, publish_states,
  strip_protocol, tag_image, update_robot_projects,
}
use harbor_satellite.GroundControl.Harbor.Simulated.{Sim, simulated, simulated-laws}
use harbor_satellite.GroundControl.Satellites.{
  cleanup_robot, commit, fetch_satellite_config, get_group_states, group_details, is_valid_name,
  name_pattern, name_rest, robot_expiry,
}
use harbor_satellite.GroundControl.Satellites.Membership.{
  add_body, add_if_absent, add_satellite_to_group_handler, remove_body,
  remove_satellite_from_group_handler,
}
use harbor_satellite.GroundControl.Satellites.Membership.Handled.{
  add_satellite_to_group_handler_done, remove_satellite_from_group_handler_done,
}
use harbor_satellite.GroundControl.Satellites.Membership.Followed.{Follows}
use harbor_satellite.Satellite.Utils.{strip}
use harbor_satellite.GroundControl.GroupSync.Narrowed.{Narrowed}
use harbor_satellite.GroundControl.Satellites.Ztr.{
  StateConfig, refresh_in_harbor, refresh_robot_secret, ztr_handler,
}
use harbor_satellite.GroundControl.Satellites.Ztr.Once.{Answered, ztr_handler_done}
use harbor_satellite.GroundControl.Satellites.Delete.{delete_satellite_handler}
use harbor_satellite.GroundControl.Satellites.Delete.Blocked.{Blocked}
use harbor_satellite.GroundControl.Satellites.Delete.Stuck.{
  attempts, delete_satellite_handler_stuck,
}
use harbor_satellite.GroundControl.Satellites.Spiffe.{named, satellite_name, spiffe_ztr_handler}
use harbor_satellite.GroundControl.Satellites.Spiffe.Lost.{
  Failed, Lost, requests, spiffe_ztr_handler_stuck,
}
use harbor_satellite.GroundControl.Satellites.Register.{
  add_satellite_to_groups, assign_permissions_to_robot, register_body, register_robot,
  register_satellite_handler,
}
use harbor_satellite.GroundControl.Satellites.Register.Registered.{
  Registered, register_satellite_handler_done,
}
use harbor_satellite.GroundControl.Satellites.Sample.{
  env, call, edge, account, tables, harbor, world,
}

add_runs :
    (w : World Sim) × (add_satellite_to_group_handler simulated call (some ("edge", "apps")) world
      ≡ (ok tt, w))
unfolding add_body add_if_absent add_satellite_to_group add_satellite_to_group_handler
    after_protocol ask assemble_config_state assemble_group_state assemble_satellite_state check
    check_satellite_in_group commit continue create_or_update_sat_state_artifact exec exec_one
    fetch_satellite_config find gen_robot_perms get_config_by_id get_group_by_id get_group_by_name
    get_robot_acc_by_satellite_id get_satellite_by_name group_details in_transaction is_valid_name
    keep name_pattern name_rest or_raise publish publish_states query_many query_one replaced return
    rolled_back satellite_config satellite_group_list send strip strip_protocol tag_image
    update_robot_projects with_error write ◌>>=◌
add_runs = (_, refl)

remove_runs :
    (w : World Sim) × (remove_satellite_from_group_handler simulated call "base" "edge" world
      ≡ (ok tt, w))
unfolding after_protocol ask assemble_config_state assemble_group_state assemble_satellite_state
    check commit continue create_or_update_sat_state_artifact exec exec_one fetch_satellite_config
    find gen_robot_perms get_config_by_id get_group_by_id get_group_by_name
    get_robot_acc_by_satellite_id get_satellite_by_name group_details in_transaction keep or_raise
    publish publish_states query_many query_one raise remove_body remove_satellite_from_group
    remove_satellite_from_group_handler replaced return rolled_back satellite_config
    satellite_group_list satellite_name send strip strip_protocol tag_image update_robot_projects
    with_error write ◌>>=◌
remove_runs = (_, refl)

abbrev images : List Artifact
images = (record { repository = "shop/cart"; tag = "1" ∷ []; digest = "d"; deleted = false }) ∷ []

ztr_runs :
    (answer : StateConfig) × (w : World Sim) × (ztr_handler simulated call "t" world
      ≡ (ok answer, w))
unfolding after_protocol ask assemble_config_state assemble_group_state assemble_satellite_state
    check continue create_or_update_sat_state_artifact delete_token exec exec_one
    fetch_satellite_config find get_config_by_id get_group_by_id get_group_states
    get_robot_acc_by_satellite_id get_satellite get_token_by_value group_details keep or_raise
    publish publish_states query_many query_one refresh_in_harbor refresh_robot_secret replaced
    return robot_expiry satellite_config satellite_group_list send strip strip_protocol tag_image
    update_robot_account update_where with_error write ztr_handler ◌>>=◌
ztr_runs = (_, _, refl)

register_runs :
    (token : String) × (w : World Sim) × (register_satellite_handler simulated call false
        (some (record { name = "new"; groups = "base" ∷ "apps" ∷ []; config_name = "default" }))
        world
      ≡ (ok token, w))
unfolding add_robot_account add_satellite_to_group add_satellite_to_groups add_token after_protocol
    ask assemble_config_state assemble_group_state assemble_satellite_state
    assign_permissions_to_robot check check_satellite_in_group cleaned cleanup_robot commit continue
    create_if_missing create_or_update_sat_state_artifact create_rob_acc_for_satellite
    create_satellite ensure_satellite_project_exists exec exec_one find gen_robot_perms
    get_config_by_name get_group_by_name get_projects_of_group in_transaction is_robot_present
    is_valid_name keep name_pattern name_rest on_error or_raise publish publish_states query_many
    query_one register_body register_robot register_satellite_handler replaced return robot_expiry
    rolled_back satellite_config send set_satellite_config strip strip_protocol tag_image
    update_robot_projects update_where with_error write ◌>>=◌
register_runs = (_, _, refl)

add_satellite_to_group_handler_done_example :
    (s : Satellite) × (g : Group) × (get_satellite_by_name "edge" tables ≡ some s)
    × (get_group_by_name "apps" tables ≡ some g)
    × (check_satellite_in_group s.id g.id add_runs.0.db ≡ true)
    × ((add_runs.0 ≡ world) ⊎ Follows simulated env harbor add_runs.0.db add_runs.0.remote s)
add_satellite_to_group_handler_done_example =
    add_satellite_to_group_handler_done simulated simulated-laws call "edge" "apps" world add_runs.0
      add_runs.1

remove_satellite_from_group_handler_done_example :
    (s : Satellite) × (g : Group) × (get_satellite_by_name "edge" tables ≡ some s)
    × (get_group_by_name "base" tables ≡ some g)
    × (remove_runs.0.db ≡ remove_satellite_from_group s.id g.id tables)
    × (check_satellite_in_group s.id g.id remove_runs.0.db ≡ false)
    × Follows simulated env harbor remove_runs.0.db remove_runs.0.remote s
remove_satellite_from_group_handler_done_example =
    remove_satellite_from_group_handler_done simulated simulated-laws call "base" "edge" world
      remove_runs.0 remove_runs.1

ztr_handler_done_example :
    Answered simulated simulated-laws call "t" ztr_runs.0 world ztr_runs.1
    × (ztr_handler simulated call "t" ztr_runs.1
        ≡ (err (app_error 400 "Error: Invalid Token"), ztr_runs.1))
ztr_handler_done_example =
    ztr_handler_done simulated simulated-laws call call "t" ztr_runs.0 world ztr_runs.1 refl refl
      ztr_runs.2

register_satellite_handler_done_example :
    Registered simulated simulated-laws call
      (record { name = "new"; groups = "base" ∷ "apps" ∷ []; config_name = "default" })
      register_runs.0
      world
      register_runs.1
register_satellite_handler_done_example =
    register_satellite_handler_done simulated simulated-laws call
      (record { name = "new"; groups = "base" ∷ "apps" ∷ []; config_name = "default" })
      register_runs.0 world register_runs.1 register_runs.2

edge_found : get_satellite_by_name "edge" tables ≡ some edge
unfolding get_satellite_by_name find
edge_found = refl

account_found : get_robot_acc_by_satellite_id 1 tables ≡ some account
unfolding get_robot_acc_by_satellite_id find
account_found = refl

-- The satellite never had an artifact.
delete_satellite_handler_stuck_example :
    ((attempts simulated simulated-laws "edge" (call ∷ call ∷ []) world).db ≡ tables)
    × Blocked simulated 7 (
        delete_satellite_handler simulated call "edge"
          (attempts simulated simulated-laws "edge" (call ∷ call ∷ []) world))
delete_satellite_handler_stuck_example =
    delete_satellite_handler_stuck simulated simulated-laws call call (call ∷ []) "edge" edge
      account world (λ q. refl) edge_found account_found refl refl

abbrev orphaned : World Sim
orphaned = record world { remote = record harbor { robots = λ i. none } }

spiffe_ztr_handler_stuck_example : Failed (Lost simulated simulated-laws "edge" edge account) (
    spiffe_ztr_handler simulated call
      (named "edge")
      (requests simulated simulated-laws "edge" edge account (call ∷ []) orphaned))
spiffe_ztr_handler_stuck_example =
    spiffe_ztr_handler_stuck simulated simulated-laws "edge" edge account (call ∷ []) call orphaned
      ((refl, refl), tt) (refl, refl)
      (record { found = edge_found; robot_found = account_found; gone = refl })
