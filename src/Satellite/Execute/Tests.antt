-- ===== src/Satellite/Execute/Tests.antt =====
-- Commits at concrete inputs.
use harbor_satellite.Common.{
  ◌≡◌, refl, distinct, true, false, none, some, List, [], ◌∷◌, get_elem?, set,
}
use harbor_satellite.Satellite.State.{State, fetch_entities_from_state, artifacts_entities}
use harbor_satellite.Satellite.Groups.{StateMap}
use harbor_satellite.Satellite.Persistence.{
  Faults, Disk, Process, save_state, write_text, clean_up, persisted, persist_group, new_process,
}
use harbor_satellite.Satellite.Persistence.Tests.{codec, codec-laws, encode, faultless}
use harbor_satellite.Satellite.GroupState.{commit, to_slice}
use harbor_satellite.Satellite.Execute.{
  Locked, group_done, config_done, persist, commit_config, commit_found, under_lock, all_under_lock,
}
use harbor_satellite.Satellite.Execute.Laws.{
  with_commit, last_commit, group-all_under_lock, restart-all_under_lock,
}

abbrev group : StateMap
group = record { url = "harbor/satellite/group"; state = none; entities = none }

abbrev empty : State
empty = record { registry = "harbor"; artifacts = [] }

abbrev broken : Faults
broken = record faultless { rename = true }

abbrev process : Process
process = record {
  state_map = group ∷ [];
  current_config_digest = "";
  state_file_path = "state.json";
}

abbrev disk : Disk
disk = record { file = some "old"; temp = none }

abbrev before : List Locked
before = config_done "" broken ∷ []

abbrev last : Locked
last = group_done 0 empty faultless

group-all_under_lock_example :
    get_elem? (all_under_lock codec (last ∷ before) process disk).0.state_map 0
    ≡ some (with_commit (last_commit 0 (last ∷ before)) group)
unfolding get_elem?
group-all_under_lock_example = group-all_under_lock codec (last ∷ before) process disk 0 group refl

abbrev process' : Process
process' = record process { state_map = record group { state = some empty } ∷ [] }

restart-all_under_lock_example :
    new_process codec false "state.json"
      (record { file = some "harbor/satellite/group"; temp = none })
    ≡ process
unfolding all_under_lock under_lock commit_config commit_found commit persist get_elem? set
    save_state write_text clean_up persisted persist_group encode fetch_entities_from_state
    artifacts_entities to_slice
restart-all_under_lock_example =
    restart-all_under_lock codec codec-laws before last process process' disk
      (record { file = some "harbor/satellite/group"; temp = none }) refl (group, refl)
      (distinct refl) refl
