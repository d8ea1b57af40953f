-- ===== src/Satellite/GroupState/Tests.antt =====
-- A round of a group at concrete inputs.
use harbor_satellite.Common.{
  distinct, inl, List, ℕ, String, ◌≡◌, refl, true, false, none, some, [], ◌∷◌, keep, ◌==◌,
  if◌then◌else◌, get_elem?, set, eqb, Map, lookup, insert, remove, values,
}
use harbor_satellite.Satellite.Utils.{cut, split, join, get_repository_and_image_name_from_artifact}
use harbor_satellite.Satellite.State.{
  Entity, artifacts_entities, State, remove_null_tag_artifacts, fetch_entities_from_state,
  split_artifact, split_artifacts, process_state,
}
use harbor_satellite.Satellite.Changes.{get_changes, key, index, schedule, compare_entities}
use harbor_satellite.Satellite.Groups.{StateMap}
use harbor_satellite.Satellite.Replicator.{
  reference, digest_image, resolve_image, resolve_descriptor, resolve, copy_image, replicate_one,
  replicate, delete_replication_entity, cancelled, ReplicateError,
}
use harbor_satellite.Satellite.Replicator.Tests.{
  client, client-laws, client-refuses, erase, replicator,
}
use harbor_satellite.Satellite.Persistence.{Faults}
use harbor_satellite.Satellite.Persistence.Tests.{codec}
use harbor_satellite.Satellite.GroupState.{
  not_deleted, Upstream, Round, not_replicated, World, replicate_changes, apply_state, commit,
  to_slice, finish, fetch_and_process_state, override_host, work, process_group_state,
}
use harbor_satellite.Satellite.GroupState.Errors.{LeftBy, process_group_state_error}
use harbor_satellite.Satellite.GroupState.Stuck.{process_group_state_stuck}
use harbor_satellite.Satellite.GroupState.Laws.{Copied, recorded, process_group_state_done}

-- A state of one artifact with the path as its repository, as the fetcher returns it, or in parts.
abbrev one_artifact : String → String → State
one_artifact repository name = record {
  registry = "harbor";
  artifacts =
      (record {
        repository = repository;
        tags = "1" ∷ [];
        labels = [];
        kind = "IMAGE";
        digest = "sha256:a";
        deleted = false;
        name = name;
      })
      ∷ [];
}

abbrev upstream : Upstream
upstream = record {
  is_valid_url = λ url. true;
  replace_url_host = λ url override. none;
  fetch_state = λ url.
      if url == "harbor/satellite/group" then some (one_artifact "library/nginx" "") else none;
}

abbrev faultless : Faults
faultless = record {
  create = false;
  write = false;
  sync = false;
  close = false;
  rename = false;
  remove = false;
}

abbrev round : ℕ → Round
round checks = record {
  harbor_registry_url = "";
  replicator = replicator;
  delete_ctx = 1;
  replicate_ctx = checks;
  order = values;
  faults = faultless;
}

abbrev group : StateMap
group = record { url = "harbor/satellite/group"; state = none; entities = none }

abbrev world : World client codec
world = record {
  process = record {
    state_map = group ∷ [];
    current_config_digest = "sha256:c";
    state_file_path = "";
  };
  disk = record { file = none; temp = none };
  registry = [];
}

abbrev copied : Map String
copied = ("local/library/nginx:1", "sha256:harbor/library/nginx:1") ∷ []

abbrev world' : World client codec
world' = record {
  process = record {
    state_map =
        (record {
          url = "harbor/satellite/group";
          state = some (one_artifact "library" "nginx");
          entities = some (
              (record { name = "nginx"; repository = "library"; tag = "1"; digest = "sha256:a" })
              ∷ []);
        })
        ∷ [];
    current_config_digest = "sha256:c";
    state_file_path = "";
  };
  disk = record { file = none; temp = none };
  registry = copied;
}

copied_once : process_group_state client codec upstream (round 1) 0 world ≡ some (world', none)
unfolding process_group_state finish commit work apply_state replicate_changes get_changes index
    schedule compare_entities key remove_null_tag_artifacts fetch_entities_from_state
    artifacts_entities to_slice fetch_and_process_state override_host process_state split_artifacts
    split_artifact get_repository_and_image_name_from_artifact cut split join keep lookup insert
    remove values replicate replicate_one resolve resolve_descriptor resolve_image digest_image
    copy_image reference delete_replication_entity get_elem? set
copied_once = refl

-- The context of the copies is cancelled at once.
cancelled_at_once :
    process_group_state client codec upstream (round 0) 0 world
    ≡ some (world, some (not_replicated cancelled))
unfolding process_group_state finish work apply_state replicate_changes get_changes index schedule
    compare_entities key remove_null_tag_artifacts fetch_entities_from_state artifacts_entities
    fetch_and_process_state override_host process_state split_artifacts split_artifact
    get_repository_and_image_name_from_artifact cut split join keep lookup insert remove values
    replicate delete_replication_entity get_elem?
cancelled_at_once = refl

process_group_state_done_example :
    (g : StateMap) × (new : State) × (get_elem? world.process.state_map 0 ≡ some g)
    × Copied client client-laws upstream (round 1) g copied new
    × ((other : ℕ)
        → get_elem? world'.process.state_map other ≡ (
            if eqb 0 other then some (recorded g new) else get_elem? world.process.state_map other))
    × (world'.process.current_config_digest ≡ "sha256:c")
process_group_state_done_example =
    process_group_state_done client client-laws codec upstream (round 1) 0 world world' copied_once

-- An image of the round before that the fetched state has no longer.
abbrev old_image : Entity
old_image = record { name = "redis"; repository = "library"; tag = "7"; digest = "sha256:b" }

abbrev old_group : StateMap
old_group = record group { entities = some (old_image ∷ []) }

abbrev old_world : List (String × String) → World client codec
old_world images = record world {
  process = record (world.process) { state_map = old_group ∷ [] };
  registry = images;
}

abbrev both : List (String × String)
both = ("local/library/redis:7", "sha256:b") ∷ []

deleted_only :
    process_group_state client codec upstream (round 0) 0 (old_world both)
    ≡ some (old_world [], some (not_replicated cancelled))
unfolding process_group_state finish work apply_state replicate_changes get_changes index schedule
    compare_entities key remove_null_tag_artifacts fetch_entities_from_state artifacts_entities
    fetch_and_process_state override_host process_state split_artifacts split_artifact
    get_repository_and_image_name_from_artifact cut split join keep lookup insert remove values
    replicate delete_replication_entity get_elem? reference erase
deleted_only = refl

process_group_state_error_example :
    (g : StateMap) × (get_elem? (old_world both).process.state_map 0 ≡ some g)
    × ((old_world []).process ≡ (old_world both).process)
    × ((old_world []).disk ≡ (old_world both).disk)
    × LeftBy client client-laws upstream (round 0) g both [] (not_replicated cancelled)
process_group_state_error_example =
    process_group_state_error client client-laws codec upstream (round 0) 0 (old_world both)
      (old_world []) (not_replicated cancelled) deleted_only

process_group_state_stuck_example :
    (y : ReplicateError) × (w : World client codec) × (process_group_state client codec upstream
        (round 5)
        0
        (old_world [])
      ≡ some (w, some (not_deleted y)))
unfolding get_changes index schedule compare_entities key remove_null_tag_artifacts
    fetch_entities_from_state artifacts_entities fetch_and_process_state override_host process_state
    split_artifacts split_artifact get_repository_and_image_name_from_artifact cut split join keep
    lookup insert remove values get_elem? reference
process_group_state_stuck_example =
    process_group_state_stuck client client-laws codec client-refuses upstream (round 0) 0 old_group
      (old_world both) (old_world []) (one_artifact "library" "nginx") old_image cancelled (round 5)
      refl refl deleted_only (inl refl) (distinct refl, tt) (inl refl)
