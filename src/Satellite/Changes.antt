-- ===== src/Satellite/Changes.antt =====
-- GetChanges of internal/satellite/state/state_process.go: what to delete and what to replicate when
-- a group's state artifact replaces the entities that were replicated last.
-- Go ranges over a map in an unspecified order: `order` lists the values of a map, in any order.
pub mod Lookups
pub mod Converges
pub mod Unchanged
pub mod Tests
use harbor_satellite.Common.{
  String, ◌⧺◌, ◌↔◌, Option, none, some, List, [], ◌∷◌, ◌++◌, ◌==◌, if◌then◌else◌, Map, lookup,
  insert, remove, values, In,
}
use harbor_satellite.Satellite.State.{
  State, Entity, remove_null_tag_artifacts, fetch_entities_from_state,
}

-- A Go slice that may be nil.
abbrev pub Slice : Type 0
Slice = Option (List Entity)

-- newEntity.Name + "|" + newEntity.Tag
unfoldable pub key : Entity → String
key e = e.name ⧺ ("|" ⧺ e.tag)

-- The loop that fills `oldEntityMap`.
unfoldable pub index : Map Entity → List Entity → Map Entity
index m [] = m
index m (e ∷ es) = index (insert (key e) e m) es

pub record Diff : Type 0 where
  pub remaining : Map Entity
  pub to_delete : List Entity
  pub to_replicate : List Entity

-- The three cases of the switch, in front of what the later entities add.
unfoldable pub schedule : Entity → Option Entity → Diff → Diff
schedule e none d = record d { to_replicate = e ∷ d.to_replicate }
schedule e (some old) d =
    if e.digest == old.digest
    then d
    else record d { to_replicate = e ∷ d.to_replicate; to_delete = old ∷ d.to_delete }

-- The loop over the new entities, which takes each key out of the map.
unfoldable pub compare_entities : Map Entity → List Entity → Diff
compare_entities m [] = record { remaining = m; to_delete = []; to_replicate = [] }
compare_entities m (e ∷ es) = schedule e (lookup (key e) m) (compare_entities (remove (key e) m) es)

abbrev pub Order : Type 0
Order = Map Entity → List Entity

-- What is known of the order: it lists each value.
abbrev pub IsOrder : Order → Type 0
IsOrder order = (m : Map Entity) (e : Entity) → In e (order m) ↔ In e (values m)

-- The entities to delete, those to replicate, and the new state.
unfoldable pub get_changes : Order → State → Slice → List Entity × List Entity × State
get_changes order new none =
    let state = remove_null_tag_artifacts new in ([], fetch_entities_from_state state, state)
get_changes order new (some old) =
    let state = remove_null_tag_artifacts new in
    let d = compare_entities (index [] old) (fetch_entities_from_state state) in
    (d.to_delete ++ order d.remaining, d.to_replicate, state)
