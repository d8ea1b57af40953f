-- ===== src/Satellite/GroupState.antt =====
-- processGroupState of internal/satellite/state/state_process.go: one round of one group. Fetching
-- and parsing a state artifact (fetcher.go over crane) and net/url are parameters. The copies that
-- direct delivery makes beside the registry are not modelled: their errors are logged only.
pub mod Laws
pub mod Stuck
pub mod Errors
pub mod Tests
use harbor_satellite.Common.{
  ℕ, String, Bool, true, false, Option, none, some, List, [], ◌∷◌, ◌==◌, if◌then◌else◌, get_elem?,
  set,
}
use harbor_satellite.Satellite.State.{State, Entity, process_state, fetch_entities_from_state}
use harbor_satellite.Satellite.Changes.{Slice, Order, get_changes}
use harbor_satellite.Satellite.Groups.{StateMap}
use harbor_satellite.Satellite.Replicator.{
  Client, Replicator, ReplicateError, replicate, delete_replication_entity,
}
use harbor_satellite.Satellite.Persistence.{Codec, Faults, Disk, SaveError, Process, save_state}

-- utils.IsValidURL, config.ReplaceURLHost, and FetchStateArtifact at a group's state.
pub record Upstream : Type 0 where
  pub is_valid_url : String → Bool
  pub replace_url_host : String → String → Option String
  pub fetch_state : String → Option State

-- What a round is given: the override of the registry's URL, the replicator, the numbers of context
-- checks that its two loops pass, the order of a map, and the faults of the save.
pub record Round : Type 0 where
  pub harbor_registry_url : String
  pub replicator : Replicator
  pub delete_ctx : ℕ
  pub replicate_ctx : ℕ
  pub order : Order
  pub faults : Faults

pub data GroupError : Type 0 where
  no_fetcher no_state : GroupError
  not_deleted not_replicated : ReplicateError → GroupError

-- The host of the URL is replaced if there is an override that can be applied.
pub override_host : Upstream → String → String → String
override_host up override url =
    if override == ""
    then url
    else elim (up.replace_url_host url override) [ none ↦ url | some replaced ↦ replaced ]

-- FetchAndProcessState
pub fetch_and_process_state : Upstream → String → Option State
fetch_and_process_state up url = elim (up.fetch_state url) [
  | none ↦ none
  | some s ↦ process_state s
]

-- A nil slice where there is no entity.
unfoldable pub to_slice : List Entity → Slice
to_slice [] = none
to_slice (e ∷ es) = some (e ∷ es)

pub data Worked : Type 0 where
  failed : GroupError → Worked
  done : State → Worked

module _ (c : Client) where
  replicate_changes : Round → List Entity → State → c.Registry → c.Registry × Worked
  replicate_changes r to_replicate new reg =
      let (reg', err) = replicate c r.replicator r.replicate_ctx to_replicate reg in
      elim err [ some x ↦ (reg', failed (not_replicated x)) | none ↦ (reg', done new) ]

  apply_state : Round → State → Slice → c.Registry → c.Registry × Worked
  unfolding replicate_changes
  apply_state r fetched old reg =
      let (to_delete, to_replicate, new) = get_changes r.order fetched old in
      let (reg', err) = delete_replication_entity c r.replicator r.delete_ctx to_delete reg in
      elim err [
        | some x ↦ (reg', failed (not_deleted x))
        | none ↦ replicate_changes r to_replicate new reg'
      ]

  -- All that happens before the lock is taken.
  pub work : Upstream → Round → StateMap → c.Registry → c.Registry × Worked
  unfolding apply_state
  work up r g reg =
      let url = override_host up r.harbor_registry_url g.url in
      if up.is_valid_url url
      then (elim (fetch_and_process_state up url) [
        | none ↦ (reg, failed no_state)
        | some fetched ↦ apply_state r fetched g.entities reg
      ])
      else (reg, failed no_fetcher)

-- Under the lock: the group's new state and entities, and the save, whose error is only logged.
module _ (codec : Codec) where
  unfoldable pub commit : Faults → ℕ → StateMap → State → Process → Disk → Process × Disk
  commit f index g new p d =
      let groups =
        set p.state_map index
          (record g { state = some new; entities = to_slice (fetch_entities_from_state new) }) in
      (
        record p { state_map = groups },
        if p.state_file_path == ""
            then d
            else (save_state codec f groups p.current_config_digest d).0,
      )

module _ (c : Client) (codec : Codec) where
  -- The satellite's memory, its disk and its registry.
  pub record World : Type 0 where
    pub process : Process
    pub disk : Disk
    pub registry : c.Registry

  pub finish : Round → ℕ → StateMap → World → c.Registry × Worked → World × Option GroupError
  finish r index g w (reg, failed e) = (record w { registry = reg }, some e)
  finish r index g w (reg, done new) =
      let (p, d) = commit codec r.faults index g new w.process w.disk in
      (record { process = p; disk = d; registry = reg }, none)

  -- `none` stands for an index out of range, which panics.
  pub process_group_state : Upstream → Round → ℕ → World → Option (World × Option GroupError)
  unfolding finish
  process_group_state up r index w = elim (get_elem? w.process.state_map index) [
    | none ↦ none
    | some g ↦ some (finish r index g w (work c up r g w.registry))
  ]
