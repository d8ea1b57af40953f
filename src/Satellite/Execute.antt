-- ===== src/Satellite/Execute.antt =====
-- Execute of internal/satellite/state/state_process.go, as its goroutines meet at the lock: the list of
-- groups is updated first; then each group's round that succeeds, and the config's, takes the lock
-- once, in any order. What they do outside the lock is in GroupState.
pub mod Laws
pub mod Tests
use harbor_satellite.Common.{
  ℕ, String, Bool, true, false, not, ◌&&◌, Option, none, some, List, [], ◌∷◌, ◌==◌, if◌then◌else◌,
  get_elem?,
}
use harbor_satellite.Satellite.State.{State}
use harbor_satellite.Satellite.Groups.{StateMap, update_state_map}
use harbor_satellite.Satellite.Persistence.{Codec, Faults, Disk, Process, save_state}
use harbor_satellite.Satellite.GroupState.{commit}

-- What takes the lock: a round with its group's index and new state, or a new config's digest.
pub data Locked : Type 0 where
  group_done : ℕ → State → Faults → Locked
  config_done : String → Faults → Locked

module _ (codec : Codec) where
  -- SaveState, if there is a path; its error is only logged.
  pub persist : Faults → Process → Disk → Disk
  persist f p d =
      if p.state_file_path == ""
      then d
      else (save_state codec f p.state_map p.current_config_digest d).0

  pub update_groups : Faults → List String → Process → Disk → Process × Disk
  unfolding persist
  update_groups f states p d =
      let (groups, changed) = update_state_map states p.state_map in
      let p' = record p { state_map = groups } in (p', if changed then persist f p' d else d)

  -- The end of reconcileRemoteConfig.
  pub commit_config : Faults → String → Process → Disk → Process × Disk
  unfolding persist
  commit_config f digest p d =
      let p' = record p { current_config_digest = digest } in (p', persist f p' d)

  -- An index out of range panics in the round, before the lock.
  commit_found : Faults → ℕ → State → Option StateMap → Process → Disk → Process × Disk
  commit_found f index new none p d = (p, d)
  commit_found f index new (some g) p d = commit codec f index g new p d

  pub under_lock : Locked → Process → Disk → Process × Disk
  unfolding commit_found commit_config
  under_lock (group_done index new f) p d =
      commit_found f index new (get_elem? p.state_map index) p d
  under_lock (config_done digest f) p d = commit_config f digest p d

  pub all_under_lock : List Locked → Process → Disk → Process × Disk
  unfolding under_lock
  all_under_lock [] p d = (p, d)
  all_under_lock (e ∷ es) p d = all_under_lock es (under_lock e p d).0 (under_lock e p d).1
