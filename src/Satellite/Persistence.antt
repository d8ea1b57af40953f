-- ===== src/Satellite/Persistence.antt =====
-- internal/satellite/state/state_persistence.go, and the constructor of state_process.go that reads
-- what it wrote. encoding/json is a parameter; the disk holds the state file and one temporary file
-- beside it, and each system call may fail.
pub mod Laws
pub mod Tests
use harbor_satellite.Common.{
  String, ◌≡◌, Bool, true, false, Option, none, some, List, [], ◌∷◌, map, ◌==◌, if◌then◌else◌,
}
use harbor_satellite.Satellite.Changes.{Slice}
use harbor_satellite.Satellite.Groups.{StateMap}

pub record PersistedGroupState : Type 0 where
  pub url : String
  pub entities : Slice

pub record PersistedState : Type 0 where
  pub config_digest : String
  pub groups : List PersistedGroupState

-- json.MarshalIndent and json.Unmarshal at PersistedState.
pub record Codec : Type 0 where
  pub marshal : PersistedState → Option String
  pub unmarshal : String → Option PersistedState

pub record CodecLaws (c : Codec) : Type 0 where
  pub unmarshal-marshal :
      (p : PersistedState) (text : String) → c.marshal p ≡ some text → c.unmarshal text ≡ some p

pub record Disk : Type 0 where
  pub file : Option String
  pub temp : Option String

-- Which of the system calls of SaveState fail; `remove` is the one of the clean-up.
pub record Faults : Type 0 where
  pub create : Bool
  pub write : Bool
  pub sync : Bool
  pub close : Bool
  pub rename : Bool
  pub remove : Bool

pub data SaveError : Type 0 where
  marshal_state create_temp write_temp sync_temp close_temp rename_temp : SaveError

-- The deferred clean-up: it removes the temporary file, if that is still there.
unfoldable pub clean_up : Faults → Disk → Disk
clean_up f d = if f.remove then d else record d { temp = none }

unfoldable pub persist_group : StateMap → PersistedGroupState
persist_group g = record { url = g.url; entities = g.entities }

unfoldable pub persisted : List StateMap → String → PersistedState
unfolding persist_group
persisted groups digest = record { config_digest = digest; groups = map persist_group groups }

-- From the temporary file on: Write, Sync, Close and Rename, and the clean-up on each way out. What
-- a write that fails has left in the temporary file is not known; here it is nothing.
unfoldable pub write_text : Faults → String → Disk → Disk × Option SaveError
unfolding clean_up
write_text f text d =
    let empty = record d { temp = some "" } in
    let full = record d { temp = some text } in
    if f.write
    then (clean_up f empty, some write_temp)
    else if f.sync
    then (clean_up f full, some sync_temp)
    else if f.close
    then (clean_up f full, some close_temp)
    else if f.rename
    then (clean_up f full, some rename_temp)
    else (clean_up f (record { file = some text; temp = none }), none)

-- `absent` is the nil that LoadState returns where there is no file.
pub data Loaded : Type 0 where
  absent corrupt : Loaded
  loaded : PersistedState → Loaded

pub record Process : Type 0 where
  pub state_map : List StateMap
  pub current_config_digest : String
  pub state_file_path : String

restore_group : PersistedGroupState → StateMap
restore_group g = record { url = g.url; state = none; entities = g.entities }

restore : String → Loaded → Process
unfolding restore_group
restore path (loaded p) = record {
  state_map = map restore_group p.groups;
  current_config_digest = p.config_digest;
  state_file_path = path;
}
restore path _ = record { state_map = []; current_config_digest = ""; state_file_path = path }

module _ (c : Codec) where
  unfoldable pub save_state : Faults → List StateMap → String → Disk → Disk × Option SaveError
  unfolding write_text
  save_state f groups digest d = elim (c.marshal (persisted groups digest)) [
    | none ↦ (d, some marshal_state)
    | some text ↦ if f.create then (d, some create_temp) else write_text f text d
  ]

  -- The flag says whether reading an existing file fails.
  pub load_state : Bool → Disk → Loaded
  load_state unreadable d = elim d.file [
    | none ↦ absent
    | some text ↦
        if unreadable
        then corrupt
        else elim (c.unmarshal text) [ none ↦ corrupt | some p ↦ loaded p ]
  ]

  -- NewFetchAndReplicateStateProcess
  pub new_process : Bool → String → Disk → Process
  unfolding restore
  new_process unreadable path d =
      restore path (if path == "" then absent else load_state unreadable d)
