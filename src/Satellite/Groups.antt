-- ===== src/Satellite/Groups.antt =====
-- The list of groups of internal/satellite/state/state_process.go (StateMap, NewStateMap,
-- updateStateMap): which groups the satellite follows, and what it replicated of each.
pub mod Members
pub mod Laws
pub mod Tests
use harbor_satellite.Common.{
  ℕ, suc, ◌+◌, String, Bool, true, false, not, ◌||◌, Option, none, some, List, [], ◌∷◌, ◌++◌, map,
  ltb, ◌==◌, if◌then◌else◌, length, keep,
}
use harbor_satellite.Satellite.State.{State, Entity}
use harbor_satellite.Satellite.Changes.{Slice}

pub record StateMap : Type 0 where
  pub url : String
  pub state : Option State
  pub entities : Slice

abbrev pub fresh_group : String → StateMap
fresh_group u = record { url = u; state = none; entities = none }

unfoldable pub new_state_map : List String → List StateMap
new_state_map = map fresh_group

-- contains
unfoldable pub contains : List String → String → Bool
contains [] item = false
contains (s ∷ slice) item = s == item || contains slice item

-- The inner loop over f.stateMap that sets `found`.
unfoldable pub has_group : List StateMap → String → Bool
has_group [] u = false
has_group (g ∷ gs) u = g.url == u || has_group gs u

-- The groups after the update, and whether a group was added or removed.
pub update_state_map : List String → List StateMap → List StateMap × Bool
update_state_map states groups =
    let new_states = keep (λ u. not (has_group groups u)) states in
    let removed = length (keep (λ g. not (contains states g.url)) groups) in
    (
      keep (λ g. contains states g.url) groups ++ new_state_map new_states,
      ltb 0 (length new_states) || ltb 0 removed,
    )
