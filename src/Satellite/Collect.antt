-- ===== src/Satellite/Collect.antt =====
-- collectResults and CanExecute of internal/satellite/state/state_process.go. What `select` picks is a
-- sequence: any order of the results on the two channels, and of the end of the context. The texts
-- that are logged only are left out.
pub mod Laws
pub mod Tests
use harbor_satellite.Common.{
  ℕ, zero, suc, String, ◌⧺◌, Bool, true, false, ◌&&◌, Option, none, some, List, [], ◌∷◌, ◌++◌, eqb,
  ◌==◌, if◌then◌else◌,
}
use harbor_satellite.Satellite.Utils.{join}

-- The fields Cancelled and Error of a result.
pub data Outcome : Type 0 where
  cancelled succeeded : Outcome
  in_error : String → Outcome

pub data Received : Type 0 where
  context_done : Received
  state_result config_result : Outcome → Received

-- `waiting` stands for a loop that is still in its `select` after the whole sequence.
pub data Collected : Type 0 where
  waiting context_error : Collected
  all_received : List String → Collected

-- allErrors = append(allErrors, …)
note_error : Outcome → List String → List String
note_error (in_error text) errors = errors ++ (text ∷ [])
note_error cancelled errors = errors
note_error succeeded errors = errors

pub collect : ℕ → ℕ → Bool → List String → List Received → Collected
unfolding note_error
collect expected received config errors [] = waiting
collect expected received config errors (context_done ∷ rest) = context_error
collect expected received config errors (state_result o ∷ rest) =
    let errors' = note_error o errors in
    let later = collect expected (suc received) config errors' rest in
    if eqb (suc received) expected && config then all_received errors' else later
collect expected received config errors (config_result o ∷ rest) =
    let errors' = note_error o errors in
    let later = collect expected received true errors' rest in
    if eqb received expected then all_received errors' else later

pub collect_results : ℕ → List Received → Collected
collect_results expected sequence = collect expected 0 false [] sequence

-- The error that the process returns at the end.
pub reconcile_error : List String → Option String
reconcile_error [] = none
reconcile_error (e ∷ es) =
    some ("the following errors occurred while reconciling satellite state: " ⧺ join "; " (e ∷ es))

missing_fields : List (String × String) → List String
missing_fields [] = []
missing_fields ((value, message) ∷ rest) =
    let others = missing_fields rest in if value == "" then message ∷ others else others

-- The process can execute if there is no reason against it.
pub can_execute : String → String → String → String → String → Option String
unfolding missing_fields
can_execute satellite_state_url remote_url src_url src_username src_password =
    elim (missing_fields (
      (satellite_state_url, "satelliteState is empty")
      ∷ (remote_url, "remote registry URL is empty")
      ∷ (src_username, "username is empty")
      ∷ (src_url, "source registry is empty")
      ∷ (src_password, "password is empty")
      ∷ [])) [ [] ↦ none | m ∷ ms ↦ some ("missing " ⧺ join ", " (m ∷ ms)) ]
