-- ===== src/Satellite/Collect/Tests.antt =====
-- Sequences of results at concrete inputs.
use harbor_satellite.Common.{◌≡◌, refl, String, some, List, [], ◌∷◌, arith}
use harbor_satellite.Satellite.Utils.{join}
use harbor_satellite.Satellite.Collect.{
  cancelled, succeeded, in_error, Received, state_result, config_result, all_received,
  reconcile_error, collect_results,
}
use harbor_satellite.Satellite.Collect.Laws.{collect_results-order}

abbrev sequence : List Received
sequence =
    state_result (in_error "a")
    ∷ config_result (in_error "b")
    ∷ state_result cancelled
    ∷ state_result succeeded
    ∷ []

texts :
    reconcile_error ("a" ∷ "b" ∷ [])
    ≡ some "the following errors occurred while reconciling satellite state: a; b"
unfolding reconcile_error join
texts = refl

collect_results-order_example : collect_results 3 sequence ≡ all_received ("a" ∷ "b" ∷ [])
collect_results-order_example = collect_results-order 3 sequence tt (omega arith) (omega arith)

abbrev setting : String
setting = "harbor.example"

abbrev unset : String
unset = ""
