-- ===== src/Satellite/Collect/Laws.antt =====
-- Proofs about collectResults and CanExecute.
use harbor_satellite.Common.{
  ℕ, suc, ◌+◌, ◌≤◌, String, ◌≡◌, ◌≢◌, ◌↔◌, refl, sym, ap, ◌∙◌, inl, inr, Bool, true, false, ◌&&◌,
  none, List, [], ◌∷◌, ◌++◌, eqb, eq_iff, if◌then◌else◌, Bool-cases, arith,
}
use harbor_satellite.Satellite.Collect.{
  Outcome, cancelled, succeeded, in_error, Received, context_done, state_result, config_result,
  waiting, all_received, note_error, collect, collect_results, missing_fields, can_execute,
}

-- The numbers of results of each kind, and of ends of the context.
abbrev pub state_results : List Received → ℕ
state_results [] = 0
state_results (state_result o ∷ rest) = suc (state_results rest)
state_results (config_result o ∷ rest) = state_results rest
state_results (context_done ∷ rest) = state_results rest

abbrev pub config_results : List Received → ℕ
config_results [] = 0
config_results (state_result o ∷ rest) = config_results rest
config_results (config_result o ∷ rest) = suc (config_results rest)
config_results (context_done ∷ rest) = config_results rest

abbrev pub IsLive : List Received → Type 0
IsLive [] = Unit
IsLive (context_done ∷ rest) = ⊥
IsLive (state_result o ∷ rest) = IsLive rest
IsLive (config_result o ∷ rest) = IsLive rest

abbrev pub error_of : Outcome → List String
error_of (in_error text) = text ∷ []
error_of cancelled = []
error_of succeeded = []

-- The errors of the results, in the order of their arrival.
abbrev pub errors_of : List Received → List String
errors_of [] = []
errors_of (context_done ∷ rest) = errors_of rest
errors_of (state_result o ∷ rest) = error_of o ++ errors_of rest
errors_of (config_result o ∷ rest) = error_of o ++ errors_of rest

-- All results are there: `received` and `config` count those before the sequence.
abbrev complete : ℕ → ℕ → Bool → List Received → Bool
complete expected received config sequence =
    eqb (received + state_results sequence) expected
    && (if config then true else eqb (config_results sequence) 1)

abbrev count : Bool → ℕ
count b = if b then 1 else 0

nothing_left :
    (sequence : List Received)
    → IsLive sequence
    → state_results sequence ≡ 0
    → config_results sequence ≡ 0
    → sequence ≡ []
nothing_left [] live h k = refl
nothing_left (context_done ∷ rest) live h k = absurd live
nothing_left (state_result o ∷ rest) live h k = absurd (omega arith)
nothing_left (config_result o ∷ rest) live h k = absurd (omega arith)

append_nil : (xs : List String) → xs ++ [] ≡ xs
append_nil [] = refl
append_nil (x ∷ xs) = ap (λ t. x ∷ t) (append_nil xs)

append_assoc : (xs ys zs : List String) → (xs ++ ys) ++ zs ≡ xs ++ (ys ++ zs)
append_assoc [] ys zs = refl
append_assoc (x ∷ xs) ys zs = ap (λ t. x ∷ t) (append_assoc xs ys zs)

note_error_lem : (o : Outcome) (errors : List String) → note_error o errors ≡ errors ++ error_of o
unfolding note_error
note_error_lem (in_error text) errors = refl
note_error_lem cancelled errors = sym (append_nil errors)
note_error_lem succeeded errors = sym (append_nil errors)

noted :
    (o : Outcome) (errors more : List String)
    → note_error o errors ++ more ≡ errors ++ (error_of o ++ more)
noted o errors more =
    ap (λ t. t ++ more) (note_error_lem o errors) ∙ append_assoc errors (error_of o) more

-- The last result, after which there is none.
noted_last :
    (o : Outcome) (errors : List String) (rest : List Received)
    → rest ≡ []
    → note_error o errors ≡ errors ++ (error_of o ++ errors_of rest)
noted_last o errors rest last =
    rw last (note_error_lem o errors ∙ ap (λ t. errors ++ t) (sym (append_nil (error_of o))))

collect_lem :
    (expected received : ℕ) (config : Bool) (errors : List String) (sequence : List Received)
    → IsLive sequence
    → received + state_results sequence ≤ expected
    → count config + config_results sequence ≤ 1
    → (eqb received expected && config) ≡ false
    → collect expected received config errors sequence ≡ (
        if complete expected received config sequence
        then all_received (errors ++ errors_of sequence)
        else waiting)
unfolding collect
collect_lem expected received config errors [] live h k open_still = elim (Bool-cases config) [
  | inl e ↦ ground arith
  | inr e ↦ ground arith
]
collect_lem expected received config errors (context_done ∷ rest) live h k open_still = absurd live
collect_lem expected received config errors (state_result o ∷ rest) live h k open_still =
    let open_rest =
      collect_lem expected (suc received) config (note_error o errors) rest live (omega arith) k in
    elim (Bool-cases config) [
      | inl e ↦ elim (Bool-cases (eqb (suc received) expected)) [
        | inl full ↦
            let last = nothing_left rest live (ground arith) (ground arith) in
            ground (arith, noted_last o errors rest last, last)
        | inr more ↦ ground (arith, open_rest, noted o errors (errors_of rest))
      ]
      | inr e ↦ ground (arith, open_rest, noted o errors (errors_of rest))
    ]
collect_lem expected received config errors (config_result o ∷ rest) live h k open_still =
    let open_rest =
      collect_lem expected received true (note_error o errors) rest live h (ground arith) in
    elim (Bool-cases (eqb received expected)) [
      | inl full ↦
          let last = nothing_left rest live (ground arith) (ground arith) in
          ground (arith, noted_last o errors rest last, last)
      | inr more ↦ ground (arith, open_rest, noted o errors (errors_of rest))
    ]

-- In whatever order the results arrive, as long as the context is not done, with at most the expected
-- number of state results and at most one config result: the collection ends exactly when all of them
-- are there, with the errors of the results that were not cancelled in the order of their arrival, and
-- waits before that.
pub collect_results-order :
    (expected : ℕ) (sequence : List Received)
    → IsLive sequence
    → state_results sequence ≤ expected
    → config_results sequence ≤ 1
    → collect_results expected sequence ≡ (
        if eqb (state_results sequence) expected && eqb (config_results sequence) 1
        then all_received (errors_of sequence)
        else waiting)
unfolding collect_results
collect_results-order expected sequence live h k =
    ground (arith, collect_lem expected 0 false [] sequence live (omega arith) (omega arith))

-- The process can execute exactly when none of the five settings is empty.
pub can_execute-none_iff :
    (state_url remote_url src_url username password : String)
    → (can_execute state_url remote_url src_url username password ≡ none)
      ↔ ((state_url ≢ "") × (remote_url ≢ "") × (src_url ≢ "") × (username ≢ "") × (password ≢ ""))
unfolding can_execute missing_fields
can_execute-none_iff state_url remote_url src_url username password = ground (
  arith,
  eq_iff state_url "",
  eq_iff remote_url "",
  eq_iff src_url "",
  eq_iff username "",
  eq_iff password "",
)
