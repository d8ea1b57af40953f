-- ===== src/GroundControl/Action.antt =====
-- How a handler of Ground Control runs: over the database and the state of Harbor, with the errors
-- that internal/groundcontrol/server/handleResponse.go turns into replies. An error ends the handler,
-- and what it had written to Harbor by then stays written.
pub mod Steps
pub mod Runs
use harbor_satellite.Common.{
  ℕ, String, ◌≡◌, refl, sym, ap, Bool, true, false, Option, none, some, arith, if◌then◌else◌,
}
use harbor_satellite.GroundControl.Fleet.{Fleet}

-- An AppError has a status and a message; any other error is answered by status 500.
pub data Error : Type 0 where
  app_error : ℕ → String → Error
  other_error : Error

pub data Result (A : Type 0) : Type 0 where
  ok : A → Result A
  err : Error → Result A

-- The queries, by the names of their methods, with what tells the rounds of a loop apart.
pub data Query : Type 0 where
  begin commit create_satellite get_satellite_by_name delete_satellite_by_name list_satellites :
      Query
  get_config_by_name create_config update_config delete_config list_configs : Query
  set_satellite_config add_token get_token_by_value delete_token create_group list_groups : Query
  add_robot_account update_robot_account check_satellite_in_group delete_group : Query
  check_group_exists get_satellites_by_group_name : Query
  satellite_config get_config_by_id config_satellite_list group_satellite_list : Query
  get_group_by_name get_projects_of_group : String → Query
  get_group_by_id add_satellite_to_group satellite_group_list get_satellite : ℕ → Query
  get_robot_acc_by_satellite_id remove_satellite_from_group : ℕ → Query

pub record World (Remote : Type 0) : Type 0 where
  pub db : Fleet
  pub remote : Remote

abbrev pub Action : Type 0 → Type 0 → Type 0
Action Remote A = World Remote → Result A × World Remote

module _ {R : Type 0} where
  unfoldable pub return : {A : Type 0} → A → Action R A
  return a w = (ok a, w)

  unfoldable pub raise : {A : Type 0} → Error → Action R A
  raise e w = (err e, w)

  unfoldable pub continue :
      {A B : Type 0} → (A → Action R B) → Result A × World R → Result B × World R
  continue f (ok a, w) = f a w
  continue f (err e, w) = (err e, w)

  infixl 5 ◌>>=◌ ◌>>◌
  unfoldable pub ◌>>=◌ : {A B : Type 0} → Action R A → (A → Action R B) → Action R B
  unfolding continue
  ◌>>=◌ m f w = continue f (m w)

  abbrev pub ◌>>◌ : {B : Type 0} → Action R (Unit {0}) → Action R B → Action R B
  m >> k = m >>= λ _. k

  -- if err != nil { return err }
  unfoldable pub or_raise : {A : Type 0} → Error → Option A → Action R A
  or_raise e none w = (err e, w)
  or_raise e (some a) w = (ok a, w)

  unfoldable pub check : Bool → Error → Action R (Unit {0})
  check b e w = (if b then ok tt else err e, w)

  -- A query that reads: the flag says whether it fails. No row is an error too.
  unfoldable pub query_one : {A : Type 0} → Bool → Error → (Fleet → Option A) → Action R A
  unfolding or_raise
  query_one fails e f w = or_raise e (if fails then none else f w.db) w

  unfoldable pub query_many : {A : Type 0} → Bool → Error → (Fleet → A) → Action R A
  unfolding query_one
  query_many fails e f = query_one fails e (λ db. some (f db))

  unfoldable pub write : {A : Type 0} → Error → Option (Fleet × A) → Action R A
  write e none w = (err e, w)
  write e (some (db, a)) w = (ok a, record w { db = db })

  -- A query that writes and returns a row.
  unfoldable pub exec_one : {A : Type 0} → Bool → Error → (Fleet → Option (Fleet × A)) → Action R A
  unfolding write
  exec_one fails e f w = write e (if fails then none else f w.db) w

  -- A query that writes and returns nothing.
  unfoldable pub exec : Bool → Error → (Fleet → Fleet) → Action R (Unit {0})
  unfolding exec_one
  exec fails e f = exec_one fails e (λ db. some (f db, tt))

  -- A call of Harbor that reads.
  unfoldable pub ask : {A : Type 0} → Error → (R → Option A) → Action R A
  unfolding or_raise
  ask e f w = or_raise e (f w.remote) w

  -- A call of Harbor that writes, which may have had an effect even where it reports an error.
  unfoldable pub send : {A : Type 0} → Error → (R → R × Option A) → Action R A
  unfolding or_raise
  send e f w = or_raise e (f w.remote).1 (record w { remote = (f w.remote).0 })

  -- The first query of a pair that falls back where it fails or finds nothing.
  unfoldable pub try_query : {A : Type 0} → Bool → (Fleet → Option A) → Action R (Option A)
  try_query fails f w = (ok (if fails then none else f w.db), w)

  unfoldable pub replaced : {A : Type 0} → Error → Result A × World R → Result A × World R
  replaced e (ok a, w) = (ok a, w)
  replaced e (err x, w) = (err e, w)

  -- A caller that answers with an error of its own.
  unfoldable pub with_error : {A : Type 0} → Error → Action R A → Action R A
  unfolding replaced
  with_error e m w = replaced e (m w)

  unfoldable pub alternative : {A : Type 0} → Action R A → Result A × World R → Result A × World R
  alternative m (ok a, w) = (ok a, w)
  alternative m (err e, w) = m w

  -- A second way that is tried where the first fails.
  unfoldable pub or_else : {A : Type 0} → Action R A → Action R A → Action R A
  unfolding alternative
  or_else m m' w = alternative m' (m w)

  unfoldable pub ignored : {A : Type 0} → Result A × World R → Result (Unit {0}) × World R
  ignored (r, w) = (ok tt, w)

  -- A call whose error is only logged.
  unfoldable pub ignore_error : {A : Type 0} → Action R A → Action R (Unit {0})
  unfolding ignored
  ignore_error m w = ignored (m w)

  unfoldable pub cleaned : {A B : Type 0} → Action R B → Result A × World R → Result A × World R
  cleaned cleanup (ok a, w) = (ok a, w)
  cleaned cleanup (err e, w) = (err e, (cleanup w).1)

  -- A deferred call that runs if the rest fails; its own error is only logged.
  unfoldable pub on_error : {A B : Type 0} → Action R B → Action R A → Action R A
  unfolding cleaned
  on_error cleanup m w = cleaned cleanup (m w)

  unfoldable pub rolled_back : {A : Type 0} → Fleet → Result A × World R → Result A × World R
  rolled_back before (ok a, w) = (ok a, w)
  rolled_back before (err e, w) = (err e, record w { db = before })

  -- BeginTx, whose flag says whether it fails, and the deferred Rollback where the body, which ends
  -- with its Commit, returns an error.
  unfoldable pub in_transaction : {A : Type 0} → Bool → Error → Action R A → Action R A
  unfolding rolled_back
  in_transaction fails e m w = if fails then (err e, w) else rolled_back w.db (m w)
