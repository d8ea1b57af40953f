-- ===== src/GroundControl/Login/Tests.antt =====
-- Logging in at concrete inputs.
use harbor_satellite.Common.{
  find, ◌/◌, ◌*◌, ◌<◌, ℕ, ◌+◌, ◌≤◌, String, ◌≡◌, refl, false, some, List, [], ◌∷◌, ◌==◌, All, arith,
}
use harbor_satellite.GroundControl.Accounts.{
  admin, User, Db, get_user_by_username, get_login_attempts, upsert, upsert_login_attempt, update,
  lock_account,
}
use harbor_satellite.GroundControl.Login.{
  max_failed_attempts, Server, LoginCall, is_locked, lock_if_due, record_failed_attempt,
  check_password, check_account, login_handler,
}
use harbor_satellite.GroundControl.Login.Attempts.{failures, successes, count, Within}
use harbor_satellite.GroundControl.Login.Lockout.{guesses_bounded}

abbrev pub server : Server
server = record {
  session_duration = 24000000000;
  lockout_duration = 15;
  verify_password = λ password hash. password == hash;
  timestamp = λ t. (t + 500) / 1000 * 1000;
}

abbrev pub alice : User
alice = record { id = 1; username = "alice"; password_hash = "right"; role = admin }

abbrev pub db : Db
db = record { users = alice ∷ []; sessions = []; login_attempts = []; next_id = 2 }

abbrev pub call : ℕ → String → LoginCall
call now password = record {
  body = some ("alice", password);
  fails = λ q. false;
  clock_check = now;
  clock_lock = now;
  clock_session = now;
  new_token = some "token";
}

abbrev wrong_calls : List LoginCall
wrong_calls =
    call 100 "a" ∷ call 101 "b" ∷ call 102 "c" ∷ call 103 "d" ∷ call 104 "e" ∷ call 105 "f" ∷ []

-- The sixth guess is not tried.
five_tried : failures server "alice" wrong_calls db ≡ 5
unfolding failures login_handler check_account check_password record_failed_attempt lock_if_due
    max_failed_attempts get_login_attempts get_user_by_username upsert_login_attempt upsert update
    lock_account find is_locked
five_tried = refl

guesses_bounded_example :
    failures server "alice" wrong_calls db + count (get_login_attempts "alice" db)
    ≤ 5 + 5 * successes server "alice" wrong_calls db
unfolding get_login_attempts find
guesses_bounded_example = guesses_bounded server "alice" 100 wrong_calls db within (omega arith)
  where
    at :
        (now : ℕ) (password : String)
        → now < 115
        → 100 ≤ now
        → Within server 100 (call now password)
    at now password before after = record {
      checked = before;
      locked_at = after;
      counts = refl;
      locks = refl;
    }

    within : All (Within server 100) wrong_calls
    within = (
      at 100 _ (omega arith) (omega arith),
      (
        at 101 _ (omega arith) (omega arith),
        (
          at 102 _ (omega arith) (omega arith),
          (
            at 103 _ (omega arith) (omega arith),
            (at 104 _ (omega arith) (omega arith), (at 105 _ (omega arith) (omega arith), tt)),
          ),
        ),
      ),
    )
