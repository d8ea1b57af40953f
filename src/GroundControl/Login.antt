-- ===== src/GroundControl/Login.antt =====
-- internal/groundcontrol/server/auth_handlers.go: logging in and out, and the lock of an account
-- after failed attempts. Verifying a password (internal/crypto) and generating a token are
-- parameters; a call says which of its queries fail, and what the clock read at each place. A call runs
-- to its end before the next begins: the handler's queries are not in one transaction, and what requests
-- do whose queries interleave is not modelled.
pub mod Attempts
pub mod Grants
pub mod Effects
pub mod Lockout
pub mod Tests
use harbor_satellite.Common.{
  ℕ, ◌+◌, ◌/◌, String, Bool, true, false, ◌||◌, Option, none, some, List, [], ◌∷◌, ltb, leb, ◌==◌,
  if◌then◌else◌,
}
use harbor_satellite.GroundControl.Accounts.{
  User, Session, LoginAttempt, Db, get_user_by_username, create_session, delete_session,
  get_login_attempts, upsert_login_attempt, lock_account, reset_login_attempts,
}

unfoldable pub max_failed_attempts : ℕ
max_failed_attempts = 5

-- `timestamp` is the time that a column of the type TIMESTAMP holds of one that is written: the database
-- drops the zone and rounds to its own resolution. The end of a lock is taken to be held as it is written.
pub record Server : Type 0 where
  pub session_duration : ℕ
  pub lockout_duration : ℕ
  pub verify_password : String → String → Bool
  pub timestamp : ℕ → ℕ

pub data Query : Type 0 where
  reading_attempts reading_user counting locking resetting storing : Query

-- A request to log in: `body` is the username and the password, if the body is JSON.
pub record LoginCall : Type 0 where
  pub body : Option (String × String)
  pub fails : Query → Bool
  pub clock_check : ℕ
  pub clock_lock : ℕ
  pub clock_session : ℕ
  pub new_token : Option String

-- The reasons of the audit events, and the errors. The four between `missing_credentials` and
-- `bad_password` are answered in the same way, 401 and "Invalid credentials"; the last three errors
-- with 500. The number with a token is the expiry in the answer, in seconds.
pub data Answer : Type 0 where
  invalid_body missing_credentials account_locked unknown_user bad_password : Answer
  attempts_error token_error session_error : Answer
  session_token : String → ℕ → Answer

-- attempts.LockedUntil.Valid && attempts.LockedUntil.Time.After(time.Now())
unfoldable pub is_locked : ℕ → Option LoginAttempt → Bool
is_locked now none = false
is_locked now (some a) = elim a.locked_until [ none ↦ false | some t ↦ ltb now t ]

-- expiresAt.Format(time.RFC3339), which has no fraction of a second.
unfoldable pub format_rfc3339 : ℕ → ℕ
format_rfc3339 t = t / 1000000000

module _ (s : Server) (call : LoginCall) where
  -- The row that UpsertLoginAttempt returns, and the lock.
  unfoldable pub lock_if_due : String → Option LoginAttempt → Db → Db
  lock_if_due username none db = db
  lock_if_due username (some a) db =
      if leb max_failed_attempts a.failed_count
      then (if call.fails locking
          then db
          else lock_account username (call.clock_lock + s.lockout_duration) db)
      else db

  unfoldable pub record_failed_attempt : String → Db → Db
  unfolding lock_if_due
  record_failed_attempt username db =
      if call.fails counting
      then db
      else let db' = upsert_login_attempt username db in
        lock_if_due username (get_login_attempts username db') db'

  -- From GenerateSessionToken on.
  unfoldable pub start_session : User → Db → Db × Answer
  unfolding format_rfc3339
  start_session user db = elim call.new_token [
    | none ↦ (db, token_error)
    | some token ↦
        let expires_at = call.clock_session + s.session_duration in
        let session : Session = record {
          user_id = user.id;
          token = token;
          expires_at = s.timestamp expires_at;
        } in
        if call.fails storing then (db, session_error) else (elim (create_session session db) [
          | none ↦ (db, session_error)
          | some db' ↦ (db', session_token token (format_rfc3339 expires_at))
        ])
  ]

  unfoldable pub check_password : String → String → Option User → Db → Db × Answer
  unfolding record_failed_attempt start_session
  check_password username password none db = (record_failed_attempt username db, unknown_user)
  check_password username password (some user) db =
      if s.verify_password password user.password_hash
      then start_session user
          (if call.fails resetting then db else reset_login_attempts username db)
      else (record_failed_attempt username db, bad_password)

  -- From the check of the lock on.
  unfoldable pub check_account : String → String → Db → Db × Answer
  unfolding check_password
  check_account username password db =
      if call.fails reading_attempts
      then (db, attempts_error)
      else if is_locked call.clock_check (get_login_attempts username db)
      then (db, account_locked)
      else check_password username password
          (if call.fails reading_user then none else get_user_by_username username db) db

  unfoldable pub login_handler : Db → Db × Answer
  unfolding check_account
  login_handler db = elim call.body [
    | none ↦ (db, invalid_body)
    | some (username, password) ↦
        if username == "" || password == ""
        then (db, missing_credentials)
        else check_account username password db
  ]

-- `none` stands for the answer 401 to a request without a token; the flag of the other answers says
-- whether the session was deleted or the query failed.
unfoldable pub logout_handler : String → Bool → Db → Db × Option Bool
logout_handler token failing db =
    if token == ""
    then (db, none)
    else if failing
    then (db, some false)
    else (delete_session token db, some true)
