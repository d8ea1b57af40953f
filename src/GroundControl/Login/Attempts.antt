-- ===== src/GroundControl/Login/Attempts.antt =====
-- What a call does to the row of a name in the table of login attempts.
use harbor_satellite.Common.{
  find, subst, ◌⊎◌, ℕ, suc, ◌+◌, ◌≤◌, ◌<◌, String, ◌≡◌, ◌≢◌, refl, sym, ap, ◌∙◌, Bool, true, false,
  ◌||◌, ◌&&◌, Option, none, some, List, [], ◌∷◌, leb, ◌==◌, eq_iff, eq_refl, if◌then◌else◌, arith,
  Bool-cases, Option-cases, inl, inr,
}
use harbor_satellite.GroundControl.Accounts.{
  upsert, User, Session, LoginAttempt, Db, create_session, get_login_attempts, upsert_login_attempt,
  lock_account, reset_login_attempts, locked, reset,
}
use harbor_satellite.GroundControl.Accounts.Laws.{named, bumped, find-upsert, find-update}
use harbor_satellite.GroundControl.Login.{
  max_failed_attempts, Server, LoginCall, counting, locking, resetting, Answer, lock_if_due,
  record_failed_attempt, start_session, check_password, check_account, login_handler,
}

-- A password was tried, and was wrong or for no user; or it was right.
abbrev pub is_failure : Answer → Bool
is_failure Answer.unknown_user = true
is_failure Answer.bad_password = true
is_failure _ = false

abbrev pub is_success : Answer → Bool
is_success Answer.token_error = true
is_success Answer.session_error = true
is_success (Answer.session_token t e) = true
is_success _ = false

abbrev pub for_user : String → LoginCall → Bool
for_user u call = elim call.body [ none ↦ false | some (username, password) ↦ username == u ]

-- The numbers of calls for `u` in a sequence that fail and that succeed.
unfoldable pub failures : Server → String → List LoginCall → Db → ℕ
failures s u [] db = 0
failures s u (call ∷ calls) db =
    let (db', answer) = login_handler s call db in
    let rest = failures s u calls db' in
    if for_user u call && is_failure answer then suc rest else rest

unfoldable pub successes : Server → String → List LoginCall → Db → ℕ
successes s u [] db = 0
successes s u (call ∷ calls) db =
    let (db', answer) = login_handler s call db in
    let rest = successes s u calls db' in
    if for_user u call && is_success answer then suc rest else rest

abbrev pub count : Option LoginAttempt → ℕ
count none = 0
count (some a) = a.failed_count

-- Any time in the window of one lockout from `start`, and no fault in the counting and the locking.
pub record Within (s : Server) (start : ℕ) (call : LoginCall) : Type 0 where
  pub checked : call.clock_check < start + s.lockout_duration
  pub locked_at : start ≤ call.clock_lock
  pub counts : call.fails counting ≡ false
  pub locks : call.fails locking ≡ false

abbrev pub after_failure : Server → LoginCall → String → Option LoginAttempt → LoginAttempt
after_failure s call username old =
    let new = bumped username old in
    if leb 5 new.failed_count then locked (call.clock_lock + s.lockout_duration) new else new

module _ (s : Server) (u : String) (start : ℕ) where
  record_self :
      (call : LoginCall) (db : Db)
      → Within s start call
      → get_login_attempts u (record_failed_attempt s call u db)
        ≡ some (after_failure s call u (get_login_attempts u db))
  unfolding record_failed_attempt lock_if_due get_login_attempts upsert_login_attempt lock_account
      max_failed_attempts
  record_self call db w =
      let rows = db.login_attempts in
      let new = bumped u (find (named u) rows) in
      let there : find (named u) (upsert u rows) ≡ some new =
        ground (arith, find-upsert u u rows, eq_refl u) in
      let lock_there =
        find-update (locked (call.clock_lock + s.lockout_duration)) u u (upsert u rows)
          (λ a. refl) in
      rw (w.counts, there, lock_if_due) (ground (arith, lock_there, there, eq_refl u, w.locks))

  record_other :
      (call : LoginCall) (username : String) (db : Db)
      → username ≢ u
      → get_login_attempts u (record_failed_attempt s call username db) ≡ get_login_attempts u db
  unfolding record_failed_attempt lock_if_due get_login_attempts upsert_login_attempt lock_account
      max_failed_attempts
  record_other call username db other =
      let rows = db.login_attempts in
      let there : find (named username) (upsert username rows)
          ≡ some (bumped username (find (named username) rows)) =
        ground (arith, find-upsert username username rows, eq_refl username) in
      let lock_other =
        find-update (locked (call.clock_lock + s.lockout_duration)) username u
          (upsert username rows) (λ a. refl) in
      rw (there, lock_if_due)
        (ground (arith, lock_other, find-upsert username u rows, eq_iff username u, other))

  start_session_kept :
      (call : LoginCall) (user : User) (db : Db)
      → get_login_attempts u (start_session s call user db).0 ≡ get_login_attempts u db
  unfolding start_session get_login_attempts create_session
  start_session_kept call user db = elim (Option-cases call.new_token) [
    | inl missing ↦ rw (missing, start_session) refl
    | inr (token, there) ↦
        let session : Session = record {
          user_id = user.id;
          token = token;
          expires_at = s.timestamp (call.clock_session + s.session_duration);
        } in
        elim (Option-cases (find (λ t. t.token == token) db.sessions)) [
          | inl new ↦ rw (there, start_session, new) (ground arith)
          | inr (t, old) ↦ rw (there, start_session, old) (ground arith)
        ]
  ]

  start_session_succeeds :
      (call : LoginCall) (user : User) (db : Db)
      → (is_failure (start_session s call user db).1 ≡ false)
        × (is_success (start_session s call user db).1 ≡ true)
  unfolding start_session create_session
  start_session_succeeds call user db = elim (Option-cases call.new_token) [
    | inl missing ↦ rw (missing, start_session) (refl, refl)
    | inr (token, there) ↦ elim (Option-cases (find (λ t. t.token == token) db.sessions)) [
      | inl new ↦ rw (there, start_session, new) (ground arith)
      | inr (t, old) ↦ rw (there, start_session, old) (ground arith)
    ]
  ]

  -- The row of `u` once a right password resets it, or that fails.
  abbrev settled : LoginCall → String → Db → Db
  settled call username db = if call.fails resetting then db else reset_login_attempts username db

  settled_self :
      (call : LoginCall) (db : Db)
      → count (get_login_attempts u (settled call u db)) ≤ count (get_login_attempts u db)
  unfolding get_login_attempts reset_login_attempts
  settled_self call db = elim (Option-cases (find (named u) db.login_attempts)) [
    | inl absent ↦
        ground (arith, find-update reset u u db.login_attempts (λ a. refl), eq_refl u, absent)
    | inr (a, there) ↦
        ground (arith, find-update reset u u db.login_attempts (λ a. refl), eq_refl u, there)
  ]

  settled_other :
      (call : LoginCall) (username : String) (db : Db)
      → username ≢ u
      → get_login_attempts u (settled call username db) ≡ get_login_attempts u db
  unfolding get_login_attempts reset_login_attempts
  settled_other call username db other =
      ground (
        arith,
        find-update reset username u db.login_attempts (λ a. refl),
        eq_iff username u,
        other,
      )

  -- After a failure for `u` its row counts one more.
  pub check_self :
      (call : LoginCall) (password : String) (user : Option User) (db : Db)
      → Within s start call
      → ((is_failure (check_password s call u password user db).1 ≡ true)
          × (get_login_attempts u (check_password s call u password user db).0
              ≡ some (after_failure s call u (get_login_attempts u db))))
        ⊎ ((is_failure (check_password s call u password user db).1 ≡ false)
            × (is_success (check_password s call u password user db).1 ≡ true)
            × (count (get_login_attempts u (check_password s call u password user db).0)
                ≤ count (get_login_attempts u db)))
  unfolding check_password
  check_self call password none db w = inl (refl, record_self call db w)
  check_self call password (some user) db w =
      elim (Bool-cases (s.verify_password password user.password_hash)) [
        | inl right ↦
            let (fails_not, succeeds) = start_session_succeeds call user (settled call u db) in
            rw (right, check_password)
              (inr (
                fails_not,
                succeeds,
                subst (λ o. count o ≤ count (get_login_attempts u db))
                    (sym (start_session_kept call user (settled call u db))) (settled_self call db),
              ))
        | inr wrong ↦ rw (wrong, check_password) (inl (refl, record_self call db w))
      ]

  pub check_other :
      (call : LoginCall) (username password : String) (user : Option User) (db : Db)
      → username ≢ u
      → get_login_attempts u (check_password s call username password user db).0
        ≡ get_login_attempts u db
  unfolding check_password
  check_other call username password none db other = record_other call username db other
  check_other call username password (some user) db other =
      elim (Bool-cases (s.verify_password password user.password_hash)) [
        | inl right ↦
            rw (right, check_password)
              (start_session_kept call user (settled call username db)
                ∙ settled_other call username db other)
        | inr wrong ↦ rw (wrong, check_password) (record_other call username db other)
      ]

-- The guards on the body of a call, and then the account.
module _ (s : Server) where
  pub login_handler_lem :
      (call : LoginCall) (o : Option (String × String)) (db : Db)
      → call.body ≡ o
      → login_handler s call db ≡ (elim o [
        | none ↦ (db, Answer.invalid_body)
        | some (username, password) ↦
            if username == "" || password == ""
            then (db, Answer.missing_credentials)
            else check_account s call username password db
      ])
  unfolding login_handler
  login_handler_lem call o db asked =
      ap
        (λ b. elim b [
          | none ↦ (db, Answer.invalid_body)
          | some (username, password) ↦
              if username == "" || password == ""
              then (db, Answer.missing_credentials)
              else check_account s call username password db
        ])
        asked
