-- ===== src/GroundControl/Login/Grants.antt =====
-- What a call that is answered with a token shows.
use harbor_satellite.Common.{
  ℕ, ◌+◌, String, ◌≡◌, sym, ap, ◌∙◌, true, false, ◌||◌, none, some, ◌==◌, if◌then◌else◌, Bool-cases,
  Option-cases, inl, inr,
}
use harbor_satellite.GroundControl.Accounts.{
  User, Session, Db, get_user_by_username, create_session, get_login_attempts, reset_login_attempts,
}
use harbor_satellite.GroundControl.Login.Attempts.{login_handler_lem}
use harbor_satellite.GroundControl.Login.{
  Server, LoginCall, reading_attempts, reading_user, resetting, storing, session_token, is_locked,
  format_rfc3339, start_session, check_password, check_account, login_handler,
}

abbrev pub new_session : Server → LoginCall → User → String → Session
new_session s call user token = record {
  user_id = user.id;
  token = token;
  expires_at = s.timestamp (call.clock_session + s.session_duration);
}

-- The database when the session is stored.
abbrev pub settled : LoginCall → String → Db → Db
settled call username db = if call.fails resetting then db else reset_login_attempts username db

pub record Granted (s : Server) (call : LoginCall) (db db' : Db) (token : String) (expires_at : ℕ)
    : Type 0 where
  pub username : String
  pub password : String
  pub user : User
  pub asked : call.body ≡ some (username, password)
  pub unlocked : is_locked call.clock_check (get_login_attempts username db) ≡ false
  pub found : get_user_by_username username db ≡ some user
  pub verified : s.verify_password password user.password_hash ≡ true
  pub stored : create_session (new_session s call user token) (settled call username db) ≡ some db'
  pub expires : expires_at ≡ format_rfc3339 (call.clock_session + s.session_duration)

module _ (s : Server) (call : LoginCall) where
  start_session_granted :
      (user : User) (db db' : Db) (token : String) (expires_at : ℕ)
      → start_session s call user db ≡ (db', session_token token expires_at)
      → (create_session (new_session s call user token) db ≡ some db')
        × (expires_at ≡ format_rfc3339 (call.clock_session + s.session_duration))
  unfolding start_session
  start_session_granted user db db' token expires_at h = elim (Option-cases call.new_token) [
    | inl missing ↦ cc (ap (λ o. o.1) (rw (missing, start_session) at h))
    | inr (t, made) ↦ elim (Bool-cases (call.fails storing)) [
      | inl failing ↦ cc (ap (λ o. o.1) (rw (made, failing, start_session) at h))
      | inr storing_works ↦ elim (Option-cases (create_session (new_session s call user t) db)) [
        | inl refused ↦ cc (ap (λ o. o.1) (rw (made, storing_works, refused, start_session) at h))
        | inr (db'', created) ↦
            let out = rw (made, storing_works, created, start_session) at h in
            (cc (created, ap (λ o. o.0) out, ap (λ o. o.1) out), cc (ap (λ o. o.1) out))
      ]
    ]
  ]

  Verified : String → String → Db → Db → String → ℕ → Type 0
  Verified username password db db' token expires_at =
      (user : User) × (is_locked call.clock_check (get_login_attempts username db) ≡ false)
      × (get_user_by_username username db ≡ some user)
      × (s.verify_password password user.password_hash ≡ true)
      × (create_session (new_session s call user token) (settled call username db) ≡ some db')
      × (expires_at ≡ format_rfc3339 (call.clock_session + s.session_duration))

  check_account_granted :
      (username password : String) (db db' : Db) (token : String) (expires_at : ℕ)
      → check_account s call username password db ≡ (db', session_token token expires_at)
      → Verified username password db db' token expires_at
  unfolding check_account check_password Verified
  check_account_granted username password db db' token expires_at h =
      elim (Bool-cases (call.fails reading_attempts)) [
        | inl failing ↦ cc (ap (λ o. o.1) (rw (failing, check_account) at h))
        | inr reading ↦
            elim (Bool-cases (is_locked call.clock_check (get_login_attempts username db))) [
              | inl shut ↦ cc (ap (λ o. o.1) (rw (reading, shut, check_account) at h))
              | inr free ↦ elim (Bool-cases (call.fails reading_user)) [
                | inl failing ↦ cc (ap (λ o. o.1) (rw (reading, free, failing, check_account) at h))
                | inr works ↦ elim (Option-cases (get_user_by_username username db)) [
                  | inl unknown ↦
                      cc (ap (λ o. o.1) (rw (reading, free, works, unknown, check_account) at h))
                  | inr (user, found) ↦
                      elim (Bool-cases (s.verify_password password user.password_hash)) [
                        | inr wrong ↦ cc (
                            ap (λ o. o.1)
                              (rw (reading, free, works, found, wrong, check_account) at h))
                        | inl right ↦
                            let (stored, expires) =
                              start_session_granted user (settled call username db) db' token
                                expires_at
                                (rw (reading, free, works, found, right, check_account) at h) in
                            (user, free, found, right, stored, expires)
                      ]
                ]
              ]
            ]
      ]

  -- A call that is answered with a token is for a user of the table, with the user's password, whose
  -- name was not locked; the session is stored, which it is only under a token that is not taken.
  pub login_handler-Granted :
      (db db' : Db) (token : String) (expires_at : ℕ)
      → login_handler s call db ≡ (db', session_token token expires_at)
      → Granted s call db db' token expires_at
  unfolding Verified
  login_handler-Granted db db' token expires_at h = elim (Option-cases call.body) [
    | inl missing ↦ cc (ap (λ o. o.1) (sym (login_handler_lem s call none db missing) ∙ h))
    | inr ((username, password), asked) ↦
        let checked = sym (login_handler_lem s call (some (username, password)) db asked) ∙ h in
        elim (Bool-cases (username == "" || password == "")) [
          | inl empty ↦ cc (ap (λ o. o.1) (rw empty at checked))
          | inr filled ↦
              let (user, free, found, right, stored, expires) =
                check_account_granted username password db db' token expires_at
                  (rw filled at checked) in
              record {
                username = username;
                password = password;
                user = user;
                asked = asked;
                unlocked = free;
                found = found;
                verified = right;
                stored = stored;
                expires = expires;
              }
        ]
  ]
