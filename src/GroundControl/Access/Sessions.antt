-- ===== src/GroundControl/Access/Sessions.antt =====
-- The life of a session, from the login that stores it to its expiry or the logout that deletes it.
use harbor_satellite.Common.{
  ℕ, ◌+◌, String, ◌≡◌, ◌≢◌, refl, sym, ap, ◌∙◌, Bool, true, false, Option, none, some, ltb, ◌==◌,
  eq_iff, if◌then◌else◌, arith, Bool-cases, Option-cases, inl, inr,
}
use harbor_satellite.GroundControl.Accounts.{
  User, Session, Db, get_user_by_username, get_user_by_id, get_session_by_token, delete_session,
  reset_login_attempts,
}
use harbor_satellite.GroundControl.Login.{
  Server, LoginCall, format_rfc3339, session_token, login_handler, logout_handler, resetting,
}
use harbor_satellite.GroundControl.Login.Grants.{new_session, settled, login_handler-Granted}
use harbor_satellite.GroundControl.Access.{AuthUser, auth_user, Lookup, by_session}
use harbor_satellite.GroundControl.Access.Rows.{
  HasUserIds, get_session-created, get_session-created_ne, get_session-deleted,
  get_session-deleted_ne,
}

abbrev who : Option (Session × User) → Option AuthUser
who none = none
who (some (session, user)) = some (auth_user user)

by_session_lem :
    (verify : String → String → Bool) (l : Lookup) (db : Db) (token : String)
    → l.session_fails ≡ false
    → token ≢ ""
    → by_session verify l db token ≡ who (get_session_by_token l.now token db)
unfolding by_session
by_session_lem verify l db token works given =
    elim (Option-cases (get_session_by_token l.now token db)) [
      | inl absent ↦ ground (arith, works, absent, eq_iff token "", given)
      | inr (found, there) ↦ ground (arith, works, there, eq_iff token "", given)
    ]

who_if :
    (live : Bool) (session : Session) (user : User)
    → who (if live then some (session, user) else none)
      ≡ (if live then some (auth_user user) else none)
who_if true session user = refl
who_if false session user = refl

settled-user :
    (call : LoginCall) (username : String) (id : ℕ) (db : Db)
    → get_user_by_id id (settled call username db) ≡ get_user_by_id id db
unfolding reset_login_attempts get_user_by_id
settled-user call username id db = elim (Bool-cases (call.fails resetting)) [
  | inl failing ↦ rw failing refl
  | inr works ↦ rw works refl
]

settled-session :
    (call : LoginCall) (username token : String) (now : ℕ) (db : Db)
    → get_session_by_token now token (settled call username db) ≡ get_session_by_token now token db
unfolding reset_login_attempts get_session_by_token get_user_by_id
settled-session call username token now db = elim (Bool-cases (call.fails resetting)) [
  | inl failing ↦ rw failing refl
  | inr works ↦ rw works refl
]

-- If a call to log in is answered with a token, which is not empty, then as long as the query does not
-- fail, that token stands for the user whose name and password were given exactly at the times before
-- the one that the column of sessions holds of the session's duration after the clock of the call; the
-- expiry in the answer is that time before it was stored, cut to whole seconds. Every other token
-- stands for whom it stood for before. After a logout with the token it stands for nobody
-- at any time, and again every other token for whom it stood for.
pub session_lifetime :
    (s : Server) (call : LoginCall) (db db' : Db) (token : String) (expires_at : ℕ) (l : Lookup)
    → login_handler s call db ≡ (db', session_token token expires_at)
    → HasUserIds db
    → token ≢ ""
    → l.session_fails ≡ false
    → (user : User) × (username : String) × (password : String) × (call.body
        ≡ some (username, password))
      × (get_user_by_username username db ≡ some user)
      × (s.verify_password password user.password_hash ≡ true)
      × (expires_at ≡ format_rfc3339 (call.clock_session + s.session_duration))
      × (by_session s.verify_password l db' token ≡ (
          if ltb l.now (s.timestamp (call.clock_session + s.session_duration))
          then some (auth_user user)
          else none))
      × (by_session s.verify_password l (logout_handler token false db').0 token ≡ none)
      × ((other : String)
          → token ≢ other
          → other ≢ ""
          → (by_session s.verify_password l db' other ≡ by_session s.verify_password l db other)
            × (by_session s.verify_password l (logout_handler token false db').0 other
                ≡ by_session s.verify_password l db other))
unfolding logout_handler
session_lifetime s call db db' token expires_at l h ids given works =
    let g = login_handler-Granted s call db db' token expires_at h in
    let session = new_session s call g.user token in
    let before = settled call g.username db in
    let owner : get_user_by_id g.user.id before ≡ some g.user =
      settled-user call g.username g.user.id db ∙ ids g.username g.user g.found in
    let nonempty : (token == "") ≡ false = ground (arith, eq_iff token "", given) in
    (
      g.user,
      g.username,
      g.password,
      g.asked,
      g.found,
      g.verified,
      g.expires,
      by_session_lem s.verify_password l db' token works given
          ∙ ap who (get_session-created session before db' g.stored l.now g.user owner)
          ∙ who_if (ltb l.now (s.timestamp (call.clock_session + s.session_duration))) session
              g.user,
      rw nonempty (
          by_session_lem s.verify_password l (delete_session token db') token works given
          ∙ ap who (get_session-deleted l.now token db')),
      λ other differs named.
          let kept =
            by_session_lem s.verify_password l db' other works named
            ∙ ap who (
                get_session-created_ne session before db' g.stored l.now other differs
                ∙ settled-session call g.username other l.now db)
            ∙ sym (by_session_lem s.verify_password l db other works named) in
          (
            kept,
            rw nonempty (
                by_session_lem s.verify_password l (delete_session token db') other works named
                ∙ ap who (get_session-deleted_ne l.now token other db' differs)
                ∙ sym (by_session_lem s.verify_password l db' other works named)
                ∙ kept),
          ),
    )
