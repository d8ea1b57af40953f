-- ===== src/GroundControl/Users/NoSession.antt =====
-- What is left of the sessions and passwords of a user after the updates of the tables.
use mathlib.Core.Option.{some-injective}
use harbor_satellite.Common.{
  find, All-keep, keep-All, All-map, ℕ, String, ◌≡◌, ◌≢◌, refl, sym, ap, ◌∙◌, Bool, true, false,
  not, ◌||◌, ◌&&◌, none, some, List, ltb, eqb, eqb_iff, ◌==◌, eq_iff, eq_refl, if◌then◌else◌, arith,
  Bool-cases, Option-cases, inl, inr, keep, All,
}
use harbor_satellite.GroundControl.Accounts.{
  named_user, User, Session, Db, get_user_by_username, get_user_by_id, get_session_by_token,
  delete_user_sessions, delete_user, update_user_password, set_password,
}
use harbor_satellite.GroundControl.Accounts.Laws.{
  with_password, find-set_password, find-holds, find-All,
}
use harbor_satellite.GroundControl.Access.{AuthUser, auth_user, Lookup, by_session, by_password}

-- No session of the user with that id.
abbrev pub HasNoSession : ℕ → Db → Type 0
HasNoSession id db = All (λ s. s.user_id ≢ id) db.sessions

pub by_session-not :
    (verify : String → String → Bool) (l : Lookup) (db : Db) (id : ℕ) (token : String)
    (who : AuthUser)
    → HasNoSession id db
    → by_session verify l db token ≡ some who
    → who.id ≢ id
unfolding by_session get_session_by_token get_user_by_id
by_session-not verify l db id token who gone h =
    elim (Bool-cases (token == "" || l.session_fails)) [
      | inl out ↦ cc (rw (out, by_session) at h)
      | inr within ↦
          elim (Option-cases (find (λ s. s.token == token && ltb l.now s.expires_at) db.sessions)) [
            | inl absent ↦ cc (rw (within, absent, by_session, get_session_by_token) at h)
            | inr (s, there) ↦ elim (Option-cases (find (λ u. eqb u.id s.user_id) db.users)) [
              | inl orphan ↦ cc (
                  rw (within, there, orphan, by_session, get_session_by_token, get_user_by_id) at h)
              | inr (u, owner) ↦
                  let out : some (auth_user u) ≡ some who =
                    rw (within, there, owner, by_session, get_session_by_token, get_user_by_id) at
                      h in
                  let same = ap (λ w. w.id) (some-injective (auth_user u) who out) in
                  let of_session =
                    (eqb_iff u.id s.user_id).0
                      (find-holds (λ v. eqb v.id s.user_id) db.users u owner) in
                  let kept =
                    find-All (λ t. t.user_id ≢ id) (λ t. t.token == token && ltb l.now t.expires_at)
                      db.sessions s gone there in
                  λ e. kept (sym of_session ∙ same ∙ e)
            ]
          ]
    ]

pub HasNoSession-delete_user_sessions :
    (id : ℕ) (db : Db) → HasNoSession id (delete_user_sessions id db)
unfolding delete_user_sessions
HasNoSession-delete_user_sessions id db = go db.sessions
  where
    go : (rows : List Session) → All (λ s. s.user_id ≢ id) (keep (λ s. not (eqb s.user_id id)) rows)
    go rows =
        All-map (λ s. not (eqb s.user_id id) ≡ true) (λ s. s.user_id ≢ id)
          (λ s kept e. cc (kept, (eqb_iff s.user_id id).1 e))
          (keep (λ s. not (eqb s.user_id id)) rows) (All-keep (λ s. not (eqb s.user_id id)) rows)

pub HasNoSession-delete_user :
    (id : ℕ) (username : String) (db : Db)
    → HasNoSession id db
    → HasNoSession id (delete_user username db)
unfolding delete_user
HasNoSession-delete_user id username db gone = keep-All (λ s. s.user_id ≢ id) _ db.sessions gone

module _ (verify : String → String → Bool) where
  -- Of all requests, the name and its new password stand for the user, no session does, and any other
  -- name stands with any password for whom it did before.
  pub record Replaced (db db' : Db) (username hashed : String) (user : User) : Type 0 where
    pub no_session :
        (l : Lookup) (token : String) (who : AuthUser)
        → by_session verify l db' token ≡ some who
        → who.id ≢ user.id
    pub new_password :
        (l : Lookup) (given : String)
        → l.user_fails ≡ false
        → by_password verify l db' (some (username, given))
          ≡ (if verify given hashed then some (auth_user user) else none)
    pub others :
        (l : Lookup) (other given : String)
        → username ≢ other
        → by_password verify l db' (some (other, given))
          ≡ by_password verify l db (some (other, given))

  pub replaced :
      (db : Db) (username hashed : String) (user : User)
      → get_user_by_username username db ≡ some user
      → Replaced db
          (delete_user_sessions user.id (update_user_password username hashed db))
          username
          hashed
          user
  unfolding by_password get_user_by_username update_user_password delete_user_sessions
  replaced db username hashed user found =
      let db' = delete_user_sessions user.id (update_user_password username hashed db) in
      record {
        no_session = λ l token who h.
            by_session-not verify l db' user.id token who
              (HasNoSession-delete_user_sessions user.id (update_user_password username hashed db))
              h;
        new_password = λ l given works.
            let now : find (named_user username) (set_password username hashed db.users)
                ≡ some (record user { password_hash = hashed }) =
              find-set_password username hashed username db.users
              ∙ rw (eq_refl username) (ap (with_password hashed) found) in
            rw (works, now, by_password) refl;
        others = λ l other given differs.
            let same : find (named_user other) (set_password username hashed db.users)
                ≡ find (named_user other) db.users =
              ground (
                arith,
                find-set_password username hashed other db.users,
                eq_iff username other,
                differs,
              ) in
            rw (same, by_password) refl;
      }
