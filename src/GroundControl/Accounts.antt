-- ===== src/GroundControl/Accounts.antt =====
-- The tables of users, sessions and login attempts of Ground Control (sql/schema), and the queries of
-- internal/groundcontrol/database that the handlers of users and sessions call. A time is a number of
-- nanoseconds. Each function is what its query does if the database is there; the handlers decide
-- which of their queries fail. Columns that no condition reads are left out.
pub mod Laws
use harbor_satellite.Common.{
  ℕ, suc, ◌+◌, String, Bool, true, false, not, ◌&&◌, Option, none, some, List, [], ◌∷◌, ◌++◌, map,
  ltb, eqb, ◌==◌, if◌then◌else◌, keep, find,
}

pub data Role : Type 0 where
  admin system_admin : Role

abbrev pub is_system_admin : Role → Bool
is_system_admin admin = false
is_system_admin system_admin = true

pub record User : Type 0 where
  pub id : ℕ
  pub username : String
  pub password_hash : String
  pub role : Role

pub record Session : Type 0 where
  pub user_id : ℕ
  pub token : String
  pub expires_at : ℕ

pub record LoginAttempt : Type 0 where
  pub username : String
  pub failed_count : ℕ
  pub locked_until : Option ℕ

-- `next_id` is the sequence of the column users.id.
pub record Db : Type 0 where
  pub users : List User
  pub sessions : List Session
  pub login_attempts : List LoginAttempt
  pub next_id : ℕ

unfoldable pub get_user_by_username : String → Db → Option User
get_user_by_username username db = find (λ u. u.username == username) db.users

unfoldable pub get_user_by_id : ℕ → Db → Option User
get_user_by_id id db = find (λ u. eqb u.id id) db.users

-- The join with users has no row if the user is gone.
unfoldable pub get_session_by_token : ℕ → String → Db → Option (Session × User)
get_session_by_token now token db =
    elim (find (λ s. s.token == token && ltb now s.expires_at) db.sessions) [
      | none ↦ none
      | some s ↦ elim (get_user_by_id s.user_id db) [ none ↦ none | some u ↦ some (s, u) ]
    ]

-- `none` stands for the violation of the unique token.
unfoldable pub create_session : Session → Db → Option Db
create_session s db = elim (find (λ t. t.token == s.token) db.sessions) [
  | none ↦ some (record db { sessions = db.sessions ++ (s ∷ []) })
  | some t ↦ none
]

unfoldable pub delete_session : String → Db → Db
delete_session token db = record db { sessions = keep (λ s. not (s.token == token)) db.sessions }

unfoldable pub delete_user_sessions : ℕ → Db → Db
delete_user_sessions id db = record db { sessions = keep (λ s. not (eqb s.user_id id)) db.sessions }

unfoldable pub get_login_attempts : String → Db → Option LoginAttempt
get_login_attempts username db = find (λ a. a.username == username) db.login_attempts

-- INSERT … ON CONFLICT (username) DO UPDATE.
unfoldable pub upsert : String → List LoginAttempt → List LoginAttempt
upsert username [] = (record { username = username; failed_count = 1; locked_until = none }) ∷ []
upsert username (a ∷ rest) =
    let others = upsert username rest in
    if a.username == username
    then record a { failed_count = suc a.failed_count } ∷ rest
    else a ∷ others

unfoldable pub upsert_login_attempt : String → Db → Db
upsert_login_attempt username db = record db { login_attempts = upsert username db.login_attempts }

-- UPDATE login_attempts … WHERE username = $1
unfoldable pub update :
    (LoginAttempt → LoginAttempt) → String → List LoginAttempt → List LoginAttempt
update f username [] = []
update f username (a ∷ rest) =
    let others = update f username rest in
    if a.username == username then f a ∷ others else a ∷ others

abbrev pub locked : ℕ → LoginAttempt → LoginAttempt
locked until a = record a { locked_until = some until }

abbrev pub reset : LoginAttempt → LoginAttempt
reset a = record a { failed_count = 0; locked_until = none }

unfoldable pub lock_account : String → ℕ → Db → Db
lock_account username until db = record db {
  login_attempts = update (locked until) username db.login_attempts;
}

unfoldable pub reset_login_attempts : String → Db → Db
reset_login_attempts username db = record db {
  login_attempts = update reset username db.login_attempts;
}

abbrev pub named_user : String → User → Bool
named_user username u = u.username == username

-- `none` stands for the violation of the unique username.
unfoldable pub create_user : String → String → Role → Db → Option (Db × User)
create_user username password_hash role db = elim (find (named_user username) db.users) [
  | some u ↦ none
  | none ↦
      let user : User = record {
        id = db.next_id;
        username = username;
        password_hash = password_hash;
        role = role;
      } in
      some (record db { users = db.users ++ (user ∷ []); next_id = suc db.next_id }, user)
]

-- WHERE role != 'system_admin'
unfoldable pub list_users : Db → List User
list_users db = keep (λ u. not (is_system_admin u.role)) db.users

unfoldable pub set_password : String → String → List User → List User
set_password username password_hash [] = []
set_password username password_hash (u ∷ us) =
    let others = set_password username password_hash us in
    if u.username == username
    then record u { password_hash = password_hash } ∷ others
    else u ∷ others

unfoldable pub update_user_password : String → String → Db → Db
update_user_password username password_hash db = record db {
  users = set_password username password_hash db.users;
}

-- WHERE username = $1 AND role != 'system_admin'
abbrev pub deletable : String → User → Bool
deletable username u = u.username == username && not (is_system_admin u.role)

-- sessions.user_id REFERENCES users(id) ON DELETE CASCADE: the sessions of a deleted row go with it.
unfoldable pub delete_user : String → Db → Db
delete_user username db = record db {
  users = keep (λ u. not (deletable username u)) db.users;
  sessions =
      keep
        (λ s. elim (find (λ u. deletable username u && eqb u.id s.user_id) db.users) [
          | none ↦ true
          | some u ↦ false
        ])
        db.sessions;
}

unfoldable pub system_admin_exists : Db → Bool
system_admin_exists db = elim (find (λ u. is_system_admin u.role) db.users) [
  | none ↦ false
  | some u ↦ true
]
