-- ===== src/GroundControl/Users.antt =====
-- internal/groundcontrol/server/user_handlers.go and bootstrap.go: creating, reading and deleting
-- users, and changing their passwords. `validate` is the check of the password policy (true where it
-- accepts); hashing and verifying a password (internal/crypto) are parameters; a call says which of
-- its queries fail.
pub mod Guards
pub mod NoSession
pub mod Ended
pub mod Deleted
pub mod Tests
use harbor_satellite.Common.{
  ◌&&◌, ℕ, String, Bool, true, false, not, Option, none, some, List, [], ◌∷◌, ◌==◌, if◌then◌else◌,
}
use harbor_satellite.GroundControl.Accounts.{
  Role, admin, system_admin, is_system_admin, User, Db, get_user_by_username, create_user,
  list_users, update_user_password, delete_user, delete_user_sessions, system_admin_exists,
}
use harbor_satellite.GroundControl.Access.{AuthUser}

pub data Step : Type 0 where
  checking_admin reading creating updating ending_sessions deleting rechecking : Step

-- The new hash is `none` if hashing fails.
pub record Call : Type 0 where
  pub validate : String → Bool
  pub verify_password : String → String → Bool
  pub hash : String → Option String
  pub fails : Step → Bool

pub data Reply : Type 0 where
  bad_body unauthorized username_missing username_reserved password_refused : Reply
  user_exists internal_error not_found own_account system_account wrong_password : Reply
  no_content : Reply
  created shown : User → Reply
  listed : List User → Reply

module _ (c : Call) where
  store_user : String → Option String → Db → Db × Reply
  store_user username none db = (db, internal_error)
  store_user username (some hashed) db =
      if c.fails creating
      then (db, internal_error)
      else (elim (create_user username hashed admin db) [
        | none ↦ (db, user_exists)
        | some (db', user) ↦ (db', created user)
      ])

  pub create_user_handler : Option (String × String) → Db → Db × Reply
  unfolding store_user
  create_user_handler none db = (db, bad_body)
  create_user_handler (some (username, password)) db =
      if username == ""
      then (db, username_missing)
      else if username == "admin"
      then (db, username_reserved)
      else if c.validate password
      then store_user username (c.hash password) db
      else (db, password_refused)

  pub list_users_handler : Db → Reply
  list_users_handler db = if c.fails reading then internal_error else listed (list_users db)

  pub get_user_handler : String → Db → Reply
  get_user_handler username db =
      if c.fails reading then internal_error else (elim (get_user_by_username username db) [
        | none ↦ not_found
        | some user ↦ if is_system_admin user.role then not_found else shown user
      ])

  -- DeleteUserSessions and DeleteUser.
  remove_user : String → User → Db → Db × Reply
  remove_user username user db =
      if c.fails ending_sessions
      then (db, internal_error)
      else if c.fails deleting
      then (delete_user_sessions user.id db, internal_error)
      else (delete_user username (delete_user_sessions user.id db), no_content)

  pub delete_user_handler : Option AuthUser → String → Db → Db × Reply
  unfolding remove_user
  delete_user_handler none username db = (db, unauthorized)
  delete_user_handler (some current) username db =
      if username == current.username
      then (db, own_account)
      else if username == "admin"
      then (db, system_account)
      else if c.fails reading
      then (db, internal_error)
      else (elim (get_user_by_username username db) [
        | none ↦ (db, not_found)
        | some user ↦ remove_user username user db
      ])

  -- UpdateUserPassword and DeleteUserSessions.
  replace_password : String → User → Option String → Db → Db × Reply
  replace_password username user none db = (db, internal_error)
  replace_password username user (some hashed) db =
      if c.fails updating
      then (db, internal_error)
      else if c.fails ending_sessions
      then (update_user_password username hashed db, internal_error)
      else (delete_user_sessions user.id (update_user_password username hashed db), no_content)

  pub change_own_password_handler : Option AuthUser → Option (String × String) → Db → Db × Reply
  unfolding replace_password
  change_own_password_handler none body db = (db, unauthorized)
  change_own_password_handler (some current) none db = (db, bad_body)
  change_own_password_handler (some current) (some (old, new)) db =
      if c.validate new
      then (if c.fails reading
          then (db, internal_error)
          else (elim (get_user_by_username current.username db) [
            | none ↦ (db, internal_error)
            | some user ↦
                if c.verify_password old user.password_hash
                then replace_password current.username user (c.hash new) db
                else (db, wrong_password)
          ]))
      else (db, password_refused)

  pub change_user_password_handler : String → Option String → Db → Db × Reply
  unfolding replace_password
  change_user_password_handler username none db = (db, bad_body)
  change_user_password_handler username (some new) db =
      if c.validate new
      then (if c.fails reading
          then (db, internal_error)
          else (elim (get_user_by_username username db) [
            | none ↦ (db, not_found)
            | some user ↦ replace_password username user (c.hash new) db
          ]))
      else (db, password_refused)

  -- BootstrapSystemAdmin; the flag says whether it returns no error. The two tests for an admin may
  -- differ, if another instance created one in between: `later` is the table that the second one reads.
  create_admin : Option String → Db → Db → Db × Bool
  create_admin none later db = (db, false)
  create_admin (some hashed) later db =
      if c.fails creating
      then (db, not (c.fails rechecking) && system_admin_exists later)
      else (elim (create_user "admin" hashed system_admin db) [
        | none ↦ (db, not (c.fails rechecking) && system_admin_exists later)
        | some (db', user) ↦ (db', true)
      ])

  pub bootstrap_system_admin : String → Db → Db → Db × Bool
  unfolding create_admin
  bootstrap_system_admin password later db =
      if c.fails checking_admin
      then (db, false)
      else if system_admin_exists db
      then (db, true)
      else if password == ""
      then (db, false)
      else if c.validate password
      then create_admin (c.hash password) later db
      else (db, false)
