-- ===== src/GroundControl/Users/Tests.antt =====
-- The handlers of users at concrete inputs.
use harbor_satellite.Common.{
  find, ℕ, String, ◌≡◌, ◌≢◌, refl, true, false, some, [], ◌∷◌, ◌==◌, keep,
}
use harbor_satellite.GroundControl.Accounts.{
  admin, system_admin, is_system_admin, User, Db, get_user_by_username, set_password,
  update_user_password, delete_user_sessions, delete_user,
}
use harbor_satellite.GroundControl.Access.{AuthUser, Lookup, by_session}
use harbor_satellite.GroundControl.Users.{
  Call, remove_user, delete_user_handler, replace_password, change_own_password_handler,
  change_user_password_handler, create_user_handler,
}
use harbor_satellite.GroundControl.Users.Guards.{system_admins, system_admins-stay}
use harbor_satellite.GroundControl.Users.Ended.{
  change_user_password_handler_done, change_own_password_handler_done,
}
use harbor_satellite.GroundControl.Users.NoSession.{Replaced}
use harbor_satellite.GroundControl.Users.Deleted.{delete_user_handler_done}

abbrev call : Call
call = record {
  validate = λ password. true;
  verify_password = λ password hash. password == hash;
  hash = λ password. some password;
  fails = λ step. false;
}

abbrev user : ℕ → String → String → User
user id username hash = record { id = id; username = username; password_hash = hash; role = admin }

abbrev root : User
root = record { id = 1; username = "admin"; password_hash = "r"; role = system_admin }

abbrev db : Db
db = record {
  users = root ∷ user 2 "alice" "a" ∷ user 3 "bob" "b" ∷ [];
  sessions =
      (record { user_id = 2; token = "t"; expires_at = 9 })
      ∷ (record { user_id = 3; token = "u"; expires_at = 9 })
      ∷ [];
  login_attempts = [];
  next_id = 4;
}

abbrev signed_in : AuthUser
signed_in = record { id = 2; username = "alice"; role = admin }

abbrev administrator : AuthUser
administrator = record { id = 1; username = "admin"; role = system_admin }

abbrev changed : Db
changed = record db {
  users = root ∷ user 2 "alice" "new" ∷ user 3 "bob" "b" ∷ [];
  sessions = (record { user_id = 3; token = "u"; expires_at = 9 }) ∷ [];
}

abbrev deleted : Db
deleted = record changed { users = root ∷ user 3 "bob" "b" ∷ [] }

change_user_password_handler_done_example :
    (u : User) × (hashed : String) × (get_user_by_username "alice" db ≡ some u)
    × (call.validate "new" ≡ true)
    × (call.hash "new" ≡ some hashed)
    × Replaced call.verify_password db changed "alice" hashed u
unfolding change_user_password_handler replace_password get_user_by_username find set_password
    update_user_password delete_user_sessions keep
change_user_password_handler_done_example =
    change_user_password_handler_done call "alice" "new" db changed refl

change_own_password_handler_done_example :
    (u : User) × (hashed : String) × (get_user_by_username "alice" db ≡ some u)
    × (call.verify_password "a" u.password_hash ≡ true)
    × (call.validate "new" ≡ true)
    × (call.hash "new" ≡ some hashed)
    × Replaced call.verify_password db changed "alice" hashed u
unfolding change_own_password_handler replace_password get_user_by_username find set_password
    update_user_password delete_user_sessions keep
change_own_password_handler_done_example =
    change_own_password_handler_done call signed_in "a" "new" db changed refl

abbrev alice : String
alice = "alice"

delete_user_handler_done_example :
    (u : User) × (alice ≢ administrator.username)
    × (alice ≢ "admin")
    × (get_user_by_username alice db ≡ some u)
    × ((l : Lookup) (token : String) (who : AuthUser)
        → by_session call.verify_password l deleted token ≡ some who
        → who.id ≢ u.id)
    × ((left : User)
        → get_user_by_username alice deleted ≡ some left
        → is_system_admin left.role ≡ true)
    × ((other : String)
        → alice ≢ other
        → get_user_by_username other deleted ≡ get_user_by_username other db)
unfolding delete_user_handler remove_user get_user_by_username find delete_user delete_user_sessions
    keep
delete_user_handler_done_example = delete_user_handler_done call administrator alice db deleted refl

system_admins-stay_example :
    (system_admins (create_user_handler call (some ("admin", "x")) db).0 ≡ system_admins db)
    × (system_admins (delete_user_handler call (some signed_in) "admin" db).0 ≡ system_admins db)
    × (system_admins (change_own_password_handler call (some signed_in) (some ("admin", "x")) db).0
        ≡ system_admins db)
    × (system_admins (change_user_password_handler call "admin" (some "x") db).0 ≡ system_admins db)
system_admins-stay_example =
    system_admins-stay call db (some signed_in) "admin" (some ("admin", "x")) (some "x")
