-- ===== src/GroundControl/Users/Guards.antt =====
-- Proofs about the system administrators under the handlers of users.
use harbor_satellite.Common.{
  find, String, ◌≡◌, refl, ap, false, not, Option, none, some, List, [], ◌∷◌, ◌++◌, map, arith,
  Bool-cases, Option-cases, inl, inr, keep,
}
use harbor_satellite.GroundControl.Accounts.{
  admin, User, Db, named_user, deletable, is_system_admin, get_user_by_username, create_user,
  set_password, update_user_password, delete_user_sessions, delete_user,
}
use harbor_satellite.GroundControl.Access.{AuthUser, auth_user}
use harbor_satellite.GroundControl.Users.{
  Call, store_user, create_user_handler, remove_user, delete_user_handler, replace_password,
  change_own_password_handler, change_user_password_handler,
}

-- The ids, names and roles of the system administrators, in the order of the table.
abbrev rows_of : List User → List AuthUser
rows_of users = map auth_user (keep (λ u. is_system_admin u.role) users)

abbrev pub system_admins : Db → List AuthUser
system_admins db = rows_of db.users

rows-append :
    (users : List User) (u : User)
    → is_system_admin u.role ≡ false
    → rows_of (users ++ (u ∷ [])) ≡ rows_of users
unfolding keep
rows-append [] u plain = rw plain refl
rows-append (v ∷ users) u plain = elim (Bool-cases (is_system_admin v.role)) [
  | inl system ↦ rw system (ap (λ t. auth_user v ∷ t) (rows-append users u plain))
  | inr other ↦ rw other (rows-append users u plain)
]

rows-set_password :
    (username h : String) (users : List User)
    → rows_of (set_password username h users) ≡ rows_of users
unfolding keep set_password
rows-set_password username h [] = refl
rows-set_password username h (v ∷ users) = ground (arith, rows-set_password username h users)

rows-deleted :
    (username : String) (users : List User)
    → rows_of (keep (λ u. not (deletable username u)) users) ≡ rows_of users
unfolding keep
rows-deleted username [] = refl
rows-deleted username (v ∷ users) = ground (arith, rows-deleted username users)

module _ (c : Call) where
  stored :
      (username : String) (hashed : Option String) (db : Db)
      → system_admins (store_user c username hashed db).0 ≡ system_admins db
  unfolding store_user create_user
  stored username none db = refl
  stored username (some h) db = elim (Option-cases (find (named_user username) db.users)) [
    | inl new ↦
        let user : User = record {
          id = db.next_id;
          username = username;
          password_hash = h;
          role = admin;
        } in
        ground (arith, new, rows-append db.users user refl)
    | inr (u, taken) ↦ ground (arith, taken)
  ]

  removed :
      (username : String) (user : User) (db : Db)
      → system_admins (remove_user c username user db).0 ≡ system_admins db
  unfolding remove_user delete_user delete_user_sessions
  removed username user db = ground (arith, rows-deleted username db.users)

  replaced :
      (username : String) (user : User) (hashed : Option String) (db : Db)
      → system_admins (replace_password c username user hashed db).0 ≡ system_admins db
  unfolding replace_password update_user_password delete_user_sessions
  replaced username user none db = refl
  replaced username user (some h) db = ground (arith, rows-set_password username h db.users)

  creates :
      (credentials : Option (String × String)) (db : Db)
      → system_admins (create_user_handler c credentials db).0 ≡ system_admins db
  unfolding create_user_handler
  creates none db = refl
  creates (some (username, password)) db = ground (arith, stored username (c.hash password) db)

  deletes :
      (current : Option AuthUser) (username : String) (db : Db)
      → system_admins (delete_user_handler c current username db).0 ≡ system_admins db
  unfolding delete_user_handler
  deletes none username db = refl
  deletes (some current) username db = elim (Option-cases (get_user_by_username username db)) [
    | inl missing ↦ ground (arith, missing)
    | inr (user, found) ↦ ground (arith, found, removed username user db)
  ]

  changes_own :
      (current : Option AuthUser) (body : Option (String × String)) (db : Db)
      → system_admins (change_own_password_handler c current body db).0 ≡ system_admins db
  unfolding change_own_password_handler
  changes_own none body db = refl
  changes_own (some current) none db = refl
  changes_own (some current) (some (old, new)) db =
      elim (Option-cases (get_user_by_username current.username db)) [
        | inl missing ↦ ground (arith, missing)
        | inr (user, found) ↦ ground (arith, found, replaced current.username user (c.hash new) db)
      ]

  changes :
      (username : String) (body : Option String) (db : Db)
      → system_admins (change_user_password_handler c username body db).0 ≡ system_admins db
  unfolding change_user_password_handler
  changes username none db = refl
  changes username (some new) db = elim (Option-cases (get_user_by_username username db)) [
    | inl missing ↦ ground (arith, missing)
    | inr (user, found) ↦ ground (arith, found, replaced username user (c.hash new) db)
  ]

  -- Whatever the request, the database and the faults: none of the handlers of users adds, removes,
  -- renames or demotes a system administrator.
  pub system_admins-stay :
      (db : Db) (current : Option AuthUser) (username : String)
      (credentials : Option (String × String)) (new : Option String)
      → (system_admins (create_user_handler c credentials db).0 ≡ system_admins db)
        × (system_admins (delete_user_handler c current username db).0 ≡ system_admins db)
        × (system_admins (change_own_password_handler c current credentials db).0
            ≡ system_admins db)
        × (system_admins (change_user_password_handler c username new db).0 ≡ system_admins db)
  system_admins-stay db current username credentials new = (
    creates credentials db,
    deletes current username db,
    changes_own current credentials db,
    changes username new db,
  )
