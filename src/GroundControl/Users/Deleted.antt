-- ===== src/GroundControl/Users/Deleted.antt =====
-- What is left of a user after its deletion.
use harbor_satellite.Common.{
  All-keep, distinct, String, ◌≡◌, ◌≢◌, sym, ap, subst, true, not, some, ◌==◌, eq_iff, arith,
  Bool-cases, Option-cases, inl, inr, keep,
}
use harbor_satellite.GroundControl.Accounts.{
  User, Db, named_user, deletable, is_system_admin, get_user_by_username, delete_user_sessions,
  delete_user,
}
use harbor_satellite.GroundControl.Accounts.Laws.{find-All, find-keep, find-holds}
use harbor_satellite.GroundControl.Access.{AuthUser, Lookup, by_session}
use harbor_satellite.GroundControl.Users.{
  Call, no_content, reading, ending_sessions, deleting, remove_user, delete_user_handler,
}
use harbor_satellite.GroundControl.Users.NoSession.{
  by_session-not, HasNoSession-delete_user_sessions, HasNoSession-delete_user,
}

module _ (c : Call) where
  remove_user_done :
      (username : String) (user : User) (db db' : Db)
      → remove_user c username user db ≡ (db', no_content)
      → db' ≡ delete_user username (delete_user_sessions user.id db)
  unfolding remove_user
  remove_user_done username user db db' h = elim (Bool-cases (c.fails ending_sessions)) [
    | inl failing ↦ cc (ap (λ o. o.1) (rw (failing, remove_user) at h))
    | inr ended ↦ elim (Bool-cases (c.fails deleting)) [
      | inl failing ↦ cc (ap (λ o. o.1) (rw (ended, failing, remove_user) at h))
      | inr went ↦ sym (ap (λ o. o.0) (rw (ended, went, remove_user) at h))
    ]
  ]

  find-deleted_ne :
      (username other : String) (db : Db)
      → username ≢ other
      → get_user_by_username other (delete_user username db) ≡ get_user_by_username other db
  unfolding get_user_by_username delete_user
  find-deleted_ne username other db differs =
      find-keep (named_user other) (λ u. not (deletable username u)) db.users
        (λ u gone.
          ground (arith, gone, eq_iff u.username username, eq_iff u.username other, differs))

  find-deleted-role :
      (username : String) (db : Db) (left : User)
      → get_user_by_username username (delete_user username db) ≡ some left
      → is_system_admin left.role ≡ true
  unfolding get_user_by_username delete_user
  find-deleted-role username db left h =
      let named =
        find-holds (named_user username) (keep (λ u. not (deletable username u)) db.users) left h in
      let kept =
        find-All (λ u. not (deletable username u) ≡ true) (named_user username)
          (keep (λ u. not (deletable username u)) db.users) left
          (All-keep (λ u. not (deletable username u)) db.users) h in
      ground (arith, named, kept)

  -- If a deletion is answered with 204: the name is neither the caller's nor `admin`, and is in the
  -- table; afterwards no session stands for that user, the name is gone from the table, unless it is a
  -- system administrator's, and every other name finds the row that it found before.
  pub delete_user_handler_done :
      (current : AuthUser) (username : String) (db db' : Db)
      → delete_user_handler c (some current) username db ≡ (db', no_content)
      → (user : User) × (username ≢ current.username)
        × (username ≢ "admin")
        × (get_user_by_username username db ≡ some user)
        × ((l : Lookup) (token : String) (who : AuthUser)
            → by_session c.verify_password l db' token ≡ some who
            → who.id ≢ user.id)
        × ((left : User)
            → get_user_by_username username db' ≡ some left
            → is_system_admin left.role ≡ true)
        × ((other : String)
            → username ≢ other
            → get_user_by_username other db' ≡ get_user_by_username other db)
  unfolding delete_user_handler delete_user_sessions get_user_by_username
  delete_user_handler_done current username db db' h =
      elim (Bool-cases (username == current.username)) [
        | inl own ↦ cc (ap (λ o. o.1) (rw (own, delete_user_handler) at h))
        | inr another ↦ elim (Bool-cases (username == "admin")) [
          | inl reserved ↦ cc (ap (λ o. o.1) (rw (another, reserved, delete_user_handler) at h))
          | inr free ↦ elim (Bool-cases (c.fails reading)) [
            | inl failing ↦
                cc (ap (λ o. o.1) (rw (another, free, failing, delete_user_handler) at h))
            | inr works ↦ elim (Option-cases (get_user_by_username username db)) [
              | inl missing ↦
                  cc (ap (λ o. o.1) (rw (another, free, works, missing, delete_user_handler) at h))
              | inr (user, found) ↦
                  let out =
                    remove_user_done username user db db'
                      (rw (another, free, works, found, delete_user_handler) at h) in
                  let ended = delete_user_sessions user.id db in
                  let after = delete_user username ended in
                  (
                    user,
                    distinct another,
                    distinct free,
                    found,
                    λ l token who seen.
                        by_session-not c.verify_password l after user.id token who
                          (HasNoSession-delete_user user.id username ended
                            (HasNoSession-delete_user_sessions user.id db))
                          (subst (λ d. by_session c.verify_password l d token ≡ some who) out seen),
                    λ left seen.
                        find-deleted-role username ended left
                          (subst (λ d. get_user_by_username username d ≡ some left) out seen),
                    λ other differs.
                        subst (λ d. get_user_by_username other d ≡ get_user_by_username other db)
                          (sym out) (find-deleted_ne username other ended differs),
                  )
            ]
          ]
        ]
      ]
