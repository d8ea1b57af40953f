-- ===== src/GroundControl/Users/Ended.antt =====
-- Proofs about the two handlers that change a password.
use harbor_satellite.Common.{
  String, ◌≡◌, refl, sym, ap, subst, true, Option, none, some, Bool-cases, Option-cases, inl, inr,
}
use harbor_satellite.GroundControl.Accounts.{
  User, Db, get_user_by_username, delete_user_sessions, update_user_password,
}
use harbor_satellite.GroundControl.Access.{AuthUser}
use harbor_satellite.GroundControl.Users.{
  Call, no_content, reading, updating, ending_sessions, replace_password,
  change_own_password_handler, change_user_password_handler,
}
use harbor_satellite.GroundControl.Users.NoSession.{Replaced, replaced}

module _ (c : Call) where
  replace_password_done :
      (username : String) (user : User) (hashed : Option String) (db db' : Db)
      → replace_password c username user hashed db ≡ (db', no_content)
      → (h : String) × (hashed ≡ some h)
        × (db' ≡ delete_user_sessions user.id (update_user_password username h db))
  unfolding replace_password
  replace_password_done username user none db db' h = cc (ap (λ o. o.1) h)
  replace_password_done username user (some hashed) db db' h =
      elim (Bool-cases (c.fails updating)) [
        | inl failing ↦ cc (ap (λ o. o.1) (rw (failing, replace_password) at h))
        | inr updated ↦ elim (Bool-cases (c.fails ending_sessions)) [
          | inl failing ↦ cc (ap (λ o. o.1) (rw (updated, failing, replace_password) at h))
          | inr ended ↦
              (hashed, refl, sym (ap (λ o. o.0) (rw (updated, ended, replace_password) at h)))
        ]
      ]

  -- If an administrator's change of a password is answered with 204: the user is in the table, the
  -- policy accepts the new password, and afterwards no session stands for that user, the name stands
  -- for the user exactly with the passwords that the new hash verifies, and nothing changes for the
  -- passwords of the other names.
  pub change_user_password_handler_done :
      (username new : String) (db db' : Db)
      → change_user_password_handler c username (some new) db ≡ (db', no_content)
      → (user : User) × (hashed : String) × (get_user_by_username username db ≡ some user)
        × (c.validate new ≡ true)
        × (c.hash new ≡ some hashed)
        × Replaced c.verify_password db db' username hashed user
  unfolding change_user_password_handler
  change_user_password_handler_done username new db db' h = elim (Bool-cases (c.validate new)) [
    | inr refused ↦ cc (ap (λ o. o.1) (rw (refused, change_user_password_handler) at h))
    | inl accepted ↦ elim (Bool-cases (c.fails reading)) [
      | inl failing ↦ cc (ap (λ o. o.1) (rw (accepted, failing, change_user_password_handler) at h))
      | inr works ↦ elim (Option-cases (get_user_by_username username db)) [
        | inl missing ↦
            cc (ap (λ o. o.1) (rw (accepted, works, missing, change_user_password_handler) at h))
        | inr (user, found) ↦
            let (hashed, made, out) =
              replace_password_done username user (c.hash new) db db'
                (rw (accepted, works, found, change_user_password_handler) at h) in
            (
              user,
              hashed,
              found,
              accepted,
              made,
              subst (λ d. Replaced c.verify_password db d username hashed user) (sym out)
                  (replaced c.verify_password db username hashed user found),
            )
      ]
    ]
  ]

  -- If a user's change of the own password is answered with 204: the user is in the table, the password
  -- that was given as the current one is the one of the table, the policy accepts the new one, and
  -- afterwards no session stands for that user, the name stands for the user exactly with the
  -- passwords that the new hash verifies, and nothing changes for the passwords of the other names.
  pub change_own_password_handler_done :
      (current : AuthUser) (old new : String) (db db' : Db)
      → change_own_password_handler c (some current) (some (old, new)) db ≡ (db', no_content)
      → (user : User) × (hashed : String) × (get_user_by_username current.username db ≡ some user)
        × (c.verify_password old user.password_hash ≡ true)
        × (c.validate new ≡ true)
        × (c.hash new ≡ some hashed)
        × Replaced c.verify_password db db' current.username hashed user
  unfolding change_own_password_handler
  change_own_password_handler_done current old new db db' h = elim (Bool-cases (c.validate new)) [
    | inr refused ↦ cc (ap (λ o. o.1) (rw (refused, change_own_password_handler) at h))
    | inl accepted ↦ elim (Bool-cases (c.fails reading)) [
      | inl failing ↦ cc (ap (λ o. o.1) (rw (accepted, failing, change_own_password_handler) at h))
      | inr works ↦ elim (Option-cases (get_user_by_username current.username db)) [
        | inl missing ↦
            cc (ap (λ o. o.1) (rw (accepted, works, missing, change_own_password_handler) at h))
        | inr (user, found) ↦ elim (Bool-cases (c.verify_password old user.password_hash)) [
          | inr wrong ↦
              cc (
                ap (λ o. o.1)
                  (rw (accepted, works, found, wrong, change_own_password_handler) at h))
          | inl right ↦
              let (hashed, made, out) =
                replace_password_done current.username user (c.hash new) db db'
                  (rw (accepted, works, found, right, change_own_password_handler) at h) in
              (
                user,
                hashed,
                found,
                right,
                accepted,
                made,
                subst (λ d. Replaced c.verify_password db d current.username hashed user) (sym out)
                    (replaced c.verify_password db current.username hashed user found),
              )
        ]
      ]
    ]
  ]
