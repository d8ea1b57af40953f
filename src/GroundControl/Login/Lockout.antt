-- ===== src/GroundControl/Login/Lockout.antt =====
-- How often a password can be guessed.
use harbor_satellite.Common.{
  lt→ltb, subst, ◌⊎◌, ℕ, suc, ◌+◌, ◌*◌, ◌≤◌, ◌<◌, String, ◌≡◌, refl, sym, ap, ◌∙◌, true, false,
  Option, none, some, List, [], ◌∷◌, leb, arith, All, Bool-cases, inl, inr,
}
use harbor_satellite.GroundControl.Accounts.{LoginAttempt, Db, get_login_attempts}
use harbor_satellite.GroundControl.Login.Attempts.{
  failures, successes, count, Within, after_failure,
}
use harbor_satellite.GroundControl.Login.{Server, LoginCall, is_locked, login_handler}
use harbor_satellite.GroundControl.Login.Effects.{EffectOf, effect, nothing, failed, succeeded}

module _ (s : Server) (u : String) (start : ℕ) where
  -- Locked for the whole window.
  abbrev Shut : Option LoginAttempt → Type 0
  Shut old = (now : ℕ) → now < start + s.lockout_duration → is_locked now old ≡ true

  after_failure_cases :
      (call : LoginCall) (old : Option LoginAttempt)
      → Within s start call
      → Shut (some (after_failure s call u old))
        ⊎ (count (some (after_failure s call u old)) ≡ suc (count old)) × (suc (count old) < 5)
  unfolding is_locked
  after_failure_cases call none w = inr (refl, omega arith)
  after_failure_cases call (some a) w = elim (Bool-cases (leb 5 (suc a.failed_count))) [
    | inl due ↦ inl (λ now h.
        rw due (lt→ltb now (call.clock_lock + s.lockout_duration) (omega (arith, w.locked_at))))
    | inr spare ↦ inr (ground arith, ground arith)
  ]

  no_check :
      (old : Option LoginAttempt) (call : LoginCall)
      → Within s start call
      → Shut old
      → is_locked call.clock_check old ≡ false
      → ⊥
  no_check old call w shut free = cc (free, shut call.clock_check w.checked)

  shut_lem :
      (calls : List LoginCall) (db : Db)
      → All (Within s start) calls
      → Shut (get_login_attempts u db)
      → (failures s u calls db ≡ 0) × (successes s u calls db ≡ 0)
  unfolding failures successes EffectOf
  shut_lem [] db all shut = (refl, refl)
  shut_lem (call ∷ calls) db all shut =
      let db' = (login_handler s call db).0 in
      elim (effect s u start call db all.0) [
        | nothing same f g ↦
            let rest = shut_lem calls db' all.1 (subst Shut (sym same) shut) in
            (rw f rest.0, rw g rest.1)
        | failed free same f g ↦ absurd (no_check (get_login_attempts u db) call all.0 shut free)
        | succeeded free fewer f g ↦
            absurd (no_check (get_login_attempts u db) call all.0 shut free)
      ]

  open_lem :
      (calls : List LoginCall) (db : Db)
      → All (Within s start) calls
      → count (get_login_attempts u db) < 5
      → failures s u calls db + count (get_login_attempts u db) ≤ 5 + 5 * successes s u calls db
  unfolding failures successes EffectOf
  open_lem [] db all few = ground arith
  open_lem (call ∷ calls) db all few =
      let old = get_login_attempts u db in
      let db' = (login_handler s call db).0 in
      elim (effect s u start call db all.0) [
        | nothing same f g ↦
            let rest = open_lem calls db' all.1 (subst (λ o. count o < 5) (sym same) few) in
            rw (f, g)
              (subst (λ o. failures s u calls db' + count o ≤ 5 + 5 * successes s u calls db') same
                rest)
        | failed free new f g ↦
            rw (f, g)
              (elim (after_failure_cases call old all.0) [
                | inl shut ↦
                    let rest = shut_lem calls db' all.1 (subst Shut (sym new) shut) in
                    omega (arith, rest.0, rest.1)
                | inr (more, spare) ↦
                    let count' = ap count new ∙ more in
                    let rest = open_lem calls db' all.1 (subst (λ n. n < 5) (sym count') spare) in
                    omega (arith, rest, count')
              ])
        | succeeded free fewer f g ↦
            let rest = open_lem calls db' all.1 (omega (arith, fewer)) in
            rw (f, g) (omega (arith, rest))
      ]

-- In any window no longer than a lockout, whatever calls for whatever names come in, with whatever
-- times within it, and no fault in the counting and the locking: starting with fewer than five failed
-- attempts of a name, the calls for that name whose password is tried and is wrong, or that are for no
-- user, are at most five, and five more for each call for it whose password is right. The failed
-- attempts that the table has at the start count as well.
pub guesses_bounded :
    (s : Server) (u : String) (start : ℕ) (calls : List LoginCall) (db : Db)
    → All (Within s start) calls
    → count (get_login_attempts u db) < 5
    → failures s u calls db + count (get_login_attempts u db) ≤ 5 + 5 * successes s u calls db
guesses_bounded s u start calls db all few = open_lem s u start calls db all few
