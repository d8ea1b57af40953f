-- ===== src/GroundControl/Login/Effects.antt =====
-- The effect of a call on the row of a name.
use harbor_satellite.Common.{
  subst, ℕ, ◌≤◌, String, ◌≡◌, ◌≢◌, refl, sym, ap, ◌∙◌, Bool, true, false, ◌||◌, ◌&&◌, Option, none,
  some, ◌==◌, eq_iff, eq_refl, if◌then◌else◌, arith, Bool-cases, Option-cases, inl, inr,
}
use harbor_satellite.GroundControl.Accounts.{
  LoginAttempt, Db, get_user_by_username, get_login_attempts,
}
use harbor_satellite.GroundControl.Login.Attempts.{
  login_handler_lem, is_failure, is_success, for_user, count, Within, after_failure, check_self,
  check_other,
}
use harbor_satellite.GroundControl.Login.{
  Server, LoginCall, reading_attempts, reading_user, Answer, is_locked, check_password,
  check_account, login_handler,
}

module _ (s : Server) (u : String) (start : ℕ) where
  -- What a call does to the row of `u`: nothing if it is for another name or the account is locked or
  -- nothing is checked; else one of the two outcomes of a check.
  pub data Effect (call : LoginCall) (old new : Option LoginAttempt) (answer : Answer)
      : Type 0 where
    nothing :
        new ≡ old
        → (for_user u call && is_failure answer) ≡ false
        → (for_user u call && is_success answer) ≡ false
        → Effect call old new answer
    failed :
        is_locked call.clock_check old ≡ false
        → new ≡ some (after_failure s call u old)
        → (for_user u call && is_failure answer) ≡ true
        → (for_user u call && is_success answer) ≡ false
        → Effect call old new answer
    succeeded :
        is_locked call.clock_check old ≡ false
        → count new ≤ count old
        → (for_user u call && is_failure answer) ≡ false
        → (for_user u call && is_success answer) ≡ true
        → Effect call old new answer

  for_self :
      (call : LoginCall) (password : String) (a : Answer)
      → call.body ≡ some (u, password)
      → (b : Answer → Bool) → (for_user u call && b a) ≡ b a
  for_self call password a asked b = rw (asked, eq_refl u) refl

  for_other :
      (call : LoginCall) (username password : String)
      → call.body ≡ some (username, password)
      → username ≢ u
      → for_user u call ≡ false
  for_other call username password asked other = rw asked (ground (arith, eq_iff username u, other))

  failure_no_success : (a : Answer) → is_failure a ≡ true → is_success a ≡ false
  failure_no_success Answer.unknown_user h = refl
  failure_no_success Answer.bad_password h = refl
  failure_no_success Answer.invalid_body h = refl
  failure_no_success Answer.missing_credentials h = refl
  failure_no_success Answer.account_locked h = refl
  failure_no_success Answer.attempts_error h = refl
  failure_no_success Answer.token_error h = cc h
  failure_no_success Answer.session_error h = cc h
  failure_no_success (Answer.session_token t e) h = cc h

  Effect-self :
      (call : LoginCall) (password : String) (db : Db)
      → call.body ≡ some (u, password)
      → Within s start call
      → Effect call
          (get_login_attempts u db)
          (get_login_attempts u (check_account s call u password db).0)
          (check_account s call u password db).1
  unfolding check_account
  Effect-self call password db asked w =
      let old = get_login_attempts u db in
      elim (Bool-cases (call.fails reading_attempts)) [
        | inl failing ↦
            rw (failing, check_account)
              (nothing refl (for_self call password Answer.attempts_error asked is_failure)
                (for_self call password Answer.attempts_error asked is_success))
        | inr reading ↦ elim (Bool-cases (is_locked call.clock_check old)) [
          | inl shut ↦
              rw (reading, shut, check_account)
                (nothing refl (for_self call password Answer.account_locked asked is_failure)
                  (for_self call password Answer.account_locked asked is_success))
          | inr free ↦
              let user = if call.fails reading_user then none else get_user_by_username u db in
              let answer = (check_password s call u password user db).1 in
              rw (reading, free, check_account)
                (elim (check_self s u start call password user db w) [
                  | inl (fails, new) ↦
                      failed free new (for_self call password answer asked is_failure ∙ fails) (
                        for_self call password answer asked is_success
                        ∙ failure_no_success answer fails)
                  | inr (fails_not, succeeds, fewer) ↦
                      succeeded free fewer
                        (for_self call password answer asked is_failure ∙ fails_not)
                        (for_self call password answer asked is_success ∙ succeeds)
                ])
        ]
      ]

  effect_other :
      (call : LoginCall) (username password : String) (db : Db)
      → call.body ≡ some (username, password)
      → username ≢ u
      → get_login_attempts u (check_account s call username password db).0 ≡ get_login_attempts u db
  unfolding check_account
  effect_other call username password db asked other =
      elim (Bool-cases (call.fails reading_attempts)) [
        | inl failing ↦ rw (failing, check_account) refl
        | inr reading ↦
            elim (Bool-cases (is_locked call.clock_check (get_login_attempts username db))) [
              | inl shut ↦ rw (reading, shut, check_account) refl
              | inr free ↦
                  rw (reading, free, check_account)
                    (check_other s u start call username password _ db other)
            ]
      ]

  unfoldable pub EffectOf : LoginCall → Db → Db × Answer → Type 0
  EffectOf call db out = Effect call (get_login_attempts u db) (get_login_attempts u out.0) out.1

  effect_unnamed :
      (call : LoginCall) (db : Db) → call.body ≡ none → EffectOf call db (db, Answer.invalid_body)
  unfolding EffectOf
  effect_unnamed call db missing = nothing refl never never
    where
      never : (for_user u call && false) ≡ false
      never = rw missing refl

  effect_empty : (call : LoginCall) (db : Db) → EffectOf call db (db, Answer.missing_credentials)
  unfolding EffectOf
  effect_empty call db = nothing refl (ground arith) (ground arith)

  effect_named :
      (call : LoginCall) (username password : String) (db : Db)
      → call.body ≡ some (username, password)
      → Within s start call
      → EffectOf call db (check_account s call username password db)
  unfolding EffectOf
  effect_named call username password db asked w = elim (Bool-cases (username == u)) [
    | inl same ↦
        let named_u = (eq_iff username u).0 same in
        subst (λ name. EffectOf call db (check_account s call name password db)) (sym named_u)
          (Effect-self call password db (asked ∙ ap (λ name. some (name, password)) named_u) w)
    | inr other ↦
        let differs : username ≢ u = λ h. cc (other, (eq_iff username u).1 h) in
        let away = for_other call username password asked differs in
        nothing (effect_other call username password db asked differs) (rw away refl) (rw away refl)
  ]

  pub effect :
      (call : LoginCall) (db : Db)
      → Within s start call
      → EffectOf call db (login_handler s call db)
  effect call db w = elim (Option-cases call.body) [
    | inl missing ↦
        subst (EffectOf call db) (sym (login_handler_lem s call none db missing))
          (effect_unnamed call db missing)
    | inr ((username, password), asked) ↦
        let done = login_handler_lem s call (some (username, password)) db asked in
        elim (Bool-cases (username == "" || password == "")) [
          | inl empty ↦ subst (EffectOf call db) (sym (done ∙ rw empty refl)) (effect_empty call db)
          | inr filled ↦
              subst (EffectOf call db) (sym (done ∙ rw filled refl))
                (effect_named call username password db asked w)
        ]
  ]
