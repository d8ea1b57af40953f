-- ===== src/GroundControl/Satellites/Ztr/Once.antt =====
-- What ztrHandler has done where it answers without an error.
use harbor_satellite.Common.{
  Option, String, ap, arith, false, ltb, none, refl, some, sym, ℕ, ◌∙◌, ◌≡◌,
}
use harbor_satellite.GroundControl.Fleet.{
  Fleet, RobotAccount, Satellite, SatelliteToken, get_satellite,
}
use harbor_satellite.GroundControl.Fleet.Credentials.{
  delete_token, get_robot_acc_by_satellite_id, get_token_by_value, update_robot_account,
}
use harbor_satellite.GroundControl.Fleet.Laws.{
  get_robot-delete_token, get_robot-update_robot, get_satellite-delete_token,
  get_token_by_value-delete_token,
}
use harbor_satellite.GroundControl.Action.{
  Query, World, app_error, continue, err, ok, or_raise, query_one, ◌>>=◌,
}
use harbor_satellite.GroundControl.Action.Steps.{
  >>=-ok, ask-ok, check-ok, exec-ok, obtain, obtain_pair, obtain_two, or_raise-ok, query_many-ok,
  query_one-ok, return-end, send-ok, with_error-ok,
}
use harbor_satellite.GroundControl.Harbor.{Harbor, assemble_satellite_state}
use harbor_satellite.GroundControl.Harbor.Contract.{HarborLaws}
use harbor_satellite.GroundControl.Harbor.Published.{create_or_update_sat_state_artifact-ok}
use harbor_satellite.GroundControl.Satellites.{Call, robot_expiry}
use harbor_satellite.GroundControl.Satellites.Ztr.{
  StateConfig, refresh_in_harbor, refresh_robot_secret, ztr_handler,
}
use harbor_satellite.GroundControl.Satellites.Membership.Details.{
  fetch_satellite_config-ok, get_group_states-ok,
}

module _ (h : Harbor) (laws : HarborLaws h) (c : Call) where
  -- The new secret is Harbor's, and its hash is stored.
  pub record Refreshed (robot : RobotAccount) (secret : String) (w w' : World h.Remote)
      : Type 0 where
    pub secret_hash : String
    pub expiry : Option ℕ
    pub hashed : c.hash secret ≡ some secret_hash
    pub in_harbor : h.secret robot.robot_id w'.remote ≡ some secret
    pub stored :
        w'.db
        ≡ update_robot_account robot.id robot.robot_name secret_hash robot.robot_id expiry w.db

  refresh_robot_secret-ok :
      (robot : RobotAccount) (w : World h.Remote) {secret : String} {w' : World h.Remote}
      → c.env.skip_health_check ≡ false
      → refresh_robot_secret h c robot w ≡ (ok secret, w')
      → Refreshed robot secret w w'
  unfolding refresh_robot_secret refresh_in_harbor
  refresh_robot_secret-ok robot w {secret} {w'} live h0 =
      obtain (send-ok _ _ _ _ (rw live at h0)) λ payload sent h1.
        obtain (or_raise-ok _ _ _ _ h1) λ drawn given h2.
          obtain_pair (check-ok _ _ _ _ h2) λ nonempty h3.
            obtain (or_raise-ok _ _ _ _ h3) λ secret_hash hashed h4.
              obtain (ask-ok _ _ _ _ h4) λ details asked h5.
                obtain_pair (return-end _ _ (exec-ok _ _ _ _ _ h5)) λ same_secret same. record {
                  secret_hash = secret_hash;
                  expiry = robot_expiry details.expires_at;
                  hashed = cc (hashed, same_secret);
                  in_harbor = rw same (
                      laws.refresh_sec_self robot.robot_id drawn w.remote (sent ∙ ap some given)
                      ∙ ap some same_secret);
                  stored = ap (λ v. v.db) same;
                }

  ztr_handler_refused :
      (token : String) (w : World h.Remote)
      → c.fails Query.get_token_by_value ≡ false
      → get_token_by_value token w.db ≡ none
      → ztr_handler h c token w ≡ (err (app_error 400 "Error: Invalid Token"), w)
  unfolding ztr_handler ◌>>=◌ continue query_one or_raise
  ztr_handler_refused token w works unknown = rw (works, unknown) refl

  -- The satellite, its account and its config of a request that is answered.
  pub record Answered (token : String) (answer : StateConfig) (w w' : World h.Remote) : Type 0 where
    pub info : SatelliteToken
    pub robot : RobotAccount
    pub satellite : Satellite
    pub known : get_token_by_value token w.db ≡ some info
    pub live : ltb info.expires_at c.now ≡ false
    pub robot_found : get_robot_acc_by_satellite_id info.satellite_id w.db ≡ some robot
    pub named : answer.username ≡ robot.robot_name
    pub state_named : answer.state_url ≡ assemble_satellite_state c.env satellite.name
    pub satellite_found : get_satellite info.satellite_id w'.db ≡ some satellite
    pub secret_hash : String
    pub expiry : Option ℕ
    pub hashed : c.hash answer.password ≡ some secret_hash
    pub in_harbor : h.secret robot.robot_id w'.remote ≡ some answer.password
    pub stored :
        get_robot_acc_by_satellite_id info.satellite_id w'.db
        ≡ some (record robot { robot_secret_hash = secret_hash; robot_expiry = expiry })
    pub used : get_token_by_value token w'.db ≡ none

  answered_lem :
      (token : String) (answer : StateConfig) (w w' : World h.Remote)
      → c.env.skip_health_check ≡ false
      → ztr_handler h c token w ≡ (ok answer, w')
      → Answered token answer w w'
  unfolding ztr_handler
  answered_lem token answer w w' in_use h0 = obtain (query_one-ok _ _ _ _ _ h0) λ info known h1.
      obtain_pair (check-ok _ _ _ _ h1) λ live h2.
        obtain (query_one-ok _ _ _ _ _ h2) λ robot robot_found h3.
          obtain_two (>>=-ok _ _ _ h3) λ secret w1 refreshed h4.
            obtain_two (>>=-ok _ _ _ (query_many-ok _ _ _ _ _ h4)) λ states w2 gathered h5.
              obtain (query_one-ok _ _ _ _ _ h5) λ satellite satellite_found h6.
                obtain_two (>>=-ok _ _ _ h6) λ config w3 fetched h7.
                  obtain_two (>>=-ok _ _ _ h7) λ done w4 published h8.
                    obtain_pair (return-end _ _ (exec-ok _ _ _ _ _ h8)) λ answered same5.
                      obtain_pair (get_group_states-ok h c _ _ gathered) λ same2 states_made.
                        obtain_pair (fetch_satellite_config-ok h c _ _ _ fetched) λ same3 config_at.
                          obtain_pair
                            (create_or_update_sat_state_artifact-ok h laws c.env _ _ _ _ published)
                            λ untouched shown.
                              let fresh : Refreshed robot secret w w1 =
                                refresh_robot_secret-ok robot w in_use
                                  (with_error-ok _ _ _ refreshed) in
                              let db : Fleet =
                                update_robot_account robot.id robot.robot_name fresh.secret_hash
                                  robot.robot_id fresh.expiry w.db in
                              let last : w3 ≡ w1 = same3 ∙ same2 in
                              let tables : w'.db ≡ delete_token token db =
                                ap (λ v. v.db) same5
                                ∙ ap (delete_token token)
                                    (untouched.same_db ∙ (ap (λ v. v.db) last ∙ fresh.stored)) in
                              let secrets : h.secret robot.robot_id w'.remote
                                  ≡ h.secret robot.robot_id w1.remote =
                                ap (λ v. h.secret robot.robot_id v.remote) same5
                                ∙ (untouched.same_secret robot.robot_id
                                    ∙ ap (λ v. h.secret robot.robot_id v.remote) last) in
                              record {
                                info = info;
                                robot = robot;
                                satellite = satellite;
                                known = known;
                                live = ground arith;
                                robot_found = robot_found;
                                named = ap (λ a. a.username) (sym answered);
                                state_named = ap (λ a. a.state_url) (sym answered);
                                satellite_found =
                                    ap (get_satellite info.satellite_id) tables
                                    ∙ (get_satellite-delete_token token info.satellite_id db
                                        ∙ (sym (
                                              ap (get_satellite info.satellite_id)
                                                (ap (λ v. v.db) same2 ∙ fresh.stored))
                                            ∙ satellite_found));
                                secret_hash = fresh.secret_hash;
                                expiry = fresh.expiry;
                                hashed = ap (λ a. c.hash a.password) (sym answered) ∙ fresh.hashed;
                                in_harbor =
                                    secrets
                                    ∙ (fresh.in_harbor ∙ ap (λ a. some a.password) answered);
                                stored =
                                    ap (get_robot_acc_by_satellite_id info.satellite_id) tables
                                    ∙ (get_robot-delete_token token info.satellite_id db
                                        ∙ get_robot-update_robot info.satellite_id robot
                                            fresh.secret_hash fresh.expiry w.db robot_found);
                                used = rw tables (get_token_by_value-delete_token token db);
                              }

module _ (h : Harbor) (laws : HarborLaws h) (c later : Call) where
  -- Where Harbor is in use, an answered first request had a token that was in the table and had not
  -- expired. The answer names the robot account and the state artifact of the token's satellite; the
  -- password in it is the secret that Harbor now has for the account, and the row of the account
  -- holds its hash. The token is used up: a later request with it is refused and changes nothing.
  pub ztr_handler_done :
      (token : String) (answer : StateConfig) (w w' : World h.Remote)
      → c.env.skip_health_check ≡ false
      → later.fails Query.get_token_by_value ≡ false
      → ztr_handler h c token w ≡ (ok answer, w')
      → Answered h laws c token answer w w'
        × (ztr_handler h later token w' ≡ (err (app_error 400 "Error: Invalid Token"), w'))
  ztr_handler_done token answer w w' in_use works h0 =
      let answered = answered_lem h laws c token answer w w' in_use h0 in
      (answered, ztr_handler_refused h laws later token w' works answered.used)
