-- ===== src/GroundControl/Satellites/Register/Registered.antt =====
-- What registerSatelliteHandler has done where it answers with a token.
use harbor_satellite.Common.{
  List, String, [], ap, false, refl, some, subst, sym, ◌+◌, ◌∙◌, ◌∷◌, ◌≡◌,
}
use harbor_satellite.GroundControl.Fleet.{Config, Satellite, get_satellite_by_name}
use harbor_satellite.GroundControl.Fleet.Credentials.{get_token_by_value}
use harbor_satellite.GroundControl.Fleet.Settings.{get_config_by_name, satellite_config}
use harbor_satellite.GroundControl.Fleet.Inserts.{
  SameRest, SameRest-config, SameRest-trans, add_robot_account-SameRest,
  add_robot_account-satellites, add_token-found, create_satellite-SameRest, create_satellite-found,
  get_satellite_by_name-same, satellite_config-same, satellite_config-set_satellite_config,
  set_satellite_config-satellites,
}
use harbor_satellite.GroundControl.Action.{World, ok}
use harbor_satellite.GroundControl.Action.Steps.{
  >>=-ok, ask-ok, check-ok, exec-ok, exec_one-ok, in_transaction-ok, obtain, obtain_pair,
  obtain_two, on_error-ok, or_raise-ok, or_raise-some, query_one-ok, return-end, send-end,
  with_error-ok,
}
use harbor_satellite.GroundControl.Harbor.{
  Harbor, RobotCreated, create_rob_acc_for_satellite, is_robot_present, robot_account_template,
}
use harbor_satellite.GroundControl.Harbor.Contract.{HarborLaws}
use harbor_satellite.GroundControl.Harbor.Robots.{ensure_satellite_project_exists-robot}
use harbor_satellite.GroundControl.Harbor.Published.{create_or_update_sat_state_artifact-ok}
use harbor_satellite.GroundControl.Satellites.{Call}
use harbor_satellite.GroundControl.Satellites.Register.{
  RegisterSatelliteParams, register_body, register_robot, register_satellite_handler,
  token_lifetime,
}
use harbor_satellite.GroundControl.Satellites.Register.Permitted.{
  last_of, assign_permissions_to_robot-db, add_satellite_to_groups-satellites,
  add_satellite_to_groups-SameRest, assign_permissions_to_robot-last, LastPermitted-since,
  LastPermitted,
}

module _ (h : Harbor) (laws : HarborLaws h) (c : Call) where
  -- From the new robot account on.
  pub record RobotRegistered (req : RegisterSatelliteParams) (s : Satellite) (robot : RobotCreated)
      (token : String) (w w' : World h.Remote) : Type 0 where
    pub same_satellites : w'.db.satellites ≡ w.db.satellites
    pub token_found :
        get_token_by_value token w'.db
        ≡ some (record { satellite_id = s.id; token = token; expires_at = c.now + token_lifetime })
    pub config : Config
    pub config_found : get_config_by_name req.config_name w.db ≡ some config
    pub linked :
        satellite_config s.id w'.db ≡ some (record { satellite_id = s.id; config_id = config.id })
    pub last_permitted : LastPermitted h laws c w.db robot.id w'.remote (last_of req.groups)

  register_robot-ok :
      (req : RegisterSatelliteParams) (s : Satellite) (states : List String) (robot : RobotCreated)
      (w : World h.Remote) {token : String} {w' : World h.Remote}
      → register_robot h c req s states robot w ≡ (ok token, w')
      → RobotRegistered req s robot token w w'
  unfolding register_robot
  register_robot-ok req s states robot w {token} {w'} h0 =
      obtain (or_raise-ok _ _ _ _ h0) λ secret_hash hashed h1.
        obtain_two (exec_one-ok _ _ _ _ _ h1) λ db1 row stored h2.
          obtain_two (>>=-ok _ _ _ h2) λ done w2 assigned h3.
            obtain (query_one-ok _ _ _ _ _ h3) λ config config_found h4.
              obtain_two (>>=-ok _ _ _ (exec-ok _ _ _ _ _ h4)) λ done' w5 published h5.
                obtain (or_raise-ok _ _ _ _ h5) λ drawn random h6.
                  obtain_two (exec_one-ok _ _ _ _ _ h6) λ db6 t added h7.
                    obtain_pair (check-ok _ _ _ _ h7) λ committed h8.
                      obtain_pair (return-end _ _ h8) λ same_token same.
                        obtain_pair
                          (create_or_update_sat_state_artifact-ok h laws c.env _ _ _ _ published)
                          λ untouched shown.
                            let rest : SameRest w.db db1 =
                              add_robot_account-SameRest _ _ _ _ _ w.db db1 row stored in
                            let db2 : w2.db ≡ db1 =
                              assign_permissions_to_robot-db h laws c req.groups robot.id _
                                assigned in
                            let tok =
                              add_token-found s.id drawn (c.now + token_lifetime) w5.db db6 t
                                added in
                            let drawn_token : drawn ≡ token = sym tok.0 ∙ same_token in
                            let last : w'.db ≡ db6 = ap (λ v. v.db) same in
                            record {
                              same_satellites =
                                  ap (λ d. d.satellites) last
                                  ∙ (tok.2
                                      ∙ (ap (λ d. d.satellites) untouched.same_db
                                          ∙ (set_satellite_config-satellites s.id config.id w2.db
                                              ∙ (ap (λ d. d.satellites) db2
                                                  ∙ add_robot_account-satellites _ _ _ _ _ w.db db1
                                                      row stored))));
                              token_found = rw last (
                                  subst
                                    (λ x.
                                      get_token_by_value x db6
                                      ≡ some (record {
                                        satellite_id = s.id;
                                        token = x;
                                        expires_at = c.now + token_lifetime;
                                      }))
                                    drawn_token tok.1);
                              config = config;
                              config_found =
                                  sym (
                                    ap (get_config_by_name req.config_name) db2
                                    ∙ SameRest-config req.config_name rest)
                                  ∙ config_found;
                              linked =
                                  ap (satellite_config s.id) last
                                  ∙ (satellite_config-same s.id w5.db db6 tok.3
                                      ∙ (ap (satellite_config s.id) untouched.same_db
                                          ∙ satellite_config-set_satellite_config s.id config.id
                                              w2.db));
                              last_permitted =
                                  LastPermitted-since h laws c (last_of req.groups) robot.id w.db
                                    db1 w2.remote w'.remote rest
                                    (ap (λ v. h.robot robot.id v.remote) same
                                      ∙ untouched.same_robot robot.id)
                                    (assign_permissions_to_robot-last h laws c req.groups robot.id _
                                      assigned);
                            }

  -- A satellite that has been registered, and how.
  pub record Registered (req : RegisterSatelliteParams) (token : String) (w w' : World h.Remote)
      : Type 0 where
    pub satellite : Satellite
    pub found : get_satellite_by_name req.name w'.db ≡ some satellite
    pub token_found :
        get_token_by_value token w'.db
        ≡ some (record {
          satellite_id = satellite.id;
          token = token;
          expires_at = c.now + token_lifetime;
        })
    pub config : Config
    pub config_found : get_config_by_name req.config_name w.db ≡ some config
    pub linked :
        satellite_config satellite.id w'.db
        ≡ some (record { satellite_id = satellite.id; config_id = config.id })
    pub asked : h.Remote
    pub robot : RobotCreated
    pub created :
        (h.create_robot (robot_account_template c.env satellite.name ("satellite" ∷ [])) asked).1
        ≡ some robot
    pub last_permitted : LastPermitted h laws c w.db robot.id w'.remote (last_of req.groups)

  register_body-ok :
      (req : RegisterSatelliteParams) (w : World h.Remote) {token : String} {w' : World h.Remote}
      → register_body h c req w ≡ (ok token, w')
      → Registered req token w w'
  unfolding register_body create_rob_acc_for_satellite
  register_body-ok req w {token} {w'} h0 =
      obtain_two (exec_one-ok _ _ _ _ _ h0) λ db1 satellite created h1.
        obtain_two (>>=-ok _ _ _ h1) λ states w2 joined h2.
          obtain_two (>>=-ok _ _ _ h2) λ done w3 ensured h3.
            obtain_two (>>=-ok _ _ _ h3) λ robot w4 robot_made h4.
              obtain_pair (send-end _ _ _ (with_error-ok _ _ _ robot_made)) λ sent same4.
                obtain_pair (ensure_satellite_project_exists-robot h laws c.env _ ensured)
                  λ db3 robots3.
                    let before : w4.db ≡ w2.db = ap (λ v. v.db) same4 ∙ db3 in
                    let rest : SameRest w.db w4.db = subst (SameRest w.db) (sym before) (
                      SameRest-trans (create_satellite-SameRest req.name w.db db1 satellite created)
                        (add_satellite_to_groups-SameRest h laws c req.groups satellite.id _
                          joined)) in
                    let reg : RobotRegistered req satellite robot token w4 w' =
                      register_robot-ok req satellite states robot w4 (on_error-ok _ _ _ h4) in
                    record {
                      satellite = satellite;
                      found =
                          get_satellite_by_name-same req.name db1 w'.db (
                            reg.same_satellites
                            ∙ (ap (λ d. d.satellites) before
                                ∙ add_satellite_to_groups-satellites h laws c req.groups
                                    satellite.id _ joined))
                          ∙ create_satellite-found req.name w.db db1 satellite created;
                      token_found = reg.token_found;
                      config = reg.config;
                      config_found = sym (SameRest-config req.config_name rest) ∙ reg.config_found;
                      linked = reg.linked;
                      asked = w3.remote;
                      robot = robot;
                      created = sent;
                      last_permitted =
                          LastPermitted-since h laws c (last_of req.groups) robot.id w.db w4.db
                            w'.remote w'.remote rest refl reg.last_permitted;
                    }

  -- A registration that is answered with a token has stored the satellite, linked to the config that
  -- the request names, and the token, for it and for 24 hours. The robot account that Harbor created
  -- for it may read the projects of the last group that the request names and the project satellite,
  -- and no others: whatever it was given for the groups before is gone.
  pub register_satellite_handler_done :
      (req : RegisterSatelliteParams) (token : String) (w w' : World h.Remote)
      → register_satellite_handler h c false (some req) w ≡ (ok token, w')
      → Registered req token w w'
  unfolding register_satellite_handler is_robot_present
  register_satellite_handler_done req token w w' h0 = obtain_pair (check-ok _ _ _ _ h0) λ plain h1.
      obtain_pair (check-ok _ _ _ _ (or_raise-some _ _ _ _ h1)) λ named h2.
        obtain_pair (check-ok _ _ _ _ h2) λ config_named h3.
          obtain_two (>>=-ok _ _ _ h3) λ present w1 asked h4.
            obtain_pair (check-ok _ _ _ _ h4) λ absent h5.
              obtain (ask-ok _ _ _ _ (with_error-ok _ _ _ asked)) λ robots listed h6.
                obtain_pair (return-end _ _ h6) λ answered same.
                  subst (λ v. Registered req token v w') same
                    (register_body-ok req w1 (in_transaction-ok _ _ _ _ h5))
