-- ===== src/GroundControl/Satellites/Membership/Followed.antt =====
-- After a satellite is put into a group or taken out, Harbor follows the tables.
use harbor_satellite.Common.{
  List, String, [], ap, arith, false, refl, some, subst, sym, ℕ, ◌++◌, ◌∙◌, ◌∷◌, ◌≡◌,
}
use harbor_satellite.GroundControl.Fleet.{
  Config, Fleet, Group, RobotAccount, Satellite, SatelliteConfig, SatelliteGroup,
  add_satellite_to_group, check_satellite_in_group, get_group_by_id, get_group_by_name,
  get_satellite_by_name, remove_satellite_from_group, satellite_group_list,
}
use harbor_satellite.GroundControl.Fleet.Credentials.{get_robot_acc_by_satellite_id}
use harbor_satellite.GroundControl.Fleet.Settings.{get_config_by_id, satellite_config}
use harbor_satellite.GroundControl.Action.{World, ok}
use harbor_satellite.GroundControl.Action.Steps.{
  >>=-ok, check-end, exec-ok, obtain, obtain_pair, obtain_two, query_many-ok, query_one-ok,
  with_error-ok,
}
use harbor_satellite.GroundControl.Harbor.{Env, Harbor}
use harbor_satellite.GroundControl.Harbor.Contract.{HarborLaws}
use harbor_satellite.GroundControl.Harbor.Robots.{Permitted, update_robot_projects-Permitted}
use harbor_satellite.GroundControl.Harbor.Published.{
  Published, Untouched, create_or_update_sat_state_artifact-ok,
}
use harbor_satellite.GroundControl.Satellites.{Call}
use harbor_satellite.GroundControl.Satellites.Membership.{add_body, remove_body}
use harbor_satellite.GroundControl.Satellites.Membership.Details.{
  all_projects, fetch_satellite_config-ok, group_details-ok, group_states, groups_of,
  satellite_groups,
}

-- The robot account of a satellite may read the projects of its groups and no others, and its state
-- artifact names its groups and its config; one that is in no group keeps the artifact from `before`.
pub record Follows (h : Harbor) (v : Env) (before : h.Remote) (db : Fleet) (after : h.Remote)
    (s : Satellite) : Type 0 where
  pub robot : RobotAccount
  pub robot_found : get_robot_acc_by_satellite_id s.id db ≡ some robot
  pub permitted : Permitted h robot.robot_id (all_projects (satellite_groups s.id db)) after
  pub link : SatelliteConfig
  pub config : Config
  pub linked : satellite_config s.id db ≡ some link
  pub config_found : get_config_by_id link.config_id db ≡ some config
  pub published :
      Published h v s.name
        (group_states v (satellite_groups s.id db))
        config.config_name
        before
        after

module _ (h : Harbor) (laws : HarborLaws h) (c : Call) where
  Permitted-later :
      (id : ℕ) (projects : List String) (w w' : World h.Remote)
      → Untouched h w w'
      → Permitted h id projects w.remote
      → Permitted h id projects w'.remote
  Permitted-later id projects w w' kept (d, held, perms) = (d, kept.same_robot id ∙ held, perms)

  Published-earlier :
      (name : String) (states : List String) (config : String) (r0 r1 r2 : h.Remote)
      → ((a : String) → h.latest a r1 ≡ h.latest a r0)
      → Published h c.env name states config r1 r2
      → Published h c.env name states config r0 r2
  Published-earlier name [] config r0 r1 r2 kept p = λ a. p a ∙ kept a
  Published-earlier name (s ∷ states) config r0 r1 r2 kept p = p

  -- The last two calls of Harbor, at tables that the transaction no longer changes.
  module _ (s : Satellite) (robot : RobotAccount) (link : SatelliteConfig) (config : Config)
      (projects states : List String) (before : h.Remote) (db : Fleet)
      (w2 w4 : World h.Remote) where
    in_line :
        get_robot_acc_by_satellite_id s.id db ≡ some robot
        → satellite_config s.id db ≡ some link
        → get_config_by_id link.config_id db ≡ some config
        → projects ≡ all_projects (satellite_groups s.id db)
        → states ≡ group_states c.env (satellite_groups s.id db)
        → Permitted h robot.robot_id projects w2.remote
        → ((a : String) → h.latest a w2.remote ≡ h.latest a before)
        → Untouched h w2 w4
        → Published h c.env s.name states config.config_name w2.remote w4.remote
        → Follows h c.env before db w4.remote s
    in_line robot_found linked config_found ps ss permitted latest untouched published = record {
      robot = robot;
      robot_found = robot_found;
      permitted =
          subst (λ p. Permitted h robot.robot_id p w4.remote) ps
            (Permitted-later robot.robot_id projects w2 w4 untouched permitted);
      link = link;
      config = config;
      linked = linked;
      config_found = config_found;
      published =
          subst (λ t. Published h c.env s.name t config.config_name before w4.remote) ss
            (Published-earlier s.name states config.config_name before w2.remote w4.remote latest
              published);
    }

  pub remove_body-Follows :
      (group_name name : String) (w : World h.Remote) {u : Unit {0}} {w' : World h.Remote}
      → remove_body h c group_name name w ≡ (ok u, w')
      → (s : Satellite) × (group : Group) × ((get_satellite_by_name name w.db ≡ some s)
          × (get_group_by_name group_name w.db ≡ some group))
        × ((w'.db ≡ remove_satellite_from_group s.id group.id w.db)
            × Follows h c.env w.remote (remove_satellite_from_group s.id group.id w.db) w'.remote s)
  unfolding remove_body
  remove_body-Follows group_name name w {w' = w'} h0 =
      obtain (query_one-ok _ _ _ _ _ h0) λ s found h1.
        obtain (query_one-ok _ _ _ _ _ h1) λ group group_found h2.
          let db : Fleet = remove_satellite_from_group s.id group.id w.db in
          obtain (query_one-ok _ _ _ _ _ (exec-ok _ _ _ _ _ h2)) λ robot robot_found h4.
            obtain_two (>>=-ok _ _ _ (query_many-ok _ _ _ _ _ h4)) λ details w1 gathered h6.
              obtain_two (>>=-ok _ _ _ h6) λ done w2 updated h7.
                obtain_two (>>=-ok _ _ _ h7) λ config w3 fetched h8.
                  obtain_two (>>=-ok _ _ _ h8) λ done' w4 artifact h9.
                    obtain (group_details-ok h c _ _ _ _ gathered) λ same1 projects states.
                      obtain
                        (update_robot_projects-Permitted h laws c.env _ _ _
                          (with_error-ok _ _ _ updated))
                        λ permitted db2 latest2.
                          obtain_pair (fetch_satellite_config-ok h c _ _ _ fetched)
                            λ same3 config_at. obtain config_at λ link linked config_found.
                              obtain_pair
                                (create_or_update_sat_state_artifact-ok h laws c.env _ _ _ _
                                  artifact)
                                λ untouched published.
                                  obtain_pair (check-end _ _ _ h9) λ committed same5.
                                    let db2' : w2.db ≡ db = db2 ∙ ap (λ v. v.db) same1 in
                                    (
                                      s,
                                      group,
                                      (found, group_found),
                                      (
                                        ap (λ v. v.db) same5
                                            ∙ (untouched.same_db ∙ (ap (λ v. v.db) same3 ∙ db2')),
                                        subst (λ v. Follows h c.env w.remote db v.remote s)
                                            (sym same5)
                                            (in_line s robot link config details.0 details.1
                                              w.remote db w2 w4 robot_found
                                              (subst (λ d. satellite_config s.id d ≡ some link) db2'
                                                linked)
                                              (subst
                                                (λ d.
                                                  get_config_by_id link.config_id d ≡ some config)
                                                db2' config_found)
                                              (unfold satellite_groups in projects)
                                              (unfold satellite_groups in states) permitted
                                              (λ a. latest2 a ∙ ap (λ v. h.latest a v.remote) same1)
                                              (subst (λ v. Untouched h v w4) same3 untouched)
                                              (subst
                                                (λ v.
                                                  Published h c.env s.name details.1
                                                    config.config_name v.remote w4.remote)
                                                same3 published)),
                                      ),
                                    )

  groups_of-new :
      (rows : List SatelliteGroup) (db : Fleet) (added : List SatelliteGroup)
      → groups_of rows (record db { satellite_groups = added }) ≡ groups_of rows db
  unfolding groups_of get_group_by_id
  groups_of-new [] db added = refl
  groups_of-new (row ∷ rows) db added = ground (arith, groups_of-new rows db added)

  pub add_body-Follows :
      (s : Satellite) (group : Group) (w : World h.Remote) {u : Unit {0}} {w' : World h.Remote}
      → check_satellite_in_group s.id group.id w.db ≡ false
      → add_body h c w.db s group w ≡ (ok u, w')
      → (w'.db ≡ add_satellite_to_group s.id group.id w.db)
        × Follows h c.env w.remote (add_satellite_to_group s.id group.id w.db) w'.remote s
  unfolding add_body add_satellite_to_group
  add_body-Follows s group w {w' = w'} absent h0 =
      obtain_two (>>=-ok _ _ _ (query_many-ok _ _ _ _ _ (exec-ok _ _ _ _ _ h0)))
        λ details w1 gathered h3. obtain_two (>>=-ok _ _ _ h3) λ config w2 fetched h4.
          obtain (query_one-ok _ _ _ _ _ h4) λ robot robot_found h5.
            obtain_two (>>=-ok _ _ _ h5) λ done w3 updated h6.
              obtain_two (>>=-ok _ _ _ h6) λ done' w4 artifact h7.
                obtain (group_details-ok h c _ _ _ _ gathered) λ same1 projects states.
                  obtain_pair (fetch_satellite_config-ok h c _ _ _ fetched) λ same2 config_at.
                    obtain config_at λ link linked config_found.
                      obtain
                        (update_robot_projects-Permitted h laws c.env _ _ _
                          (with_error-ok _ _ _ updated))
                        λ permitted db3 latest3.
                          obtain_pair
                            (create_or_update_sat_state_artifact-ok h laws c.env _ _ _ _ artifact)
                            λ untouched published.
                              obtain_pair (check-end _ _ _ h7) λ committed same5.
                                let rows : List SatelliteGroup =
                                  w.db.satellite_groups
                                  ++ (record { satellite_id = s.id; group_id = group.id } ∷ []) in
                                let db : Fleet = record w.db { satellite_groups = rows } in
                                let added : add_satellite_to_group s.id group.id w.db ≡ db =
                                  rw absent refl in
                                let members = satellite_group_list s.id db in
                                let gathered_rows : satellite_group_list s.id
                                      (add_satellite_to_group s.id group.id w.db)
                                    ≡ members =
                                  ap (satellite_group_list s.id) added in
                                let at_db : w1.db ≡ db = ap (λ v. v.db) same1 ∙ added in
                                let db3' : w3.db ≡ db = db3 ∙ (ap (λ v. v.db) same2 ∙ at_db) in
                                let groups : groups_of
                                      (satellite_group_list s.id
                                        (add_satellite_to_group s.id group.id w.db))
                                      w.db
                                    ≡ satellite_groups s.id db =
                                  unfold satellite_groups in
                                  ap (λ l. groups_of l w.db) gathered_rows
                                  ∙ sym (groups_of-new members w.db rows) in
                                (
                                  ap (λ v. v.db) same5 ∙ (untouched.same_db ∙ (db3' ∙ sym added)),
                                  subst (λ d. Follows h c.env w.remote d w'.remote s) (sym added)
                                      (subst (λ v. Follows h c.env w.remote db v.remote s)
                                        (sym same5)
                                        (in_line s robot link config details.0 details.1 w.remote db
                                          w3 w4
                                          (unfold get_robot_acc_by_satellite_id in robot_found)
                                          (unfold satellite_config in linked)
                                          (unfold get_config_by_id in config_found)
                                          (projects ∙ ap all_projects groups)
                                          (states ∙ ap (group_states c.env) groups) permitted
                                          (λ a.
                                            latest3 a
                                            ∙ (ap (λ v. h.latest a v.remote) same2
                                                ∙ ap (λ v. h.latest a v.remote) same1))
                                          untouched published)),
                                )
