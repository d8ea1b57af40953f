-- ===== src/GroundControl/Satellites/Delete/Stuck.antt =====
-- A deletion that fails half-way cannot be repeated.
use harbor_satellite.Common.{
  List, String, [], false, inl, inr, none, refl, some, subst, sym, ◌∙◌, ◌∷◌, ◌≡◌,
}
use harbor_satellite.GroundControl.Fleet.{RobotAccount, Satellite, get_satellite_by_name}
use harbor_satellite.GroundControl.Fleet.Credentials.{get_robot_acc_by_satellite_id}
use harbor_satellite.GroundControl.Action.{Query, World}
use harbor_satellite.GroundControl.Action.Runs.{exec-runs, query_one-runs, send-runs}
use harbor_satellite.GroundControl.Harbor.{Harbor, construct_harbor_delete_url}
use harbor_satellite.GroundControl.Harbor.Contract.{HarborLaws}
use harbor_satellite.GroundControl.Satellites.{Call}
use harbor_satellite.GroundControl.Satellites.Delete.{
  delete_satellite_body, delete_satellite_handler,
}
use harbor_satellite.GroundControl.Satellites.Delete.Blocked.{
  Blocked, Blocked-delete_artifact, Blocked-delete_robot, Blocked-exec, Blocked-gone,
  Blocked-in_transaction, Blocked-query_one,
}

module _ (h : Harbor) (laws : HarborLaws h) where
  -- The satellite and its robot account are in the tables, and Harbor does not have the account.
  pub record Orphaned (name : String) (s : Satellite) (robot : RobotAccount) (w : World h.Remote)
      : Type 0 where
    pub found : get_satellite_by_name name w.db ≡ some s
    pub robot_found : get_robot_acc_by_satellite_id s.id w.db ≡ some robot
    pub gone : h.robot robot.robot_id w.remote ≡ none

  delete_again :
      (c : Call) (name : String) (s : Satellite) (robot : RobotAccount) (w : World h.Remote)
      → Orphaned name s robot w
      → Blocked h robot.robot_id (delete_satellite_handler h c name w)
        × ((delete_satellite_handler h c name w).1.db ≡ w.db)
  unfolding delete_satellite_handler delete_satellite_body
  delete_again c name s robot w o =
      Blocked-in_transaction h laws robot.robot_id _ _ _ w (inr o.gone) (
        Blocked-query_one h laws robot.robot_id _ w _ _ _ s o.gone o.found (
          Blocked-query_one h laws robot.robot_id _ w _ _ _ robot o.gone o.robot_found (
            Blocked-exec h laws robot.robot_id _ w _ _ _ o.gone
              (Blocked-delete_robot h laws robot.robot_id _ _ _ o.gone))))

  -- Requests to delete a satellite, one after the other.
  abbrev pub attempts : String → List Call → World h.Remote → World h.Remote
  attempts name [] w = w
  attempts name (c ∷ calls) w = attempts name calls (delete_satellite_handler h c name w).1

  Orphaned-again :
      (c : Call) (name : String) (s : Satellite) (robot : RobotAccount) (w : World h.Remote)
      → Orphaned name s robot w
      → Orphaned name s robot (delete_satellite_handler h c name w).1
  Orphaned-again c name s robot w o =
      let (blocked, same) = delete_again c name s robot w o in
      record {
        found = rw same o.found;
        robot_found = rw same o.robot_found;
        gone = Blocked-gone h robot.robot_id (delete_satellite_handler h c name w) blocked;
      }

  Orphaned-attempts :
      (name : String) (calls : List Call) (s : Satellite) (robot : RobotAccount)
      (w : World h.Remote)
      → Orphaned name s robot w
      → Orphaned name s robot (attempts name calls w) × ((attempts name calls w).db ≡ w.db)
  Orphaned-attempts name [] s robot w o = (o, refl)
  Orphaned-attempts name (c ∷ calls) s robot w o =
      let (orphaned, same) =
        Orphaned-attempts name calls s robot (delete_satellite_handler h c name w).1
          (Orphaned-again c name s robot w o) in
      (orphaned, same ∙ (delete_again c name s robot w o).1)

  Orphaned-first :
      (c : Call) (name : String) (s : Satellite) (robot : RobotAccount) (w : World h.Remote)
      → get_satellite_by_name name w.db ≡ some s
      → get_robot_acc_by_satellite_id s.id w.db ≡ some robot
      → c.fails Query.begin ≡ false
      → Blocked h robot.robot_id (delete_satellite_body h c name w)
      → Orphaned name s robot (delete_satellite_handler h c name w).1
        × ((delete_satellite_handler h c name w).1.db ≡ w.db)
  unfolding delete_satellite_handler
  Orphaned-first c name s robot w found robot_found begun body =
      let (blocked, same) =
        Blocked-in_transaction h laws robot.robot_id (c.fails Query.begin) _ _ w (inl begun) body in
      (
        record {
          found = rw same found;
          robot_found = rw same robot_found;
          gone = Blocked-gone h robot.robot_id _ blocked;
        },
        same,
      )

  first_attempt :
      (c : Call) (name : String) (s : Satellite) (robot : RobotAccount) (w : World h.Remote)
      → ((q : Query) → c.fails q ≡ false)
      → get_satellite_by_name name w.db ≡ some s
      → get_robot_acc_by_satellite_id s.id w.db ≡ some robot
      → (h.delete_robot robot.robot_id w.remote).1 ≡ some tt
      → (h.delete_repository
          (construct_harbor_delete_url c.env s.name "satellite")
          (h.delete_robot robot.robot_id w.remote).0).1
        ≡ none
      → Blocked h robot.robot_id (delete_satellite_body h c name w)
  unfolding delete_satellite_body
  first_attempt c name s robot w works found robot_found deleted fails =
      subst (Blocked h robot.robot_id)
        (sym (
          query_one-runs _ w _ _ _ s (works _) found
          ∙ (query_one-runs _ w _ _ _ robot (works _) robot_found
              ∙ (exec-runs _ w _ _ _ (works _) ∙ send-runs _ _ _ _ tt deleted))))
        (Blocked-delete_artifact h laws robot.robot_id c.env _ _ _
          (laws.delete_robot_self robot.robot_id w.remote deleted) fails)

-- A deletion that removed the robot account from Harbor and then failed to delete the state artifact,
-- as for a satellite that never had one, is rolled back in the tables only. Whatever requests to
-- delete the satellite follow, the satellite stays in the tables as it was, its account stays gone
-- from Harbor, and the next request is answered with an error too.
pub delete_satellite_handler_stuck :
    (h : Harbor) (laws : HarborLaws h) (c next : Call) (later : List Call) (name : String)
    (s : Satellite) (robot : RobotAccount) (w : World h.Remote)
    → ((q : Query) → c.fails q ≡ false)
    → get_satellite_by_name name w.db ≡ some s
    → get_robot_acc_by_satellite_id s.id w.db ≡ some robot
    → (h.delete_robot robot.robot_id w.remote).1 ≡ some tt
    → (h.delete_repository
        (construct_harbor_delete_url c.env s.name "satellite")
        (h.delete_robot robot.robot_id w.remote).0).1
      ≡ none
    → ((attempts h laws name (c ∷ later) w).db ≡ w.db)
      × Blocked h robot.robot_id
          (delete_satellite_handler h next name (attempts h laws name (c ∷ later) w))
delete_satellite_handler_stuck h laws c next later name s robot w works found robot_found deleted
      fails =
    let (orphaned, first) =
      Orphaned-first h laws c name s robot w found robot_found (works Query.begin)
        (first_attempt h laws c name s robot w works found robot_found deleted fails) in
    let (still, same) =
      Orphaned-attempts h laws name later s robot (delete_satellite_handler h c name w).1
        orphaned in
    (same ∙ first, (delete_again h laws next name s robot _ still).0)
