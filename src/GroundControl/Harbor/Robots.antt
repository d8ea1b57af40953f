-- ===== src/GroundControl/Harbor/Robots.antt =====
-- What updateRobotProjects and ensureSatelliteProjectExists have done where they return no error.
use harbor_satellite.Common.{
  Bool, Bool-cases, List, String, [], eqb, eqb_iff, false, inl, inr, refl, some, subst, true, ℕ,
  ◌++◌, ◌∙◌, ◌∷◌, ◌≡◌,
}
use harbor_satellite.GroundControl.Action.{World, ok}
use harbor_satellite.GroundControl.Action.Steps.{ask-ok, return-end, send-end, send-ok}
use harbor_satellite.GroundControl.Harbor.{
  Env, Harbor, Robot, create_if_missing, ensure_satellite_project_exists, gen_robot_perms,
  update_robot_projects,
}
use harbor_satellite.GroundControl.Harbor.Contract.{HarborLaws}

-- The account's permissions are those of the projects, and of the project satellite.
abbrev pub Permitted : (h : Harbor) → ℕ → List String → h.Remote → Type 0
Permitted h id projects r =
    (d : Robot) × (h.robot id r ≡ some d)
    × (d.permissions ≡ gen_robot_perms (projects ++ ("satellite" ∷ [])))

module _ (h : Harbor) (laws : HarborLaws h) (v : Env) where
  pub update_robot_projects-ok :
      (projects : List String) (id : ℕ) (w : World h.Remote) {u : Unit {0}} {w' : World h.Remote}
      → update_robot_projects h v projects id w ≡ (ok u, w')
      → (d : Robot) × (d.id ≡ id)
        × (d.permissions ≡ gen_robot_perms (projects ++ ("satellite" ∷ [])))
        × ((h.update_robot d w.remote).1 ≡ some tt)
        × (w' ≡ record w { remote = (h.update_robot d w.remote).0 })
  unfolding update_robot_projects
  update_robot_projects-ok projects id w h0 =
      let (d, found, h1) = ask-ok _ _ _ _ h0 in
      let (sent, same) = send-end _ _ _ h1 in
      (
        record d { permissions = gen_robot_perms (projects ++ ("satellite" ∷ [])) },
        (laws.get_robot id w.remote d found).1,
        refl,
        sent,
        same,
      )

  -- The account has the new permissions, and the images and the database are as before.
  pub update_robot_projects-Permitted :
      (projects : List String) (id : ℕ) (w : World h.Remote) {u : Unit {0}} {w' : World h.Remote}
      → update_robot_projects h v projects id w ≡ (ok u, w')
      → Permitted h id projects w'.remote
        × (w'.db ≡ w.db)
        × ((a : String) → h.latest a w'.remote ≡ h.latest a w.remote)
  update_robot_projects-Permitted projects id w {u} {w'} h0 =
      let (d, named, perms, sent, same) = update_robot_projects-ok projects id w h0 in
      rw same (
        (
          d,
          subst (λ i. h.robot i (h.update_robot d w.remote).0 ≡ some d) named
              (laws.update_robot_self d w.remote sent),
          perms,
        ),
        refl,
        λ a. laws.update_robot-latest d a w.remote,
      )

  -- Accounts that had those permissions still have them.
  pub update_robot_projects-Permitted_others :
      (projects : List String) (id other : ℕ) (w : World h.Remote) {u : Unit {0}}
      {w' : World h.Remote}
      → update_robot_projects h v projects id w ≡ (ok u, w')
      → Permitted h other projects w.remote
      → Permitted h other projects w'.remote
  update_robot_projects-Permitted_others projects id other w {u} {w'} h0 held =
      let (d, named, perms, sent, same) = update_robot_projects-ok projects id w h0 in
      elim (Bool-cases (eqb id other)) [
        | inl e ↦
            subst (λ i. Permitted h i projects w'.remote) ((eqb_iff id other).0 e)
              (update_robot_projects-Permitted projects id w h0).0
        | inr e ↦ rw same (
          held.0,
          laws.update_robot_ne d other w.remote (λ x. cc (e, (eqb_iff id other).1 (cc (named, x))))
              ∙ held.1,
          held.2,
        )
      ]

  create_if_missing-robot :
      (exists : Bool) (w : World h.Remote) {u : Unit {0}} {w' : World h.Remote}
      → create_if_missing h v exists w ≡ (ok u, w')
      → (w'.db ≡ w.db) × ((i : ℕ) → h.robot i w'.remote ≡ h.robot i w.remote)
  unfolding create_if_missing
  create_if_missing-robot true w h0 = let (_, same) = return-end _ _ h0 in rw same (refl, λ i. refl)
  create_if_missing-robot false w h0 =
      let (_, _, h1) = send-ok _ _ _ _ h0 in
      let (_, same) = return-end _ _ h1 in
      rw same (refl, λ i. laws.create_project-robot "satellite" i w.remote)

  -- The project satellite may have been created; the accounts and the database are as before.
  pub ensure_satellite_project_exists-robot :
      (w : World h.Remote) {u : Unit {0}} {w' : World h.Remote}
      → ensure_satellite_project_exists h v w ≡ (ok u, w')
      → (w'.db ≡ w.db) × ((i : ℕ) → h.robot i w'.remote ≡ h.robot i w.remote)
  unfolding ensure_satellite_project_exists
  ensure_satellite_project_exists-robot w h0 =
      let (exists, _, h1) = ask-ok _ _ _ _ h0 in create_if_missing-robot exists w h1
