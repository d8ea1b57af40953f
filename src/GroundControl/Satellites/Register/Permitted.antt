-- ===== src/GroundControl/Satellites/Register/Permitted.antt =====
-- What a registration does for the groups that the request names.
use harbor_satellite.Common.{
  List, Option, String, [], ap, none, refl, some, subst, sym, ℕ, ◌∙◌, ◌∷◌, ◌≡◌,
}
use harbor_satellite.GroundControl.Fleet.{Fleet, get_projects_of_group}
use harbor_satellite.GroundControl.Fleet.Inserts.{
  SameRest, SameRest-projects, SameRest-trans, add_satellite_to_group-SameRest,
  add_satellite_to_group-satellites,
}
use harbor_satellite.GroundControl.Action.{World, ok}
use harbor_satellite.GroundControl.Action.Steps.{
  >>=-ok, ask-ok, exec-ok, obtain, obtain_pair, obtain_two, or_raise-ok, query_many-ok,
  query_one-ok, return-end, with_error-ok,
}
use harbor_satellite.GroundControl.Harbor.{Harbor}
use harbor_satellite.GroundControl.Harbor.Contract.{HarborLaws}
use harbor_satellite.GroundControl.Harbor.Robots.{Permitted, update_robot_projects-Permitted}
use harbor_satellite.GroundControl.Satellites.{Call}
use harbor_satellite.GroundControl.Satellites.Register.{
  add_satellite_to_groups, assign_permissions_to_robot,
}

-- The last of some names.
abbrev pub last_of : List String → Option String
last_of [] = none
last_of (name ∷ []) = some name
last_of (name ∷ next ∷ names) = last_of (next ∷ names)

abbrev head : List (List String) → Option (List String)
head [] = none
head (p ∷ ps) = some p

head_lem : (rows : List (List String)) → head rows ≡ elim rows [ [] ↦ none | p ∷ ps ↦ some p ]
head_lem [] = refl
head_lem (p ∷ ps) = refl

module _ (h : Harbor) (laws : HarborLaws h) (c : Call) where
  pub assign_permissions_to_robot-db :
      (names : List String) (id : ℕ) (w : World h.Remote) {w' : World h.Remote}
      → assign_permissions_to_robot h c names id w ≡ (ok tt, w')
      → w'.db ≡ w.db
  unfolding assign_permissions_to_robot
  assign_permissions_to_robot-db [] id w h0 =
      obtain_pair (return-end _ _ h0) λ done same. ap (λ v. v.db) same
  assign_permissions_to_robot-db (name ∷ names) id w h0 =
      obtain (or_raise-ok _ _ _ _ (query_many-ok _ _ _ _ _ h0)) λ projects given h1.
        obtain_two (>>=-ok _ _ _ h1) λ done w1 updated h2.
          obtain (update_robot_projects-Permitted h laws c.env _ _ _ (with_error-ok _ _ _ updated))
            λ permitted db1 latest1. assign_permissions_to_robot-db names id w1 h2 ∙ db1

  pub add_satellite_to_groups-satellites :
      (names : List String) (id : ℕ) (w : World h.Remote) {states : List String}
      {w' : World h.Remote}
      → add_satellite_to_groups h c names id w ≡ (ok states, w')
      → w'.db.satellites ≡ w.db.satellites
  unfolding add_satellite_to_groups
  add_satellite_to_groups-satellites [] id w h0 =
      obtain_pair (return-end _ _ h0) λ done same. ap (λ v. v.db.satellites) same
  add_satellite_to_groups-satellites (name ∷ names) id w h0 =
      obtain (ask-ok _ _ _ _ h0) λ policies listed h1.
        obtain (query_one-ok _ _ _ _ _ h1) λ group found h2.
          obtain_two (>>=-ok _ _ _ (exec-ok _ _ _ _ _ h2)) λ states w1 others h3.
            obtain_pair (return-end _ _ h3) λ done same.
              ap (λ v. v.db.satellites) same
              ∙ (add_satellite_to_groups-satellites names id _ others
                  ∙ add_satellite_to_group-satellites id group.id w.db)

  pub add_satellite_to_groups-SameRest :
      (names : List String) (id : ℕ) (w : World h.Remote) {states : List String}
      {w' : World h.Remote}
      → add_satellite_to_groups h c names id w ≡ (ok states, w')
      → SameRest w.db w'.db
  unfolding add_satellite_to_groups
  add_satellite_to_groups-SameRest [] id w h0 =
      obtain_pair (return-end _ _ h0)
        λ done same. rw same (record { same_groups = refl; same_configs = refl })
  add_satellite_to_groups-SameRest (name ∷ names) id w h0 =
      obtain (ask-ok _ _ _ _ h0) λ policies listed h1.
        obtain (query_one-ok _ _ _ _ _ h1) λ group found h2.
          obtain_two (>>=-ok _ _ _ (exec-ok _ _ _ _ _ h2)) λ states w1 others h3.
            obtain_pair (return-end _ _ h3) λ done same. rw same (
              SameRest-trans (add_satellite_to_group-SameRest id group.id w.db)
                (add_satellite_to_groups-SameRest names id _ others))

  -- The permissions of the last group of a request are the ones that stay.
  abbrev pub LastPermitted : Fleet → ℕ → h.Remote → Option String → Type 0
  LastPermitted db id after none = Unit
  LastPermitted db id after (some name) =
      (projects : List String) × (head (get_projects_of_group name db) ≡ some projects)
      × Permitted h id projects after

  pub assign_permissions_to_robot-last :
      (names : List String) (id : ℕ) (w : World h.Remote) {w' : World h.Remote}
      → assign_permissions_to_robot h c names id w ≡ (ok tt, w')
      → LastPermitted w.db id w'.remote (last_of names)
  unfolding assign_permissions_to_robot
  assign_permissions_to_robot-last [] id w h0 = tt
  assign_permissions_to_robot-last (first ∷ []) id w h0 =
      obtain (or_raise-ok _ _ _ _ (query_many-ok _ _ _ _ _ h0)) λ projects given h1.
        obtain_two (>>=-ok _ _ _ h1) λ done w1 updated h2.
          obtain (update_robot_projects-Permitted h laws c.env _ _ _ (with_error-ok _ _ _ updated))
            λ permitted db1 latest1.
              obtain_pair (return-end _ _ h2)
                λ done' same. (projects, head_lem _ ∙ given, rw same permitted)
  assign_permissions_to_robot-last (first ∷ next ∷ names) id w {w'} h0 =
      obtain (or_raise-ok _ _ _ _ (query_many-ok _ _ _ _ _ h0)) λ projects given h1.
        obtain_two (>>=-ok _ _ _ h1) λ done w1 updated h2.
          obtain (update_robot_projects-Permitted h laws c.env _ _ _ (with_error-ok _ _ _ updated))
            λ permitted db1 latest1.
              subst (λ d. LastPermitted d id w'.remote (last_of (next ∷ names))) db1
                (assign_permissions_to_robot-last (next ∷ names) id w1 h2)

  pub LastPermitted-since :
      (last : Option String) (id : ℕ) (db db' : Fleet) (after after' : h.Remote)
      → SameRest db db'
      → h.robot id after' ≡ h.robot id after
      → LastPermitted db' id after last
      → LastPermitted db id after' last
  LastPermitted-since none id db db' after after' rest kept p = tt
  LastPermitted-since (some name) id db db' after after' rest kept
        (projects, given, (d, held, perms)) =
      (projects, sym (ap head (SameRest-projects name rest)) ∙ given, (d, kept ∙ held, perms))
