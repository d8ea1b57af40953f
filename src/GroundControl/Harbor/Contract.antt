-- ===== src/GroundControl/Harbor/Contract.antt =====
-- What the calls of Harbor are documented to do to robot accounts and images.
use harbor_satellite.Common.{String, none, some, ℕ, ◌≡◌, ◌≢◌}
use harbor_satellite.GroundControl.Harbor.{Harbor, Robot}

pub record HarborLaws (h : Harbor) : Type 0 where
  pub get_robot :
      (i : ℕ) (r : h.Remote) (d : Robot)
      → h.get_robot_by_id i r ≡ some d
      → (h.robot i r ≡ some d) × (d.id ≡ i)
  pub update_robot_self :
      (d : Robot) (r : h.Remote)
      → (h.update_robot d r).1 ≡ some tt
      → h.robot d.id (h.update_robot d r).0 ≡ some d
  pub update_robot_ne :
      (d : Robot) (i : ℕ) (r : h.Remote) → d.id ≢ i → h.robot i (h.update_robot d r).0 ≡ h.robot i r
  pub update_robot-latest :
      (d : Robot) (a : String) (r : h.Remote) → h.latest a (h.update_robot d r).0 ≡ h.latest a r
  pub refresh_sec_self :
      (i : ℕ) (s : String) (r : h.Remote)
      → (h.refresh_sec i r).1 ≡ some (some s)
      → h.secret i (h.refresh_sec i r).0 ≡ some s
  pub refresh_sec_missing :
      (i : ℕ) (r : h.Remote)
      → h.robot i r ≡ none
      → ((h.refresh_sec i r).1 ≡ none) × (h.robot i (h.refresh_sec i r).0 ≡ none)
  pub delete_robot_self :
      (i : ℕ) (r : h.Remote)
      → (h.delete_robot i r).1 ≡ some tt
      → h.robot i (h.delete_robot i r).0 ≡ none
  pub delete_robot_missing :
      (i : ℕ) (r : h.Remote)
      → h.robot i r ≡ none
      → ((h.delete_robot i r).1 ≡ none) × (h.robot i (h.delete_robot i r).0 ≡ none)
  pub create_project-robot :
      (p : String) (i : ℕ) (r : h.Remote) → h.robot i (h.create_project p r).0 ≡ h.robot i r
  pub push_self :
      (a : String) (image : h.Image) (r : h.Remote)
      → (h.push a image r).1 ≡ some tt
      → h.latest a (h.push a image r).0 ≡ some image
  pub push-robot :
      (a : String) (image : h.Image) (i : ℕ) (r : h.Remote)
      → h.robot i (h.push a image r).0 ≡ h.robot i r
  pub push-secret :
      (a : String) (image : h.Image) (i : ℕ) (r : h.Remote)
      → h.secret i (h.push a image r).0 ≡ h.secret i r
  pub tag-latest : (a t b : String) (r : h.Remote) → h.latest b (h.tag a t r).0 ≡ h.latest b r
  pub tag-robot : (a t : String) (i : ℕ) (r : h.Remote) → h.robot i (h.tag a t r).0 ≡ h.robot i r
  pub tag-secret : (a t : String) (i : ℕ) (r : h.Remote) → h.secret i (h.tag a t r).0 ≡ h.secret i r
  pub delete_repository-robot :
      (a : String) (i : ℕ) (r : h.Remote) → h.robot i (h.delete_repository a r).0 ≡ h.robot i r
