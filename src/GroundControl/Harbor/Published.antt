-- ===== src/GroundControl/Harbor/Published.antt =====
-- What publishing an artifact has done where it returns no error.
use harbor_satellite.Common.{List, String, [], refl, some, ℕ, ◌∙◌, ◌∷◌, ◌≡◌, ◌⧺◌}
use harbor_satellite.GroundControl.Action.{World, ok}
use harbor_satellite.GroundControl.Action.Steps.{
  check-ok, or_raise-ok, return-end, send-end, send-ok,
}
use harbor_satellite.GroundControl.Harbor.{
  Artifact, Content, Env, Harbor, assemble_config_state, assemble_satellite_state,
  create_or_update_sat_state_artifact, create_state_artifact, get_state_artifact_destination,
  group_state, publish, publish_states, satellite_state, strip_protocol, tag_image,
}
use harbor_satellite.GroundControl.Harbor.Contract.{HarborLaws}

-- Accounts and their secrets, and the database, are as before.
pub record Untouched (h : Harbor) (w w' : World h.Remote) : Type 0 where
  pub same_db : w'.db ≡ w.db
  pub same_robot : (i : ℕ) → h.robot i w'.remote ≡ h.robot i w.remote
  pub same_secret : (i : ℕ) → h.secret i w'.remote ≡ h.secret i w.remote

-- What the tag latest of a satellite's repository shows: its states and its config; or, as long as it
-- has no states, what it showed before.
abbrev pub Published :
    (h : Harbor) → Env → String → List String → String → (before after : h.Remote) → Type 0
Published h v name [] config before after = (a : String) → h.latest a after ≡ h.latest a before
Published h v name (s ∷ states) config before after =
    (image : h.Image) × (h.image (satellite_state (s ∷ states) (assemble_config_state v config))
      ≡ some image)
    × (h.latest (strip_protocol (assemble_satellite_state v name)) after ≡ some image)

module _ (h : Harbor) (laws : HarborLaws h) (v : Env) where
  pub publish-ok :
      (destination : String) (content : Content) (w : World h.Remote) {u : Unit {0}}
      {w' : World h.Remote}
      → publish h v destination content w ≡ (ok u, w')
      → Untouched h w w'
        × ((image : h.Image) × (h.image content ≡ some image)
            × (h.latest destination w'.remote ≡ some image))
  unfolding publish tag_image
  publish-ok destination content w h0 =
      let (image, made, h1) = or_raise-ok _ _ _ _ h0 in
      let (_, pushed, h2) = send-ok _ _ _ _ h1 in
      let (_, _, h3) = send-ok _ _ _ _ h2 in
      let (_, same) = send-end _ _ _ h3 in
      let r1 = (h.push destination image w.remote).0 in
      let r2 = (h.tag destination v.unix_now r1).0 in
      rw same (
        record {
          same_db = refl;
          same_robot = λ i.
              laws.tag-robot destination "latest" i r2
              ∙ (laws.tag-robot destination v.unix_now i r1
                  ∙ laws.push-robot destination image i w.remote);
          same_secret = λ i.
              laws.tag-secret destination "latest" i r2
              ∙ (laws.tag-secret destination v.unix_now i r1
                  ∙ laws.push-secret destination image i w.remote);
        },
        (
          image,
          made,
          laws.tag-latest destination "latest" destination r2
              ∙ (laws.tag-latest destination v.unix_now destination r1
                  ∙ laws.push_self destination image w.remote pushed),
        ),
      )

  publish_states-ok :
      (name : String) (states : List String) (config : String) (w : World h.Remote) {u : Unit {0}}
      {w' : World h.Remote}
      → publish_states h v name states config w ≡ (ok u, w')
      → Untouched h w w' × Published h v name states config w.remote w'.remote
  unfolding publish_states
  publish_states-ok name [] config w h0 =
      let (_, same) = return-end _ _ h0 in
      rw same
        (record { same_db = refl; same_robot = λ i. refl; same_secret = λ i. refl }, λ a. refl)
  publish_states-ok name (s ∷ states) config w h0 =
      let (_, h1) = check-ok _ _ _ _ h0 in publish-ok _ _ w h1

  pub create_or_update_sat_state_artifact-ok :
      (name : String) (states : List String) (config : String) (w : World h.Remote) {u : Unit {0}}
      {w' : World h.Remote}
      → create_or_update_sat_state_artifact h v name states config w ≡ (ok u, w')
      → Untouched h w w' × Published h v name states config w.remote w'.remote
  unfolding create_or_update_sat_state_artifact
  create_or_update_sat_state_artifact-ok name states config w h0 =
      let (_, h1) = check-ok _ _ _ _ h0 in publish_states-ok name states config w h1

  pub create_state_artifact-ok :
      (group : String) (artifacts : List Artifact) (w : World h.Remote) {u : Unit {0}}
      {w' : World h.Remote}
      → create_state_artifact h v group artifacts w ≡ (ok u, w')
      → Untouched h w w'
        × ((image : h.Image) × (h.image (group_state group v.url artifacts) ≡ some image)
            × (h.latest
                  (strip_protocol
                    (get_state_artifact_destination v.url ("satellite/group-state/" ⧺ group)))
                  w'.remote
                ≡ some image))
  unfolding create_state_artifact
  create_state_artifact-ok group artifacts w h0 =
      let (_, h1) = check-ok _ _ _ _ h0 in publish-ok _ _ w h1
