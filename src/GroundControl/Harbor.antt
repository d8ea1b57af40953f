-- ===== src/GroundControl/Harbor.antt =====
-- The client of Harbor (internal/groundcontrol/harbor) and the artifacts that Ground Control keeps
-- there (internal/groundcontrol/utils/helper.go). Harbor's API, crane and encoding/json are a
-- parameter: `none` stands for an error, and an error may come after an effect.
pub mod Contract
pub mod Simulated
pub mod Robots
pub mod Published
use harbor_satellite.Common.{
  ℕ, ◌*◌, String, ◌⧺◌, ◌≡◌, ◌≢◌, Bool, true, false, ◌||◌, not, Option, none, some, List, [], ◌∷◌,
  ◌++◌, map, ◌==◌, if◌then◌else◌, ℤ, pos, negsuc, ltb, eqb,
}
use harbor_satellite.Satellite.Utils.{strip, split}
use harbor_satellite.GroundControl.Action.{
  app_error, other_error, Action, return, ◌>>=◌, ◌>>◌, or_raise, check, ask, send,
}

pub record Access : Type 0 where
  pub action : String
  pub resource : String

pub record RobotPermission : Type 0 where
  pub access : List Access
  pub kind : String
  pub namespace : String

pub record RobotCreate : Type 0 where
  pub name : String
  pub level : String
  pub duration : ℕ
  pub permissions : List RobotPermission

pub record RobotCreated : Type 0 where
  pub id : ℕ
  pub name : String
  pub secret : String
  pub expires_at : ℤ

pub record Robot : Type 0 where
  pub id : ℕ
  pub name : String
  pub expires_at : ℤ
  pub permissions : List RobotPermission

-- The artifacts of a group's state, as far as the handlers read them.
pub record Artifact : Type 0 where
  pub repository : String
  pub tag : List String
  pub digest : String
  pub deleted : Bool

-- What the file artifacts.json of an image holds.
pub data Content : Type 0 where
  group_state : (group registry : String) → List Artifact → Content
  satellite_state : (states : List String) → (config : String) → Content
  config_state : String → Content

-- `latest` and `robot` say what Harbor holds: the image under the tag latest of a repository, and a
-- robot account with its secret. The inner option of `refresh_sec` is a reply with no payload.
pub record Harbor : Type 1 where
  pub Remote : Type 0
  pub Image : Type 0
  pub image : Content → Option Image
  pub latest : String → Remote → Option Image
  pub robot : ℕ → Remote → Option Robot
  pub secret : ℕ → Remote → Option String
  pub list_robot : String → Remote → Option (List Robot)
  pub list_replication_policies : String → Remote → Option ℕ
  pub head_project : String → Remote → Option Bool
  pub get_robot_by_id : ℕ → Remote → Option Robot
  pub create_project : String → Remote → Remote × Option Bool
  pub create_robot : RobotCreate → Remote → Remote × Option RobotCreated
  pub delete_robot : ℕ → Remote → Remote × Option (Unit {0})
  pub update_robot : Robot → Remote → Remote × Option (Unit {0})
  pub refresh_sec : ℕ → Remote → Remote × Option (Option String)
  pub push : String → Image → Remote → Remote × Option (Unit {0})
  pub tag : String → String → Remote → Remote × Option (Unit {0})
  pub delete_repository : String → Remote → Remote × Option (Unit {0})

-- internal/env: the settings, and the clock's text for a tag.
pub record Env : Type 0 where
  pub url : String
  pub username : String
  pub password : String
  pub skip_health_check : Bool
  pub robot_duration_days : ℕ
  pub unix_now : String

pub validate_env : Env → Bool
validate_env v = not (v.url == "" || v.username == "" || v.password == "")

-- What follows the first occurrence of "://".
unfoldable pub after_protocol : String → Option String
after_protocol String.[] = none
after_protocol (String.◌∷◌ c s) =
    let later = after_protocol s in
    elim (strip "://" (String.◌∷◌ c s)) [ none ↦ later | some rest ↦ some rest ]

unfoldable pub strip_protocol : String → String
unfolding after_protocol
strip_protocol url = elim (after_protocol url) [ none ↦ url | some rest ↦ rest ]

-- Whether a list of texts has one.
unfoldable pub has_text : String → List String → Bool
has_text t [] = false
has_text t (s ∷ rest) = s == t || has_text t rest

abbrev pub first_part : List String → String
first_part [] = ""
first_part (p ∷ ps) = p

-- The loop of GetProjectNames, over the projects found so far.
unfoldable pub project_names : List String → List Artifact → List String
unfolding has_text
project_names found [] = found
project_names found (a ∷ rest) =
    let project = first_part (split b'/' a.repository) in
    project_names (if a.deleted || has_text project found then found else found ++ (project ∷ []))
      rest

unfoldable pub get_project_names : List Artifact → List String
unfolding project_names
get_project_names artifacts = project_names [] artifacts

abbrev pub robot_access : List Access
robot_access =
    (record { action = "read"; resource = "artifact" })
    ∷ (record { action = "read"; resource = "repository" })
    ∷ (record { action = "pull"; resource = "repository" })
    ∷ []

abbrev pub project_permission : String → RobotPermission
project_permission project = record { access = robot_access; kind = "project"; namespace = project }

unfoldable pub gen_robot_perms : List String → List RobotPermission
gen_robot_perms projects = map project_permission projects

pub robot_account_template : Env → String → List String → RobotCreate
robot_account_template v name projects = record {
  name = name;
  level = "system";
  duration = v.robot_duration_days;
  permissions = gen_robot_perms projects;
}

unfoldable pub assemble_group_state : Env → String → String
assemble_group_state v name = v.url ⧺ ("/satellite/group-state/" ⧺ (name ⧺ "/state:latest"))

unfoldable pub assemble_satellite_state : Env → String → String
assemble_satellite_state v name = v.url ⧺ ("/satellite/satellite-state/" ⧺ (name ⧺ "/state:latest"))

unfoldable pub assemble_config_state : Env → String → String
assemble_config_state v name = v.url ⧺ ("/satellite/config-state/" ⧺ (name ⧺ "/state:latest"))

unfoldable pub get_state_artifact_destination : String → String → String
get_state_artifact_destination registry repository = registry ⧺ ("/" ⧺ (repository ⧺ "/state"))

-- url.QueryEscape, twice, turns a slash into %252F and keeps the characters of a valid name.
unfoldable pub construct_harbor_delete_url : Env → String → String → String
construct_harbor_delete_url v repo repo_type =
    v.url
    ⧺ ("/api/v2.0/projects/satellite/repositories/"
        ⧺ (repo_type ⧺ ("-state%252F" ⧺ (repo ⧺ "%252Fstate"))))

module _ (h : Harbor) (v : Env) where
  unfoldable pub is_robot_present : String → Action h.Remote Bool
  is_robot_present name = do
    robots ← ask other_error (h.list_robot ("name=" ⧺ name))
    return (elim robots [ [] ↦ false | r ∷ rs ↦ true ])

  unfoldable pub create_rob_acc_for_satellite : List String → String → Action h.Remote RobotCreated
  unfolding robot_account_template
  create_rob_acc_for_satellite projects name =
      send other_error (h.create_robot (robot_account_template v name projects))

  -- UpdateRobotProjects: the permissions are replaced, not extended.
  unfoldable pub update_robot_projects : List String → ℕ → Action h.Remote (Unit {0})
  update_robot_projects projects id = do
    robot ← ask other_error (h.get_robot_by_id id)
    send other_error (
        h.update_robot
          (record robot { permissions = gen_robot_perms (projects ++ ("satellite" ∷ [])) }))

  unfoldable pub tag_image : String → Action h.Remote (Unit {0})
  tag_image destination = do
    send other_error (h.tag destination v.unix_now)
    send other_error (h.tag destination "latest")

  -- The end of the three functions that publish an artifact.
  unfoldable pub publish : String → Content → Action h.Remote (Unit {0})
  unfolding tag_image
  publish destination content = do
    image ← or_raise other_error (h.image content)
    send other_error (h.push destination image)
    tag_image destination

  -- CreateStateArtifact: the registry of the artifact is set to Harbor's.
  unfoldable pub create_state_artifact : String → List Artifact → Action h.Remote (Unit {0})
  unfolding publish validate_env
  create_state_artifact group artifacts = do
    check (validate_env v) other_error
    publish
        (strip_protocol (get_state_artifact_destination v.url ("satellite/group-state/" ⧺ group)))
        (group_state group v.url artifacts)

  unfoldable pub create_and_push_config_state_artifact :
      String → String → Action h.Remote (Unit {0})
  unfolding publish validate_env
  create_and_push_config_state_artifact config name = do
    check (validate_env v) other_error
    publish (strip_protocol (assemble_config_state v name)) (config_state config)

  -- With no states nothing is published.
  unfoldable pub publish_states : String → List String → String → Action h.Remote (Unit {0})
  unfolding publish validate_env
  publish_states name [] config = return tt
  publish_states name (s ∷ states) config = do
    check (validate_env v) other_error
    publish (strip_protocol (assemble_satellite_state v name))
        (satellite_state (s ∷ states) (assemble_config_state v config))

  unfoldable pub create_or_update_sat_state_artifact :
      String → List String → String → Action h.Remote (Unit {0})
  unfolding publish_states
  create_or_update_sat_state_artifact name states config = do
    check (not (name == "")) other_error
    publish_states name states config

  unfoldable pub delete_artifact : String → Action h.Remote (Unit {0})
  unfolding validate_env
  delete_artifact url = do
    check (validate_env v) other_error
    send other_error (h.delete_repository url)

  -- helpers.go
  unfoldable pub create_if_missing : Bool → Action h.Remote (Unit {0})
  create_if_missing true = return tt
  create_if_missing false = do
    created ←
        send (app_error 502 "Error: creating satellite project") (h.create_project "satellite")
    return tt

  unfoldable pub ensure_satellite_project_exists : Action h.Remote (Unit {0})
  unfolding create_if_missing
  ensure_satellite_project_exists = do
    exists ← ask (app_error 502 "Error: Checking satellite project") (h.head_project "satellite")
    create_if_missing exists
