-- ===== src/Satellite/Changes/Tests.antt =====
-- The changes between two states at concrete inputs.
use harbor_satellite.Common.{
  String, ◌≡◌, refl, false, some, List, [], ◌∷◌, map, keep, lookup, insert, remove, values,
}
use harbor_satellite.Satellite.State.{
  Artifact, State, Entity, remove_null_tag_artifacts, fetch_entities_from_state,
}
use harbor_satellite.Satellite.Changes.{
  key, index, schedule, compare_entities, IsOrder, get_changes,
}
use harbor_satellite.Satellite.Changes.Lookups.{has_key}
use harbor_satellite.Satellite.Changes.Converges.{Converges, get_changes-Converges}
use harbor_satellite.Satellite.Changes.Unchanged.{moved, get_changes-moved}

abbrev artifact : String → String → List String → String → Artifact
artifact repository name tags digest = record {
  repository = repository;
  tags = tags;
  labels = [];
  kind = "IMAGE";
  digest = digest;
  deleted = false;
  name = name;
}

abbrev image : String → String → String → Entity
image name tag digest = record { name = name; repository = "library"; tag = tag; digest = digest }

abbrev new_state : State
new_state = record {
  registry = "https://harbor.example/";
  artifacts =
      artifact "library" "nginx" ("1.27" ∷ "latest" ∷ []) "sha256:b"
      ∷ artifact "library" "scratch" [] "sha256:c"
      ∷ [];
}

abbrev old_entities : List Entity
old_entities =
    image "nginx" "latest" "sha256:a"
    ∷ image "redis" "7" "sha256:d"
    ∷ image "nginx" "1.27" "sha256:b"
    ∷ []

values-IsOrder : IsOrder values
values-IsOrder m e = (λ h. h, λ h. h)

update : get_changes values new_state (some old_entities) ≡ (
  image "nginx" "latest" "sha256:a" ∷ image "redis" "7" "sha256:d" ∷ [],
  image "nginx" "latest" "sha256:b" ∷ [],
  remove_null_tag_artifacts new_state,
)
unfolding get_changes compare_entities schedule index key remove_null_tag_artifacts
    fetch_entities_from_state keep lookup insert remove values
update = refl

get_changes-Converges_example : Converges values new_state (some old_entities)
get_changes-Converges_example =
    get_changes-Converges values new_state (some old_entities) values-IsOrder

get_changes-moved_example :
    get_changes values new_state (
      some (
        map
          (moved (λ e. "mirror"))
          (fetch_entities_from_state (remove_null_tag_artifacts new_state))))
    ≡ ([], [], remove_null_tag_artifacts new_state)
unfolding fetch_entities_from_state remove_null_tag_artifacts keep has_key key
get_changes-moved_example =
    get_changes-moved values new_state (λ e. "mirror") values-IsOrder (refl, (refl, tt))
