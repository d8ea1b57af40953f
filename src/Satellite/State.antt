-- ===== src/Satellite/State.antt =====
-- internal/satellite/state/artifact.go, state.go and the entities of replicator.go: what a group's
-- state artifact lists, and the image references that it stands for.
use harbor_satellite.Common.{String, Bool, Option, none, some, List, [], ◌∷◌, ◌++◌, map, keep}
use harbor_satellite.Satellite.Utils.{get_repository_and_image_name_from_artifact}

pub record Artifact : Type 0 where
  pub repository : String
  pub tags : List String
  pub labels : List String
  pub kind : String
  pub digest : String
  pub deleted : Bool
  pub name : String

pub record State : Type 0 where
  pub registry : String
  pub artifacts : List Artifact

pub record Entity : Type 0 where
  pub name : String
  pub repository : String
  pub tag : String
  pub digest : String

-- `GetTags() != nil && len(GetTags()) != 0`
abbrev pub has_tags : Artifact → Bool
has_tags a = elim a.tags [ [] ↦ Bool.false | t ∷ ts ↦ Bool.true ]

unfoldable pub remove_null_tag_artifacts : State → State
remove_null_tag_artifacts s = record s { artifacts = keep has_tags s.artifacts }

abbrev entity : Artifact → String → Entity
entity a tag = record { name = a.name; repository = a.repository; tag = tag; digest = a.digest }

unfoldable pub artifacts_entities : List Artifact → List Entity
artifacts_entities [] = []
artifacts_entities (a ∷ rest) = map (entity a) a.tags ++ artifacts_entities rest

unfoldable pub fetch_entities_from_state : State → List Entity
unfolding artifacts_entities
fetch_entities_from_state s = artifacts_entities s.artifacts

-- SetRepository and SetName by the parts of the artifact's path.
unfoldable pub split_artifact : Artifact → Option Artifact
split_artifact a = elim (get_repository_and_image_name_from_artifact a.repository) [
  | none ↦ none
  | some (repo, image) ↦ some (record a { repository = repo; name = image })
]

unfoldable pub split_artifacts : List Artifact → Option (List Artifact)
split_artifacts [] = some []
split_artifacts (a ∷ rest) =
    let tail = split_artifacts rest in
    elim (split_artifact a) [
      | none ↦ none
      | some b ↦ elim tail [ none ↦ none | some bs ↦ some (b ∷ bs) ]
    ]

-- `none` stands for the error: the caller then drops the state.
unfoldable pub process_state : State → Option State
process_state s = elim (split_artifacts s.artifacts) [
  | none ↦ none
  | some parts ↦ some (record s { artifacts = parts })
]
