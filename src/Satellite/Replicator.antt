-- ===== src/Satellite/Replicator.antt =====
-- internal/satellite/state/replicator.go: copying images to the local registry and deleting them
-- there. The registry client (go-containerregistry and crane) is a parameter. Its source side is
-- read only and does not change during a call; its destination side is a state. A context is the
-- number of checks of `ctx.Done()` that still pass.
pub mod Copies
pub mod Deletions
pub mod Tests
use harbor_satellite.Common.{
  ℕ, zero, suc, String, ◌⧺◌, ◌≡◌, ◌≢◌, Bool, true, false, Option, none, some, List, [], ◌∷◌, ◌==◌,
  if◌then◌else◌,
}
use harbor_satellite.Satellite.State.{Entity}

-- "%s/%s/%s:%s"
unfoldable pub reference : String → Entity → String
reference registry e = registry ⧺ ("/" ⧺ (e.repository ⧺ ("/" ⧺ (e.name ⧺ (":" ⧺ e.tag)))))

-- name.ParseReference, remote.Get, Descriptor.Image, mutate.MediaType, Image.Digest and
-- Image.Layers, remote.Head, remote.Write and crane.Delete. `none` and `false` stand for an error.
pub record Client : Type 1 where
  pub Registry : Type 0
  pub Descriptor : Type 0
  pub Image : Type 0
  pub parses : String → Bool
  pub fetch : String → Option Descriptor
  pub image : Descriptor → Option Image
  pub to_oci : Image → Image
  pub digest : Image → Option String
  pub has_layers : Image → Bool
  pub head : Registry → String → Option String
  pub write : Registry → String → Image → Registry × Bool
  pub delete : Registry → String → Registry × Bool

-- What a write and a delete are documented to do at the destination.
pub record ClientLaws (c : Client) : Type 0 where
  pub head-write_self :
      (r : c.Registry) (ref : String) (i : c.Image) (d : String)
      → c.digest i ≡ some d
      → (c.write r ref i).1 ≡ true
      → c.head (c.write r ref i).0 ref ≡ some d
  pub head-write_ne :
      (r : c.Registry) (ref other : String) (i : c.Image)
      → ref ≢ other
      → c.head (c.write r ref i).0 other ≡ c.head r other
  pub head-delete_self :
      (r : c.Registry) (ref : String)
      → (c.delete r ref).1 ≡ true
      → c.head (c.delete r ref).0 ref ≡ none
  pub head-delete_ne :
      (r : c.Registry) (ref other : String)
      → ref ≢ other
      → c.head (c.delete r ref).0 other ≡ c.head r other

pub data ReplicateError : Type 0 where
  cancelled bad_source_reference bad_dest_reference no_descriptor no_image no_digest no_layers :
      ReplicateError
  write_failed delete_failed : ReplicateError

pub record Replicator : Type 0 where
  pub source_registry : String
  pub remote_registry_url : String

-- dstErr == nil && dstDesc.Digest == srcDigest
abbrev pub is_digest : Option String → String → Bool
is_digest none d = false
is_digest (some h) d = h == d

module _ (c : Client) where
  -- The image that a source reference stands for, converted to OCI, with its digest.
  pub data Source : Type 0 where
    source_error : ReplicateError → Source
    source_image : c.Image → String → Source

  unfoldable pub digest_image : c.Image → Source
  digest_image i = elim (c.digest i) [ none ↦ source_error no_digest | some d ↦ source_image i d ]

  unfoldable pub resolve_image : Option c.Image → Source
  unfolding digest_image
  resolve_image none = source_error no_image
  resolve_image (some i) = digest_image (c.to_oci i)

  unfoldable pub resolve_descriptor : Option c.Descriptor → Source
  unfolding resolve_image
  resolve_descriptor none = source_error no_descriptor
  resolve_descriptor (some d) = resolve_image (c.image d)

  -- From the two parsed references to the digest of the source.
  unfoldable pub resolve : Replicator → Entity → Source
  unfolding resolve_descriptor
  resolve r e =
      let src = reference r.source_registry e in
      if c.parses src
      then (if c.parses (reference r.remote_registry_url e)
          then resolve_descriptor (c.fetch src)
          else source_error bad_dest_reference)
      else source_error bad_source_reference

  -- Head, the skip of an image that is up to date, Layers and Write.
  unfoldable pub copy_image :
      c.Registry → String → c.Image → String → c.Registry × Option ReplicateError
  copy_image reg dst i d =
      if is_digest (c.head reg dst) d
      then (reg, none)
      else if c.has_layers i
      then (elim (c.write reg dst i).1 [
        | true ↦ ((c.write reg dst i).0, none)
        | false ↦ ((c.write reg dst i).0, some write_failed)
      ])
      else (reg, some no_layers)

  unfoldable pub replicate_one :
      Replicator → Entity → c.Registry → c.Registry × Option ReplicateError
  unfolding copy_image
  replicate_one r e reg = elim (resolve r e) [
    | source_error err ↦ (reg, some err)
    | source_image i d ↦ copy_image reg (reference r.remote_registry_url e) i d
  ]

  -- The loop of Replicate: the first error ends it, and what was copied before stays.
  unfoldable pub replicate :
      Replicator → ℕ → List Entity → c.Registry → c.Registry × Option ReplicateError
  replicate r ctx [] reg = (reg, none)
  replicate r zero (e ∷ es) reg = (reg, some cancelled)
  replicate r (suc ctx) (e ∷ es) reg =
      let (reg', err) = replicate_one r e reg in
      elim err [ some x ↦ (reg', some x) | none ↦ replicate r ctx es reg' ]

  -- The loop of DeleteReplicationEntity.
  unfoldable pub delete_replication_entity :
      Replicator → ℕ → List Entity → c.Registry → c.Registry × Option ReplicateError
  delete_replication_entity r ctx [] reg = (reg, none)
  delete_replication_entity r zero (e ∷ es) reg = (reg, some cancelled)
  delete_replication_entity r (suc ctx) (e ∷ es) reg =
      let (reg', ok) = c.delete reg (reference r.remote_registry_url e) in
      elim ok [
        | true ↦ delete_replication_entity r ctx es reg'
        | false ↦ (reg', some delete_failed)
      ]
