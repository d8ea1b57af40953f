-- ===== src/Satellite/GroupState/Errors.antt =====
-- What a round of processGroupState that ends with an error leaves behind, by the error.
use mathlib.Core.Option.{some-injective}
use harbor_satellite.Common.{
  ℕ, String, ◌≡◌, refl, ◌∙◌, subst, inl, inr, false, none, some, List, get_elem?, All-In, In,
  Bool-cases, Option-cases,
}
use harbor_satellite.Satellite.State.{State, Entity}
use harbor_satellite.Satellite.Groups.{StateMap}
use harbor_satellite.Satellite.Replicator.{
  Client, ClientLaws, reference, replicate, delete_replication_entity,
}
use harbor_satellite.Satellite.Replicator.Deletions.{
  replicate_ne, delete_ne, others_untouched, delete-Absent, Absent, Elsewhere,
}
use harbor_satellite.Satellite.Persistence.{Codec}
use harbor_satellite.Satellite.GroupState.{
  Upstream, Round, GroupError, no_fetcher, no_state, not_deleted, not_replicated, Worked, failed,
  done, override_host, fetch_and_process_state, replicate_changes, apply_state, work, World,
  process_group_state,
}
use harbor_satellite.Satellite.GroupState.Laws.{changes, process_group_state_failed}
use harbor_satellite.Satellite.GroupState.Stuck.{finish-failed}

module _ (c : Client) (laws : ClientLaws c) (up : Upstream) (r : Round) (g : StateMap)
    (reg : c.Registry) where
  abbrev pub url : String
  url = override_host up r.harbor_registry_url g.url

  -- No image of the list is at the place.
  abbrev pub Away : String → List Entity → Type 0
  Away = Elsewhere c laws r.replicator

  -- The registry `reg'` after an error of the round.
  abbrev pub LeftBy : c.Registry → GroupError → Type 0
  LeftBy reg' no_fetcher = (reg' ≡ reg) × (up.is_valid_url url ≡ false)
  LeftBy reg' no_state = (reg' ≡ reg) × (fetch_and_process_state up url ≡ none)
  LeftBy reg' (not_deleted x) =
      (fetched : State) × (fetch_and_process_state up url ≡ some fetched)
      × ((ref : String) → Away ref (changes r fetched g).0 → c.head reg' ref ≡ c.head reg ref)
  LeftBy reg' (not_replicated x) =
      (fetched : State) × (fetch_and_process_state up url ≡ some fetched)
      × ((ref : String)
          → Away ref (changes r fetched g).0
          → Away ref (changes r fetched g).1
          → c.head reg' ref ≡ c.head reg ref)
      × ((e : Entity)
          → In e (changes r fetched g).0
          → Away (reference r.replicator.remote_registry_url e) (changes r fetched g).1
          → Absent c laws r.replicator reg' e)

  abbrev After : c.Registry × Worked → Type 0
  After (reg', failed e) = LeftBy reg' e
  After (reg', done new) = Unit

  replicate_changes-After :
      (fetched : State)
      → fetch_and_process_state up url ≡ some fetched
      → let deleted =
          delete_replication_entity c r.replicator r.delete_ctx (changes r fetched g).0 reg in
        deleted.1 ≡ none
        → After (replicate_changes c r (changes r fetched g).1 (changes r fetched g).2 deleted.0)
  unfolding replicate_changes
  replicate_changes-After fetched found fine =
      let (to_delete, to_replicate, new) = changes r fetched g in
      let after = (delete_replication_entity c r.replicator r.delete_ctx to_delete reg).0 in
      elim (Option-cases (replicate c r.replicator r.replicate_ctx to_replicate after).1) [
        | inl copied ↦ rw (copied, replicate_changes) tt
        | inr (x, broken) ↦
            rw (broken, replicate_changes)
              (
                fetched,
                found,
                others_untouched c laws r.replicator r.delete_ctx r.replicate_ctx to_delete
                    to_replicate reg,
                λ e listed away.
                    replicate_ne c laws r.replicator r.replicate_ctx to_replicate after _ away
                    ∙ All-In (Absent c laws r.replicator after) to_delete e
                        (delete-Absent c laws r.replicator r.delete_ctx to_delete reg fine) listed,
              )
      ]

  apply_state-After :
      (fetched : State)
      → fetch_and_process_state up url ≡ some fetched
      → After (apply_state c r fetched g.entities reg)
  unfolding apply_state
  apply_state-After fetched found =
      let to_delete = (changes r fetched g).0 in
      let deleted = delete_replication_entity c r.replicator r.delete_ctx to_delete reg in
      elim (Option-cases deleted.1) [
        | inl fine ↦ rw (fine, apply_state) (replicate_changes-After fetched found fine)
        | inr (x, broken) ↦
            rw (broken, apply_state)
              (fetched, found, delete_ne c laws r.replicator r.delete_ctx to_delete reg)
      ]

  work-After : After (work c up r g reg)
  unfolding work
  work-After = elim (Bool-cases (up.is_valid_url url)) [
    | inr invalid ↦ rw (invalid, work) (refl, invalid)
    | inl valid ↦ elim (Option-cases (fetch_and_process_state up url)) [
      | inl missing ↦ rw (valid, missing, work) (refl, missing)
      | inr (fetched, found) ↦ rw (valid, found, work) (apply_state-After fetched found)
    ]
  ]

module _ (c : Client) (laws : ClientLaws c) (codec : Codec) where
  -- With a client that keeps the documented behaviour: a round that returns an error is of a group
  -- that the process has, and leaves the memory of the process and the disk as they were. Without a
  -- fetcher the URL is invalid, and without a state none could be fetched and processed; the registry
  -- is as it was then. If the deletions failed, a state was fetched, and no reference differs but the
  -- destinations of the entities to delete. If the copies failed, a state was fetched, no reference
  -- differs but the destinations of the entities to delete and to replicate, and nothing is left at
  -- the destination of an entity to delete, unless it is one to copy to.
  pub process_group_state_error :
      (up : Upstream) (r : Round) (index : ℕ) (w w' : World c codec) (e : GroupError)
      → process_group_state c codec up r index w ≡ some (w', some e)
      → (g : StateMap) × (get_elem? w.process.state_map index ≡ some g)
        × (w'.process ≡ w.process)
        × (w'.disk ≡ w.disk)
        × LeftBy c laws up r g w.registry w'.registry e
  unfolding process_group_state
  process_group_state_error up r index w w' e h =
      let kept = process_group_state_failed c laws codec up r index w w' e h in
      elim (Option-cases (get_elem? w.process.state_map index)) [
        | inl missing ↦ cc (rw (missing, process_group_state) at h)
        | inr (g, found) ↦
            let out =
              finish-failed c laws codec r index g w w' e (work c up r g w.registry)
                (some-injective _ _ (rw (found, process_group_state) at h)) in
            (
              g,
              found,
              kept.0,
              kept.1,
              subst (After c laws up r g w.registry) out (work-After c laws up r g w.registry),
            )
      ]
