-- ===== src/Satellite/GroupState/Laws.antt =====
-- Proofs about processGroupState: the rounds with and without an error.
use mathlib.Core.Option.{some-injective}
use harbor_satellite.Common.{
  ℕ, ◌≡◌, sym, ap, subst, ◌∙◌, inl, inr, none, some, List, if◌then◌else◌, get_elem?, get_elem?-set,
  set, All, arith, Bool-cases, Option-cases, eqb,
}
use harbor_satellite.Satellite.State.{State, Entity, fetch_entities_from_state}
use harbor_satellite.Satellite.Changes.{get_changes}
use harbor_satellite.Satellite.Groups.{StateMap}
use harbor_satellite.Satellite.Replicator.{Client, ClientLaws, replicate, delete_replication_entity}
use harbor_satellite.Satellite.Replicator.Copies.{Synced, replicate-Synced}
use harbor_satellite.Satellite.Persistence.{Codec}
use harbor_satellite.Satellite.GroupState.{
  Upstream, Round, GroupError, Worked, failed, done, override_host, fetch_and_process_state,
  to_slice, replicate_changes, apply_state, work, commit, World, finish, process_group_state,
}

-- What the round of a group asks for, given the state that it fetched.
abbrev pub changes : Round → State → StateMap → List Entity × List Entity × State
changes r fetched g = get_changes r.order fetched g.entities

-- The group with the new state and its entities.
abbrev pub recorded : StateMap → State → StateMap
recorded g new = record g { state = some new; entities = to_slice (fetch_entities_from_state new) }

module _ (c : Client) (laws : ClientLaws c) where
  -- What was done for a group with `g`, if the registry is now `reg`.
  pub record Copied (up : Upstream) (r : Round) (g : StateMap) (reg : c.Registry) (new : State)
      : Type 0 where
    pub fetched : State
    pub was_fetched :
        fetch_and_process_state up (override_host up r.harbor_registry_url g.url) ≡ some fetched
    pub copied : All (Synced c laws r.replicator reg) (changes r fetched g).1
    pub is_new : new ≡ (changes r fetched g).2

  replicate_changes_done :
      (r : Round) (to_replicate : List Entity) (s new : State) (reg reg' : c.Registry)
      → replicate_changes c r to_replicate s reg ≡ (reg', done new)
      → All (Synced c laws r.replicator reg') to_replicate × (new ≡ s)
  unfolding replicate_changes
  replicate_changes_done r to_replicate s new reg reg' h =
      elim (Option-cases (replicate c r.replicator r.replicate_ctx to_replicate reg).1) [
        | inl fine ↦
            let out = rw (fine, replicate_changes) at h in
            (
              subst (λ x. All (Synced c laws r.replicator x) to_replicate) (ap (λ p. p.0) out)
                  (replicate-Synced c laws r.replicator r.replicate_ctx to_replicate reg fine),
              ground arith,
            )
        | inr (x, broken) ↦ cc (ap (λ p. p.1) (rw (broken, replicate_changes) at h))
      ]

  apply_state_done :
      (r : Round) (fetched new : State) (g : StateMap) (reg reg' : c.Registry)
      → apply_state c r fetched g.entities reg ≡ (reg', done new)
      → All (Synced c laws r.replicator reg') (changes r fetched g).1
        × (new ≡ (changes r fetched g).2)
  unfolding apply_state
  apply_state_done r fetched new g reg reg' h =
      let (to_delete, to_replicate, s) = changes r fetched g in
      let gone = delete_replication_entity c r.replicator r.delete_ctx to_delete reg in
      elim (Option-cases gone.1) [
        | inl fine ↦
            replicate_changes_done r to_replicate s new gone.0 reg' (rw (fine, apply_state) at h)
        | inr (x, broken) ↦ cc (ap (λ p. p.1) (rw (broken, apply_state) at h))
      ]

  work_done :
      (up : Upstream) (r : Round) (g : StateMap) (new : State) (reg reg' : c.Registry)
      → work c up r g reg ≡ (reg', done new)
      → Copied up r g reg' new
  unfolding work
  work_done up r g new reg reg' h =
      let url = override_host up r.harbor_registry_url g.url in
      elim (Bool-cases (up.is_valid_url url)) [
        | inl valid ↦ elim (Option-cases (fetch_and_process_state up url)) [
          | inl missing ↦ cc (ap (λ p. p.1) (rw (valid, missing, work) at h))
          | inr (fetched, found) ↦
              let applied =
                apply_state_done r fetched new g reg reg' (rw (valid, found, work) at h) in
              record {
                fetched = fetched;
                was_fetched = found;
                copied = applied.0;
                is_new = applied.1;
              }
        ]
        | inr invalid ↦ cc (ap (λ p. p.1) (rw (invalid, work) at h))
      ]

  module _ (codec : Codec) where
    finish_failed :
        (r : Round) (index : ℕ) (g : StateMap) (w w' : World c codec) (e : GroupError)
        (out : c.Registry × Worked)
        → finish c codec r index g w out ≡ (w', some e)
        → (w'.process ≡ w.process) × (w'.disk ≡ w.disk)
    unfolding finish
    finish_failed r index g w w' e (reg, failed x) h =
        (ap (λ o. o.0.process) (sym h), ap (λ o. o.0.disk) (sym h))
    finish_failed r index g w w' e (reg, done new) h = cc (ap (λ o. o.1) h)

    finish_done :
        (r : Round) (index : ℕ) (g : StateMap) (w w' : World c codec) (out : c.Registry × Worked)
        → finish c codec r index g w out ≡ (w', none)
        → (new : State) × (out ≡ (w'.registry, done new))
          × (w'.process
              ≡ record (w.process) { state_map = set w.process.state_map index (recorded g new) })
    unfolding finish commit
    finish_done r index g w w' (reg, failed x) h = cc (ap (λ o. o.1) h)
    finish_done r index g w w' (reg, done new) h =
        (new, ap (λ o. (o.0.registry, done new)) h, ap (λ o. o.0.process) (sym h))

    -- A round that returns an error leaves the memory of the process and the disk as they were: the
    -- entities that the group had stay the ones that the next round compares with.
    pub process_group_state_failed :
        (up : Upstream) (r : Round) (index : ℕ) (w w' : World c codec) (e : GroupError)
        → process_group_state c codec up r index w ≡ some (w', some e)
        → (w'.process ≡ w.process) × (w'.disk ≡ w.disk)
    unfolding process_group_state commit
    process_group_state_failed up r index w w' e h =
        elim (Option-cases (get_elem? w.process.state_map index)) [
          | inl missing ↦ cc (rw (missing, process_group_state) at h)
          | inr (g, found) ↦
              finish_failed r index g w w' e (work c up r g w.registry)
                (some-injective _ _ (rw (found, process_group_state) at h))
        ]

    -- A round that returns no error, of a group that the process has: some state was fetched at the
    -- group's URL; each entity to replicate by that state and the entities of the round before has the
    -- digest of its source at its destination; the group has the new state and its entities, no other
    -- group changes, and neither does the digest of the config.
    pub process_group_state_done :
        (up : Upstream) (r : Round) (index : ℕ) (w w' : World c codec)
        → process_group_state c codec up r index w ≡ some (w', none)
        → (g : StateMap) × (new : State) × (get_elem? w.process.state_map index ≡ some g)
          × Copied up r g w'.registry new
          × ((other : ℕ)
              → get_elem? w'.process.state_map other ≡ (
                  if eqb index other
                  then some (recorded g new)
                  else get_elem? w.process.state_map other))
          × (w'.process.current_config_digest ≡ w.process.current_config_digest)
    unfolding process_group_state
    process_group_state_done up r index w w' h =
        elim (Option-cases (get_elem? w.process.state_map index)) [
          | inl missing ↦ cc (rw (missing, process_group_state) at h)
          | inr (g, found) ↦
              let (new, worked, kept) =
                finish_done r index g w w' (work c up r g w.registry)
                  (some-injective _ _ (rw (found, process_group_state) at h)) in
              (
                g,
                new,
                found,
                work_done up r g new w.registry w'.registry worked,
                λ other.
                    ap (λ p. get_elem? p.state_map other) kept
                    ∙ get_elem?-set w.process.state_map index other (recorded g new) g found,
                ap (λ p. p.current_config_digest) kept,
              )
        ]
