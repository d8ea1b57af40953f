-- ===== src/Satellite/GroupState/Stuck.antt =====
-- A round that deletes and then fails to copy, at a registry that refuses to delete what it does not
-- have.
use mathlib.Core.Option.{some-injective}
use harbor_satellite.Common.{
  ℕ, zero, suc, String, ◌≡◌, refl, sym, ap, subst, ◌∙◌, inl, inr, true, false, none, some, List, [],
  ◌∷◌, get_elem?, All-In, In, Bool-cases, Option-cases,
}
use harbor_satellite.Satellite.State.{State, Entity}
use harbor_satellite.Satellite.Groups.{StateMap}
use harbor_satellite.Satellite.Replicator.{
  Client, ClientLaws, Replicator, ReplicateError, delete_failed, reference, replicate,
  delete_replication_entity,
}
use harbor_satellite.Satellite.Replicator.Deletions.{
  replicate_ne, delete_one_gone, delete-Absent, Absent, Elsewhere,
}
use harbor_satellite.Satellite.Persistence.{Codec}
use harbor_satellite.Satellite.GroupState.{
  Upstream, Round, GroupError, not_deleted, not_replicated, Worked, failed, done, override_host,
  fetch_and_process_state, replicate_changes, apply_state, work, World, finish, process_group_state,
}
use harbor_satellite.Satellite.GroupState.Laws.{changes, process_group_state_failed}

module _ (c : Client) (laws : ClientLaws c) where
  -- The registry answers a deletion of what it does not have with an error.
  abbrev pub RefusesMissing : Type 0
  RefusesMissing =
      (reg : c.Registry) (ref : String) → c.head reg ref ≡ none → (c.delete reg ref).1 ≡ false

  delete_missing :
      (refuses : RefusesMissing) (r : Replicator) (ctx : ℕ) (es : List Entity) (e : Entity)
      (reg : c.Registry)
      → In e es
      → c.head reg (reference r.remote_registry_url e) ≡ none
      → (err : ReplicateError) × ((delete_replication_entity c r ctx es reg).1 ≡ some err)
  unfolding delete_replication_entity
  delete_missing refuses r ctx [] e reg listed gone = absurd listed
  delete_missing refuses r zero (e' ∷ es) e reg listed gone = (_, refl)
  delete_missing refuses r (suc ctx) (e' ∷ es) e reg listed gone =
      let here = reference r.remote_registry_url e' in
      elim (Bool-cases (c.delete reg here).1) [
        | inr denied ↦ (delete_failed, rw (denied, delete_replication_entity) refl)
        | inl went ↦ elim listed [
          | inl same ↦ cc (
            went,
            refuses reg here
                (subst (λ x. c.head reg (reference r.remote_registry_url x) ≡ none) same gone),
          )
          | inr later ↦
              rw (went, delete_replication_entity)
                (delete_missing refuses r ctx es e (c.delete reg here).0 later
                  (delete_one_gone c laws r e' reg _ went gone))
        ]
      ]

  -- What a failure of the copies shows: the deletions went through, and the copies did not.
  apply_state_failed :
      (r : Round) (fetched : State) (g : StateMap) (reg reg' : c.Registry) (x : ReplicateError)
      → apply_state c r fetched g.entities reg ≡ (reg', failed (not_replicated x))
      → ((delete_replication_entity c r.replicator r.delete_ctx (changes r fetched g).0 reg).1
          ≡ none)
        × (reg'
            ≡ (replicate c r.replicator r.replicate_ctx
                (changes r fetched g).1
                (delete_replication_entity c r.replicator r.delete_ctx
                  (changes r fetched g).0
                  reg).0).0)
  unfolding apply_state replicate_changes
  apply_state_failed r fetched g reg reg' x h =
      let (to_delete, to_replicate, new) = changes r fetched g in
      let gone = delete_replication_entity c r.replicator r.delete_ctx to_delete reg in
      elim (Option-cases gone.1) [
        | inr (y, broken) ↦ cc (ap (λ p. p.1) (rw (broken, apply_state) at h))
        | inl fine ↦ (
          fine,
          elim (Option-cases (replicate c r.replicator r.replicate_ctx to_replicate gone.0).1) [
            | inl copied ↦
                cc (ap (λ p. p.1) (rw (fine, apply_state, copied, replicate_changes) at h))
            | inr (y, broken) ↦
                sym (ap (λ p. p.0) (rw (fine, apply_state, broken, replicate_changes) at h))
          ],
        )
      ]

  apply_state_refused :
      (r : Round) (fetched : State) (g : StateMap) (reg : c.Registry) (x : ReplicateError)
      → (delete_replication_entity c r.replicator r.delete_ctx (changes r fetched g).0 reg).1
        ≡ some x
      → (apply_state c r fetched g.entities reg).1 ≡ failed (not_deleted x)
  unfolding apply_state
  apply_state_refused r fetched g reg x broken = rw (broken, apply_state) refl

  work_failed :
      (up : Upstream) (r : Round) (g : StateMap) (fetched : State) (reg reg' : c.Registry)
      (x : ReplicateError)
      → work c up r g reg ≡ (reg', failed (not_replicated x))
      → fetch_and_process_state up (override_host up r.harbor_registry_url g.url) ≡ some fetched
      → (up.is_valid_url (override_host up r.harbor_registry_url g.url) ≡ true)
        × (apply_state c r fetched g.entities reg ≡ (reg', failed (not_replicated x)))
  unfolding work
  work_failed up r g fetched reg reg' x h found =
      elim (Bool-cases (up.is_valid_url (override_host up r.harbor_registry_url g.url))) [
        | inl valid ↦ (valid, rw (valid, found, work) at h)
        | inr invalid ↦ cc (ap (λ p. p.1) (rw (invalid, work) at h))
      ]

  work_valid :
      (up : Upstream) (r : Round) (g : StateMap) (fetched : State) (reg : c.Registry)
      → up.is_valid_url (override_host up r.harbor_registry_url g.url) ≡ true
      → fetch_and_process_state up (override_host up r.harbor_registry_url g.url) ≡ some fetched
      → work c up r g reg ≡ apply_state c r fetched g.entities reg
  unfolding work
  work_valid up r g fetched reg valid found = rw (valid, found, work) refl

  module _ (codec : Codec) where
    pub finish-failed :
        (r : Round) (index : ℕ) (g : StateMap) (w w' : World c codec) (e : GroupError)
        (out : c.Registry × Worked)
        → finish c codec r index g w out ≡ (w', some e)
        → out ≡ (w'.registry, failed e)
    unfolding finish
    finish-failed r index g w w' e (reg, failed x) h =
        cc (ap (λ o. o.0.registry) h, ap (λ o. o.1) h)
    finish-failed r index g w w' e (reg, done new) h = cc (ap (λ o. o.1) h)

    finish_of_failed :
        (r : Round) (index : ℕ) (g : StateMap) (w : World c codec) (e : GroupError)
        (out : c.Registry × Worked)
        → out.1 ≡ failed e
        → (w' : World c codec) × (finish c codec r index g w out ≡ (w', some e))
    unfolding finish
    finish_of_failed r index g w e (reg, failed x) h = (record w { registry = reg }, cc h)
    finish_of_failed r index g w e (reg, done new) h = cc h

    -- At a registry that answers a deletion of what it does not have with an error: if a round deleted
    -- an entity that it had nothing to copy over, and then failed to copy, then the next round of that
    -- group, with the same state fetched and whatever contexts, faults and order of the map, fails at
    -- the deletions if that entity is among them again.
    pub process_group_state_stuck :
        RefusesMissing
        → (up : Upstream) (r : Round) (index : ℕ) (g : StateMap) (w w' : World c codec)
          (fetched : State) (e : Entity) (x : ReplicateError) (again : Round)
        → let retry = record again {
          harbor_registry_url = r.harbor_registry_url;
          replicator = r.replicator;
        } in
          get_elem? w.process.state_map index ≡ some g
          → fetch_and_process_state up (override_host up r.harbor_registry_url g.url) ≡ some fetched
          → process_group_state c codec up r index w ≡ some (w', some (not_replicated x))
          → In e (changes r fetched g).0
          → Elsewhere c laws r.replicator
              (reference r.replicator.remote_registry_url e)
              (changes r fetched g).1
          → In e (changes retry fetched g).0
          → (y : ReplicateError) × (w'' : World c codec) × (process_group_state c codec up retry
                index w'
              ≡ some (w'', some (not_deleted y)))
    unfolding process_group_state
    process_group_state_stuck refuses up r index g w w' fetched e x again found was_fetched h
          deleted elsewhere listed =
        let retry = record again {
          harbor_registry_url = r.harbor_registry_url;
          replicator = r.replicator;
        } in
        let kept = process_group_state_failed c laws codec up r index w w' (not_replicated x) h in
        let found' : get_elem? w'.process.state_map index ≡ some g =
          ap (λ p. get_elem? p.state_map index) kept.0 ∙ found in
        let first =
          finish-failed r index g w w' (not_replicated x) (work c up r g w.registry)
            (some-injective _ _ (rw (found, process_group_state) at h)) in
        let tried = work_failed up r g fetched w.registry w'.registry x first was_fetched in
        let (fine, left) = apply_state_failed r fetched g w.registry w'.registry x tried.1 in
        let after =
          (delete_replication_entity c r.replicator r.delete_ctx (changes r fetched g).0
            w.registry).0 in
        let gone : c.head w'.registry (reference r.replicator.remote_registry_url e) ≡ none =
          ap (λ reg. c.head reg (reference r.replicator.remote_registry_url e)) left
          ∙ replicate_ne c laws r.replicator r.replicate_ctx (changes r fetched g).1 after _
              elsewhere
          ∙ All-In (Absent c laws r.replicator after) (changes r fetched g).0 e
              (delete-Absent c laws r.replicator r.delete_ctx (changes r fetched g).0 w.registry
                fine)
              deleted in
        let (y, refused) =
          delete_missing refuses r.replicator retry.delete_ctx (changes retry fetched g).0 e
            w'.registry listed gone in
        let out = work_valid up retry g fetched w'.registry tried.0 was_fetched in
        let (w'', ended) =
          finish_of_failed retry index g w' (not_deleted y) (work c up retry g w'.registry)
            (ap (λ p. p.1) out ∙ apply_state_refused retry fetched g w'.registry y refused) in
        (y, w'', rw (found', process_group_state) (ap some ended))
