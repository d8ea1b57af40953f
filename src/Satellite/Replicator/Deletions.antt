-- ===== src/Satellite/Replicator/Deletions.antt =====
-- What is deleted, and what neither the copies nor the deletions touch.
use harbor_satellite.Common.{
  ℕ, zero, suc, String, ◌≡◌, refl, sym, subst, ◌∙◌, ◌≢◌, inl, inr, true, none, List, [], ◌∷◌, ◌==◌,
  eq_iff, Bool-cases, Option-cases, All,
}
use harbor_satellite.Satellite.State.{Entity}
use harbor_satellite.Satellite.Replicator.{
  reference, Client, ClientLaws, Replicator, replicate_one, replicate, delete_replication_entity,
}
use harbor_satellite.Satellite.Replicator.Copies.{replicate_one_ne}

module _ (c : Client) (laws : ClientLaws c) (r : Replicator) where
  abbrev pub Elsewhere : String → List Entity → Type 0
  Elsewhere ref = All (λ e. reference r.remote_registry_url e ≢ ref)

  -- Whether it fails or not, Replicate leaves the references alone that it was not asked for.
  pub replicate_ne :
      (ctx : ℕ) (es : List Entity) (reg : c.Registry) (ref : String)
      → Elsewhere ref es
      → c.head (replicate c r ctx es reg).0 ref ≡ c.head reg ref
  unfolding replicate
  replicate_ne ctx [] reg ref away = refl
  replicate_ne zero (e ∷ es) reg ref away = refl
  replicate_ne (suc ctx) (e ∷ es) reg ref away = elim (Option-cases (replicate_one c r e reg).1) [
    | inl fine ↦
        rw (fine, replicate)
          (replicate_ne ctx es (replicate_one c r e reg).0 ref away.1
            ∙ replicate_one_ne c laws r e reg ref away.0)
    | inr (x, failed) ↦ rw (failed, replicate) (replicate_one_ne c laws r e reg ref away.0)
  ]

  pub delete_ne :
      (ctx : ℕ) (es : List Entity) (reg : c.Registry) (ref : String)
      → Elsewhere ref es
      → c.head (delete_replication_entity c r ctx es reg).0 ref ≡ c.head reg ref
  unfolding delete_replication_entity
  delete_ne ctx [] reg ref away = refl
  delete_ne zero (e ∷ es) reg ref away = refl
  delete_ne (suc ctx) (e ∷ es) reg ref away =
      let here = reference r.remote_registry_url e in
      let kept = laws.head-delete_ne reg here ref away.0 in
      elim (Bool-cases (c.delete reg here).1) [
        | inl done ↦
            rw (done, delete_replication_entity)
              (delete_ne ctx es (c.delete reg here).0 ref away.1 ∙ kept)
        | inr failed ↦ rw (failed, delete_replication_entity) kept
      ]

  pub delete_one_gone :
      (e : Entity) (reg : c.Registry) (ref : String)
      → (c.delete reg (reference r.remote_registry_url e)).1 ≡ true
      → c.head reg ref ≡ none
      → c.head (c.delete reg (reference r.remote_registry_url e)).0 ref ≡ none
  delete_one_gone e reg ref done gone =
      let here = reference r.remote_registry_url e in
      elim (Bool-cases (here == ref)) [
        | inl same ↦
            subst (λ k. c.head (c.delete reg here).0 k ≡ none) ((eq_iff here ref).0 same)
              (laws.head-delete_self reg here done)
        | inr other ↦
            laws.head-delete_ne reg here ref (λ h. cc (other, (eq_iff here ref).1 h)) ∙ gone
      ]

  delete_keeps :
      (ctx : ℕ) (es : List Entity) (reg : c.Registry) (ref : String)
      → (delete_replication_entity c r ctx es reg).1 ≡ none
      → c.head reg ref ≡ none
      → c.head (delete_replication_entity c r ctx es reg).0 ref ≡ none
  unfolding delete_replication_entity
  delete_keeps ctx [] reg ref ok gone = gone
  delete_keeps zero (e ∷ es) reg ref ok gone = cc
  delete_keeps (suc ctx) (e ∷ es) reg ref ok gone =
      let here = reference r.remote_registry_url e in
      elim (Bool-cases (c.delete reg here).1) [
        | inl done ↦
            rw (done, delete_replication_entity)
              (delete_keeps ctx es (c.delete reg here).0 ref
                (rw (done, delete_replication_entity) at ok) (delete_one_gone e reg ref done gone))
        | inr failed ↦ cc (rw (failed, delete_replication_entity) at ok)
      ]

  abbrev pub Absent : c.Registry → Entity → Type 0
  Absent reg e = c.head reg (reference r.remote_registry_url e) ≡ none

  delete_step :
      (ctx : ℕ) (e : Entity) (es : List Entity) (reg : c.Registry)
      → (c.delete reg (reference r.remote_registry_url e)).1 ≡ true
      → delete_replication_entity c r (suc ctx) (e ∷ es) reg
        ≡ delete_replication_entity c r ctx es (c.delete reg (reference r.remote_registry_url e)).0
  unfolding delete_replication_entity
  delete_step ctx e es reg done = rw (done, delete_replication_entity)

  -- With a client that keeps the documented behaviour of deletions: if DeleteReplicationEntity
  -- returns no error, nothing is left at the destination of any entity of the list.
  pub delete-Absent :
      (ctx : ℕ) (es : List Entity) (reg : c.Registry)
      → (delete_replication_entity c r ctx es reg).1 ≡ none
      → All (Absent (delete_replication_entity c r ctx es reg).0) es
  unfolding delete_replication_entity
  delete-Absent ctx [] reg ok = tt
  delete-Absent zero (e ∷ es) reg ok = cc
  delete-Absent (suc ctx) (e ∷ es) reg ok =
      let here = reference r.remote_registry_url e in
      elim (Bool-cases (c.delete reg here).1) [
        | inl done ↦
            let reg' = (c.delete reg here).0 in
            let rest : (delete_replication_entity c r ctx es reg').1 ≡ none =
              rw (done, delete_replication_entity) at ok in
            subst (λ out. All (Absent out.0) (e ∷ es)) (sym (delete_step ctx e es reg done))
              (
                delete_keeps ctx es reg' here rest (laws.head-delete_self reg here done),
                delete-Absent ctx es reg' rest,
              )
        | inr failed ↦ cc (rw (failed, delete_replication_entity) at ok)
      ]

  -- Deleting and then replicating, with errors and cancellations at any point, leaves every
  -- reference alone that is the destination of no entity of the two lists.
  pub others_untouched :
      (ctx ctx' : ℕ) (gone new : List Entity) (reg : c.Registry) (ref : String)
      → Elsewhere ref gone
      → Elsewhere ref new
      → c.head (replicate c r ctx' new (delete_replication_entity c r ctx gone reg).0).0 ref
        ≡ c.head reg ref
  others_untouched ctx ctx' gone new reg ref away away' =
      replicate_ne ctx' new (delete_replication_entity c r ctx gone reg).0 ref away'
      ∙ delete_ne ctx gone reg ref away
