-- ===== src/Satellite/Replicator/Copies.antt =====
-- Proofs about Replicate and its destinations.
use text.Mathlib.TextLemmas.{append_cancel_left}
use harbor_satellite.Common.{
  ℕ, zero, suc, ◌≤◌, String, ◌⧺◌, ◌≡◌, refl, sym, ap, subst, ◌∙◌, ◌≢◌, inl, inr, none, some, List,
  [], ◌∷◌, ◌==◌, eq_iff, eq_refl, Bool-cases, Option-cases, All, arith, length,
}
use harbor_satellite.Satellite.State.{Entity}
use harbor_satellite.Satellite.Replicator.{
  reference, Client, ClientLaws, Replicator, Source, source_error, source_image, digest_image,
  resolve, copy_image, replicate_one, replicate,
}

-- Two entities with one destination have one source.
reference-eq :
    (a b : String) (e f : Entity) → reference b e ≡ reference b f → reference a e ≡ reference a f
unfolding reference
reference-eq a b e f h = ap (λ s. a ⧺ s) (append_cancel_left b _ _ h)

module _ (c : Client) (laws : ClientLaws c) (r : Replicator) where
  -- The destination of the entity has the digest of its source.
  abbrev pub Synced : c.Registry → Entity → Type 0
  Synced reg e =
      (i : c.Image) × (d : String) × (resolve c r e ≡ source_image i d)
      × (c.head reg (reference r.remote_registry_url e) ≡ some d)

  digest_image-digest :
      (i j : c.Image) (d : String) → digest_image c i ≡ source_image j d → c.digest j ≡ some d
  unfolding digest_image
  digest_image-digest i j d h = ground arith

  resolve-digest :
      (e : Entity) (i : c.Image) (d : String)
      → resolve c r e ≡ source_image i d
      → c.digest i ≡ some d
  unfolding resolve
  resolve-digest e i d h = ground arith

  copy_image_ok :
      (reg : c.Registry) (dst : String) (i : c.Image) (d : String)
      → c.digest i ≡ some d
      → (copy_image c reg dst i d).1 ≡ none
      → c.head (copy_image c reg dst i d).0 dst ≡ some d
  unfolding copy_image
  copy_image_ok reg dst i d hd ok = elim (Option-cases (c.head reg dst)) [
    | inl absent ↦ ground (arith, laws.head-write_self reg dst i d hd, absent)
    | inr (h, present) ↦ ground (arith, laws.head-write_self reg dst i d hd, present, eq_iff h d)
  ]

  copy_image_ne :
      (reg : c.Registry) (dst other : String) (i : c.Image) (d : String)
      → dst ≢ other
      → c.head (copy_image c reg dst i d).0 other ≡ c.head reg other
  unfolding copy_image
  copy_image_ne reg dst other i d ne = ground (arith, laws.head-write_ne reg dst other i ne)

  -- A round without an error syncs its entity.
  replicate_one_ok :
      (e : Entity) (reg : c.Registry) (s : Source c)
      → resolve c r e ≡ s
      → (replicate_one c r e reg).1 ≡ none
      → Synced (replicate_one c r e reg).0 e
  unfolding replicate_one
  replicate_one_ok e reg (source_error x) found ok = cc (rw (found, replicate_one) at ok)
  replicate_one_ok e reg (source_image i d) found ok = (
    i,
    d,
    found,
    rw (found, replicate_one)
        (copy_image_ok reg _ i d (resolve-digest e i d found) (rw (found, replicate_one) at ok)),
  )

  pub replicate_one_ne :
      (e : Entity) (reg : c.Registry) (other : String)
      → reference r.remote_registry_url e ≢ other
      → c.head (replicate_one c r e reg).0 other ≡ c.head reg other
  unfolding replicate_one
  replicate_one_ne e reg other ne = go (resolve c r e) refl
    where
      go :
          (s : Source c)
          → resolve c r e ≡ s
          → c.head (replicate_one c r e reg).0 other ≡ c.head reg other
      go (source_error x) found = rw (found, replicate_one)
      go (source_image i d) found = rw (found, replicate_one) (copy_image_ne reg _ other i d ne)

  resolve-eq :
      (e f : Entity)
      → reference r.remote_registry_url e ≡ reference r.remote_registry_url f
      → resolve c r e ≡ resolve c r f
  unfolding resolve
  resolve-eq e f h = rw (h, reference-eq r.source_registry r.remote_registry_url e f h)

  -- Nor does it undo what was synced before.
  replicate_one_keeps :
      (e f : Entity) (reg : c.Registry)
      → (replicate_one c r e reg).1 ≡ none
      → Synced reg f
      → Synced (replicate_one c r e reg).0 f
  replicate_one_keeps e f reg ok (i, d, found, there) =
      elim (Bool-cases (reference r.remote_registry_url e == reference r.remote_registry_url f)) [
        | inl same ↦
            let h = (eq_iff _ _).0 same in
            let (j, k, resolved, now) = replicate_one_ok e reg (resolve c r e) refl ok in
            (
              j,
              k,
              sym (resolve-eq e f h) ∙ resolved,
              ap (c.head (replicate_one c r e reg).0) (sym h) ∙ now,
            )
        | inr other ↦
            (i, d, found, replicate_one_ne e reg _ (λ h. cc (other, (eq_iff _ _).1 h)) ∙ there)
      ]

  -- A round without an error goes on with the rest of the list.
  replicate_step :
      (ctx : ℕ) (e : Entity) (es : List Entity) (reg : c.Registry)
      → (replicate_one c r e reg).1 ≡ none
      → replicate c r (suc ctx) (e ∷ es) reg ≡ replicate c r ctx es (replicate_one c r e reg).0
  unfolding replicate
  replicate_step ctx e es reg fine = rw (fine, replicate)

  replicate_keeps :
      (ctx : ℕ) (es : List Entity) (f : Entity) (reg : c.Registry)
      → (replicate c r ctx es reg).1 ≡ none
      → Synced reg f
      → Synced (replicate c r ctx es reg).0 f
  unfolding replicate
  replicate_keeps ctx [] f reg ok there = there
  replicate_keeps zero (e ∷ es) f reg ok there = cc
  replicate_keeps (suc ctx) (e ∷ es) f reg ok there =
      elim (Option-cases (replicate_one c r e reg).1) [
        | inl fine ↦
            rw (fine, replicate)
              (replicate_keeps ctx es f (replicate_one c r e reg).0 (rw (fine, replicate) at ok)
                (replicate_one_keeps e f reg fine there))
        | inr (x, failed) ↦ cc (rw (failed, replicate) at ok)
      ]

  pub replicate-Synced :
      (ctx : ℕ) (es : List Entity) (reg : c.Registry)
      → (replicate c r ctx es reg).1 ≡ none
      → All (Synced (replicate c r ctx es reg).0) es
  unfolding replicate
  replicate-Synced ctx [] reg ok = tt
  replicate-Synced zero (e ∷ es) reg ok = cc
  replicate-Synced (suc ctx) (e ∷ es) reg ok = elim (Option-cases (replicate_one c r e reg).1) [
    | inl fine ↦
        let reg' = (replicate_one c r e reg).0 in
        let step = replicate_step ctx e es reg fine in
        let rest : (replicate c r ctx es reg').1 ≡ none = rw (fine, replicate) at ok in
        subst (λ out. All (Synced out.0) (e ∷ es)) (sym step)
          (
            replicate_keeps ctx es e reg' rest (replicate_one_ok e reg (resolve c r e) refl fine),
            replicate-Synced ctx es reg' rest,
          )
    | inr (x, failed) ↦ cc (rw (failed, replicate) at ok)
  ]

  replicate_one_synced :
      (e : Entity) (reg : c.Registry) → Synced reg e → replicate_one c r e reg ≡ (reg, none)
  unfolding replicate_one copy_image
  replicate_one_synced e reg (i, d, found, there) =
      rw (found, replicate_one) (rw (there, eq_refl d) refl)

  replicate_synced :
      (ctx : ℕ) (es : List Entity) (reg : c.Registry)
      → length es ≤ ctx
      → All (Synced reg) es
      → replicate c r ctx es reg ≡ (reg, none)
  unfolding replicate
  replicate_synced ctx [] reg h all = refl
  replicate_synced zero (e ∷ es) reg h all = absurd (omega arith)
  replicate_synced (suc ctx) (e ∷ es) reg h all =
      let one = replicate_one_synced e reg all.0 in
      replicate_step ctx e es reg (ap (λ out. out.1) one)
      ∙ ap (λ out. replicate c r ctx es out.0) one
      ∙ replicate_synced ctx es reg (omega arith) all.1

  -- With a client that keeps the documented behaviour of writes: if Replicate returns no error, then
  -- at the end the destination of every entity of the list has the digest of its source image; and
  -- to replicate the list again, with a context that is not cancelled, writes nothing.
  pub replicate_ok :
      (ctx again : ℕ) (es : List Entity) (reg : c.Registry)
      → (replicate c r ctx es reg).1 ≡ none
      → length es ≤ again
      → All (Synced (replicate c r ctx es reg).0) es
        × (replicate c r again es (replicate c r ctx es reg).0
            ≡ ((replicate c r ctx es reg).0, none))
  replicate_ok ctx again es reg ok h =
      let synced = replicate-Synced ctx es reg ok in
      (synced, replicate_synced again es (replicate c r ctx es reg).0 h synced)
