-- ===== src/Satellite/Changes/Converges.antt =====
-- Proofs about GetChanges: what its two lists do to a catalog of entities.
use harbor_satellite.Common.{
  String, ◌≡◌, refl, subst, sym, inl, inr, Bool, true, false, Option, none, some, List, [], ◌∷◌,
  ◌++◌, arith, eq_iff, if◌then◌else◌, Bool-cases, Option-cases, Map, lookup, remove, lookup-remove,
  In,
}
use harbor_satellite.Satellite.State.{
  State, Entity, remove_null_tag_artifacts, fetch_entities_from_state,
}
use harbor_satellite.Satellite.Changes.{
  key, index, schedule, Diff, compare_entities, Order, IsOrder, Slice, get_changes,
}
use harbor_satellite.Satellite.Changes.Lookups.{
  last_of, has_key, or_else, drop_all, IsKeyed, lookup-index, lookup-drop_all, has_key-append,
  has_key-last_of, last_of-has_key, has_key_of_In, In-of_has_key, In-values, IsKeyed-remove,
  IsKeyed-index, key-lookup, lookup_of_In,
}

pub remaining-compare_entities :
    (k : String) (m : Map Entity) (es : List Entity)
    → lookup k (compare_entities m es).remaining ≡ (if has_key k es then none else lookup k m)
unfolding compare_entities schedule has_key
remaining-compare_entities k m [] = refl
remaining-compare_entities k m (e ∷ es) =
    ground (arith, remaining-compare_entities k (remove (key e) m) es, lookup-remove (key e) k m)

remaining-schedule :
    (e : Entity) (o : Option Entity) (d : Diff) → (schedule e o d).remaining ≡ d.remaining
unfolding schedule
remaining-schedule e none d = refl
remaining-schedule e (some old) d = ground arith

pub IsKeyed-remaining :
    (m : Map Entity) (es : List Entity) → IsKeyed m → IsKeyed (compare_entities m es).remaining
unfolding compare_entities
IsKeyed-remaining m [] keyed = keyed
IsKeyed-remaining m (e ∷ es) keyed =
    rw (remaining-schedule e (lookup (key e) m) (compare_entities (remove (key e) m) es))
      (IsKeyed-remaining (remove (key e) m) es (IsKeyed-remove (key e) m keyed))

-- Only the keys of the new entities are scheduled by the loop.
to_replicate_other :
    (k : String) (m : Map Entity) (es : List Entity)
    → has_key k es ≡ false
    → last_of k (compare_entities m es).to_replicate ≡ none
unfolding compare_entities schedule has_key last_of
to_replicate_other k m [] h = refl
to_replicate_other k m (e ∷ es) h = ground (arith, to_replicate_other k (remove (key e) m) es)

to_delete_other :
    (k : String) (m : Map Entity) (es : List Entity)
    → IsKeyed m
    → has_key k es ≡ false
    → has_key k (compare_entities m es).to_delete ≡ false
unfolding compare_entities schedule has_key
to_delete_other k m [] keyed h = refl
to_delete_other k m (e ∷ es) keyed h =
    let rest = to_delete_other k (remove (key e) m) es (IsKeyed-remove (key e) m keyed) in
    elim (Option-cases (lookup (key e) m)) [
      | inl fresh ↦ rw (fresh, schedule) (rest (ground arith))
      | inr (old, found) ↦
          rw (found, schedule) (ground (arith, rest, key-lookup (key e) old m keyed found))
    ]

abbrev pub digest_of : Option Entity → Option String
digest_of none = none
digest_of (some e) = some e.digest

-- What is there of a key when the deletions and the replications of the loop are done.
abbrev outcome : String → Map Entity → List Entity → Diff → Option Entity
outcome k m es d =
    or_else (last_of k d.to_replicate)
      (if has_key k d.to_delete then none else if has_key k es then lookup k m else none)

digest_of-outcome :
    (k : String) (m : Map Entity) (es : List Entity)
    → IsKeyed m
    → digest_of (outcome k m es (compare_entities m es)) ≡ digest_of (last_of k es)
unfolding compare_entities schedule has_key last_of
digest_of-outcome k m [] keyed = refl
digest_of-outcome k m (e ∷ es) keyed =
    let rest = remove (key e) m in
    let keyed' = IsKeyed-remove (key e) m keyed in
    elim (Option-cases (lookup (key e) m)) [
      | inl fresh ↦
          rw (fresh, schedule)
            (ground (
              arith,
              digest_of-outcome k rest es keyed',
              to_replicate_other k rest es,
              to_delete_other k rest es keyed',
              has_key-last_of k es,
              lookup-remove (key e) k m,
              eq_iff (key e) k,
            ))
      | inr (old, found) ↦
          rw (found, schedule)
            (ground (
              arith,
              digest_of-outcome k rest es keyed',
              to_replicate_other k rest es,
              to_delete_other k rest es keyed',
              has_key-last_of k es,
              last_of-has_key k es,
              lookup-remove (key e) k m,
              eq_iff (key e) k,
              eq_iff e.digest old.digest,
              key-lookup (key e) old m keyed found,
              found,
            ))
    ]

-- The registry, read by key: the deletions first, then the replications.
pub apply_changes : List Entity → List Entity → Map Entity → Map Entity
apply_changes to_delete to_replicate m = index (drop_all to_delete m) to_replicate

abbrev is_some : Option Entity → Bool
is_some none = false
is_some (some e) = true

has_key-order :
    (order : Order) (k : String) (m : Map Entity)
    → IsOrder order
    → IsKeyed m
    → has_key k (order m) ≡ is_some (lookup k m)
has_key-order order k m ordered keyed = elim (Bool-cases (has_key k (order m))) [
  | inl listed ↦ rw listed (sym (found (In-of_has_key k (order m) listed)))
  | inr missing ↦ elim (Option-cases (lookup k m)) [
    | inl absent ↦ rw (missing, absent)
    | inr (e, here) ↦ cc (
        subst (λ j. has_key j (order m) ≡ true) (key-lookup k e m keyed here)
          (has_key_of_In e (order m) ((ordered m e).1 (In-values k e m here))))
  ]
]
  where
    found : (e : Entity) × In e (order m) × (key e ≡ k) → is_some (lookup k m) ≡ true
    found (e, listed, e-key) =
        subst (λ j. is_some (lookup j m) ≡ true) e-key
          (rw (lookup_of_In e m keyed ((ordered m e).0 listed)))

abbrev pub entities : Slice → List Entity
entities none = []
entities (some es) = es

abbrev pub Converges : Order → State → Slice → Type 0
Converges order new old =
    let changes = get_changes order new old in
    (k : String)
    → digest_of (lookup k (apply_changes changes.0 changes.1 (index [] (entities old))))
      ≡ digest_of (last_of k (fetch_entities_from_state (remove_null_tag_artifacts new)))

after_loop :
    (order : Order) (k : String) (m : Map Entity) (es : List Entity)
    → IsOrder order
    → IsKeyed m
    → let d = compare_entities m es in
      lookup k (apply_changes (d.to_delete ++ order d.remaining) d.to_replicate m)
      ≡ outcome k m es d
unfolding apply_changes
after_loop order k m es ordered keyed =
    let d = compare_entities m es in
    ground (
      arith,
      lookup-index k (drop_all (d.to_delete ++ order d.remaining) m) d.to_replicate,
      lookup-drop_all k (d.to_delete ++ order d.remaining) m,
      has_key-append k d.to_delete (order d.remaining),
      has_key-order order k d.remaining ordered (IsKeyed-remaining m es keyed),
      remaining-compare_entities k m es,
    )

nothing_before :
    (k : String) (es : List Entity) (o : Option Entity)
    → last_of k es ≡ o
    → digest_of (lookup k (apply_changes [] es (index [] []))) ≡ digest_of (last_of k es)
unfolding apply_changes index drop_all
nothing_before k es none e = rw (lookup-index k [] es, e) (unfold lookup in refl)
nothing_before k es (some v) e = rw (lookup-index k [] es, e) refl

-- Take a catalog that holds exactly the entities replicated last, apply the deletions and then the
-- replications that `get_changes` asks for, in whatever order the map is ranged over: it then holds
-- exactly the tagged entities of the new state. Read at any key (name and tag), the digest there is
-- that of the last such entity of the key, and nothing is there where the new state has none.
pub get_changes-Converges :
    (order : Order) (new : State) (old : Slice) → IsOrder order → Converges order new old
unfolding get_changes
get_changes-Converges order new none ordered k =
    let es = fetch_entities_from_state (remove_null_tag_artifacts new) in
    nothing_before k es (last_of k es) refl
get_changes-Converges order new (some olds) ordered k =
    let m = index [] olds in
    let es = fetch_entities_from_state (remove_null_tag_artifacts new) in
    let keyed = IsKeyed-index [] olds tt in
    rw (after_loop order k m es ordered keyed) (digest_of-outcome k m es keyed)
