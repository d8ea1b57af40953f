-- ===== src/Satellite/Changes/Unchanged.antt =====
-- What `get_changes` leaves alone.
use harbor_satellite.Common.{
  String, ◌≡◌, refl, inl, false, none, some, List, [], ◌∷◌, map, arith, eq_iff, eq_refl,
  if◌then◌else◌, Map, lookup, remove, values, lookup-remove, In, All, All-map,
}
use harbor_satellite.Satellite.State.{
  State, Entity, remove_null_tag_artifacts, fetch_entities_from_state,
}
use harbor_satellite.Satellite.Changes.{
  key, index, schedule, compare_entities, Order, IsOrder, get_changes,
}
use harbor_satellite.Satellite.Changes.Lookups.{last_of, has_key, lookup-index, has_key-last_of}
use harbor_satellite.Satellite.Changes.Converges.{remaining-compare_entities}

-- No two entities have the same name and tag.
abbrev pub HasDistinctKeys : List Entity → Type 0
HasDistinctKeys [] = Unit
HasDistinctKeys (e ∷ es) = (has_key (key e) es ≡ false) × HasDistinctKeys es

-- The entity at another repository.
abbrev pub moved : (Entity → String) → Entity → Entity
moved place e = record e { repository = place e }

abbrev Found : (Entity → String) → Map Entity → List Entity → Type 0
Found place m = All (λ e. lookup (key e) m ≡ some (moved place e))

key-moved : (place : Entity → String) (e : Entity) → key (moved place e) ≡ key e
unfolding key
key-moved place e = refl

Found-remove :
    (place : Entity → String) (k : String) (m : Map Entity) (es : List Entity)
    → has_key k es ≡ false
    → Found place m es
    → Found place (remove k m) es
unfolding has_key
Found-remove place k m [] fresh found = tt
Found-remove place k m (e ∷ es) fresh found = (
  ground (arith, lookup-remove k (key e) m, found.0, eq_iff k (key e), eq_iff (key e) k),
  Found-remove place k m es (ground arith) found.1,
)

nothing_scheduled :
    (place : Entity → String) (m : Map Entity) (es : List Entity)
    → HasDistinctKeys es
    → Found place m es
    → ((compare_entities m es).to_delete ≡ []) × ((compare_entities m es).to_replicate ≡ [])
unfolding compare_entities schedule
nothing_scheduled place m [] distinct found = (refl, refl)
nothing_scheduled place m (e ∷ es) distinct found =
    rw (found.0, schedule, eq_refl e.digest)
      (nothing_scheduled place (remove (key e) m) es distinct.1
        (Found-remove place (key e) m es distinct.0 found.1))

has_key-map :
    (place : Entity → String) (k : String) (es : List Entity)
    → has_key k (map (moved place) es) ≡ has_key k es
unfolding has_key
has_key-map place k [] = refl
has_key-map place k (e ∷ es) = rw (key-moved place e, has_key-map place k es)

Found-last_of :
    (place : Entity → String) (es : List Entity)
    → HasDistinctKeys es
    → All (λ e. last_of (key e) (map (moved place) es) ≡ some (moved place e)) es
unfolding last_of
Found-last_of place [] distinct = tt
Found-last_of place (e ∷ es) distinct = (
  ground (
    arith,
    has_key-last_of (key e) (map (moved place) es),
    has_key-map place (key e) es,
    key-moved place e,
    eq_refl (key e),
    distinct.0,
  ),
  All-map (λ v. last_of (key v) (map (moved place) es) ≡ some (moved place v))
      (λ v. last_of (key v) (map (moved place) (e ∷ es)) ≡ some (moved place v))
      (λ v h. rw (h, last_of)) es (Found-last_of place es distinct.1),
)

Found-index :
    (place : Entity → String) (es : List Entity)
    → HasDistinctKeys es
    → Found place (index [] (map (moved place) es)) es
Found-index place es distinct =
    All-map (λ v. last_of (key v) (map (moved place) es) ≡ some (moved place v)) _
      (λ v h. ground (arith, lookup-index (key v) [] (map (moved place) es), h)) es
      (Found-last_of place es distinct)

has_key-map_self :
    (place : Entity → String) (k : String) (es : List Entity)
    → lookup k (index [] (map (moved place) es))
      ≡ (if has_key k es then lookup k (index [] (map (moved place) es)) else none)
has_key-map_self place k es = ground (
  arith,
  lookup-index k [] (map (moved place) es),
  has_key-map place k es,
  has_key-last_of k (map (moved place) es),
  empty k,
)
  where
    empty : (k : String) → lookup {V = Entity} k [] ≡ none
    empty k = unfold lookup in refl

empty_of_lookup : (m : Map Entity) → ((k : String) → lookup k m ≡ none) → m ≡ []
unfolding lookup
empty_of_lookup [] h = refl
empty_of_lookup ((j, v) ∷ m) h = ground (arith, h j, eq_refl j)

order_nil : (order : Order) → IsOrder order → order [] ≡ []
unfolding values
order_nil order ordered = go (order []) (λ e. (ordered [] e).0)
  where
    go : (xs : List Entity) → ((e : Entity) → In e xs → ⊥) → xs ≡ []
    go [] h = refl
    go (x ∷ xs) h = absurd (h x (inl refl))

-- Where the entities of the new state have distinct keys, and the entities replicated last are the
-- same but for their repositories, which may be any, nothing is deleted and nothing is replicated.
-- So an unchanged state causes no work; and an image that moved to another repository under its
-- name, tag and digest is not replicated there, nor deleted where it was.
pub get_changes-moved :
    (order : Order) (new : State) (place : Entity → String)
    → IsOrder order
    → HasDistinctKeys (fetch_entities_from_state (remove_null_tag_artifacts new))
    → get_changes order new
        (some (map (moved place) (fetch_entities_from_state (remove_null_tag_artifacts new))))
      ≡ ([], [], remove_null_tag_artifacts new)
unfolding get_changes
get_changes-moved order new place ordered distinct =
    rw (scheduled.0, scheduled.1, none_left, order_nil order ordered)
  where
    es : List Entity
    es = fetch_entities_from_state (remove_null_tag_artifacts new)

    m : Map Entity
    m = index [] (map (moved place) es)

    scheduled :
        ((compare_entities m es).to_delete ≡ []) × ((compare_entities m es).to_replicate ≡ [])
    scheduled = nothing_scheduled place m es distinct (Found-index place es distinct)

    none_left : (compare_entities m es).remaining ≡ []
    none_left =
        empty_of_lookup (compare_entities m es).remaining
          (λ k. ground (arith, remaining-compare_entities k m es, has_key-map_self place k es))
