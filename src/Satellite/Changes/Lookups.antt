-- ===== src/Satellite/Changes/Lookups.antt =====
-- Lists of entities read by their keys.
use harbor_satellite.Common.{
  String, ◌≡◌, refl, inl, inr, Bool, true, false, ◌||◌, Option, none, some, List, [], ◌∷◌, ◌++◌,
  arith, ◌==◌, eq_iff, eq_refl, if◌then◌else◌, Bool-cases, Map, lookup, insert, remove, values,
  lookup-insert, lookup-remove, In,
}
use harbor_satellite.Satellite.State.{Entity}
use harbor_satellite.Satellite.Changes.{key, index}

-- The last entity of a key.
unfoldable pub last_of : String → List Entity → Option Entity
last_of k [] = none
last_of k (e ∷ es) = elim (last_of k es) [
  | some later ↦ some later
  | none ↦ if key e == k then some e else none
]

unfoldable pub has_key : String → List Entity → Bool
has_key k [] = false
has_key k (e ∷ es) = key e == k || has_key k es

abbrev pub or_else : Option Entity → Option Entity → Option Entity
or_else none o = o
or_else (some e) o = some e

unfoldable pub drop_all : List Entity → Map Entity → Map Entity
drop_all [] m = m
drop_all (e ∷ es) m = drop_all es (remove (key e) m)

-- Each entry stands under the key of its entity, and no key has two.
abbrev pub IsKeyed : Map Entity → Type 0
IsKeyed [] = Unit
IsKeyed ((j, e) ∷ m) = (key e ≡ j) × (lookup j m ≡ none) × IsKeyed m

pub lookup-index :
    (k : String) (m : Map Entity) (es : List Entity)
    → lookup k (index m es) ≡ or_else (last_of k es) (lookup k m)
unfolding index last_of
lookup-index k m [] = refl
lookup-index k m (e ∷ es) =
    ground (arith, lookup-index k (insert (key e) e m) es, lookup-insert (key e) k e m)

pub lookup-drop_all :
    (k : String) (es : List Entity) (m : Map Entity)
    → lookup k (drop_all es m) ≡ (if has_key k es then none else lookup k m)
unfolding drop_all has_key
lookup-drop_all k [] m = refl
lookup-drop_all k (e ∷ es) m =
    ground (arith, lookup-drop_all k es (remove (key e) m), lookup-remove (key e) k m)

pub has_key-append :
    (k : String) (xs ys : List Entity) → has_key k (xs ++ ys) ≡ (has_key k xs || has_key k ys)
unfolding has_key
has_key-append k [] ys = refl
has_key-append k (x ∷ xs) ys = ground (arith, has_key-append k xs ys)

pub has_key-last_of : (k : String) (es : List Entity) → has_key k es ≡ false → last_of k es ≡ none
unfolding has_key last_of
has_key-last_of k [] h = refl
has_key-last_of k (e ∷ es) h = ground (arith, has_key-last_of k es)

pub last_of-has_key : (k : String) (es : List Entity) → last_of k es ≡ none → has_key k es ≡ false
unfolding has_key last_of
last_of-has_key k [] h = refl
last_of-has_key k (e ∷ es) h = ground (arith, last_of-has_key k es)

pub has_key_of_In : (e : Entity) (es : List Entity) → In e es → has_key (key e) es ≡ true
unfolding has_key
has_key_of_In e [] h = absurd h
has_key_of_In e (x ∷ es) (inl h) = rw h (rw (eq_refl (key x)) refl)
has_key_of_In e (x ∷ es) (inr h) = ground (arith, has_key_of_In e es h)

pub In-of_has_key :
    (k : String) (es : List Entity) → has_key k es ≡ true → (e : Entity) × In e es × (key e ≡ k)
unfolding has_key
In-of_has_key k [] h = cc
In-of_has_key k (x ∷ es) h = elim (Bool-cases (key x == k)) [
  | inl e ↦ (x, inl refl, (eq_iff (key x) k).0 e)
  | inr e ↦
      let rest : (v : Entity) × In v es × (key v ≡ k) = In-of_has_key k es (ground arith) in
      (rest.0, inr rest.1, rest.2)
]

pub In-values : (k : String) (e : Entity) (m : Map Entity) → lookup k m ≡ some e → In e (values m)
unfolding lookup values
In-values k e [] h = cc
In-values k e ((j, v) ∷ m) h = ground (arith, In-values k e m)

pub IsKeyed-insert : (e : Entity) (m : Map Entity) → IsKeyed m → IsKeyed (insert (key e) e m)
unfolding insert
IsKeyed-insert e [] keyed = (refl, unfold lookup in refl, tt)
IsKeyed-insert e ((j, v) ∷ m) keyed = elim (Bool-cases (j == key e)) [
  | inl same ↦ rw same (refl, ground (arith, eq_iff j (key e), keyed.1), keyed.2)
  | inr other ↦ rw other (
    keyed.0,
    ground (arith, lookup-insert (key e) j e m, eq_iff (key e) j, eq_iff j (key e), keyed.1),
    IsKeyed-insert e m keyed.2,
  )
]

pub IsKeyed-remove : (k : String) (m : Map Entity) → IsKeyed m → IsKeyed (remove k m)
unfolding remove
IsKeyed-remove k [] keyed = tt
IsKeyed-remove k ((j, v) ∷ m) keyed = elim (Bool-cases (j == k)) [
  | inl same ↦ rw same (IsKeyed-remove k m keyed.2)
  | inr other ↦ rw other (
    keyed.0,
    ground (arith, lookup-remove k j m, eq_iff k j, eq_iff j k, keyed.1),
    IsKeyed-remove k m keyed.2,
  )
]

pub IsKeyed-index : (m : Map Entity) (es : List Entity) → IsKeyed m → IsKeyed (index m es)
unfolding index
IsKeyed-index m [] keyed = keyed
IsKeyed-index m (e ∷ es) keyed = IsKeyed-index (insert (key e) e m) es (IsKeyed-insert e m keyed)

pub key-lookup :
    (k : String) (e : Entity) (m : Map Entity) → IsKeyed m → lookup k m ≡ some e → key e ≡ k
unfolding lookup
key-lookup k e [] keyed h = cc
key-lookup k e ((j, v) ∷ m) keyed h = ground (arith, eq_iff j k, key-lookup k e m keyed.2)

pub lookup_of_In :
    (e : Entity) (m : Map Entity) → IsKeyed m → In e (values m) → lookup (key e) m ≡ some e
unfolding lookup values
lookup_of_In e [] keyed h = absurd h
lookup_of_In e ((j, v) ∷ m) keyed (inl h) = ground (arith, eq_iff j (key e), keyed.0)
lookup_of_In e ((j, v) ∷ m) keyed (inr h) =
    ground (arith, eq_iff j (key e), lookup_of_In e m keyed.2 h, keyed.1)
