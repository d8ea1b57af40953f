-- ===== src/Satellite/Replicator/Tests.antt =====
-- The replicator over a client whose registry is a map from references to digests.
use harbor_satellite.Common.{
  Bool, ◌≢◌, distinct, inl, inr, Option-cases, String, ◌⧺◌, ◌≡◌, refl, true, false, none, some, [],
  ◌∷◌, ◌==◌, eq_iff, eq_refl, if◌then◌else◌, Map, lookup, insert, remove, lookup-insert,
  lookup-remove, All, arith,
}
use harbor_satellite.Satellite.State.{Entity}
use harbor_satellite.Satellite.Replicator.{
  reference, Client, ClientLaws, cancelled, Replicator, digest_image, resolve_image,
  resolve_descriptor, resolve, copy_image, replicate_one, replicate, delete_replication_entity,
}
use harbor_satellite.Satellite.Replicator.Copies.{Synced, replicate_ok}
use harbor_satellite.Satellite.Replicator.Deletions.{others_untouched, Absent, delete-Absent}

unfoldable pub erase : Map String → String → Map String × Bool
erase reg ref = elim (lookup ref reg) [ none ↦ (reg, false) | some d ↦ (remove ref reg, true) ]

lookup-erase :
    (reg : Map String) (ref : String)
    → (erase reg ref).1 ≡ true
    → lookup ref (erase reg ref).0 ≡ none
unfolding erase
lookup-erase reg ref ok = elim (Option-cases (lookup ref reg)) [
  | inl absent ↦ cc (rw (absent, erase) at ok)
  | inr (d, there) ↦ rw (there, erase) (ground (arith, lookup-remove ref ref reg, eq_refl ref))
]

lookup-erase_ne :
    (reg : Map String) (ref other : String)
    → ref ≢ other
    → lookup other (erase reg ref).0 ≡ lookup other reg
unfolding erase
lookup-erase_ne reg ref other ne = elim (Option-cases (lookup ref reg)) [
  | inl absent ↦ rw (absent, erase) refl
  | inr (d, there) ↦
      rw (there, erase) (ground (arith, lookup-remove ref other reg, eq_iff ref other, ne))
]

-- An image is its digest, and the source has one for each reference that parses.
abbrev pub client : Client
client = record {
  Registry = Map String;
  Descriptor = String;
  Image = String;
  parses = λ ref. if ref == "local/library/bad:1" then false else true;
  fetch = λ ref. some ("sha256:" ⧺ ref);
  image = λ d. some d;
  to_oci = λ i. i;
  digest = λ i. some i;
  has_layers = λ i. true;
  head = λ reg ref. lookup ref reg;
  write = λ reg ref i. (insert ref i reg, true);
  delete = erase;
}

pub client-laws : ClientLaws client
client-laws = record {
  head-write_self = λ reg ref i d h ok. ground (arith, lookup-insert ref ref i reg, eq_refl ref, h);
  head-write_ne =
      λ reg ref other i ne. ground (arith, lookup-insert ref other i reg, eq_iff ref other, ne);
  head-delete_self = lookup-erase;
  head-delete_ne = lookup-erase_ne;
}

pub client-refuses :
    (reg : Map String) (ref : String)
    → client.head reg ref ≡ none
    → (client.delete reg ref).1 ≡ false
unfolding erase
client-refuses reg ref absent = rw (absent, erase) refl

abbrev pub replicator : Replicator
replicator = record { source_registry = "harbor"; remote_registry_url = "local" }

abbrev nginx : Entity
nginx = record { name = "nginx"; repository = "library"; tag = "1"; digest = "sha256:a" }

abbrev redis : Entity
redis = record { name = "redis"; repository = "library"; tag = "7"; digest = "sha256:b" }

abbrev before : Map String
before = ("local/library/nginx:1", "sha256:old") ∷ ("local/library/kept:1", "sha256:k") ∷ []

abbrev after : Map String
after =
    ("local/library/nginx:1", "sha256:harbor/library/nginx:1")
    ∷ ("local/library/kept:1", "sha256:k")
    ∷ ("local/library/redis:7", "sha256:harbor/library/redis:7")
    ∷ []

two_copied : replicate client replicator 2 (nginx ∷ redis ∷ []) before ≡ (after, none)
unfolding replicate replicate_one resolve resolve_descriptor resolve_image digest_image copy_image
    reference lookup insert
two_copied = refl

-- A context that is cancelled after one round.
one_copied : (replicate client replicator 1 (nginx ∷ redis ∷ []) before).1 ≡ some cancelled
unfolding replicate replicate_one resolve resolve_descriptor resolve_image digest_image copy_image
    reference lookup insert
one_copied = refl

replicate_ok_example :
    All (Synced client client-laws replicator after) (nginx ∷ redis ∷ [])
    × (replicate client replicator 2 (nginx ∷ redis ∷ []) after ≡ (after, none))
unfolding replicate replicate_one resolve resolve_descriptor resolve_image digest_image copy_image
    reference lookup insert
replicate_ok_example =
    replicate_ok client client-laws replicator 2 2 (nginx ∷ redis ∷ []) before refl (omega arith)

others_untouched_example :
    client.head
      (replicate client replicator 0
        (redis ∷ [])
        (delete_replication_entity client replicator 1 (nginx ∷ []) before).0).0
      "local/library/kept:1"
    ≡ some "sha256:k"
unfolding reference lookup
others_untouched_example =
    others_untouched client client-laws replicator 1 0 (nginx ∷ []) (redis ∷ []) before
      "local/library/kept:1" (distinct refl, tt) (distinct refl, tt)

delete-Absent_example :
    All
      (Absent client client-laws replicator (("local/library/kept:1", "sha256:k") ∷ []))
      (nginx ∷ [])
unfolding delete_replication_entity reference remove lookup erase
delete-Absent_example = delete-Absent client client-laws replicator 1 (nginx ∷ []) before refl
