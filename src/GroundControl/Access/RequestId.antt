-- ===== src/GroundControl/Access/RequestId.antt =====
-- What can get into the audit log as the id of a request.
use Prim.Native.Char.{Char, code}
use Prim.Native.String.{len}
use harbor_satellite.Common.{
  eqb_iff, subst, ℕ, ◌≤◌, String, ◌≡◌, refl, ◌⊎◌, inl, inr, Bool, true, false, ◌&&◌, ◌||◌, leb, eqb,
  arith, Bool-cases, ltb,
}
use harbor_satellite.GroundControl.Access.{
  contains_rune, allowed_runes, all_allowed, valid_request_id, request_id,
}

-- A letter or a digit of ASCII, a dot, an underscore or a dash, by its number.
abbrev pub is_plain : ℕ → Bool
is_plain n =
    (leb 48 n && leb n 57)
    || (leb 65 n && leb n 90)
    || (leb 97 n && leb n 122)
    || eqb n 45
    || eqb n 46
    || eqb n 95

abbrev pub EachPlain : String → Type 0
EachPlain String.[] = Unit
EachPlain (String.◌∷◌ c s) = (is_plain (code c) ≡ true) × EachPlain s

abbrev pub Safe : String → Type 0
Safe s = (1 ≤ len s) × (len s ≤ 128) × EachPlain s

abbrev pub each_plain : String → Bool
each_plain String.[] = true
each_plain (String.◌∷◌ c s) = is_plain (code c) && each_plain s

and_parts : (a b : Bool) → (a && b) ≡ true → (a ≡ true) × (b ≡ true)
and_parts true b h = (refl, h)
and_parts false b h = cc h

pub each_plain-EachPlain : (s : String) → each_plain s ≡ true → EachPlain s
each_plain-EachPlain String.[] h = tt
each_plain-EachPlain (String.◌∷◌ c s) h =
    let parts = and_parts (is_plain (code c)) (each_plain s) h in
    (parts.0, each_plain-EachPlain s parts.1)

contains_rune-plain :
    (s : String) (c : Char)
    → each_plain s ≡ true
    → contains_rune s c ≡ true
    → is_plain (code c) ≡ true
unfolding contains_rune
contains_rune-plain String.[] c plain h = cc h
contains_rune-plain (String.◌∷◌ x s) c plain h =
    let parts = and_parts (is_plain (code x)) (each_plain s) plain in
    elim (Bool-cases (eqb (code x) (code c))) [
      | inl same ↦ subst (λ n. is_plain n ≡ true) ((eqb_iff (code x) (code c)).0 same) parts.0
      | inr other ↦ contains_rune-plain s c parts.1 (rw other at h)
    ]

all_allowed-EachPlain : (s : String) → all_allowed s ≡ true → EachPlain s
unfolding all_allowed
all_allowed-EachPlain String.[] h = tt
all_allowed-EachPlain (String.◌∷◌ c s) h = elim (Bool-cases (contains_rune allowed_runes c)) [
  | inl plain ↦
      (contains_rune-plain allowed_runes c refl plain, all_allowed-EachPlain s (rw plain at h))
  | inr other ↦ cc (rw other at h)
]

valid_request_id-Safe : (s : String) → valid_request_id s ≡ true → Safe s
unfolding valid_request_id
valid_request_id-Safe s h = elim (Bool-cases (eqb (len s) 0 || ltb 128 (len s))) [
  | inl out ↦ cc (rw (out, valid_request_id) at h)
  | inr within ↦
      (ground arith, ground arith, all_allowed-EachPlain s (rw (within, valid_request_id) at h))
]

-- Whatever the header of a request holds: the id that is attached to the request is the header or the
-- new UUID, and if the UUID has 1 to 128 bytes and only ASCII letters, digits, dots, underscores and
-- dashes, so has the id.
pub request_id-Safe :
    (header uuid : String)
    → Safe uuid
    → ((request_id header uuid ≡ header) ⊎ (request_id header uuid ≡ uuid))
      × Safe (request_id header uuid)
unfolding request_id valid_request_id
request_id-Safe header uuid safe = elim (Bool-cases (valid_request_id header)) [
  | inr invalid ↦ rw (invalid, request_id) (inr refl, safe)
  | inl valid ↦ rw (valid, request_id) (inl refl, valid_request_id-Safe header valid)
]
