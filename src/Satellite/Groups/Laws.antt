-- ===== src/Satellite/Groups/Laws.antt =====
-- Proofs about updateStateMap: which updates change nothing.
use mathlib.Core.List.{append-nil}
use harbor_satellite.Common.{
  ℕ, String, ◌≡◌, ◌↔◌, ◌==◌, eq_refl, refl, sym, ap, ◌∙◌, Bool, true, false, not, ◌||◌, List, [],
  ◌∷◌, ltb, length, keep, All, All-keep, All-append, All-map, keep_all, keep_none, arith,
}
use harbor_satellite.Satellite.Groups.{
  StateMap, new_state_map, contains, has_group, update_state_map,
}
use harbor_satellite.Satellite.Groups.Members.{
  update_state_map-groups, All-contains, All-listed, All-keep_of,
}

-- Where every listed URL is followed and every group is listed, an update changes nothing.
settled :
    (states : List String) (groups : List StateMap)
    → All (λ u. has_group groups u ≡ true) states
    → All (λ g. contains states g.url ≡ true) groups
    → update_state_map states groups ≡ (groups, false)
unfolding update_state_map
settled states groups known listed =
    rw (nothing_new, nothing_removed, everything_kept)
      (unfold new_state_map in ap (λ gs. (gs, false)) (append-nil groups))
  where
    nothing_new : keep (λ u. not (has_group groups u)) states ≡ []
    nothing_new = keep_none _ states (All-map _ _ (λ u h. rw h) states known)

    nothing_removed : keep (λ g. not (contains states g.url)) groups ≡ []
    nothing_removed = keep_none _ groups (All-map _ _ (λ g h. rw h) groups listed)

    everything_kept : keep (λ g. contains states g.url) groups ≡ groups
    everything_kept = keep_all _ groups listed

all_listed :
    (states : List String) (groups : List StateMap)
    → All (λ g. contains states g.url ≡ true) (update_state_map states groups).0
unfolding update_state_map
all_listed states groups =
    All-append (λ g. contains states g.url ≡ true) (keep (λ g. contains states g.url) groups) _
      (All-keep (λ g. contains states g.url) groups)
      (All-listed states (keep (λ u. not (has_group groups u)) states) (
        All-keep_of (contains states) (λ u. not (has_group groups u)) states (All-contains states)))

update_state_map_idem :
    (states : List String) (groups : List StateMap)
    → let updated = (update_state_map states groups).0 in
      update_state_map states updated ≡ (updated, false)
update_state_map_idem states groups = settled states updated known (all_listed states groups)
  where
    updated : List StateMap
    updated = (update_state_map states groups).0

    known : All (λ u. has_group updated u ≡ true) states
    known =
        All-map (λ u. contains states u ≡ true) (λ u. has_group updated u ≡ true)
          (λ u h. (update_state_map-groups states groups).0 u ∙ h) states (All-contains states)

length-zero {ℓ} : {A : Type ℓ} (xs : List A) → length xs ≡ 0 → xs ≡ []
length-zero [] h = refl
length-zero (x ∷ xs) h = absurd (omega arith)

none_removed :
    (p : StateMap → Bool) (gs : List StateMap) → keep (λ g. not (p g)) gs ≡ [] → keep p gs ≡ gs
unfolding keep
none_removed p [] h = refl
none_removed p (g ∷ gs) h = ground (arith, none_removed p gs)

no_counts : (a b : ℕ) → (ltb 0 a || ltb 0 b) ≡ false → (a ≡ 0) × (b ≡ 0)
no_counts a b h = ground arith

-- An update that reports no change leaves the list of groups as it was, and the groups followed are
-- the listed ones.
quiet :
    (states : List String) (groups : List StateMap)
    → (update_state_map states groups).1 ≡ false
    → ((update_state_map states groups).0 ≡ groups)
      × ((u : String) → has_group groups u ≡ contains states u)
unfolding update_state_map
quiet states groups h =
    let counts = no_counts _ _ h in
    let nothing_new = length-zero (keep (λ u. not (has_group groups u)) states) counts.0 in
    let same : (update_state_map states groups).0 ≡ groups =
      rw (nothing_new, none_removed (λ g. contains states g.url) groups (length-zero _ counts.1))
        (unfold new_state_map in append-nil groups) in
    (same, λ u. ap (λ gs. has_group gs u) (sym same) ∙ (update_state_map-groups states groups).0 u)

All-has_group : (groups : List StateMap) → All (λ g. has_group groups g.url ≡ true) groups
unfolding has_group
All-has_group [] = tt
All-has_group (g ∷ gs) = (
  ground (arith, eq_refl g.url),
  All-map (λ k. has_group gs k.url ≡ true) (λ k. (g.url == k.url || has_group gs k.url) ≡ true)
      (λ k h. ground arith) gs (All-has_group gs),
)

-- An update reports no change exactly if the groups followed are the listed ones. It keeps the list
-- of groups as it is then, in order and with all that is known of each. Another update with the same
-- URLs is no change.
pub update_state_map_unchanged :
    (states : List String) (groups : List StateMap)
    → let updated = (update_state_map states groups).0 in
      ((update_state_map states groups).1 ≡ false
        ↔ ((u : String) → has_group groups u ≡ contains states u))
      × (((u : String) → has_group groups u ≡ contains states u)
          → update_state_map states groups ≡ (groups, false))
      × (update_state_map states updated ≡ (updated, false))
update_state_map_unchanged states groups = (
  (λ h. (quiet states groups h).1, λ same. ap (λ r. r.1) (still same)),
  still,
  update_state_map_idem states groups,
)
  where
    still :
        ((u : String) → has_group groups u ≡ contains states u)
        → update_state_map states groups ≡ (groups, false)
    still same =
        settled states groups
          (All-map (λ u. contains states u ≡ true) _ (λ u h. same u ∙ h) states
            (All-contains states))
          (All-map (λ g. has_group groups g.url ≡ true) _ (λ g h. sym (same g.url) ∙ h) groups
            (All-has_group groups))
