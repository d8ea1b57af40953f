-- ===== src/Satellite/Groups/Members.antt =====
-- Which groups an update keeps and adds.
use harbor_satellite.Common.{
  String, ◌≡◌, refl, sym, ap, ◌∙◌, ◌↔◌, ◌⊎◌, inl, inr, Bool, true, false, not, ◌||◌, List, [], ◌∷◌,
  ◌++◌, ◌==◌, eq_iff, eq_refl, if◌then◌else◌, keep, In, In-append, In-keep, All, All-map, arith,
  Bool-cases,
}
use harbor_satellite.Satellite.Groups.{
  StateMap, fresh_group, new_state_map, contains, has_group, update_state_map,
}

has_group-append :
    (gs hs : List StateMap) (u : String)
    → has_group (gs ++ hs) u ≡ (has_group gs u || has_group hs u)
unfolding has_group
has_group-append [] hs u = refl
has_group-append (g ∷ gs) hs u = ground (arith, has_group-append gs hs u)

has_group-new_state_map :
    (us : List String) (u : String) → has_group (new_state_map us) u ≡ contains us u
unfolding has_group contains new_state_map
has_group-new_state_map [] u = refl
has_group-new_state_map (v ∷ us) u = ground (arith, has_group-new_state_map us u)

contains-keep :
    (p : String → Bool) (us : List String) (u : String)
    → contains (keep p us) u ≡ (if p u then contains us u else false)
unfolding contains keep
contains-keep p [] u = ground arith
contains-keep p (v ∷ us) u = elim (Bool-cases (v == u)) [
  | inl same ↦ ground (arith, contains-keep p us u, ap p ((eq_iff v u).0 same), same)
  | inr other ↦ ground (arith, contains-keep p us u, other)
]

has_group-keep :
    (states : List String) (gs : List StateMap) (u : String)
    → has_group (keep (λ g. contains states g.url) gs) u
      ≡ (if contains states u then has_group gs u else false)
unfolding has_group keep
has_group-keep states [] u = ground arith
has_group-keep states (g ∷ gs) u = elim (Bool-cases (g.url == u)) [
  | inl same ↦
      ground
        (arith, has_group-keep states gs u, ap (contains states) ((eq_iff g.url u).0 same), same)
  | inr other ↦ ground (arith, has_group-keep states gs u, other)
]

-- The group was made for one of the URLs.
abbrev IsMade : StateMap → List String → Type 0
IsMade g us = (u : String) × (g ≡ fresh_group u) × (contains us u ≡ true)

In-new_state_map_cons :
    (g : StateMap) (v : String) (us : List String)
    → In g (new_state_map us) ↔ IsMade g us
    → In g (new_state_map (v ∷ us)) ↔ IsMade g (v ∷ us)
unfolding new_state_map contains
In-new_state_map_cons g v us rest = (there, back)
  where
    there : In g (new_state_map (v ∷ us)) → IsMade g (v ∷ us)
    there (inl e) = (v, e, ground (arith, eq_refl v))
    there (inr m) = let (u, e, h) = rest.0 m in (u, e, ground arith)

    back : IsMade g (v ∷ us) → In g (new_state_map (v ∷ us))
    back (u, e, h) = elim (Bool-cases (v == u)) [
      | inl same ↦ inl (e ∙ ap fresh_group (sym ((eq_iff v u).0 same)))
      | inr other ↦ inr (rest.1 (u, e, ground arith))
    ]

In-new_state_map : (g : StateMap) (us : List String) → In g (new_state_map us) ↔ IsMade g us
unfolding new_state_map contains
In-new_state_map g [] = (λ h. absurd h, λ h. cc (h.2))
In-new_state_map g (v ∷ us) = In-new_state_map_cons g v us (In-new_state_map g us)

-- After an update the groups are those of the fetched state: a URL is followed exactly when it is
-- listed. Of a group that was followed and still is listed, all that was known is kept; a listed URL
-- that was not followed gets a group with no state and no entities; no other group is there.
pub update_state_map-groups :
    (states : List String) (groups : List StateMap)
    → let updated = (update_state_map states groups).0 in
      ((u : String) → has_group updated u ≡ contains states u)
      × ((g : StateMap)
          → In g updated ↔ (
              (In g groups × (contains states g.url ≡ true))
              ⊎ ((u : String) × (g ≡ fresh_group u)
                  × (contains states u ≡ true)
                  × (has_group groups u ≡ false))))
unfolding update_state_map
update_state_map-groups states groups = (urls, members)
  where
    is_new : String → Bool
    is_new u = not (has_group groups u)

    is_listed : StateMap → Bool
    is_listed g = contains states g.url

    old : List StateMap
    old = keep is_listed groups

    fresh : List StateMap
    fresh = new_state_map (keep is_new states)

    urls : (u : String) → has_group (old ++ fresh) u ≡ contains states u
    urls u = ground (
      arith,
      has_group-append old fresh u,
      has_group-keep states groups u,
      has_group-new_state_map (keep is_new states) u,
      contains-keep is_new states u,
    )

    new_urls :
        (u : String)
        → (contains (keep is_new states) u ≡ true)
          ↔ ((contains states u ≡ true) × (has_group groups u ≡ false))
    new_urls u = ground (arith, contains-keep is_new states u)

    members :
        (g : StateMap)
        → In g (old ++ fresh) ↔ (
            (In g groups × (contains states g.url ≡ true))
            ⊎ ((u : String) × (g ≡ fresh_group u)
                × (contains states u ≡ true)
                × (has_group groups u ≡ false)))
    members g =
        let either = In-append g old fresh in
        let kept = In-keep is_listed g groups in
        let made = In-new_state_map g (keep is_new states) in
        (
          λ h. elim (either.0 h) [
            | inl m ↦ inl (kept.0 m)
            | inr m ↦
                let (u, e, listed) = made.0 m in
                inr (u, e, ((new_urls u).0 listed).0, ((new_urls u).0 listed).1)
          ],
          λ h. elim h [
            | inl m ↦ either.1 (inl (kept.1 m))
            | inr (u, e, listed, unknown) ↦
                either.1 (inr (made.1 (u, e, (new_urls u).1 (listed, unknown))))
          ],
        )

pub All-contains : (us : List String) → All (λ u. contains us u ≡ true) us
unfolding contains
All-contains [] = tt
All-contains (u ∷ us) = (
  ground (arith, eq_refl u),
  All-map (λ v. contains us v ≡ true) (λ v. (u == v || contains us v) ≡ true) (λ v h. ground arith)
      us (All-contains us),
)

pub All-listed :
    (states us : List String)
    → All (λ u. contains states u ≡ true) us
    → All (λ g. contains states g.url ≡ true) (new_state_map us)
unfolding new_state_map
All-listed states [] h = tt
All-listed states (u ∷ us) h = (h.0, All-listed states us h.1)

pub All-keep_of :
    (p q : String → Bool) (us : List String)
    → All (λ u. p u ≡ true) us
    → All (λ u. p u ≡ true) (keep q us)
unfolding keep
All-keep_of p q [] h = tt
All-keep_of p q (u ∷ us) h = elim (Bool-cases (q u)) [
  | inl e ↦ rw e (h.0, All-keep_of p q us h.1)
  | inr e ↦ rw e (All-keep_of p q us h.1)
]
