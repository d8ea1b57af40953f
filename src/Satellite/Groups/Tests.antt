-- ===== src/Satellite/Groups/Tests.antt =====
-- Updates of the list of groups at concrete inputs.
use harbor_satellite.Common.{
  String, ◌≡◌, refl, ◌↔◌, ◌⊎◌, true, false, none, some, List, [], ◌∷◌, keep, In,
}
use harbor_satellite.Satellite.Groups.{
  StateMap, fresh_group, new_state_map, contains, has_group, update_state_map,
}
use harbor_satellite.Satellite.Groups.Members.{update_state_map-groups}
use harbor_satellite.Satellite.Groups.Laws.{update_state_map_unchanged}

abbrev known_group : String → StateMap
known_group u = record { url = u; state = none; entities = some [] }

abbrev groups : List StateMap
groups = known_group "a" ∷ known_group "b" ∷ []

swap : update_state_map ("b" ∷ "c" ∷ []) groups ≡ (known_group "b" ∷ fresh_group "c" ∷ [], true)
unfolding update_state_map keep new_state_map contains has_group
swap = refl

update_state_map-groups_example :
    ((u : String)
      → has_group (update_state_map ("b" ∷ "c" ∷ []) groups).0 u ≡ contains ("b" ∷ "c" ∷ []) u)
    × ((g : StateMap)
        → In g (update_state_map ("b" ∷ "c" ∷ []) groups).0 ↔ (
            (In g groups × (contains ("b" ∷ "c" ∷ []) g.url ≡ true))
            ⊎ ((u : String) × (g ≡ fresh_group u)
                × (contains ("b" ∷ "c" ∷ []) u ≡ true)
                × (has_group groups u ≡ false))))
update_state_map-groups_example = update_state_map-groups ("b" ∷ "c" ∷ []) groups

update_state_map_unchanged_example :
    let updated = (update_state_map ("b" ∷ "c" ∷ []) groups).0 in
    ((update_state_map ("b" ∷ "c" ∷ []) groups).1 ≡ false
      ↔ ((u : String) → has_group groups u ≡ contains ("b" ∷ "c" ∷ []) u))
    × (((u : String) → has_group groups u ≡ contains ("b" ∷ "c" ∷ []) u)
        → update_state_map ("b" ∷ "c" ∷ []) groups ≡ (groups, false))
    × (update_state_map ("b" ∷ "c" ∷ []) updated ≡ (updated, false))
update_state_map_unchanged_example = update_state_map_unchanged ("b" ∷ "c" ∷ []) groups

-- The listed groups in another order, with what is known of them.
reordered : update_state_map ("b" ∷ "a" ∷ []) groups ≡ (groups, false)
unfolding update_state_map keep new_state_map contains has_group
reordered = refl
