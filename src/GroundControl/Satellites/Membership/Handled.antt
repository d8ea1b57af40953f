-- ===== src/GroundControl/Satellites/Membership/Handled.antt =====
-- The two handlers of memberships, where they answer without an error.
use harbor_satellite.Common.{Bool, String, false, inl, inr, refl, some, true, ◌≡◌, ◌⊎◌}
use harbor_satellite.GroundControl.Fleet.{
  Group, Satellite, check_satellite_in_group, get_group_by_name, get_satellite_by_name,
  remove_satellite_from_group,
}
use harbor_satellite.GroundControl.Fleet.Laws.{check-add, check-remove}
use harbor_satellite.GroundControl.Action.{World, ok}
use harbor_satellite.GroundControl.Action.Steps.{
  check-ok, in_transaction-ok, obtain, obtain_pair, obtain_two, or_raise-ok, query_many-ok,
  query_one-ok, return-end,
}
use harbor_satellite.GroundControl.Harbor.{Harbor}
use harbor_satellite.GroundControl.Harbor.Contract.{HarborLaws}
use harbor_satellite.GroundControl.Satellites.{Call}
use harbor_satellite.GroundControl.Satellites.Membership.{
  add_if_absent, add_satellite_to_group_handler, remove_satellite_from_group_handler,
}
use harbor_satellite.GroundControl.Satellites.Membership.Followed.{
  Follows, add_body-Follows, remove_body-Follows,
}

module _ (h : Harbor) (laws : HarborLaws h) (c : Call) where
  -- A satellite that was taken out of a group without an error is no longer in it; its robot account
  -- may read the projects of the groups that it is still in and no others, and its state artifact
  -- names these groups and its config. If it is in no group any more, its artifact is the old one.
  pub remove_satellite_from_group_handler_done :
      (group_name name : String) (w w' : World h.Remote)
      → remove_satellite_from_group_handler h c group_name name w ≡ (ok tt, w')
      → (s : Satellite) × (group : Group) × (get_satellite_by_name name w.db ≡ some s)
        × (get_group_by_name group_name w.db ≡ some group)
        × (w'.db ≡ remove_satellite_from_group s.id group.id w.db)
        × (check_satellite_in_group s.id group.id w'.db ≡ false)
        × Follows h c.env w.remote w'.db w'.remote s
  unfolding remove_satellite_from_group_handler
  remove_satellite_from_group_handler_done group_name name w w' h0 =
      obtain_two (remove_body-Follows h laws c group_name name w (in_transaction-ok _ _ _ _ h0))
        λ s group (found, group_found) (tables, follows). (
          s,
          group,
          found,
          group_found,
          tables,
          rw tables (check-remove s.id group.id w.db),
          rw tables follows,
        )

  add_if_absent-done :
      (already : Bool) (s : Satellite) (group : Group) (w w' : World h.Remote)
      → check_satellite_in_group s.id group.id w.db ≡ already
      → add_if_absent h c already s group w ≡ (ok tt, w')
      → (check_satellite_in_group s.id group.id w'.db ≡ true)
        × ((w' ≡ w) ⊎ Follows h c.env w.remote w'.db w'.remote s)
  unfolding add_if_absent
  add_if_absent-done true s group w w' member h0 =
      obtain_pair (return-end _ _ h0) λ done same. (rw same member, inl same)
  add_if_absent-done false s group w w' absent h0 =
      obtain_pair
        (add_body-Follows h laws c s group w absent
          (in_transaction-ok _ _ _ _ (query_many-ok _ _ _ _ _ h0)))
        λ tables follows. (rw tables (check-add s.id group.id w.db), inr (rw tables follows))

  -- A satellite that was put into a group without an error is in it; unless it was there before, and
  -- then nothing changed, its robot account may read the projects of its groups and no others, and
  -- its state artifact names its groups and its config.
  pub add_satellite_to_group_handler_done :
      (name group_name : String) (w w' : World h.Remote)
      → add_satellite_to_group_handler h c (some (name, group_name)) w ≡ (ok tt, w')
      → (s : Satellite) × (group : Group) × (get_satellite_by_name name w.db ≡ some s)
        × (get_group_by_name group_name w.db ≡ some group)
        × (check_satellite_in_group s.id group.id w'.db ≡ true)
        × ((w' ≡ w) ⊎ Follows h c.env w.remote w'.db w'.remote s)
  unfolding add_satellite_to_group_handler
  add_satellite_to_group_handler_done name group_name w w' h0 =
      obtain (or_raise-ok _ _ _ _ h0) λ req decoded h1.
        obtain_pair (check-ok _ _ _ _ h1) λ valid h2.
          obtain (query_one-ok _ _ _ _ _ h2) λ s found h3.
            obtain (query_one-ok _ _ _ _ _ h3) λ group group_found h4.
              obtain_pair
                (add_if_absent-done (check_satellite_in_group s.id group.id w.db) s group w w' refl
                  (query_many-ok _ _ _ _ _ h4))
                λ member follows. (s, group, cc, cc, member, follows)
