-- ===== src/GroundControl/Satellites/Spiffe/Lost.antt =====
-- A satellite whose robot account is gone from Harbor while its row is still there.
use harbor_satellite.Common.{
  All, Bool, Bool-cases, List, Option, String, [], false, find, inl, inr, none, refl, some, true,
  ◌==◌, ◌∷◌, ◌≡◌,
}
use harbor_satellite.GroundControl.Fleet.{
  Fleet, RobotAccount, Satellite, create_satellite, get_satellite_by_name,
}
use harbor_satellite.GroundControl.Fleet.Credentials.{get_robot_acc_by_satellite_id}
use harbor_satellite.GroundControl.Action.{
  Action, Error, Query, Result, World, continue, err, exec_one, in_transaction, ok, or_raise,
  other_error, replaced, return, rolled_back, send, try_query, with_error, write, ◌>>=◌,
}
use harbor_satellite.GroundControl.Harbor.{Harbor}
use harbor_satellite.GroundControl.Harbor.Contract.{HarborLaws}
use harbor_satellite.GroundControl.Satellites.{Call}
use harbor_satellite.GroundControl.Satellites.Ztr.{refresh_in_harbor, refresh_robot_secret}
use harbor_satellite.GroundControl.Satellites.Spiffe.{
  auto_register_body, auto_register_satellite, found_or_registered, fresh_credentials, named,
  satellite_name, spiffe_ztr_handler,
}

-- The run ended with an error, and what is asked of the state holds then.
abbrev pub Failed : {Remote A : Type 0} → (World Remote → Type 0) → Result A × World Remote → Type 0
Failed P (ok a, w) = ⊥
Failed P (err e, w) = P w

module _ {Remote A B : Type 0} (P : World Remote → Type 0) where
  Failed-continue :
      (k : A → Action Remote B) (r : Result A × World Remote) → Failed P r → Failed P (continue k r)
  unfolding continue
  Failed-continue k (ok a, w) f = absurd f
  Failed-continue k (err e, w) f = f

  Failed->>= :
      (m : Action Remote A) (k : A → Action Remote B) (w : World Remote)
      → Failed P (m w)
      → Failed P ((m >>= k) w)
  unfolding ◌>>=◌
  Failed->>= m k w f = Failed-continue k (m w) f

module _ {Remote A : Type 0} (P : World Remote → Type 0) where
  Failed-replaced : (e : Error) (r : Result A × World Remote) → Failed P r → Failed P (replaced e r)
  unfolding replaced
  Failed-replaced e (ok a, w) f = absurd f
  Failed-replaced e (err x, w) f = f

  Failed-with_error :
      (e : Error) (m : Action Remote A) (w : World Remote)
      → Failed P (m w)
      → Failed P (with_error e m w)
  unfolding with_error
  Failed-with_error e m w f = Failed-replaced e (m w) f

create_taken :
    (name : String) (s : Satellite) (db : Fleet)
    → get_satellite_by_name name db ≡ some s
    → create_satellite name db ≡ none
unfolding create_satellite get_satellite_by_name
create_taken name s db found =
    let taken : find (λ t. t.name == name) db.satellites ≡ some s = found in
    rw (taken, create_satellite) refl

module _ (h : Harbor) (laws : HarborLaws h) (name : String) (s : Satellite)
    (robot : RobotAccount) where
  -- The rows of the satellite and of its account, with no account in Harbor.
  pub record Lost (w : World h.Remote) : Type 0 where
    pub found : get_satellite_by_name name w.db ≡ some s
    pub robot_found : get_robot_acc_by_satellite_id s.id w.db ≡ some robot
    pub gone : h.robot robot.robot_id w.remote ≡ none

  Failed-rolled_back :
      {A B : Type 0} (fails : Bool) (e : Error) (f : Fleet → Option (Fleet × A))
      (k : A → Action h.Remote B) (w : World h.Remote)
      → Lost w
      → f w.db ≡ none
      → Failed Lost (rolled_back w.db ((exec_one fails e f >>= k) w))
  unfolding rolled_back ◌>>=◌ continue exec_one write
  Failed-rolled_back true e f k w lost taken = lost
  Failed-rolled_back false e f k w lost taken = rw taken lost

  -- The name is taken, so that no second satellite is registered under it.
  not_registered :
      (c : Call) (w : World h.Remote) → Lost w → Failed Lost (auto_register_satellite h c name w)
  unfolding auto_register_satellite auto_register_body in_transaction
  not_registered c w lost = elim (Bool-cases (c.fails Query.begin)) [
    | inl unavailable ↦ rw unavailable lost
    | inr begun ↦ rw begun (
        Failed-rolled_back (c.fails Query.create_satellite) other_error (create_satellite name) _ w
          lost (create_taken name s w.db lost.found))
  ]

  not_refreshed :
      (c : Call) (w : World h.Remote)
      → c.env.skip_health_check ≡ false
      → Lost w
      → Failed Lost (refresh_robot_secret h c robot w)
  unfolding refresh_robot_secret refresh_in_harbor ◌>>=◌ continue send or_raise
  not_refreshed c w live lost =
      let (failed, still) = laws.refresh_sec_missing robot.robot_id w.remote lost.gone in
      rw (live, failed)
        (record { found = lost.found; robot_found = lost.robot_found; gone = still })

  no_credentials :
      (c : Call) (w : World h.Remote)
      → c.env.skip_health_check ≡ false
      → Lost w
      → Failed Lost (fresh_credentials h c s (some robot) w)
  unfolding fresh_credentials
  no_credentials c w live lost =
      Failed->>= Lost _ _ w
        (Failed-with_error Lost _ (refresh_robot_secret h c robot) w (not_refreshed c w live lost))

  -- A request, in use of Harbor, whose query for the account works.
  abbrev pub Works : Call → Type 0
  Works c =
      (c.env.skip_health_check ≡ false)
      × (c.fails (Query.get_robot_acc_by_satellite_id s.id) ≡ false)

  request_fails :
      (c : Call) (w : World h.Remote)
      → Works c
      → Lost w
      → Failed Lost (spiffe_ztr_handler h c (named name) w)
  unfolding spiffe_ztr_handler satellite_name try_query found_or_registered ◌>>=◌ continue return
  request_fails c w works lost = elim (Bool-cases (c.fails Query.get_satellite_by_name)) [
    | inl unavailable ↦
        rw unavailable
          (Failed-continue Lost _ _ (Failed-with_error Lost _ _ w (not_registered c w lost)))
    | inr answered ↦
        rw (answered, lost.found, works.1, lost.robot_found)
          (Failed-continue Lost _ _ (no_credentials c w works.0 lost))
  ]

  -- Requests of the satellite, one after the other.
  abbrev pub requests : List Call → World h.Remote → World h.Remote
  requests [] w = w
  requests (c ∷ calls) w = requests calls (spiffe_ztr_handler h c (named name) w).1

  Failed-Lost : {A : Type 0} (r : Result A × World h.Remote) → Failed Lost r → Lost r.1
  Failed-Lost (ok a, w) f = absurd f
  Failed-Lost (err e, w) f = f

  -- A satellite whose robot account is gone from Harbor while the row of the account is still there is
  -- never registered again by its SPIFFE identity, however often it asks: each request, in use of
  -- Harbor and with a query for the account that works, is answered with an error, and leaves the
  -- two rows and the missing account as they were.
  pub spiffe_ztr_handler_stuck :
      (calls : List Call) (c : Call) (w : World h.Remote)
      → All Works calls
      → Works c
      → Lost w
      → Failed Lost (spiffe_ztr_handler h c (named name) (requests calls w))
  spiffe_ztr_handler_stuck [] c w all works lost = request_fails c w works lost
  spiffe_ztr_handler_stuck (first ∷ calls) c w all works lost =
      spiffe_ztr_handler_stuck calls c (spiffe_ztr_handler h first (named name) w).1 all.1 works
        (Failed-Lost (spiffe_ztr_handler h first (named name) w) (request_fails first w all.0 lost))
