-- ===== src/GroundControl/Action/Runs.antt =====
-- What a step does where its query or its call succeeds.
use harbor_satellite.Common.{Bool, Option, false, refl, some, ◌≡◌}
use harbor_satellite.GroundControl.Fleet.{Fleet}
use harbor_satellite.GroundControl.Action.{
  Action, Error, World, continue, exec, exec_one, or_raise, query_one, send, write, ◌>>=◌,
}

module _ {R A B : Type 0} (k : A → Action R B) (w : World R) where
  pub query_one-runs :
      (fails : Bool) (e : Error) (f : Fleet → Option A) (a : A)
      → fails ≡ false
      → f w.db ≡ some a
      → (query_one fails e f >>= k) w ≡ k a w
  unfolding ◌>>=◌ continue query_one or_raise
  query_one-runs fails e f a works found = rw (works, found) refl

  pub send-runs :
      (e : Error) (f : R → R × Option A) (a : A)
      → (f w.remote).1 ≡ some a
      → (send e f >>= k) w ≡ k a (record w { remote = (f w.remote).0 })
  unfolding ◌>>=◌ continue send or_raise
  send-runs e f a sent = rw sent refl

pub exec-runs :
    {R B : Type 0} (k : Unit {0} → Action R B) (w : World R) (fails : Bool) (e : Error)
    (f : Fleet → Fleet)
    → fails ≡ false
    → (exec fails e f >>= k) w ≡ k tt (record w { db = f w.db })
unfolding ◌>>=◌ continue exec exec_one write
exec-runs k w fails e f works = rw works refl
