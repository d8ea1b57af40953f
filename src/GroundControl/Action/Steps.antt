-- ===== src/GroundControl/Action/Steps.antt =====
-- What is known where a handler, or one step of it, has returned without an error.
use harbor_satellite.Common.{Bool, Option, arith, false, none, refl, some, true, ◌≡◌}
use harbor_satellite.GroundControl.Fleet.{Fleet}
use harbor_satellite.GroundControl.Action.{
  Action, Error, Result, World, ask, check, cleaned, continue, err, exec, exec_one, in_transaction,
  ok, on_error, or_raise, query_many, query_one, replaced, return, rolled_back, send, with_error,
  write, ◌>>=◌,
}

module _ {R A B : Type 0} {b : B} {w' : World R} where
  pub >>=-ok :
      (m : Action R A) (k : A → Action R B) (w : World R)
      → (m >>= k) w ≡ (ok b, w')
      → (a : A) × (v : World R) × (m w ≡ (ok a, v)) × (k a v ≡ (ok b, w'))
  unfolding ◌>>=◌ continue
  >>=-ok m k w h = after (m w) refl h
    where
      after :
          (r : Result A × World R)
          → m w ≡ r
          → continue k r ≡ (ok b, w')
          → (a : A) × (v : World R) × (m w ≡ (ok a, v)) × (k a v ≡ (ok b, w'))
      after (ok a, v) e g = (a, v, e, g)
      after (err x, v) e g = cc

  pub or_raise-ok :
      (e : Error) (o : Option A) (k : A → Action R B) (w : World R)
      → (or_raise e o >>= k) w ≡ (ok b, w')
      → (a : A) × (o ≡ some a) × (k a w ≡ (ok b, w'))
  unfolding ◌>>=◌ continue or_raise
  or_raise-ok e none k w h = cc
  or_raise-ok e (some a) k w h = (a, refl, h)

  pub or_raise-some :
      (e : Error) (a : A) (k : A → Action R B) (w : World R)
      → (or_raise e (some a) >>= k) w ≡ (ok b, w')
      → k a w ≡ (ok b, w')
  unfolding ◌>>=◌ continue or_raise
  or_raise-some e a k w h = h

  pub query_one-ok :
      (fails : Bool) (e : Error) (f : Fleet → Option A) (k : A → Action R B) (w : World R)
      → (query_one fails e f >>= k) w ≡ (ok b, w')
      → (a : A) × (f w.db ≡ some a) × (k a w ≡ (ok b, w'))
  unfolding ◌>>=◌ query_one or_raise continue
  query_one-ok true e f k w h = cc
  query_one-ok false e f k w h = or_raise-ok e (f w.db) k w h

  pub ask-ok :
      (e : Error) (f : R → Option A) (k : A → Action R B) (w : World R)
      → (ask e f >>= k) w ≡ (ok b, w')
      → (a : A) × (f w.remote ≡ some a) × (k a w ≡ (ok b, w'))
  unfolding ◌>>=◌ ask continue
  ask-ok e f k w h = or_raise-ok e (f w.remote) k w h

  pub send-ok :
      (e : Error) (f : R → R × Option A) (k : A → Action R B) (w : World R)
      → (send e f >>= k) w ≡ (ok b, w')
      → (a : A) × ((f w.remote).1 ≡ some a)
        × (k a (record w { remote = (f w.remote).0 }) ≡ (ok b, w'))
  unfolding ◌>>=◌ send continue
  send-ok e f k w h = or_raise-ok e (f w.remote).1 k (record w { remote = (f w.remote).0 }) h

  write-ok :
      (e : Error) (o : Option (Fleet × A)) (k : A → Action R B) (w : World R)
      → (write e o >>= k) w ≡ (ok b, w')
      → (db : Fleet) × (a : A) × (o ≡ some (db, a)) × (k a (record w { db = db }) ≡ (ok b, w'))
  unfolding ◌>>=◌ continue write
  write-ok e none k w h = cc
  write-ok e (some (db, a)) k w h = (db, a, refl, h)

  pub exec_one-ok :
      (fails : Bool) (e : Error) (f : Fleet → Option (Fleet × A)) (k : A → Action R B) (w : World R)
      → (exec_one fails e f >>= k) w ≡ (ok b, w')
      → (db : Fleet) × (a : A) × (f w.db ≡ some (db, a)) × (k a (record w { db = db }) ≡ (ok b, w'))
  unfolding ◌>>=◌ exec_one write continue
  exec_one-ok true e f k w h = cc
  exec_one-ok false e f k w h = write-ok e (f w.db) k w h

module _ {R B : Type 0} {b : B} {w' : World R} where
  pub query_many-ok :
      {A : Type 0} (fails : Bool) (e : Error) (f : Fleet → A) (k : A → Action R B) (w : World R)
      → (query_many fails e f >>= k) w ≡ (ok b, w')
      → k (f w.db) w ≡ (ok b, w')
  unfolding query_many ◌>>=◌ query_one or_raise continue
  query_many-ok true e f k w h = cc
  query_many-ok false e f k w h = h

  pub exec-ok :
      (fails : Bool) (e : Error) (f : Fleet → Fleet) (k : Unit {0} → Action R B) (w : World R)
      → (exec fails e f >>= k) w ≡ (ok b, w')
      → k tt (record w { db = f w.db }) ≡ (ok b, w')
  unfolding exec ◌>>=◌ exec_one write continue
  exec-ok true e f k w h = cc
  exec-ok false e f k w h = h

  pub check-ok :
      (t : Bool) (e : Error) (k : Unit {0} → Action R B) (w : World R)
      → (check t e >>= k) w ≡ (ok b, w')
      → (t ≡ true) × (k tt w ≡ (ok b, w'))
  unfolding check ◌>>=◌ continue
  check-ok true e k w h = (refl, h)
  check-ok false e k w h = cc

module _ {R A : Type 0} (m : Action R A) (w : World R) {a : A} {w' : World R} where
  pub with_error-ok : (e : Error) → with_error e m w ≡ (ok a, w') → m w ≡ (ok a, w')
  unfolding with_error replaced
  with_error-ok e h = ground arith

  pub on_error-ok :
      {B : Type 0} (cleanup : Action R B) → on_error cleanup m w ≡ (ok a, w') → m w ≡ (ok a, w')
  unfolding on_error cleaned
  on_error-ok cleanup h = ground arith

  -- What a transaction that is committed has done, its body did.
  pub in_transaction-ok :
      (fails : Bool) (e : Error) → in_transaction fails e m w ≡ (ok a, w') → m w ≡ (ok a, w')
  unfolding in_transaction rolled_back
  in_transaction-ok fails e h = ground arith

module _ {R A : Type 0} (m : Action R A) (w : World R) {w' : World R} where
  pub in_transaction-err :
      (fails : Bool) (e : Error) {x : Error}
      → in_transaction fails e m w ≡ (err x, w')
      → w'.db ≡ w.db
  unfolding in_transaction rolled_back
  in_transaction-err fails e h = ground arith

-- The same for the last step of a handler.
module _ {R A : Type 0} {a : A} {w' : World R} where
  pub or_raise-end :
      (e : Error) (o : Option A) (w : World R)
      → or_raise e o w ≡ (ok a, w')
      → (o ≡ some a) × (w' ≡ w)
  unfolding or_raise
  or_raise-end e none w h = cc
  or_raise-end e (some b) w h = (cc, cc)

  pub query_one-end :
      (fails : Bool) (e : Error) (f : Fleet → Option A) (w : World R)
      → query_one fails e f w ≡ (ok a, w')
      → (f w.db ≡ some a) × (w' ≡ w)
  unfolding query_one or_raise
  query_one-end true e f w h = cc
  query_one-end false e f w h = or_raise-end e (f w.db) w h

  pub send-end :
      (e : Error) (f : R → R × Option A) (w : World R)
      → send e f w ≡ (ok a, w')
      → ((f w.remote).1 ≡ some a) × (w' ≡ record w { remote = (f w.remote).0 })
  unfolding send
  send-end e f w h = or_raise-end e (f w.remote).1 (record w { remote = (f w.remote).0 }) h

  pub return-end : (b : A) (w : World R) → return b w ≡ (ok a, w') → (b ≡ a) × (w' ≡ w)
  unfolding return
  return-end b w h = (cc, cc)

module _ {R : Type 0} {u : Unit {0}} {w' : World R} where
  pub check-end :
      (t : Bool) (e : Error) (w : World R) → check t e w ≡ (ok u, w') → (t ≡ true) × (w' ≡ w)
  unfolding check
  check-end true e w h = (refl, cc)
  check-end false e w h = cc

-- To go on with the parts of what a step is known to have done, as variables.
pub obtain : {A G : Type 0} {P Q : A → Type 0} → (a : A) × P a × Q a → ((a : A) → P a → Q a → G) → G
obtain (a, p, q) k = k a p q

pub obtain_pair : {P Q G : Type 0} → P × Q → (P → Q → G) → G
obtain_pair (p, q) k = k p q

pub obtain_two :
    {A B G : Type 0} {P Q : A → B → Type 0}
    → (a : A) × (b : B) × P a b × Q a b
    → ((a : A) (b : B) → P a b → Q a b → G)
    → G
obtain_two (a, b, p, q) k = k a b p q
