-- ===== src/GroundControl/Satellites/Delete/Blocked.antt =====
-- Runs that end with an error while a robot account is gone from Harbor, and the steps that lead there.
use harbor_satellite.Common.{
  Bool, Bool-cases, Option, String, false, inl, inr, none, refl, some, true, ℕ, ◌∙◌, ◌≡◌, ◌⊎◌,
}
use harbor_satellite.GroundControl.Fleet.{Fleet}
use harbor_satellite.GroundControl.Action.{
  Action, Error, Result, World, check, continue, err, exec, exec_one, in_transaction, ok, or_raise,
  query_one, rolled_back, send, write, ◌>>=◌,
}
use harbor_satellite.GroundControl.Harbor.{Env, Harbor, delete_artifact, validate_env}
use harbor_satellite.GroundControl.Harbor.Contract.{HarborLaws}

-- The run ended with an error, and the account is not in Harbor.
abbrev pub Blocked : (h : Harbor) → ℕ → {A : Type 0} → Result A × World h.Remote → Type 0
Blocked h id (ok a, w) = ⊥
Blocked h id (err e, w) = h.robot id w.remote ≡ none

module _ (h : Harbor) (laws : HarborLaws h) (id : ℕ) where
  module _ {A B : Type 0} (k : A → Action h.Remote B) (w : World h.Remote) where
    pub Blocked-query_one :
        (fails : Bool) (e : Error) (f : Fleet → Option A) (a : A)
        → h.robot id w.remote ≡ none
        → f w.db ≡ some a
        → Blocked h id (k a w)
        → Blocked h id ((query_one fails e f >>= k) w)
    unfolding ◌>>=◌ continue query_one or_raise
    Blocked-query_one true e f a gone found later = gone
    Blocked-query_one false e f a gone found later = rw found later

  module _ {B : Type 0} (k : Unit {0} → Action h.Remote B) (w : World h.Remote) where
    pub Blocked-exec :
        (fails : Bool) (e : Error) (f : Fleet → Fleet)
        → h.robot id w.remote ≡ none
        → Blocked h id (k tt (record w { db = f w.db }))
        → Blocked h id ((exec fails e f >>= k) w)
    unfolding ◌>>=◌ continue exec exec_one write
    Blocked-exec true e f gone later = gone
    Blocked-exec false e f gone later = later

    -- Harbor does not delete an account that is not there.
    pub Blocked-delete_robot :
        (e : Error)
        → h.robot id w.remote ≡ none
        → Blocked h id ((send e (h.delete_robot id) >>= k) w)
    unfolding ◌>>=◌ continue send or_raise
    Blocked-delete_robot e gone =
        let (failed, still) = laws.delete_robot_missing id w.remote gone in rw failed still

  module _ {A : Type 0} where
    Blocked-rolled_back :
        (before : Fleet) (r : Result A × World h.Remote)
        → Blocked h id r
        → Blocked h id (rolled_back before r) × ((rolled_back before r).1.db ≡ before)
    unfolding rolled_back
    Blocked-rolled_back before (ok a, v) b = absurd b
    Blocked-rolled_back before (err x, v) b = (b, refl)

    -- The flag says whether BeginTx fails; if it does, the account was gone before.
    pub Blocked-in_transaction :
        (fails : Bool) (e : Error) (m : Action h.Remote A) (w : World h.Remote)
        → ((fails ≡ false) ⊎ (h.robot id w.remote ≡ none))
        → Blocked h id (m w)
        → Blocked h id (in_transaction fails e m w) × ((in_transaction fails e m w).1.db ≡ w.db)
    unfolding in_transaction
    Blocked-in_transaction true e m w (inl works) body = cc
    Blocked-in_transaction true e m w (inr gone) body = (gone, refl)
    Blocked-in_transaction false e m w before body = Blocked-rolled_back w.db (m w) body

  -- The artifact's deletion fails.
  pub Blocked-delete_artifact :
      {B : Type 0} (v : Env) (url : String) (k : Unit {0} → Action h.Remote B) (w : World h.Remote)
      → h.robot id w.remote ≡ none
      → (h.delete_repository url w.remote).1 ≡ none
      → Blocked h id ((delete_artifact h v url >>= k) w)
  unfolding ◌>>=◌ continue delete_artifact check send or_raise
  Blocked-delete_artifact v url k w gone fails = elim (Bool-cases (validate_env v)) [
    | inl valid ↦ rw (valid, fails) (laws.delete_repository-robot url id w.remote ∙ gone)
    | inr not_valid ↦ rw not_valid gone
  ]

-- However it ended, the account is not there.
pub Blocked-gone :
    (h : Harbor) (id : ℕ) {A : Type 0} (r : Result A × World h.Remote)
    → Blocked h id r
    → h.robot id r.1.remote ≡ none
Blocked-gone h id (ok a, w) b = absurd b
Blocked-gone h id (err e, w) b = b
