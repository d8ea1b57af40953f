-- ===== src/GroundControl/Fleet/Laws.antt =====
-- What reads of the tables return after writes.
use harbor_satellite.Common.{
  Bool, Bool-cases, List, Option, Option-cases, String, [], ap, arith, eqb, false, find,
  if◌then◌else◌, inl, inr, keep, none, not, refl, some, true, ℕ, ◌++◌, ◌==◌, ◌∙◌, ◌∷◌, ◌≡◌,
}
use harbor_satellite.GroundControl.Fleet.{
  Fleet, RobotAccount, SatelliteGroup, add_satellite_to_group, check_satellite_in_group,
  get_satellite, is_row, is_some, remove_satellite_from_group, update_where,
}
use harbor_satellite.GroundControl.Fleet.Credentials.{
  delete_token, get_robot_acc_by_satellite_id, get_token_by_value, update_robot_account,
}

find-keep-none :
    (p q : SatelliteGroup → Bool) (rows : List SatelliteGroup)
    → ((g : SatelliteGroup) → p g ≡ true → q g ≡ false)
    → find p (keep q rows) ≡ none
unfolding find keep
find-keep-none p q [] h = refl
find-keep-none p q (g ∷ rows) h = elim (Bool-cases (q g)) [
  | inl kept ↦ elim (Bool-cases (p g)) [
    | inl hit ↦ cc (h g hit, kept)
    | inr miss ↦ rw (kept, find, miss) (find-keep-none p q rows h)
  ]
  | inr gone ↦ rw gone (find-keep-none p q rows h)
]

pub check-remove :
    (satellite_id group_id : ℕ) (db : Fleet)
    → check_satellite_in_group satellite_id group_id
        (remove_satellite_from_group satellite_id group_id db)
      ≡ false
unfolding check_satellite_in_group remove_satellite_from_group
check-remove satellite_id group_id db = ap is_some (
    find-keep-none (is_row satellite_id group_id) (λ g. not (is_row satellite_id group_id g))
      db.satellite_groups (λ g hit. rw hit refl))

pub find-append_self {ℓ} :
    {A : Type ℓ} (p : A → Bool) (xs : List A) (x : A)
    → p x ≡ true
    → find p xs ≡ none
    → find p (xs ++ (x ∷ [])) ≡ some x
unfolding find
find-append_self p [] x hit missing = rw hit refl
find-append_self p (y ∷ xs) x hit missing = elim (Bool-cases (p y)) [
  | inl early ↦ cc (rw early at missing)
  | inr later ↦ rw later (find-append_self p xs x hit (rw later at missing))
]

pub check-add :
    (satellite_id group_id : ℕ) (db : Fleet)
    → check_satellite_in_group satellite_id group_id
        (add_satellite_to_group satellite_id group_id db)
      ≡ true
unfolding check_satellite_in_group add_satellite_to_group
check-add satellite_id group_id db =
    let row : SatelliteGroup = record { satellite_id = satellite_id; group_id = group_id } in
    let itself : is_row satellite_id group_id row ≡ true = ground arith in
    elim (Option-cases (find (is_row satellite_id group_id) db.satellite_groups)) [
      | inl missing ↦
          rw missing
            (ap is_some (find-append_self (is_row satellite_id group_id) _ row itself missing))
      | inr (g, there) ↦ rw there (rw there refl)
    ]

-- A write that leaves alone what a read looks for.
find-update_where {ℓ} :
    {A : Type ℓ} (p q : A → Bool) (f : A → A) (xs : List A) (x : A)
    → ((y : A) → p (f y) ≡ p y)
    → find p xs ≡ some x
    → find p (update_where q f xs) ≡ some (if q x then f x else x)
unfolding find update_where
find-update_where p q f [] x kept h = cc
find-update_where p q f (y ∷ xs) x kept h = elim (Bool-cases (p y)) [
  | inl hit ↦ ground (arith, kept y)
  | inr miss ↦ ground (arith, kept y, find-update_where p q f xs x kept)
]

-- The rows that a write finds are what it sets.
pub find-update_where_self {ℓ} :
    {A : Type ℓ} (p : A → Bool) (new : A) (xs : List A) (old : A)
    → p new ≡ true
    → find p xs ≡ some old
    → find p (update_where p (λ y. new) xs) ≡ some new
unfolding find update_where
find-update_where_self p new [] old own h = cc
find-update_where_self p new (y ∷ xs) old own h = elim (Bool-cases (p y)) [
  | inl hit ↦ ground (arith, own)
  | inr miss ↦ ground (arith, find-update_where_self p new xs old own)
]

find-keep-not : {A : Type 0} (p : A → Bool) (xs : List A) → find p (keep (λ x. not (p x)) xs) ≡ none
unfolding find keep
find-keep-not p [] = refl
find-keep-not p (x ∷ xs) = elim (Bool-cases (p x)) [
  | inl hit ↦ rw hit (find-keep-not p xs)
  | inr miss ↦ rw (miss, find, miss) (find-keep-not p xs)
]

pub get_token_by_value-delete_token :
    (token : String) (db : Fleet) → get_token_by_value token (delete_token token db) ≡ none
unfolding get_token_by_value delete_token
get_token_by_value-delete_token token db = find-keep-not (λ t. t.token == token) db.tokens

-- The row of a satellite's robot account, once it has a new secret.
pub get_robot-update_robot :
    (satellite_id : ℕ) (robot : RobotAccount) (hash : String) (expiry : Option ℕ) (db : Fleet)
    → get_robot_acc_by_satellite_id satellite_id db ≡ some robot
    → get_robot_acc_by_satellite_id satellite_id
        (update_robot_account robot.id robot.robot_name hash robot.robot_id expiry db)
      ≡ some (record robot { robot_secret_hash = hash; robot_expiry = expiry })
unfolding get_robot_acc_by_satellite_id update_robot_account
get_robot-update_robot satellite_id robot hash expiry db found =
    find-update_where (λ r. eqb r.satellite_id satellite_id) (λ r. eqb r.id robot.id)
      (λ r. record r {
        robot_name = robot.robot_name;
        robot_secret_hash = hash;
        robot_id = robot.robot_id;
        robot_expiry = expiry;
      })
      db.robot_accounts robot (λ y. refl) found
    ∙ ground arith

pub get_robot-delete_token :
    (token : String) (id : ℕ) (db : Fleet)
    → get_robot_acc_by_satellite_id id (delete_token token db) ≡ get_robot_acc_by_satellite_id id db
unfolding get_robot_acc_by_satellite_id delete_token
get_robot-delete_token token id db = refl

pub get_satellite-delete_token :
    (token : String) (id : ℕ) (db : Fleet)
    → get_satellite id (delete_token token db) ≡ get_satellite id db
unfolding get_satellite delete_token
get_satellite-delete_token token id db = refl
