-- ===== src/GroundControl/Fleet/Inserts.antt =====
-- What is in the tables after a row was inserted.
use harbor_satellite.Common.{
  Option, Option-cases, String, [], ap, arith, eq_refl, eqb, eqb_iff, find, inl, inr, keep, map,
  none, refl, some, suc, true, ℕ, ◌++◌, ◌==◌, ◌∙◌, ◌∷◌, ◌≡◌,
}
use harbor_satellite.GroundControl.Fleet.{
  Fleet, RobotAccount, Satellite, SatelliteConfig, SatelliteToken, add_satellite_to_group,
  create_satellite, get_projects_of_group, get_satellite_by_name,
}
use harbor_satellite.GroundControl.Fleet.Credentials.{
  add_robot_account, add_token, get_token_by_value,
}
use harbor_satellite.GroundControl.Fleet.Settings.{
  get_config_by_name, satellite_config, set_satellite_config,
}
use harbor_satellite.GroundControl.Fleet.Laws.{find-append_self, find-update_where_self}

-- The tables that registering a satellite only reads.
pub record SameRest (db db' : Fleet) : Type 0 where
  pub same_groups : db'.groups ≡ db.groups
  pub same_configs : db'.configs ≡ db.configs

pub create_satellite-SameRest :
    (name : String) (db db' : Fleet) (s : Satellite)
    → create_satellite name db ≡ some (db', s)
    → SameRest db db'
unfolding create_satellite
create_satellite-SameRest name db db' s made = ground arith

pub add_satellite_to_group-SameRest :
    (satellite_id group_id : ℕ) (db : Fleet)
    → SameRest db (add_satellite_to_group satellite_id group_id db)
unfolding add_satellite_to_group
add_satellite_to_group-SameRest satellite_id group_id db = ground arith

pub add_robot_account-SameRest :
    (name hash : String) (robot_id satellite_id : ℕ) (expiry : Option ℕ) (db db' : Fleet)
    (r : RobotAccount)
    → add_robot_account name hash robot_id satellite_id expiry db ≡ some (db', r)
    → SameRest db db'
unfolding add_robot_account
add_robot_account-SameRest name hash robot_id satellite_id expiry db db' r made = ground arith

pub SameRest-trans : {a b c : Fleet} → SameRest a b → SameRest b c → SameRest a c
SameRest-trans p q = record {
  same_groups = q.same_groups ∙ p.same_groups;
  same_configs = q.same_configs ∙ p.same_configs;
}

pub SameRest-config :
    (name : String) {db db' : Fleet}
    → SameRest db db'
    → get_config_by_name name db' ≡ get_config_by_name name db
unfolding get_config_by_name
SameRest-config name p = ap (find (λ c. c.config_name == name)) p.same_configs

pub SameRest-projects :
    (name : String) {db db' : Fleet}
    → SameRest db db'
    → get_projects_of_group name db' ≡ get_projects_of_group name db
unfolding get_projects_of_group
SameRest-projects name p =
    ap (λ l. map (λ g. g.projects) (keep (λ g. g.group_name == name) l)) p.same_groups

pub create_satellite-found :
    (name : String) (db db' : Fleet) (s : Satellite)
    → create_satellite name db ≡ some (db', s)
    → get_satellite_by_name name db' ≡ some s
unfolding get_satellite_by_name create_satellite
create_satellite-found name db db' s made =
    elim (Option-cases (find (λ t. t.name == name) db.satellites)) [
      | inl free ↦
          let new : Satellite = record {
            id = db.next_id;
            name = name;
            last_seen = none;
            heartbeat_interval = none;
          } in
          let added =
            find-append_self (λ t. t.name == name) db.satellites new (eq_refl name) free in
          let same : some (
            record db { satellites = db.satellites ++ (new ∷ []); next_id = suc db.next_id },
            new,
          )
              ≡ some (db', s) =
            rw (free, create_satellite) at made in
          ground (arith, same, added)
      | inr (t, taken) ↦ cc (rw (taken, create_satellite) at made)
    ]

pub add_satellite_to_group-satellites :
    (satellite_id group_id : ℕ) (db : Fleet)
    → (add_satellite_to_group satellite_id group_id db).satellites ≡ db.satellites
unfolding add_satellite_to_group
add_satellite_to_group-satellites satellite_id group_id db = ground arith

pub add_robot_account-satellites :
    (name hash : String) (robot_id satellite_id : ℕ) (expiry : Option ℕ) (db db' : Fleet)
    (r : RobotAccount)
    → add_robot_account name hash robot_id satellite_id expiry db ≡ some (db', r)
    → db'.satellites ≡ db.satellites
unfolding add_robot_account
add_robot_account-satellites name hash robot_id satellite_id expiry db db' r made = ground arith

-- The token can be looked up, and the other tables are as before.
pub add_token-found :
    (satellite_id : ℕ) (token : String) (expires_at : ℕ) (db db' : Fleet) (t : String)
    → add_token satellite_id token expires_at db ≡ some (db', t)
    → (t ≡ token)
      × (get_token_by_value token db'
          ≡ some (record { satellite_id = satellite_id; token = token; expires_at = expires_at }))
      × (db'.satellites ≡ db.satellites)
      × (db'.satellite_configs ≡ db.satellite_configs)
unfolding get_token_by_value add_token
add_token-found satellite_id token expires_at db db' t made =
    elim (Option-cases (find (λ r. r.token == token) db.tokens)) [
      | inl free ↦
          let new : SatelliteToken = record {
            satellite_id = satellite_id;
            token = token;
            expires_at = expires_at;
          } in
          let added = find-append_self (λ r. r.token == token) db.tokens new (eq_refl token) free in
          let same : some (record db { tokens = db.tokens ++ (new ∷ []) }, token) ≡ some (db', t) =
            rw (free, add_token) at made in
          ground (arith, same, added)
      | inr (r, taken) ↦ cc (rw (taken, add_token) at made)
    ]

pub satellite_config-set_satellite_config :
    (satellite_id config_id : ℕ) (db : Fleet)
    → satellite_config satellite_id (set_satellite_config satellite_id config_id db)
      ≡ some (record { satellite_id = satellite_id; config_id = config_id })
unfolding satellite_config set_satellite_config
satellite_config-set_satellite_config satellite_id config_id db =
    let new : SatelliteConfig = record { satellite_id = satellite_id; config_id = config_id } in
    let own : eqb satellite_id satellite_id ≡ true = (eqb_iff _ _).1 refl in
    elim (Option-cases (find (λ c. eqb c.satellite_id satellite_id) db.satellite_configs)) [
      | inl free ↦
          rw (free, set_satellite_config)
            (find-append_self (λ c. eqb c.satellite_id satellite_id) db.satellite_configs new own
              free)
      | inr (old, linked) ↦
          rw (linked, set_satellite_config)
            (find-update_where_self (λ c. eqb c.satellite_id satellite_id) new db.satellite_configs
              old own linked)
    ]

pub satellite_config-same :
    (id : ℕ) (db db' : Fleet)
    → db'.satellite_configs ≡ db.satellite_configs
    → satellite_config id db' ≡ satellite_config id db
unfolding satellite_config
satellite_config-same id db db' same = ap (find (λ c. eqb c.satellite_id id)) same

pub set_satellite_config-satellites :
    (satellite_id config_id : ℕ) (db : Fleet)
    → (set_satellite_config satellite_id config_id db).satellites ≡ db.satellites
unfolding set_satellite_config
set_satellite_config-satellites satellite_id config_id db = refl

pub get_satellite_by_name-same :
    (name : String) (db db' : Fleet)
    → db'.satellites ≡ db.satellites
    → get_satellite_by_name name db' ≡ get_satellite_by_name name db
unfolding get_satellite_by_name
get_satellite_by_name-same name db db' same = ap (find (λ s. s.name == name)) same
