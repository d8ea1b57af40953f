-- ===== src/GroundControl/Fleet.antt =====
-- The tables of satellites, their groups, configs, robot accounts and tokens (sql/schema), and the
-- queries of internal/groundcontrol/database on them. As in Accounts, each function is what its query
-- does if the database is there. The text column robot_id, which only ever holds the decimal digits of
-- a number, is that number; the times of creation and update are left out.
pub mod Credentials
pub mod Settings
pub mod Laws
pub mod Inserts
use harbor_satellite.Common.{
  Bool, List, Option, String, [], eqb, false, find, if◌then◌else◌, keep, ltb, map, none, not, some,
  suc, true, ℕ, ◌&&◌, ◌++◌, ◌==◌, ◌∷◌,
}

pub record Satellite : Type 0 where
  pub id : ℕ
  pub name : String
  pub last_seen : Option ℕ
  pub heartbeat_interval : Option String

pub record Group : Type 0 where
  pub id : ℕ
  pub group_name : String
  pub registry_url : String
  pub projects : List String

pub record RobotAccount : Type 0 where
  pub id : ℕ
  pub robot_name : String
  pub robot_secret_hash : String
  pub robot_id : ℕ
  pub satellite_id : ℕ
  pub robot_expiry : Option ℕ

pub record SatelliteToken : Type 0 where
  pub satellite_id : ℕ
  pub token : String
  pub expires_at : ℕ

pub record SatelliteGroup : Type 0 where
  pub satellite_id : ℕ
  pub group_id : ℕ

pub record SatelliteConfig : Type 0 where
  pub satellite_id : ℕ
  pub config_id : ℕ

-- The column `config` holds a JSON text.
pub record Config : Type 0 where
  pub id : ℕ
  pub config_name : String
  pub registry_url : String
  pub config : String

-- `next_id` gives the ids of every table: the ids of one table are distinct and grow.
pub record Fleet : Type 0 where
  pub satellites : List Satellite
  pub groups : List Group
  pub robot_accounts : List RobotAccount
  pub tokens : List SatelliteToken
  pub satellite_groups : List SatelliteGroup
  pub configs : List Config
  pub satellite_configs : List SatelliteConfig
  pub next_id : ℕ

-- UPDATE … SET … WHERE
unfoldable pub update_where {ℓ} : {A : Type ℓ} → (A → Bool) → (A → A) → List A → List A
update_where p f [] = []
update_where p f (x ∷ xs) =
    let others = update_where p f xs in if p x then f x ∷ others else x ∷ others

-- satellites.sql.go; `none` is a violation of the unique name.
unfoldable pub create_satellite : String → Fleet → Option (Fleet × Satellite)
create_satellite name db = elim (find (λ s. s.name == name) db.satellites) [
  | some s ↦ none
  | none ↦
      let satellite : Satellite = record {
        id = db.next_id;
        name = name;
        last_seen = none;
        heartbeat_interval = none;
      } in
      some (
        record db { satellites = db.satellites ++ (satellite ∷ []); next_id = suc db.next_id },
        satellite,
      )
]

unfoldable pub get_satellite : ℕ → Fleet → Option Satellite
get_satellite id db = find (λ s. eqb s.id id) db.satellites

unfoldable pub get_satellite_by_name : String → Fleet → Option Satellite
get_satellite_by_name name db = find (λ s. s.name == name) db.satellites

-- The rows of a satellite that is deleted go with it (ON DELETE CASCADE in four tables).
unfoldable pub cascade_satellite : ℕ → Fleet → Fleet
cascade_satellite id db = record db {
  satellites = keep (λ s. not (eqb s.id id)) db.satellites;
  robot_accounts = keep (λ r. not (eqb r.satellite_id id)) db.robot_accounts;
  tokens = keep (λ t. not (eqb t.satellite_id id)) db.tokens;
  satellite_groups = keep (λ g. not (eqb g.satellite_id id)) db.satellite_groups;
  satellite_configs = keep (λ c. not (eqb c.satellite_id id)) db.satellite_configs;
}

unfoldable pub delete_satellite_by_name : String → Fleet → Fleet
unfolding cascade_satellite
delete_satellite_by_name name db = elim (get_satellite_by_name name db) [
  | none ↦ db
  | some s ↦ cascade_satellite s.id db
]

abbrev pub is_row : ℕ → ℕ → SatelliteGroup → Bool
is_row satellite_id group_id g = eqb g.satellite_id satellite_id && eqb g.group_id group_id

abbrev pub is_some {ℓ} : {A : Type ℓ} → Option A → Bool
is_some none = false
is_some (some a) = true

-- satellite_groups.sql.go
unfoldable pub check_satellite_in_group : ℕ → ℕ → Fleet → Bool
check_satellite_in_group satellite_id group_id db =
    is_some (find (is_row satellite_id group_id) db.satellite_groups)

-- ON CONFLICT DO NOTHING
unfoldable pub add_satellite_to_group : ℕ → ℕ → Fleet → Fleet
unfolding check_satellite_in_group
add_satellite_to_group satellite_id group_id db =
    if check_satellite_in_group satellite_id group_id db then db else record db {
      satellite_groups =
          db.satellite_groups ++ (record { satellite_id = satellite_id; group_id = group_id } ∷ []);
    }

unfoldable pub remove_satellite_from_group : ℕ → ℕ → Fleet → Fleet
remove_satellite_from_group satellite_id group_id db = record db {
  satellite_groups = keep (λ g. not (is_row satellite_id group_id g)) db.satellite_groups;
}

unfoldable pub satellite_group_list : ℕ → Fleet → List SatelliteGroup
satellite_group_list satellite_id db =
    keep (λ g. eqb g.satellite_id satellite_id) db.satellite_groups

unfoldable pub group_satellite_list : ℕ → Fleet → List SatelliteGroup
group_satellite_list group_id db = keep (λ g. eqb g.group_id group_id) db.satellite_groups

-- groups.sql.go
unfoldable pub get_group_by_id : ℕ → Fleet → Option Group
get_group_by_id id db = find (λ g. eqb g.id id) db.groups

unfoldable pub get_group_by_name : String → Fleet → Option Group
get_group_by_name name db = find (λ g. g.group_name == name) db.groups

-- ON CONFLICT (group_name) DO UPDATE; with the row that is returned.
unfoldable pub create_group : String → String → List String → Fleet → Fleet × Group
create_group name registry_url projects db = elim (get_group_by_name name db) [
  | some old ↦
      let new : Group = record old { registry_url = registry_url; projects = projects } in
      (record db { groups = update_where (λ g. g.group_name == name) (λ g. new) db.groups }, new)
  | none ↦
      let new : Group = record {
        id = db.next_id;
        group_name = name;
        registry_url = registry_url;
        projects = projects;
      } in
      (record db { groups = db.groups ++ (new ∷ []); next_id = suc db.next_id }, new)
]

unfoldable pub delete_group : ℕ → Fleet → Fleet
delete_group id db = record db {
  groups = keep (λ g. not (eqb g.id id)) db.groups;
  satellite_groups = keep (λ g. not (eqb g.group_id id)) db.satellite_groups;
}

-- The column of each row that has the name.
unfoldable pub get_projects_of_group : String → Fleet → List (List String)
get_projects_of_group name db = map (λ g. g.projects) (keep (λ g. g.group_name == name) db.groups)

unfoldable pub check_group_exists : String → Fleet → Bool
unfolding get_group_by_name
check_group_exists name db = is_some (get_group_by_name name db)

-- The satellites that rows of satellite_groups name.
abbrev pub members_of : Fleet → List SatelliteGroup → List Satellite
members_of db [] = []
members_of db (row ∷ rows) =
    keep (λ s. eqb s.id row.satellite_id) db.satellites ++ members_of db rows

-- satellites.sql.go, JOIN satellite_groups, JOIN groups: the order of the rows is that of the tables
-- of groups and members.
unfoldable pub joined : Fleet → List Group → List Satellite
unfolding group_satellite_list
joined db [] = []
joined db (group ∷ groups) = members_of db (group_satellite_list group.id db) ++ joined db groups

unfoldable pub get_satellites_by_group_name : String → Fleet → List Satellite
unfolding joined
get_satellites_by_group_name name db = joined db (keep (λ g. g.group_name == name) db.groups)
