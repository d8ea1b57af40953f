-- ===== src/GroundControl/Fleet/Settings.antt =====
-- The queries on configs and on which satellite has which.
use harbor_satellite.Common.{
  List, Option, String, [], eqb, find, keep, none, not, some, suc, ℕ, ◌++◌, ◌==◌, ◌∷◌,
}
use harbor_satellite.GroundControl.Fleet.{Config, Fleet, SatelliteConfig, update_where}

-- configs.sql.go; `none` is a violation of the unique name.
unfoldable pub create_config : String → String → String → Fleet → Option (Fleet × Config)
create_config name registry_url config db = elim (find (λ c. c.config_name == name) db.configs) [
  | some c ↦ none
  | none ↦
      let new : Config = record {
        id = db.next_id;
        config_name = name;
        registry_url = registry_url;
        config = config;
      } in
      some (record db { configs = db.configs ++ (new ∷ []); next_id = suc db.next_id }, new)
]

unfoldable pub get_config_by_id : ℕ → Fleet → Option Config
get_config_by_id id db = find (λ c. eqb c.id id) db.configs

unfoldable pub get_config_by_name : String → Fleet → Option Config
get_config_by_name name db = find (λ c. c.config_name == name) db.configs

-- `none` is the error of a query for one row that updates none.
unfoldable pub update_config : String → String → String → Fleet → Option (Fleet × Config)
update_config name registry_url config db = elim (get_config_by_name name db) [
  | none ↦ none
  | some old ↦
      let new : Config = record old { registry_url = registry_url; config = config } in
      some (
        record db { configs = update_where (λ c. c.config_name == name) (λ c. new) db.configs },
        new,
      )
]

unfoldable pub delete_config : ℕ → Fleet → Fleet
delete_config id db = record db {
  configs = keep (λ c. not (eqb c.id id)) db.configs;
  satellite_configs = keep (λ c. not (eqb c.config_id id)) db.satellite_configs;
}

-- satellite_configs.sql.go
unfoldable pub config_satellite_list : ℕ → Fleet → List SatelliteConfig
config_satellite_list config_id db = keep (λ c. eqb c.config_id config_id) db.satellite_configs

unfoldable pub satellite_config : ℕ → Fleet → Option SatelliteConfig
satellite_config satellite_id db = find (λ c. eqb c.satellite_id satellite_id) db.satellite_configs

-- ON CONFLICT (satellite_id) DO UPDATE
unfoldable pub set_satellite_config : ℕ → ℕ → Fleet → Fleet
set_satellite_config satellite_id config_id db =
    let new : SatelliteConfig = record { satellite_id = satellite_id; config_id = config_id } in
    record db {
      satellite_configs = elim (satellite_config satellite_id db) [
        | none ↦ db.satellite_configs ++ (new ∷ [])
        | some old ↦
            update_where (λ c. eqb c.satellite_id satellite_id) (λ c. new) db.satellite_configs
      ];
    }
