-- ===== src/Config/Manager.antt =====
-- pkg/config/manager.go: reading the file of the configuration, starting with it and reloading it. What
-- decrypts and decodes a config is a parameter, and so is the text of the default Zot config. The token,
-- the paths and the lock are left out.
pub mod Reloaded
pub mod Tests
use harbor_satellite.Common.{
  String, Bool, true, false, not, ◌&&◌, ◌||◌, Option, none, some, List, [], ◌∷◌, ◌++◌, ◌==◌,
  if◌then◌else◌,
}
use harbor_satellite.Config.Audit.{AuditConfig, equal}
use harbor_satellite.Config.Validate.{
  Config, ConfigError, Checked, refused, passed, Host, invalid_ground_control_url,
  validate_and_enforce_defaults,
}

-- The file as os.ReadFile finds it.
pub data File : Type 0 where
  missing unreadable : File
  content : String → File

pub record Codec : Type 0 where
  pub is_encrypted : String → Bool
  pub decrypt_config : String → Option Config
  pub unmarshal : String → Option Config
  pub empty : Config
  pub default_zot_config : String

-- An error of reading is os.ErrNotExist or another one.
pub data Read : Type 0 where
  not_exist failed : Read
  read : Config → Read

pub data ConfigChange : Type 0 where
  log_level_changed : (old_value new_value : String) → ConfigChange
  intervals_changed : (old_value new_value : String) → ConfigChange
  zot_config_changed : ConfigChange
  audit_config_changed : (old_value new_value : AuditConfig) → ConfigChange

pub record ConfigManager : Type 0 where
  pub config : Config
  pub default_ground_control_url : String

-- What ReloadConfig returns.
pub data Reload : Type 0 where
  read_failed : Reload
  invalid : ConfigError → Reload
  changed : List ConfigChange → Reload

abbrev pub when : Bool → ConfigChange → List ConfigChange
when true change = change ∷ []
when false change = []

unfoldable pub detect_changes : Config → Config → List ConfigChange
detect_changes old new =
    let a = old.app_config in
    let b = new.app_config in
    when (not (a.log_level == b.log_level)) (log_level_changed a.log_level b.log_level)
    ++ (when (not (a.state_replication_interval == b.state_replication_interval))
          (intervals_changed a.state_replication_interval b.state_replication_interval)
        ++ (when (not (old.zot_config_raw == new.zot_config_raw)) zot_config_changed
            ++ when (not (equal a.audit b.audit)) (audit_config_changed a.audit b.audit)))

module _ (h : Host) (codec : Codec) where
  abbrev pub from_option : Option Config → Read
  from_option none = failed
  from_option (some c) = read c

  pub read_and_return_config : File → Read
  read_and_return_config missing = not_exist
  read_and_return_config unreadable = failed
  read_and_return_config (content text) =
      let trimmed = h.trim_space text in
      if trimmed == "" || trimmed == "{}"
      then not_exist
      else (if codec.is_encrypted text
          then from_option (codec.decrypt_config text)
          else from_option (codec.unmarshal text))

  pub reload_checked : ConfigManager → Checked → ConfigManager × Reload
  reload_checked cm (refused e) = (cm, invalid e)
  reload_checked cm (passed c) = (record cm { config = c }, changed (detect_changes cm.config c))

  pub reload_read : ConfigManager → Read → ConfigManager × Reload
  unfolding reload_checked
  reload_read cm not_exist = (cm, read_failed)
  reload_read cm failed = (cm, read_failed)
  reload_read cm (read c) =
      reload_checked cm
        (validate_and_enforce_defaults h cm.default_ground_control_url codec.default_zot_config c)

  pub reload_config : File → ConfigManager → ConfigManager × Reload
  unfolding reload_read
  reload_config file cm = reload_read cm (read_and_return_config file)

  -- Override use_unsecure from CLI/env if set.
  pub set_use_unsecure : Bool → Config → Config
  set_use_unsecure true c = record c { app_config = record c.app_config { use_unsecure = true } }
  set_use_unsecure false c = c

  pub start_with : String → Bool → Config → Option ConfigManager
  unfolding set_use_unsecure
  start_with url use_unsecure c =
      elim (validate_and_enforce_defaults h url codec.default_zot_config
        (set_use_unsecure use_unsecure c)) [
          | refused e ↦ none
          | passed c' ↦ some (record { config = c'; default_ground_control_url = url })
        ]

  -- InitConfigManager: `none` is an error.
  pub init_config_manager : String → Bool → File → Option ConfigManager
  unfolding start_with read_and_return_config
  init_config_manager url use_unsecure file =
      if h.parse_request_uri url
      then (elim (read_and_return_config file) [
        | not_exist ↦ start_with url use_unsecure codec.empty
        | failed ↦ none
        | read c ↦ start_with url use_unsecure c
      ])
      else none
