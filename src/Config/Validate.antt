-- ===== src/Config/Validate.antt =====
-- ValidateAndEnforceDefaults of pkg/config/validate.go, and GetRegistryURL of
-- internal/satellite/registry/config.go. The fields that validation neither reads nor writes are left
-- out, and so are the texts of the warnings. What it asks of net/url, cron, strings, os and
-- encoding/json is a parameter. A nil config stands for the
-- empty one, and a config that is refused is dropped by the callers.
pub mod Laws
pub mod Tests
use harbor_satellite.Common.{
  String, ◌⧺◌, Bool, true, false, not, ◌&&◌, ◌||◌, Option, none, some, List, [], ◌∷◌, ◌++◌, ◌==◌,
  if◌then◌else◌,
}
use harbor_satellite.Satellite.Utils.{strip}
use harbor_satellite.Config.Audit.{AuditConfig, validate_and_enforce_audit_config}

pub record ZotConfig : Type 0 where
  pub address : String
  pub port : String

has_prefix : String → String → Bool
has_prefix prefix s = elim (strip prefix s) [ none ↦ false | some rest ↦ true ]

pub get_registry_url : ZotConfig → String
unfolding has_prefix
get_registry_url z =
    let address =
      if not (has_prefix "http://" z.address) && not (has_prefix "https://" z.address)
      then "http://" ⧺ z.address
      else z.address in
    address ⧺ (":" ⧺ z.port)

-- url.ParseRequestURI, cron.ParseStandard, strings.ToLower and TrimSpace, the variable USE_UNSECURE,
-- os.Stat with os.IsNotExist, and json.Unmarshal at ZotConfig; `true` where there is no error.
pub record Host : Type 0 where
  pub parse_request_uri : String → Bool
  pub parse_standard : String → Bool
  pub to_lower : String → String
  pub trim_space : String → String
  pub use_unsecure : String
  pub does_not_exist : String → Bool
  pub unmarshal_zot : String → Option ZotConfig

pub record TlsConfig : Type 0 where
  pub cert_file : String
  pub key_file : String
  pub ca_file : String
  pub skip_verify : Bool

pub record RegistryFallbackConfig : Type 0 where
  pub enabled : Bool
  pub registries : List String
  pub runtimes : List String

pub record AppConfig : Type 0 where
  pub ground_control_url : String
  pub log_level : String
  pub use_unsecure : Bool
  pub state_replication_interval : String
  pub register_satellite_interval : String
  pub heartbeat_interval : String
  pub bring_own_registry : Bool
  pub registry_url : String
  pub registry_username : String
  pub registry_password : String
  pub tls : TlsConfig
  pub registry_fallback : RegistryFallbackConfig
  pub audit : AuditConfig

pub record Config : Type 0 where
  pub app_config : AppConfig
  pub zot_config_raw : String

pub data ConfigError : Type 0 where
  invalid_ground_control_url registry_url_missing invalid_registry_url : ConfigError
  invalid_zot_config invalid_default_zot_config : ConfigError
  tls_pair cert_file_missing key_file_missing ca_file_missing : ConfigError

-- A step of validation: the config after it, or the error.
pub data Checked : Type 0 where
  refused : ConfigError → Checked
  passed : Config → Checked

abbrev pub default_cron : String
default_cron = "@every 00h00m30s"

abbrev pub default_ztr_cron : String
default_ztr_cron = "@every 00h00m05s"

pub valid_log_level : String → Bool
valid_log_level level =
    level == "debug"
    || level == "info"
    || level == "warn"
    || level == "error"
    || level == "fatal"
    || level == "panic"

module _ (h : Host) where
  pub enforce_log_level : AppConfig → AppConfig
  unfolding valid_log_level
  enforce_log_level a =
      if a.log_level == ""
      then record a { log_level = "info" }
      else if valid_log_level (h.to_lower a.log_level)
      then a
      else record a { log_level = "info" }

  pub enforce_cron_schedules : AppConfig → AppConfig
  enforce_cron_schedules a = record a {
    state_replication_interval =
        if h.parse_standard a.state_replication_interval
        then a.state_replication_interval
        else default_cron;
    register_satellite_interval =
        if h.parse_standard a.register_satellite_interval
        then a.register_satellite_interval
        else default_ztr_cron;
    heartbeat_interval =
        if h.parse_standard a.heartbeat_interval then a.heartbeat_interval else default_cron;
  }

  -- A file that is named and does not exist.
  missing : String → Bool
  missing path = not (path == "") && h.does_not_exist path

  pub validate_tls_config : TlsConfig → Option ConfigError
  unfolding missing
  validate_tls_config t =
      if t.cert_file == "" && t.key_file == "" && t.ca_file == ""
      then none
      else if (not (t.cert_file == "") && t.key_file == "")
          || (t.cert_file == "" && not (t.key_file == ""))
      then some tls_pair
      else if missing t.cert_file
      then some cert_file_missing
      else if missing t.key_file
      then some key_file_missing
      else if missing t.ca_file
      then some ca_file_missing
      else none

  pub validate_bring_own_registry : Config → Checked
  validate_bring_own_registry c =
      if c.app_config.registry_url == ""
      then refused registry_url_missing
      else if h.parse_request_uri c.app_config.registry_url
      then passed (record c { zot_config_raw = "" })
      else refused invalid_registry_url

  -- The last step: the default of the local registry's URL.
  default_registry_url : ZotConfig → Config → Config
  default_registry_url z c =
      if c.app_config.registry_url == ""
      then record c { app_config = record (c.app_config) { registry_url = get_registry_url z } }
      else c

  -- The second Unmarshal, if the first finds no address or no port.
  complete_zot : String → Option ZotConfig → Config → Checked
  unfolding default_registry_url
  complete_zot default none c = refused invalid_zot_config
  complete_zot default (some z) c =
      if z.address == "" || z.port == ""
      then (elim (h.unmarshal_zot default) [
        | none ↦ refused invalid_default_zot_config
        | some y ↦ passed (default_registry_url y (record c { zot_config_raw = default }))
      ])
      else passed (default_registry_url z c)

  pub enforce_zot_config : String → Config → Checked
  unfolding complete_zot
  enforce_zot_config default c =
      let raw =
        if c.zot_config_raw == "" || h.trim_space c.zot_config_raw == "{}"
        then default
        else c.zot_config_raw in
      complete_zot default (h.unmarshal_zot raw) (record c { zot_config_raw = raw })

  enforce_registry_fallback : RegistryFallbackConfig → RegistryFallbackConfig
  enforce_registry_fallback f =
      if f.enabled
      then (elim f.registries [ [] ↦ record f { registries = "docker.io" ∷ [] } | r ∷ rs ↦ f ])
      else f

  set_unsecure : AppConfig → AppConfig
  set_unsecure a =
      if h.use_unsecure == ""
      then a
      else record a { use_unsecure = h.to_lower h.use_unsecure == "true" || h.use_unsecure == "1" }

  -- What is left after the registry: schedules, TLS, fallback and audit.
  finish_config : Config → Checked
  unfolding enforce_registry_fallback
  finish_config c =
      let a = enforce_cron_schedules c.app_config in
      elim (validate_tls_config a.tls) [
        | some e ↦ refused e
        | none ↦ passed (record c {
          app_config = record a {
            registry_fallback = enforce_registry_fallback a.registry_fallback;
            audit = (validate_and_enforce_audit_config a.audit).0;
          };
        })
      ]

  check_registry : String → Config → Checked
  check_registry default c =
      if c.app_config.bring_own_registry
      then validate_bring_own_registry c
      else enforce_zot_config default c

  override_url : String → AppConfig → AppConfig
  override_url url a = if url == "" then a else record a { ground_control_url = url }

  -- ValidateAndEnforceDefaults: the URL of Ground Control of the environment, and the text of the
  -- default Zot config.
  pub validate_and_enforce_defaults : String → String → Config → Checked
  unfolding override_url check_registry finish_config set_unsecure
  validate_and_enforce_defaults url default c =
      let a = override_url url c.app_config in
      if h.parse_request_uri a.ground_control_url
      then (elim (check_registry default
          (record c { app_config = set_unsecure (enforce_log_level a) })) [
            | refused e ↦ refused e
            | passed c' ↦ finish_config c'
          ])
      else refused invalid_ground_control_url
