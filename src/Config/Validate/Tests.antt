-- ===== src/Config/Validate/Tests.antt =====
-- Validation at a concrete configuration.
use harbor_satellite.Common.{
  String, ◌≡◌, refl, distinct, Bool, true, false, not, none, some, [], ◌==◌, if◌then◌else◌,
}
use harbor_satellite.Satellite.Utils.{strip}
use harbor_satellite.Config.Validate.{
  has_prefix, strip, has_prefix, ZotConfig, Host, Config, passed, get_registry_url,
  enforce_log_level, enforce_cron_schedules, validate_tls_config, default_registry_url,
  complete_zot, enforce_zot_config, set_unsecure, finish_config, check_registry, override_url,
  enforce_registry_fallback, valid_log_level, validate_and_enforce_defaults,
}
use harbor_satellite.Config.Audit.{validate_and_enforce_audit_config}
use harbor_satellite.Config.Validate.Laws.{HostLaws, Valid, validate_and_enforce_defaults-Valid}

abbrev pub zot : ZotConfig
zot = record { address = "0.0.0.0"; port = "8585" }

abbrev pub host : Host
host = record {
  parse_request_uri = λ s. not (s == "");
  parse_standard = λ s. not (s == "");
  to_lower = λ s. s;
  trim_space = λ s. s;
  use_unsecure = "1";
  does_not_exist = λ path. true;
  unmarshal_zot = λ s. if s == "{" then none else some zot;
}

host-HostLaws : HostLaws host "zot"
host-HostLaws = record {
  lower_info = refl;
  cron = refl;
  ztr_cron = refl;
  default_zot = (zot, refl, distinct refl, distinct refl);
}

abbrev pub settings : String → Bool → String → String → String → Config
settings level unsecure cron registry raw = record {
  app_config = record {
    ground_control_url = "http://control";
    log_level = level;
    use_unsecure = unsecure;
    state_replication_interval = if cron == "" then "" else "@every 00h00m30s";
    register_satellite_interval = if cron == "" then "" else "@every 00h00m05s";
    heartbeat_interval = if cron == "" then "" else "@every 00h00m30s";
    bring_own_registry = false;
    registry_url = registry;
    registry_username = "";
    registry_password = "";
    tls = record { cert_file = ""; key_file = ""; ca_file = ""; skip_verify = false };
    registry_fallback = record { enabled = false; registries = []; runtimes = [] };
    audit = record {
      enabled = false;
      syslog = record {
        enabled = none;
        target = "";
        tag = "";
        socket_path = "";
        network = "";
        address = "";
        file = record {
          path = "";
          max_size_mb = none;
          max_backups = none;
          max_age_days = none;
          compress = none;
        };
      };
      otel = record { enabled = false; endpoint = "" };
    };
  };
  zot_config_raw = raw;
}

pub accepted :
    validate_and_enforce_defaults host "" "zot" (settings "loud" false "" "" "{}")
    ≡ passed (settings "info" true "x" "http://0.0.0.0:8585" "zot")
unfolding validate_and_enforce_defaults override_url check_registry enforce_zot_config complete_zot
    default_registry_url get_registry_url finish_config enforce_log_level valid_log_level
    set_unsecure enforce_cron_schedules validate_tls_config enforce_registry_fallback has_prefix
    strip validate_and_enforce_audit_config
accepted = refl

validate_and_enforce_defaults-Valid_example :
    Valid host (settings "info" true "x" "http://0.0.0.0:8585" "zot")
validate_and_enforce_defaults-Valid_example =
    validate_and_enforce_defaults-Valid host "zot" "" host-HostLaws
      (settings "loud" false "" "" "{}") (settings "info" true "x" "http://0.0.0.0:8585" "zot")
      accepted
