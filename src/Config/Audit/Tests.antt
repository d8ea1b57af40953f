-- ===== src/Config/Audit/Tests.antt =====
-- The audit log's settings at concrete inputs.
use harbor_satellite.Common.{
  String, ◌≡◌, ◌≢◌, refl, ◌↔◌, true, false, Option, none, some, [], ◌∷◌, ℤ, pos, negsuc,
}
use harbor_satellite.Config.Audit.{
  AuditConfig, target_invalid, path_empty, max_size_mb_invalid, enabled_or_default, enforce_field,
  enforce_audit_rotation, enforce_file_target, enforce_invalid_target, enforce_target,
  enforce_syslog_config, validate_otel_config, validate_and_enforce_audit_config, equal,
}
use harbor_satellite.Config.Audit.Equality.{effective, equal_iff}
use harbor_satellite.Config.Audit.Targets.{ValidTarget}
use harbor_satellite.Config.Audit.Enforced.{validate_and_enforce_audit_config_lem}

abbrev settings : String → Option ℤ → AuditConfig
settings target size = record {
  enabled = true;
  syslog = record {
    enabled = none;
    target = target;
    tag = "";
    socket_path = "";
    network = "";
    address = "";
    file = record {
      path = "";
      max_size_mb = size;
      max_backups = some (pos 0);
      max_age_days = none;
      compress = none;
    };
  };
  otel = record { enabled = false; endpoint = "" };
}

warned :
    (validate_and_enforce_audit_config (settings "bogus" (some (negsuc 0)))).1
    ≡ target_invalid "bogus" ∷ path_empty ∷ max_size_mb_invalid ∷ []
unfolding validate_and_enforce_audit_config enforce_syslog_config enforce_target
    enforce_invalid_target enforce_file_target enforce_audit_rotation enforce_field
    validate_otel_config enabled_or_default
warned = refl

equal_iff_example :
    (equal (settings "" none) (settings "file" (some (pos 100))) ≡ true)
    ↔ (effective (settings "" none) ≡ effective (settings "file" (some (pos 100))))
equal_iff_example = equal_iff (settings "" none) (settings "file" (some (pos 100)))

validate_and_enforce_audit_config_lem_example :
    let out = (validate_and_enforce_audit_config (settings "bogus" (some (negsuc 0)))).0 in
    (true ≡ true
      → enabled_or_default (settings "bogus" (some (negsuc 0))).syslog ≡ true
      → (out.syslog.tag ≢ "") × ValidTarget out.syslog)
    × ((validate_and_enforce_audit_config out).0 ≡ out)
validate_and_enforce_audit_config_lem_example =
    validate_and_enforce_audit_config_lem (settings "bogus" (some (negsuc 0)))
