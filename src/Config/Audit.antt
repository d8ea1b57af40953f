-- ===== src/Config/Audit.antt =====
-- The audit log's part of pkg/config/config.go and validate.go: its settings, their defaults, when two
-- of them are equal, and what validation enforces. `none` stands for a nil pointer.
pub mod Equality
pub mod Targets
pub mod Enforced
pub mod Tests
use harbor_satellite.Common.{
  String, Bool, true, false, not, ◌&&◌, Option, none, some, List, [], ◌∷◌, ◌++◌, ◌==◌,
  if◌then◌else◌, ℤ, pos, negsuc, ltℤ, eqb,
}

pub record OtelAudit : Type 0 where
  pub enabled : Bool
  pub endpoint : String

pub record SyslogAuditFile : Type 0 where
  pub path : String
  pub max_size_mb : Option ℤ
  pub max_backups : Option ℤ
  pub max_age_days : Option ℤ
  pub compress : Option Bool

pub record SyslogAudit : Type 0 where
  pub enabled : Option Bool
  pub target : String
  pub tag : String
  pub socket_path : String
  pub network : String
  pub address : String
  pub file : SyslogAuditFile

pub record AuditConfig : Type 0 where
  pub enabled : Bool
  pub syslog : SyslogAudit
  pub otel : OtelAudit

abbrev pub default_audit_file_path : String
default_audit_file_path = "./audit.log"

abbrev pub default_audit_max_size_mb : ℤ
default_audit_max_size_mb = pos 100

abbrev pub default_audit_max_backups : ℤ
default_audit_max_backups = pos 7

abbrev pub default_audit_max_age_days : ℤ
default_audit_max_age_days = pos 30

abbrev pub default_audit_compress : Bool
default_audit_compress = true

abbrev pub default_audit_syslog_target : String
default_audit_syslog_target = "file"

abbrev pub default_audit_syslog_tag : String
default_audit_syslog_tag = "harbor-audit"

abbrev pub default_audit_syslog_socket : String
default_audit_syslog_socket = "/dev/log"

-- A pointer's value, or the default where it is nil.
abbrev pub value_or {ℓ} : {A : Type ℓ} → A → Option A → A
value_or default none = default
value_or default (some x) = x

abbrev pub text_or : String → String → String
text_or default text = if text == "" then default else text

unfoldable pub enabled_or_default : SyslogAudit → Bool
enabled_or_default s = value_or true s.enabled

pub target_or_default : SyslogAudit → String
target_or_default s = text_or default_audit_syslog_target s.target

pub tag_or_default : SyslogAudit → String
tag_or_default s = text_or default_audit_syslog_tag s.tag

pub max_size_mb_or_default : SyslogAuditFile → ℤ
max_size_mb_or_default f = value_or default_audit_max_size_mb f.max_size_mb

pub max_backups_or_default : SyslogAuditFile → ℤ
max_backups_or_default f = value_or default_audit_max_backups f.max_backups

pub max_age_days_or_default : SyslogAuditFile → ℤ
max_age_days_or_default f = value_or default_audit_max_age_days f.max_age_days

pub compress_or_default : SyslogAuditFile → Bool
compress_or_default f = value_or default_audit_compress f.compress

-- `==` on integers and on Booleans.
pub eq_int : ℤ → ℤ → Bool
eq_int (pos m) (pos n) = eqb m n
eq_int (negsuc m) (negsuc n) = eqb m n
eq_int _ _ = false

pub eq_bool : Bool → Bool → Bool
eq_bool true b = b
eq_bool false b = not b

pub file_equal : SyslogAuditFile → SyslogAuditFile → Bool
unfolding eq_int eq_bool max_size_mb_or_default max_backups_or_default max_age_days_or_default
    compress_or_default
file_equal f o =
    f.path == o.path
    && eq_int (max_size_mb_or_default f) (max_size_mb_or_default o)
    && eq_int (max_backups_or_default f) (max_backups_or_default o)
    && eq_int (max_age_days_or_default f) (max_age_days_or_default o)
    && eq_bool (compress_or_default f) (compress_or_default o)

pub syslog_equal : SyslogAudit → SyslogAudit → Bool
unfolding file_equal enabled_or_default target_or_default tag_or_default
syslog_equal s o =
    eq_bool (enabled_or_default s) (enabled_or_default o)
    && target_or_default s == target_or_default o
    && tag_or_default s == tag_or_default o
    && s.socket_path == o.socket_path
    && s.network == o.network
    && s.address == o.address
    && file_equal s.file o.file

-- a.Otel == b.Otel
pub otel_equal : OtelAudit → OtelAudit → Bool
otel_equal a b = eq_bool a.enabled b.enabled && a.endpoint == b.endpoint

-- AuditConfig.Equal
pub equal : AuditConfig → AuditConfig → Bool
unfolding syslog_equal otel_equal
equal a b =
    eq_bool a.enabled b.enabled && syslog_equal a.syslog b.syslog && otel_equal a.otel b.otel

pub data Warning : Type 0 where
  path_empty network_empty address_empty endpoint_empty no_transport : Warning
  max_size_mb_invalid max_backups_invalid max_age_days_invalid : Warning
  target_invalid : String → Warning

-- A rotation field, with the values that are replaced under a warning.
pub enforce_field : (ℤ → Bool) → ℤ → Warning → Option ℤ → Option ℤ × List Warning
enforce_field bad default warning none = (some default, [])
enforce_field bad default warning (some x) =
    if bad x then (some default, warning ∷ []) else (some x, [])

abbrev pub not_positive : ℤ → Bool
not_positive x = ltℤ x (pos 1)

abbrev pub is_negative : ℤ → Bool
is_negative x = ltℤ x (pos 0)

pub enforce_audit_rotation : SyslogAuditFile → SyslogAuditFile × List Warning
unfolding enforce_field
enforce_audit_rotation f =
    let size =
      enforce_field not_positive default_audit_max_size_mb max_size_mb_invalid f.max_size_mb in
    let backups =
      enforce_field is_negative default_audit_max_backups max_backups_invalid f.max_backups in
    let age =
      enforce_field is_negative default_audit_max_age_days max_age_days_invalid f.max_age_days in
    (
      record f { max_size_mb = size.0; max_backups = backups.0; max_age_days = age.0 },
      size.1 ++ backups.1 ++ age.1,
    )

pub enforce_file_target : SyslogAudit → SyslogAudit × List Warning
unfolding enforce_audit_rotation
enforce_file_target s =
    let named = record (s.file) { path = text_or default_audit_file_path s.file.path } in
    let rotated = enforce_audit_rotation named in
    (
      record s { file = rotated.0 },
      (if s.file.path == "" then path_empty ∷ [] else []) ++ rotated.1,
    )

pub enforce_daemon_target : SyslogAudit → SyslogAudit × List Warning
enforce_daemon_target s =
    (record s { socket_path = text_or default_audit_syslog_socket s.socket_path }, [])

pub validate_network_target : SyslogAudit → SyslogAudit × List Warning
validate_network_target s = (
  record s { network = text_or "udp" s.network },
  (if s.network == "" then network_empty ∷ [] else [])
      ++ (if s.address == "" then address_empty ∷ [] else []),
)

pub enforce_invalid_target : SyslogAudit → SyslogAudit × List Warning
unfolding enforce_file_target
enforce_invalid_target s =
    let out = enforce_file_target (record s { target = default_audit_syslog_target }) in
    (out.0, target_invalid s.target ∷ out.1)

-- The switch on the target.
pub enforce_target : SyslogAudit → SyslogAudit × List Warning
unfolding enforce_daemon_target validate_network_target enforce_file_target enforce_invalid_target
enforce_target s =
    if s.target == "daemon"
    then enforce_daemon_target s
    else if s.target == "network"
    then validate_network_target s
    else if s.target == "file"
    then enforce_file_target s
    else enforce_invalid_target s

pub enforce_syslog_config : SyslogAudit → SyslogAudit × List Warning
unfolding enforce_target
enforce_syslog_config s = enforce_target (record s {
  target = text_or default_audit_syslog_target s.target;
  tag = text_or default_audit_syslog_tag s.tag;
})

pub validate_otel_config : OtelAudit → List Warning
validate_otel_config o = if o.enabled && o.endpoint == "" then endpoint_empty ∷ [] else []

unfoldable pub validate_and_enforce_audit_config : AuditConfig → AuditConfig × List Warning
unfolding enforce_syslog_config validate_otel_config enabled_or_default
validate_and_enforce_audit_config a =
    let on = enabled_or_default a.syslog in
    let out = if on then enforce_syslog_config a.syslog else (a.syslog, []) in
    if a.enabled
    then (
      record a { syslog = out.0 },
      out.1
          ++ validate_otel_config a.otel
          ++ (if not on && not a.otel.enabled then no_transport ∷ [] else []),
    )
    else (a, [])
