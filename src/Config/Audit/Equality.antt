-- ===== src/Config/Audit/Equality.antt =====
-- When two audit configs are equal.
use harbor_satellite.Common.{
  String, ◌≡◌, refl, sym, ap, ◌↔◌, Bool, true, false, ◌&&◌, eq_iff, eqb_iff, ℤ, pos, negsuc, arith,
}
use harbor_satellite.Config.Audit.{
  OtelAudit, SyslogAuditFile, SyslogAudit, AuditConfig, enabled_or_default, target_or_default,
  tag_or_default, max_size_mb_or_default, max_backups_or_default, max_age_days_or_default,
  compress_or_default, eq_int, eq_bool, file_equal, syslog_equal, otel_equal, equal,
}

-- The values that take effect.
pub record Effective : Type 0 where
  pub enabled : Bool
  pub syslog : Bool
  pub target : String
  pub tag : String
  pub socket_path : String
  pub network : String
  pub address : String
  pub path : String
  pub max_size_mb : ℤ
  pub max_backups : ℤ
  pub max_age_days : ℤ
  pub compress : Bool
  pub otel : Bool
  pub endpoint : String

pub effective : AuditConfig → Effective
effective a = record {
  enabled = a.enabled;
  syslog = enabled_or_default a.syslog;
  target = target_or_default a.syslog;
  tag = tag_or_default a.syslog;
  socket_path = a.syslog.socket_path;
  network = a.syslog.network;
  address = a.syslog.address;
  path = a.syslog.file.path;
  max_size_mb = max_size_mb_or_default a.syslog.file;
  max_backups = max_backups_or_default a.syslog.file;
  max_age_days = max_age_days_or_default a.syslog.file;
  compress = compress_or_default a.syslog.file;
  otel = a.otel.enabled;
  endpoint = a.otel.endpoint;
}

eq_int_iff : (x y : ℤ) → (eq_int x y ≡ true) ↔ (x ≡ y)
unfolding eq_int
eq_int_iff (pos m) (pos n) = (λ h. ap pos ((eqb_iff m n).0 h), λ h. (eqb_iff m n).1 (cc h))
eq_int_iff (negsuc m) (negsuc n) = (λ h. ap negsuc ((eqb_iff m n).0 h), λ h. (eqb_iff m n).1 (cc h))
eq_int_iff (pos m) (negsuc n) = (λ h. cc h, λ h. cc h)
eq_int_iff (negsuc m) (pos n) = (λ h. cc h, λ h. cc h)

eq_bool_iff : (x y : Bool) → (eq_bool x y ≡ true) ↔ (x ≡ y)
unfolding eq_bool
eq_bool_iff true y = (λ h. sym h, λ h. sym h)
eq_bool_iff false true = (λ h. cc h, λ h. cc h)
eq_bool_iff false false = (λ h. refl, λ h. refl)

and_iff : (x y : Bool) → ((x && y) ≡ true) ↔ ((x ≡ true) × (y ≡ true))
and_iff true y = (λ h. (refl, h), λ h. h.1)
and_iff false y = (λ h. cc h, λ h. cc h.0)

file_equal_iff :
    (f o : SyslogAuditFile)
    → (file_equal f o ≡ true) ↔ (
        (f.path ≡ o.path)
        × (max_size_mb_or_default f ≡ max_size_mb_or_default o)
        × (max_backups_or_default f ≡ max_backups_or_default o)
        × (max_age_days_or_default f ≡ max_age_days_or_default o)
        × (compress_or_default f ≡ compress_or_default o))
unfolding file_equal
file_equal_iff f o = ground (
  arith,
  eq_iff f.path o.path,
  eq_int_iff (max_size_mb_or_default f) (max_size_mb_or_default o),
  eq_int_iff (max_backups_or_default f) (max_backups_or_default o),
  eq_int_iff (max_age_days_or_default f) (max_age_days_or_default o),
  eq_bool_iff (compress_or_default f) (compress_or_default o),
)

syslog_equal_iff :
    (s o : SyslogAudit)
    → (syslog_equal s o ≡ true) ↔ (
        (enabled_or_default s ≡ enabled_or_default o)
        × (target_or_default s ≡ target_or_default o)
        × (tag_or_default s ≡ tag_or_default o)
        × (s.socket_path ≡ o.socket_path)
        × (s.network ≡ o.network)
        × (s.address ≡ o.address)
        × (file_equal s.file o.file ≡ true))
unfolding syslog_equal
syslog_equal_iff s o = ground (
  arith,
  eq_bool_iff (enabled_or_default s) (enabled_or_default o),
  eq_iff (target_or_default s) (target_or_default o),
  eq_iff (tag_or_default s) (tag_or_default o),
  eq_iff s.socket_path o.socket_path,
  eq_iff s.network o.network,
  eq_iff s.address o.address,
)

otel_equal_iff :
    (a b : OtelAudit)
    → (otel_equal a b ≡ true) ↔ ((a.enabled ≡ b.enabled) × (a.endpoint ≡ b.endpoint))
unfolding otel_equal
otel_equal_iff a b = ground (arith, eq_bool_iff a.enabled b.enabled, eq_iff a.endpoint b.endpoint)

-- Equal holds exactly if every setting has the same effective value, that is, where a nil pointer or
-- an empty target or tag stands for its default.
pub equal_iff : (a b : AuditConfig) → (equal a b ≡ true) ↔ (effective a ≡ effective b)
unfolding equal effective
equal_iff a b = (
  λ h.
      let (first, otel) =
        (and_iff (eq_bool a.enabled b.enabled && syslog_equal a.syslog b.syslog)
            (otel_equal a.otel b.otel)).0
          h in
      let (enabled, syslog) =
        (and_iff (eq_bool a.enabled b.enabled) (syslog_equal a.syslog b.syslog)).0 first in
      let s = (syslog_equal_iff a.syslog b.syslog).0 syslog in
      let f = (file_equal_iff a.syslog.file b.syslog.file).0 s.6 in
      let o = (otel_equal_iff a.otel b.otel).0 otel in
      cc (
        (eq_bool_iff a.enabled b.enabled).0 enabled,
        s.0,
        s.1,
        s.2,
        s.3,
        s.4,
        s.5,
        f.0,
        f.1,
        f.2,
        f.3,
        f.4,
        o.0,
        o.1,
      ),
  λ h.
      let file = (file_equal_iff a.syslog.file b.syslog.file).1 (
        ap (λ e. e.path) h,
        ap (λ e. e.max_size_mb) h,
        ap (λ e. e.max_backups) h,
        ap (λ e. e.max_age_days) h,
        ap (λ e. e.compress) h,
      ) in
      let syslog = (syslog_equal_iff a.syslog b.syslog).1 (
        ap (λ e. e.syslog) h,
        ap (λ e. e.target) h,
        ap (λ e. e.tag) h,
        ap (λ e. e.socket_path) h,
        ap (λ e. e.network) h,
        ap (λ e. e.address) h,
        file,
      ) in
      let otel = (otel_equal_iff a.otel b.otel).1 (ap (λ e. e.otel) h, ap (λ e. e.endpoint) h) in
      let enabled = (eq_bool_iff a.enabled b.enabled).1 (ap (λ e. e.enabled) h) in
      (and_iff (eq_bool a.enabled b.enabled && syslog_equal a.syslog b.syslog)
          (otel_equal a.otel b.otel)).1
        (
          (and_iff (eq_bool a.enabled b.enabled) (syslog_equal a.syslog b.syslog)).1
              (enabled, syslog),
          otel,
        ),
)
