-- ===== src/Config/Audit/Enforced.antt =====
-- What validation enforces of the audit log's settings.
use harbor_satellite.Common.{
  ◌≡◌, ◌≢◌, refl, sym, ap, subst, ◌∙◌, inl, inr, true, false, ◌==◌, eq_iff, arith, Bool-cases,
  distinct,
}
use harbor_satellite.Config.Audit.{
  value_or, SyslogAudit, AuditConfig, text_or, enabled_or_default, enforce_daemon_target,
  validate_network_target, enforce_target, enforce_syslog_config, validate_and_enforce_audit_config,
  default_audit_syslog_target, default_audit_syslog_tag,
}
use harbor_satellite.Config.Audit.Targets.{
  ValidTarget, daemon, network, file, text_or_ne, text_or-same, daemon_target, network_target,
  file_target, target-ValidTarget, target-tag, target-enabled, file_target_same,
}

abbrev filled : SyslogAudit → SyslogAudit
filled s = record s {
  target = text_or default_audit_syslog_target s.target;
  tag = text_or default_audit_syslog_tag s.tag;
}

-- A valid target is left as it is.
target_same : (s : SyslogAudit) → ValidTarget s → (enforce_target s).0 ≡ s
unfolding enforce_daemon_target validate_network_target
target_same s (daemon t given) =
    ap (λ o. o.0) (daemon_target s ((eq_iff s.target "daemon").1 t))
    ∙ ap (λ x. record s { socket_path = x }) (text_or-same "/dev/log" s.socket_path given)
target_same s (network t given) =
    ap (λ o. o.0) (network_target s (ap (λ x. x == "daemon") t) ((eq_iff s.target "network").1 t))
    ∙ ap (λ x. record s { network = x }) (text_or-same "udp" s.network given)
target_same s (file t given) =
    ap (λ o. o.0)
      (file_target s (ap (λ x. x == "daemon") t) (ap (λ x. x == "network") t)
        ((eq_iff s.target "file").1 t))
    ∙ file_target_same s given

syslog_same : (s : SyslogAudit) → s.tag ≢ "" → ValidTarget s → (enforce_syslog_config s).0 ≡ s
unfolding enforce_syslog_config
syslog_same s tagged v =
    ap
      (λ t.
        (enforce_target (record s { target = t; tag = text_or default_audit_syslog_tag s.tag })).0)
      (text_or-same default_audit_syslog_target s.target (target-filled s v))
    ∙ ap (λ t. (enforce_target (record s { tag = t })).0)
        (text_or-same default_audit_syslog_tag s.tag tagged)
    ∙ target_same s v
  where
    target-filled : (s : SyslogAudit) → ValidTarget s → s.target ≢ ""
    target-filled s (daemon t given) h = cc (t, h)
    target-filled s (network t given) h = cc (t, h)
    target-filled s (file t given) h = cc (t, h)

off : (a : AuditConfig) → a.enabled ≡ false → (validate_and_enforce_audit_config a).0 ≡ a
unfolding validate_and_enforce_audit_config
off a h = ground (arith, h)

silent :
    (a : AuditConfig)
    → enabled_or_default a.syslog ≡ false
    → (validate_and_enforce_audit_config a).0 ≡ a
unfolding validate_and_enforce_audit_config
silent a h = elim (Bool-cases a.enabled) [
  | inl enabled ↦ ground (arith, enabled, h)
  | inr disabled ↦ off a disabled
]

enforced : AuditConfig → AuditConfig
enforced a = record a { syslog = (enforce_syslog_config a.syslog).0 }

on :
    (a : AuditConfig)
    → a.enabled ≡ true
    → enabled_or_default a.syslog ≡ true
    → (validate_and_enforce_audit_config a).0 ≡ enforced a
unfolding validate_and_enforce_audit_config enforced
on a h k = ground (arith, h, k)

enforced-valid :
    (a : AuditConfig) → ((enforced a).syslog.tag ≢ "") × ValidTarget (enforced a).syslog
unfolding enforced enforce_syslog_config
enforced-valid a = (
  subst (λ t. t ≢ "") (sym (target-tag (filled a.syslog)))
      (text_or_ne default_audit_syslog_tag a.syslog.tag (distinct refl)),
  target-ValidTarget (filled a.syslog),
)

enforced-on :
    (a : AuditConfig) → enabled_or_default (enforced a).syslog ≡ enabled_or_default a.syslog
unfolding enforced enforce_syslog_config enabled_or_default
enforced-on a = ap (λ e. value_or true e) (target-enabled (filled a.syslog))

enforced_idem : (a : AuditConfig) → enforced (enforced a) ≡ enforced a
unfolding enforced
enforced_idem a =
    ap (λ s. record a { syslog = s })
      (syslog_same (enforced a).syslog (enforced-valid a).0 (enforced-valid a).1)

-- Of an enabled audit log with the syslog transport on, validation makes sure that: the tag is not
-- empty, and the target is `daemon` with a socket, or `network` with a network, or `file` with a path,
-- a size of at least 1, and numbers of backups and days that are not negative. Whatever the settings,
-- to validate the result again changes nothing.
pub validate_and_enforce_audit_config_lem :
    (a : AuditConfig)
    → (a.enabled ≡ true
        → enabled_or_default a.syslog ≡ true
        → ((validate_and_enforce_audit_config a).0.syslog.tag ≢ "")
          × ValidTarget (validate_and_enforce_audit_config a).0.syslog)
      × ((validate_and_enforce_audit_config (validate_and_enforce_audit_config a).0).0
          ≡ (validate_and_enforce_audit_config a).0)
unfolding enforced
validate_and_enforce_audit_config_lem a = elim (Bool-cases a.enabled) [
  | inr disabled ↦
      (λ e k. cc (disabled, e), ap (λ x. (validate_and_enforce_audit_config x).0) (off a disabled))
  | inl enabled ↦ elim (Bool-cases (enabled_or_default a.syslog)) [
    | inr quiet ↦
        (λ e k. cc (quiet, k), ap (λ x. (validate_and_enforce_audit_config x).0) (silent a quiet))
    | inl loud ↦
        let out = on a enabled loud in
        (
          λ e k.
              subst (λ x. (x.syslog.tag ≢ "") × ValidTarget x.syslog) (sym out) (enforced-valid a),
          ap (λ x. (validate_and_enforce_audit_config x).0) out
              ∙ on (enforced a) enabled (enforced-on a ∙ loud)
              ∙ enforced_idem a
              ∙ sym out,
        )
  ]
]
