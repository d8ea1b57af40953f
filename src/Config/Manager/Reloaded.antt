-- ===== src/Config/Manager/Reloaded.antt =====
-- What a reload leaves.
use harbor_satellite.Common.{◌≡◌, ◌↔◌, refl, Bool, true, false, not, [], ◌++◌, ◌==◌, arith, eq_iff}
use harbor_satellite.Config.Audit.{equal}
use harbor_satellite.Config.Audit.Equality.{effective, equal_iff}
use harbor_satellite.Config.Validate.{
  Config, Checked, refused, passed, Host, validate_and_enforce_defaults,
}
use harbor_satellite.Config.Manager.{
  File, Codec, Read, not_exist, failed, read, ConfigChange, log_level_changed, intervals_changed,
  zot_config_changed, audit_config_changed, ConfigManager, Reload, read_failed, invalid, changed,
  when, detect_changes, read_and_return_config, reload_checked, reload_read, reload_config,
}

-- Configs that are the same in what a reload looks at.
abbrev pub SameSettings : Config → Config → Type 0
SameSettings a b =
    (a.app_config.log_level ≡ b.app_config.log_level)
    × (a.app_config.state_replication_interval ≡ b.app_config.state_replication_interval)
    × (a.zot_config_raw ≡ b.zot_config_raw)
    × (effective a.app_config.audit ≡ effective b.app_config.audit)

no_changes :
    (p q r s : Bool) (a b c d : ConfigChange)
    → (when (not p) a ++ (when (not q) b ++ (when (not r) c ++ when (not s) d)) ≡ [])
      ↔ ((p ≡ true) × (q ≡ true) × (r ≡ true) × (s ≡ true))
no_changes true true true true a b c d = (λ e. (refl, refl, refl, refl), λ h. refl)
no_changes false q r s a b c d =
    (λ e. absurd (ground (arith, e)), λ h. absurd (ground (arith, h.0)))
no_changes true false r s a b c d =
    (λ e. absurd (ground (arith, e)), λ h. absurd (ground (arith, h.1)))
no_changes true true false s a b c d =
    (λ e. absurd (ground (arith, e)), λ h. absurd (ground (arith, h.2)))
no_changes true true true false a b c d =
    (λ e. absurd (ground (arith, e)), λ h. absurd (ground (arith, h.3)))

detect_changes-none_iff : (a b : Config) → (detect_changes a b ≡ []) ↔ SameSettings a b
unfolding detect_changes
detect_changes-none_iff a b =
    let x = a.app_config in
    let y = b.app_config in
    let all =
      no_changes (x.log_level == y.log_level)
        (x.state_replication_interval == y.state_replication_interval)
        (a.zot_config_raw == b.zot_config_raw) (equal x.audit y.audit)
        (log_level_changed x.log_level y.log_level)
        (intervals_changed x.state_replication_interval y.state_replication_interval)
        zot_config_changed (audit_config_changed x.audit y.audit) in
    let level = eq_iff x.log_level y.log_level in
    let interval = eq_iff x.state_replication_interval y.state_replication_interval in
    let zot = eq_iff a.zot_config_raw b.zot_config_raw in
    let audit = equal_iff x.audit y.audit in
    (
      λ e. let h = all.0 e in (level.0 h.0, interval.0 h.1, zot.0 h.2, audit.0 h.3),
      λ h. all.1 (level.1 h.0, interval.1 h.1, zot.1 h.2, audit.1 h.3),
    )

detect_changes_self : (a : Config) → detect_changes a a ≡ []
detect_changes_self a = (detect_changes-none_iff a a).1 (refl, refl, refl, refl)

module _ (h : Host) (codec : Codec) where
  -- What ReloadConfig left, and what it returned.
  abbrev pub Settled : File → ConfigManager → ConfigManager × Reload → Type 0
  Settled file before (now, read_failed) = now ≡ before
  Settled file before (now, invalid e) = now ≡ before
  Settled file before (now, changed changes) =
      ((changes ≡ []) ↔ SameSettings before.config now.config)
      × (reload_config h codec file now ≡ (now, changed []))

  reload_checked-Settled :
      (file : File) (cm : ConfigManager) (c : Config) (v : Checked)
      → read_and_return_config h codec file ≡ read c
      → validate_and_enforce_defaults h cm.default_ground_control_url codec.default_zot_config c ≡ v
      → Settled file cm (reload_checked h codec cm v)
  unfolding reload_checked reload_config reload_read
  reload_checked-Settled file cm c (refused e) at checked = refl
  reload_checked-Settled file cm c (passed c') at checked =
      (detect_changes-none_iff cm.config c', rw (at, checked, detect_changes_self c') refl)

  reload_read-Settled :
      (file : File) (cm : ConfigManager) (found : Read)
      → read_and_return_config h codec file ≡ found
      → Settled file cm (reload_read h codec cm found)
  unfolding reload_read
  reload_read-Settled file cm not_exist at = refl
  reload_read-Settled file cm failed at = refl
  reload_read-Settled file cm (read c) at = reload_checked-Settled file cm c _ at refl

  -- A reload that fails, since the file cannot be read or the config is invalid, leaves the config in
  -- use as it was. One that does not fail reports no change exactly if the log level, the interval of
  -- replication, the Zot config and the effective audit settings are what they were, and a reload of
  -- the same file after it changes nothing and reports nothing.
  pub reload_config-Settled :
      (file : File) (cm : ConfigManager) → Settled file cm (reload_config h codec file cm)
  unfolding reload_config
  reload_config-Settled file cm = reload_read-Settled file cm _ refl
