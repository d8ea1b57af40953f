-- ===== src/Satellite/HotReload/Applied.antt =====
-- A reload without errors is applied.
use harbor_satellite.Common.{
  ℕ, suc, String, ◌≡◌, inl, inr, refl, sym, ap, subst, ◌∙◌, Bool, true, false, not, Option, none,
  some, List, ◌++◌, ◌==◌, if◌then◌else◌, arith, eq_iff, Bool-cases,
}
use harbor_satellite.Config.Audit.{AuditConfig}
use harbor_satellite.Config.Validate.{Config}
use harbor_satellite.Config.Manager.{
  ConfigChange, log_level_changed, intervals_changed, zot_config_changed, audit_config_changed,
  when, detect_changes,
}
use harbor_satellite.Satellite.HotReload.{
  Platform, Running, parse_every_expr, level_or_info, reset_from, restart, handle_intervals_change,
  handle_log_level_change, handle_zot_config_change, notify_change_callbacks,
  process_config_changes,
}

module _ (p : Platform) where
  abbrev HasInterval : Config → Option ℕ → Type 0
  HasInterval c none = Unit
  HasInterval c (some n) = parse_every_expr p c.app_config.state_replication_interval ≡ some n

  -- The process runs with the settings of the config.
  abbrev pub InSync : Config → Running → Type 0
  InSync c r =
      HasInterval c r.interval
      × (r.global_level ≡ level_or_info p c.app_config.log_level)
      × (r.zot_file ≡ c.zot_config_raw)

  -- One setting: its change is handled if there is one.
  abbrev handled : Config → Bool → ConfigChange → Running → Running × Bool
  handled c true change r = notify_change_callbacks p c change r
  handled c false change r = (r, true)

  no_error : (b : Bool) (n : ℕ) → (if b then n else suc n) ≡ 0 → (b ≡ true) × (n ≡ 0)
  no_error true n e = (refl, e)
  no_error false n e = absurd (ground (arith, e))

  process-when :
      (c : Config) (b : Bool) (change : ConfigChange) (rest : List ConfigChange) (r r' : Running)
      → process_config_changes p c (when b change ++ rest) r ≡ (r', 0)
      → ((handled c b change r).1 ≡ true)
        × (process_config_changes p c rest (handled c b change r).0 ≡ (r', 0))
  unfolding process_config_changes
  process-when c false change rest r r' e = (refl, e)
  process-when c true change rest r r' e =
      let (fine, zero) = no_error _ _ (ap (λ x. x.1) e) in (fine, cc (zero, e))

  process-audit :
      (c : Config) (b : Bool) (old new : AuditConfig) (r r' : Running)
      → process_config_changes p c (when b (audit_config_changed old new)) r ≡ (r', 0)
      → r ≡ r'
  unfolding process_config_changes notify_change_callbacks
  process-audit c false old new r r' e = ap (λ x. x.0) e
  process-audit c true old new r r' e = ap (λ x. x.0) e

  handled-level :
      (c : Config) (old new : String) (r : Running)
      → r.global_level ≡ level_or_info p old
      → let s = (handled c (not (old == new)) (log_level_changed old new) r).0 in
        (s.global_level ≡ level_or_info p new)
        × (s.interval ≡ r.interval)
        × (s.zot_file ≡ r.zot_file)
  unfolding notify_change_callbacks handle_log_level_change
  handled-level c old new r h = elim (Bool-cases (old == new)) [
    | inl same ↦ rw same (h ∙ ap (level_or_info p) ((eq_iff old new).0 same), refl, refl)
    | inr other ↦ rw other (refl, refl, refl)
  ]

  -- What a step for the interval leaves, where it made no error.
  abbrev IntervalSet : Config → Running → Running × Bool → Type 0
  IntervalSet c r step =
      step.1 ≡ true
      → HasInterval c step.0.interval
        × (step.0.global_level ≡ r.global_level)
        × (step.0.zot_file ≡ r.zot_file)

  reset_from-IntervalSet :
      (c : Config) (r : Running) (o : Option ℕ)
      → parse_every_expr p c.app_config.state_replication_interval ≡ o
      → IntervalSet c r (reset_from p o r)
  unfolding reset_from
  reset_from-IntervalSet c r none at h = absurd (ground (arith, h))
  reset_from-IntervalSet c r (some duration) at h = (at, refl, refl)

  restart-IntervalSet :
      (c : Config) (r : Running) (o : Option ℕ) → r.interval ≡ o → IntervalSet c r (restart p c o r)
  unfolding restart
  restart-IntervalSet c r none at h = (subst (HasInterval c) (sym at) tt, refl, refl)
  restart-IntervalSet c r (some n) at h = reset_from-IntervalSet c r _ refl h

  HasInterval-same :
      (old new : Config) (o : Option ℕ)
      → old.app_config.state_replication_interval ≡ new.app_config.state_replication_interval
      → HasInterval old o
      → HasInterval new o
  HasInterval-same old new none same h = tt
  HasInterval-same old new (some n) same h = ap (parse_every_expr p) (sym same) ∙ h

  handled-IntervalSet :
      (old new : Config) (r : Running)
      → HasInterval old r.interval
      → let x = old.app_config.state_replication_interval in
        let y = new.app_config.state_replication_interval in
        IntervalSet new r (handled new (not (x == y)) (intervals_changed x y) r)
  unfolding notify_change_callbacks handle_intervals_change
  handled-IntervalSet old new r h =
      let x = old.app_config.state_replication_interval in
      let y = new.app_config.state_replication_interval in
      elim (Bool-cases (x == y)) [
        | inl same ↦
            rw same (λ e. (HasInterval-same old new r.interval ((eq_iff x y).0 same) h, refl, refl))
        | inr other ↦ rw other (restart-IntervalSet new r _ refl)
      ]

  handled-zot :
      (old : String) (new : Config) (r : Running)
      → r.zot_file ≡ old
      → let step = handled new (not (old == new.zot_config_raw)) zot_config_changed r in
        step.1 ≡ true
        → (step.0.zot_file ≡ new.zot_config_raw)
          × (step.0.global_level ≡ r.global_level)
          × (step.0.interval ≡ r.interval)
  unfolding notify_change_callbacks handle_zot_config_change
  handled-zot old new r h = elim (Bool-cases (old == new.zot_config_raw)) [
    | inl same ↦ rw same (λ e. (h ∙ (eq_iff old new.zot_config_raw).0 same, refl, refl))
    | inr other ↦ rw other (elim (Bool-cases (p.load_configuration new.zot_config_raw r.zot_file)) [
      | inl loads ↦ rw loads (elim (Bool-cases p.write_file) [
        | inl writes ↦ rw writes (λ e. (refl, refl, refl))
        | inr fails ↦ rw fails (λ e. absurd (ground (arith, e)))
      ])
      | inr refused ↦ rw refused (λ e. absurd (ground (arith, e)))
    ])
  ]

  -- If a satellite runs with the settings of its config, a reload puts another config in its place, and
  -- the changes that the reload reports are processed without an error, then it runs with the settings of
  -- the new config: the interval of its scheduler, if that is set, the level of its log, and Zot's file.
  pub process_config_changes-InSync :
      (old new : Config) (r r' : Running)
      → InSync old r
      → process_config_changes p new (detect_changes old new) r ≡ (r', 0)
      → InSync new r'
  unfolding detect_changes
  process_config_changes-InSync old new r r' sync e =
      let a = old.app_config in
      let b = new.app_config in
      let level = log_level_changed a.log_level b.log_level in
      let (fine1, e1) = process-when new (not (a.log_level == b.log_level)) level _ r r' e in
      let (level1, interval1, zot1) = handled-level new a.log_level b.log_level r sync.1 in
      let r1 = (handled new (not (a.log_level == b.log_level)) level r).0 in
      let (fine2, e2) = process-when new _ _ _ r1 r' e1 in
      let (interval2, level2, zot2) =
        handled-IntervalSet old new r1 (subst (HasInterval old) (sym interval1) sync.0) fine2 in
      let (fine3, e3) = process-when new _ zot_config_changed _ _ r' e2 in
      let (zot3, level3, interval3) =
        handled-zot old.zot_config_raw new _ (zot2 ∙ (zot1 ∙ sync.2)) fine3 in
      let same = process-audit new _ _ _ _ r' e3 in
      subst (InSync new) same
        (subst (HasInterval new) (sym interval3) interval2, level3 ∙ (level2 ∙ level1), zot3)
