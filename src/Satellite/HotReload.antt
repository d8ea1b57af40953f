-- ===== src/Satellite/HotReload.antt =====
-- internal/satellite/hotreload/hotreload.go: what a running satellite does with the changes that a reload
-- of its configuration reports. Each kind of change has at most the one callback that
-- registerCallbacks gives it; the audit log's settings have none here. Parsing a duration and a level,
-- and Zot's own checks, are a parameter; the interval of the scheduler is a number.
pub mod Applied
pub mod Tests
use harbor_satellite.Common.{
  ℕ, suc, ◌+◌, String, Bool, true, false, Option, none, some, List, [], ◌∷◌, ◌==◌, if◌then◌else◌,
}
use harbor_satellite.Satellite.Utils.{strip}
use harbor_satellite.Config.Validate.{Config}
use harbor_satellite.Config.Manager.{
  ConfigChange, log_level_changed, intervals_changed, zot_config_changed, audit_config_changed,
}

-- time.ParseDuration, zerolog.ParseLevel, json.Unmarshal with Zot's LoadConfiguration, which is given
-- the path of the file as it is before it is written, and whether os.WriteFile works. A duration that
-- is not positive, at which the ticker panics, is left out.
pub record Platform : Type 0 where
  pub parse_duration : String → Option ℕ
  pub parse_level : String → Option String
  pub load_configuration : (raw file : String) → Bool
  pub write_file : Bool

-- What the process runs with: the interval of the scheduler, if it is set, the global level of the log,
-- and the file that Zot reads.
pub record Running : Type 0 where
  pub interval : Option ℕ
  pub global_level : String
  pub zot_file : String

module _ (p : Platform) where
  -- parseEveryExpr of scheduler.go
  pub parse_every_expr : String → Option ℕ
  parse_every_expr expr = elim (strip "@every " expr) [
    | none ↦ none
    | some rest ↦ p.parse_duration rest
  ]

  pub level_or_info : String → String
  level_or_info level = elim (p.parse_level level) [ none ↦ "info" | some l ↦ l ]

  pub reset_from : Option ℕ → Running → Running × Bool
  reset_from none r = (r, false)
  reset_from (some duration) r = (record r { interval = some duration }, true)

  -- ResetIntervalFromExpr, if there is a scheduler. The result says whether there was no error.
  pub restart : Config → Option ℕ → Running → Running × Bool
  unfolding parse_every_expr reset_from
  restart c none r = (r, true)
  restart c (some old) r = reset_from (parse_every_expr c.app_config.state_replication_interval) r

  -- The interval is that of the manager's config.
  pub handle_intervals_change : Config → Running → Running × Bool
  unfolding restart
  handle_intervals_change c r = restart c r.interval r

  pub handle_log_level_change : String → Running → Running × Bool
  unfolding level_or_info
  handle_log_level_change new_value r = (record r { global_level = level_or_info new_value }, true)

  pub handle_zot_config_change : Config → Running → Running × Bool
  handle_zot_config_change c r =
      if p.load_configuration c.zot_config_raw r.zot_file
      then (if p.write_file then (record r { zot_file = c.zot_config_raw }, true) else (r, false))
      else (r, false)

  pub notify_change_callbacks : Config → ConfigChange → Running → Running × Bool
  unfolding handle_intervals_change handle_log_level_change handle_zot_config_change
  notify_change_callbacks c (log_level_changed old new) r = handle_log_level_change new r
  notify_change_callbacks c (intervals_changed old new) r = handle_intervals_change c r
  notify_change_callbacks c zot_config_changed r = handle_zot_config_change c r
  notify_change_callbacks c (audit_config_changed old new) r = (r, true)

  -- The callbacks run for every change; the number of errors is returned.
  pub process_config_changes : Config → List ConfigChange → Running → Running × ℕ
  unfolding notify_change_callbacks
  process_config_changes c [] r = (r, 0)
  process_config_changes c (change ∷ changes) r =
      let now = notify_change_callbacks c change r in
      let rest = process_config_changes c changes now.0 in
      (rest.0, if now.1 then rest.1 else suc rest.1)
