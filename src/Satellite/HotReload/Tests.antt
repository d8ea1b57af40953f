-- ===== src/Satellite/HotReload/Tests.antt =====
-- A new level of the log and a new Zot config, applied.
use harbor_satellite.Common.{String, ◌≡◌, refl, true, some}
use harbor_satellite.Satellite.Utils.{strip}
use harbor_satellite.Config.Audit.Equality.{equal_iff}
use harbor_satellite.Config.Validate.{Config}
use harbor_satellite.Config.Validate.Tests.{settings}
use harbor_satellite.Config.Manager.{detect_changes}
use harbor_satellite.Satellite.HotReload.{
  Platform, Running, parse_every_expr, level_or_info, handle_log_level_change,
  handle_zot_config_change, notify_change_callbacks, process_config_changes,
}
use harbor_satellite.Satellite.HotReload.Applied.{InSync, process_config_changes-InSync}

abbrev platform : Platform
platform = record {
  parse_duration = λ text. some 30;
  parse_level = λ level. some level;
  load_configuration = λ raw file. true;
  write_file = true;
}

abbrev old : Config
old = settings "info" true "x" "" "zot"

abbrev new : Config
new = settings "debug" true "x" "" "zot two"

abbrev running : String → String → Running
running level zot = record { interval = some 30; global_level = level; zot_file = zot }

in_sync : InSync platform old (running "info" "zot")
unfolding parse_every_expr strip level_or_info
in_sync = (refl, refl, refl)

processed :
    process_config_changes platform new (detect_changes old new) (running "info" "zot")
    ≡ (running "debug" "zot two", 0)
unfolding process_config_changes notify_change_callbacks handle_log_level_change
    handle_zot_config_change detect_changes level_or_info
processed = rw ((equal_iff old.app_config.audit old.app_config.audit).1 refl) refl

process_config_changes-InSync_example : InSync platform new (running "debug" "zot two")
process_config_changes-InSync_example =
    process_config_changes-InSync platform old new (running "info" "zot")
      (running "debug" "zot two") in_sync processed
