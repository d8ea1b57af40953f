-- ===== src/Config/Manager/Tests.antt =====
-- Reloading a concrete file.
use harbor_satellite.Common.{◌≡◌, refl, subst, true, false, none, some, ◌==◌, if◌then◌else◌}
use harbor_satellite.Config.Validate.{Config}
use harbor_satellite.Config.Validate.Tests.{host, settings, accepted}
use harbor_satellite.Config.Manager.{
  content, missing, Codec, ConfigManager, read_failed, changed, detect_changes,
  read_and_return_config, reload_checked, reload_read, reload_config, init_config_manager,
  start_with, set_use_unsecure,
}
use harbor_satellite.Config.Manager.Reloaded.{Settled, reload_config-Settled}

abbrev codec : Codec
codec = record {
  is_encrypted = λ text. false;
  decrypt_config = λ text. none;
  unmarshal = λ text. if text == "?" then none else some (settings "loud" false "" "" "{}");
  empty = settings "loud" false "" "" "{}";
  default_zot_config = "zot";
}

abbrev checked : Config
checked = settings "info" true "x" "http://0.0.0.0:8585" "zot"

abbrev before : ConfigManager
before = record {
  config = settings "debug" true "x" "http://0.0.0.0:8585" "zot";
  default_ground_control_url = "";
}

abbrev after : ConfigManager
after = record { config = checked; default_ground_control_url = "" }

broken : reload_config host codec (content "?") before ≡ (before, read_failed)
unfolding reload_config reload_read read_and_return_config
broken = refl

reloads :
    reload_config host codec (content "c") before
    ≡ (after, changed (detect_changes before.config checked))
unfolding reload_config reload_read read_and_return_config reload_checked
reloads = rw accepted refl

reload_config-Settled_example :
    Settled host codec (content "c") before (after, changed (detect_changes before.config checked))
reload_config-Settled_example =
    subst (Settled host codec (content "c") before) reloads
      (reload_config-Settled host codec (content "c") before)

no_url : init_config_manager host codec "" false missing ≡ none
unfolding init_config_manager start_with set_use_unsecure
no_url = refl
