-- ===== src/GroundControl/Redaction/Tests.antt =====
-- Configs as the audit log records them.
use harbor_satellite.Common.{String, ◌≡◌, refl, ◌↔◌, true, none, some, [], ◌∷◌, insert}
use harbor_satellite.Satellite.Utils.{split, cut}
use harbor_satellite.GroundControl.Redaction.{
  Value, number, text, array, object, no_elements, element, no_entries, entry, starts_lower,
  contains_lower, contains_any, is_sensitive_config_key, redact_config_value,
  redact_config_for_audit,
}
use harbor_satellite.GroundControl.Redaction.Difference.{
  child_path, last_key, redacted_leaf, get_entry, deep_equal, added_entries, changed_leaf,
  diff_config_values, diff_config_for_audit,
}
use harbor_satellite.GroundControl.Redaction.Visible.{Agree, redact_config_value_visible}

abbrev account : String → String → Value
account name password =
    object (entry "username" (text name) (entry "password" (text password) no_entries))

abbrev config : String → String → Value
config name password = object (
    entry "registry_credentials" (account name password) (
      entry "ports" (array (element (number "80") (element (account name password) no_elements)))
        no_entries))

redact-config :
    redact_config_value (config "edge" "one")
    ≡ object (
        entry "registry_credentials" (text "[REDACTED]") (
          entry "ports"
            (array (element (number "80") (element (account "edge" "[REDACTED]") no_elements)))
            no_entries))
unfolding redact_config_value is_sensitive_config_key contains_any contains_lower starts_lower
redact-config = refl

upper_case : is_sensitive_config_key "AUTH_TOKEN" ≡ true
unfolding is_sensitive_config_key contains_any contains_lower starts_lower
upper_case = refl

unparseable : redact_config_for_audit (λ raw. none) "{" ≡ some (text "[unparseable config]")
unfolding redact_config_for_audit
unparseable = refl

-- The log of a change shows a name that the log of the whole config hides: the key of an object
-- around it does not count.
nested :
    diff_config_for_audit (λ raw. some (config raw "one")) "edge" "core"
    ≡ (
      "registry_credentials.username",
      record { from = some (text "edge"); to = some (text "core") },
    )
      ∷ (
        "ports",
        record {
          from =
              some
                (array (element (number "80") (element (account "edge" "[REDACTED]") no_elements)));
          to =
              some
                (array (element (number "80") (element (account "core" "[REDACTED]") no_elements)));
        },
      )
      ∷ []
unfolding diff_config_for_audit diff_config_values changed_leaf added_entries get_entry child_path
    last_key redacted_leaf deep_equal insert split cut redact_config_value is_sensitive_config_key
    contains_any contains_lower starts_lower
nested = refl

redact_config_value_visible_example :
    (redact_config_value (config "edge" "one") ≡ redact_config_value (config "edge" "two"))
    ↔ Agree (config "edge" "one") (config "edge" "two")
redact_config_value_visible_example =
    redact_config_value_visible (config "edge" "one") (config "edge" "two")
