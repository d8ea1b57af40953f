-- ===== src/GroundControl/Redaction/Difference.antt =====
-- What the audit log records of a change of a config: diffConfigForAudit, and what it calls.
use harbor_satellite.Common.{
  ℕ, String, ◌⧺◌, Bool, true, false, ◌&&◌, Option, none, some, List, [], ◌∷◌, eqb, ◌==◌,
  if◌then◌else◌, ◌+◌, Map, insert,
}
use harbor_satellite.Satellite.Utils.{split}
use harbor_satellite.GroundControl.Redaction.{
  Value, null, boolean, number, text, array, object, Elements, no_elements, element, Entries,
  no_entries, entry, audit_redacted, is_sensitive_config_key, redact_config_value,
}

-- The keys "from" and "to" of an entry, each of which may be left out.
pub record Change : Type 0 where
  pub from : Option Value
  pub to : Option Value

unfoldable pub child_path : String → String → String
child_path prefix key = if prefix == "" then key else (prefix ⧺ ("." ⧺ key))

abbrev pub last_part : String → List String → String
last_part part [] = part
last_part part (next ∷ parts) = last_part next parts

unfoldable pub last_key : String → String
last_key path = last_part "" (split b'.' path)

unfoldable pub redacted_leaf : String → Value → Value
unfolding is_sensitive_config_key
redacted_leaf key v =
    if is_sensitive_config_key key then text audit_redacted else redact_config_value v

-- v, ok := fields[key]
unfoldable pub get_entry : String → Entries → Option Value
get_entry key no_entries = none
get_entry key (entry name v fs) = if name == key then some v else get_entry key fs

unfoldable pub count_entries : Entries → ℕ
count_entries no_entries = 0
count_entries (entry name v fs) = 1 + count_entries fs

abbrev pub same_bool : Bool → Bool → Bool
same_bool true b = b
same_bool false true = false
same_bool false false = true

-- reflect.DeepEqual of decoded values.
unfoldable mutual
  unfolding get_entry count_entries

  pub deep_equal : Value → Value → Bool
  deep_equal null null = true
  deep_equal (boolean a) (boolean b) = same_bool a b
  deep_equal (number a) (number b) = a == b
  deep_equal (text a) (text b) = a == b
  deep_equal (array xs) (array ys) = equal_elements xs ys
  deep_equal (object fs) (object gs) =
      eqb (count_entries fs) (count_entries gs) && equal_entries fs gs
  deep_equal v w = false

  pub equal_elements : Elements → Elements → Bool
  equal_elements no_elements no_elements = true
  equal_elements (element v xs) (element w ys) = deep_equal v w && equal_elements xs ys
  equal_elements xs ys = false

  pub equal_entries : Entries → Entries → Bool
  equal_entries no_entries gs = true
  equal_entries (entry key v fs) gs =
      (elim (get_entry key gs) [ none ↦ false | some w ↦ deep_equal v w ]) && equal_entries fs gs

abbrev pub is_null : Value → Bool
is_null null = true
is_null (boolean b) = false
is_null (number n) = false
is_null (text s) = false
is_null (array xs) = false
is_null (object fs) = false

-- The second loop of diffConfigMaps: the keys that the old object does not have.
unfoldable pub added_entries : Map Change → String → Entries → Entries → Map Change
unfolding get_entry child_path redacted_leaf
added_entries out prefix old no_entries = out
added_entries out prefix old (entry key v fs) =
    added_entries
      (elim (get_entry key old) [
        | some w ↦ out
        | none ↦
            if is_null v
            then out
            else insert (child_path prefix key)
                (record { from = none; to = some (redacted_leaf key v) }) out
      ])
      prefix old fs

-- One leaf of diffConfigValues.
unfoldable pub changed_leaf : Map Change → String → Value → Value → Map Change
unfolding deep_equal last_key redacted_leaf
changed_leaf out prefix v w =
    if deep_equal v w
    then out
    else insert prefix
        (record {
          from = some (redacted_leaf (last_key prefix) v);
          to = some (redacted_leaf (last_key prefix) w);
        })
        out

unfoldable mutual
  unfolding get_entry child_path redacted_leaf changed_leaf added_entries

  pub diff_config_values : Map Change → String → Value → Value → Map Change
  diff_config_values out prefix (object fs) (object gs) =
      added_entries (diff_config_maps out prefix fs gs) prefix fs gs
  diff_config_values out prefix v w = changed_leaf out prefix v w

  -- The first loop of diffConfigMaps.
  pub diff_config_maps : Map Change → String → Entries → Entries → Map Change
  diff_config_maps out prefix no_entries gs = out
  diff_config_maps out prefix (entry key v fs) gs =
      diff_config_maps
        (elim (get_entry key gs) [
          | some w ↦ diff_config_values out (child_path prefix key) v w
          | none ↦
              if is_null v
              then out
              else insert (child_path prefix key)
                  (record { from = some (redacted_leaf key v); to = none }) out
        ])
        prefix fs gs

-- What does not decode is null.
abbrev pub decoded : (String → Option Value) → String → Value
decoded unmarshal raw = elim (unmarshal raw) [ none ↦ null | some v ↦ v ]

unfoldable pub diff_config_for_audit : (String → Option Value) → String → String → Map Change
unfolding diff_config_values
diff_config_for_audit unmarshal old new =
    diff_config_values [] "" (decoded unmarshal old) (decoded unmarshal new)
