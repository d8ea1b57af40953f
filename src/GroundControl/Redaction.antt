-- ===== src/GroundControl/Redaction.antt =====
-- What the audit log records of a config: isSensitiveConfigKey, redactConfigValue and
-- redactConfigForAudit of internal/groundcontrol/server/config_handlers.go. Decoding JSON is a parameter.
pub mod Visible
pub mod Difference
pub mod Tests
use Prim.Native.Char.{code}
use harbor_satellite.Common.{
  ℕ, ◌+◌, String, Bool, true, false, ◌&&◌, ◌||◌, Option, none, some, List, [], ◌∷◌, leb, eqb, ◌==◌,
  if◌then◌else◌,
}

-- A decoded JSON value; a number is the text that prints it, and the keys of an object are distinct.
mutual
  pub data Value : Type 0 where
    null : Value
    boolean : Bool → Value
    number : String → Value
    text : String → Value
    array : Elements → Value
    object : Entries → Value

  pub data Entries : Type 0 where
    no_entries : Entries
    entry : String → Value → Entries → Entries

  pub data Elements : Type 0 where
    no_elements : Elements
    element : Value → Elements → Elements

abbrev pub audit_redacted : String
audit_redacted = "[REDACTED]"

-- unicode.ToLower, as far as a lower-case letter of ASCII comes out: of A to Z, of U+212A (the sign
-- for kelvin) and of U+0130 (an I with a dot).
abbrev pub lower : ℕ → ℕ
lower c =
    if leb b'A' c && leb c b'Z'
    then c + 32
    else (if eqb c 8490 then b'k' else (if eqb c 304 then b'i' else c))

-- Whether the lower-case form of a text starts with a fragment …
pub starts_lower : String → String → Bool
starts_lower String.[] s = true
starts_lower (String.◌∷◌ p ps) String.[] = false
starts_lower (String.◌∷◌ p ps) (String.◌∷◌ c s) = eqb (code p) (lower (code c)) && starts_lower ps s

-- … or contains it.
pub contains_lower : String → String → Bool
unfolding starts_lower
contains_lower fragment String.[] = starts_lower fragment String.[]
contains_lower fragment (String.◌∷◌ c s) =
    starts_lower fragment (String.◌∷◌ c s) || contains_lower fragment s

pub contains_any : List String → String → Bool
unfolding contains_lower
contains_any [] key = false
contains_any (fragment ∷ fragments) key = contains_lower fragment key || contains_any fragments key

abbrev pub sensitive_fragments : List String
sensitive_fragments =
    "password" ∷ "passwd" ∷ "secret" ∷ "token" ∷ "credential" ∷ "apikey" ∷ "api_key" ∷ "access_key"
    ∷ "private_key" ∷ []

pub is_sensitive_config_key : String → Bool
unfolding contains_any
is_sensitive_config_key key = contains_any sensitive_fragments key

mutual
  unfolding is_sensitive_config_key

  pub redact_config_value : Value → Value
  redact_config_value null = null
  redact_config_value (boolean b) = boolean b
  redact_config_value (number n) = number n
  redact_config_value (text s) = text s
  redact_config_value (array xs) = array (redact_elements xs)
  redact_config_value (object fs) = object (redact_entries fs)

  pub redact_elements : Elements → Elements
  redact_elements no_elements = no_elements
  redact_elements (element v xs) = element (redact_config_value v) (redact_elements xs)

  pub redact_entries : Entries → Entries
  redact_entries no_entries = no_entries
  redact_entries (entry key v fs) =
      let shown = redact_config_value v in
      entry key (if is_sensitive_config_key key then text audit_redacted else shown)
        (redact_entries fs)

-- `none` is nil.
pub redact_config_for_audit : (String → Option Value) → String → Option Value
unfolding redact_config_value
redact_config_for_audit unmarshal raw =
    if raw == ""
    then none
    else some (elim (unmarshal raw) [
      | none ↦ text "[unparseable config]"
      | some decoded ↦ redact_config_value decoded
    ])
