-- ===== src/GroundControl/Policy.antt =====
-- internal/groundcontrol/auth/policy.go: the password policy and its check.
-- A password is a text; `len` counts its bytes, and a range loop visits its characters. The tables
-- of the package unicode are a parameter.
pub mod Laws
pub mod Tests
use Prim.Native.Char.{Char}
use Prim.Native.String.{len}
use harbor_satellite.Common.{
  String, Bool, true, false, not, ◌&&◌, Option, none, some, List, [], ◌∷◌, ◌++◌, ℤ, pos, ltℤ,
  if◌then◌else◌,
}

-- env.PasswordPolicy, as it is read from the environment.
pub record PolicyConfig : Type 0 where
  pub min_length : ℤ
  pub max_length : ℤ
  pub require_uppercase : Bool
  pub require_lowercase : Bool
  pub require_number : Bool
  pub require_special : Bool

pub record PasswordPolicy : Type 0 where
  pub min_length : ℤ
  pub max_length : ℤ
  pub require_uppercase : Bool
  pub require_lowercase : Bool
  pub require_number : Bool
  pub require_special : Bool

pub default_policy : PasswordPolicy
default_policy = record {
  min_length = pos 8;
  max_length = pos 128;
  require_uppercase = true;
  require_lowercase = true;
  require_number = true;
  require_special = false;
}

-- The two tests `> 0`, and the test that raises the maximum to the minimum.
set_lengths : PolicyConfig → PasswordPolicy → PasswordPolicy
set_lengths cfg p =
    let low = if ltℤ (pos 0) cfg.min_length then cfg.min_length else p.min_length in
    let high = if ltℤ (pos 0) cfg.max_length then cfg.max_length else p.max_length in
    record p { min_length = low; max_length = if ltℤ high low then low else high }

pub load_policy_from_config : PolicyConfig → PasswordPolicy
unfolding default_policy set_lengths
load_policy_from_config cfg =
    let policy = set_lengths cfg default_policy in
    record policy {
      require_uppercase = cfg.require_uppercase;
      require_lowercase = cfg.require_lowercase;
      require_number = cfg.require_number;
      require_special = cfg.require_special;
    }

-- unicode.IsUpper, IsLower, IsDigit and IsLetter.
pub record Unicode : Type 0 where
  pub is_upper : Char → Bool
  pub is_lower : Char → Bool
  pub is_digit : Char → Bool
  pub is_letter : Char → Bool

-- The range loops: does some character pass the test?
some_char : (Char → Bool) → String → Bool
some_char p String.[] = false
some_char p (String.◌∷◌ c s) = elim (p c) [ true ↦ true | false ↦ some_char p s ]

module _ (u : Unicode) where
  pub contains_uppercase : String → Bool
  contains_uppercase = some_char u.is_upper

  pub contains_lowercase : String → Bool
  contains_lowercase = some_char u.is_lower

  pub contains_number : String → Bool
  contains_number = some_char u.is_digit

  pub contains_special : String → Bool
  contains_special = some_char (λ c. not (u.is_letter c) && not (u.is_digit c))

-- The entries of the error's text.
pub data Violation : Type 0 where
  at_least at_most : ℤ → Violation
  uppercase_letter lowercase_letter number special_character : Violation

-- append under a condition
abbrev pub when : Bool → Violation → List Violation
when true v = v ∷ []
when false v = []

module _ (u : Unicode) where
  pub violations : PasswordPolicy → String → List Violation
  violations p password =
      when (ltℤ (pos (len password)) p.min_length) (at_least p.min_length)
      ++ when (ltℤ p.max_length (pos (len password))) (at_most p.max_length)
      ++ when (p.require_uppercase && not (contains_uppercase u password)) uppercase_letter
      ++ when (p.require_lowercase && not (contains_lowercase u password)) lowercase_letter
      ++ when (p.require_number && not (contains_number u password)) number
      ++ when (p.require_special && not (contains_special u password)) special_character

  -- No error, or the error with its violations.
  pub validate : PasswordPolicy → String → Option (List Violation)
  unfolding violations
  validate p password = elim (violations p password) [ [] ↦ none | v ∷ vs ↦ some (v ∷ vs) ]
