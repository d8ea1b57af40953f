-- ===== src/GroundControl/Policy/Laws.antt =====
-- What a loaded policy allows, and what its check decides.
use Prim.Native.Char.{Char}
use Prim.Native.String.{len}
use harbor_satellite.Common.{
  String, ◌≡◌, ◌↔◌, ◌⊎◌, Bool, true, not, ◌&&◌, none, pos, ltℤ, ◌≤ℤ◌, arith,
}
use harbor_satellite.GroundControl.Policy.{
  PolicyConfig, PasswordPolicy, Unicode, load_policy_from_config, some_char, contains_uppercase,
  contains_lowercase, contains_number, contains_special, validate,
}

-- Whatever the environment says, zero, negative and crossed lengths included, the loaded policy has
-- a positive minimum that does not pass its maximum.
pub load_policy_from_config_lengths :
    (cfg : PolicyConfig)
    → (ltℤ (pos 0) (load_policy_from_config cfg).min_length ≡ true)
      × ((load_policy_from_config cfg).min_length ≤ℤ (load_policy_from_config cfg).max_length)
unfolding load_policy_from_config
load_policy_from_config_lengths cfg = ground arith

-- Some character of the text passes the test.
abbrev pub HasChar : (Char → Bool) → String → Type 0
HasChar p String.[] = ⊥
HasChar p (String.◌∷◌ c s) = (p c ≡ true) ⊎ HasChar p s

some_char_iff : (p : Char → Bool) (s : String) → (some_char p s ≡ true) ↔ HasChar p s
unfolding some_char
some_char_iff p String.[] = (λ h. cc, λ h. absurd h)
some_char_iff p (String.◌∷◌ c s) = ground (arith, some_char_iff p s)

-- The policy in words: the two bounds on the length, and each class of characters that it requires.
pub record Meets (u : Unicode) (p : PasswordPolicy) (s : String) : Type 0 where
  pub long : p.min_length ≤ℤ pos (len s)
  pub short : pos (len s) ≤ℤ p.max_length
  pub uppercase : p.require_uppercase ≡ true → HasChar u.is_upper s
  pub lowercase : p.require_lowercase ≡ true → HasChar u.is_lower s
  pub number : p.require_number ≡ true → HasChar u.is_digit s
  pub special :
      p.require_special ≡ true → HasChar (λ c. not (u.is_letter c) && not (u.is_digit c)) s

-- A password is accepted exactly when it meets the policy: its length in bytes is within the two
-- bounds, and it has a character of each class that the policy requires.
pub validate-none_iff :
    (u : Unicode) (p : PasswordPolicy) (s : String) → (validate u p s ≡ none) ↔ Meets u p s
unfolding validate contains_uppercase contains_lowercase contains_number contains_special
validate-none_iff u p s = ground (
  arith,
  some_char_iff u.is_upper s,
  some_char_iff u.is_lower s,
  some_char_iff u.is_digit s,
  some_char_iff (λ (c : Char). not (u.is_letter c) && not (u.is_digit c)) s,
)
