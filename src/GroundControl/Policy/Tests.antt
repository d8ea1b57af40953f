-- ===== src/GroundControl/Policy/Tests.antt =====
-- The policy at concrete inputs, over the ASCII part of the character tables.
use Prim.Native.Char.{code}
use harbor_satellite.Common.{
  ◌≡◌, refl, true, false, ◌&&◌, ◌||◌, none, some, [], ◌∷◌, pos, negsuc, ltℤ, leb, ◌≤ℤ◌,
}
use harbor_satellite.GroundControl.Policy.{
  PolicyConfig, Unicode, default_policy, load_policy_from_config, some_char, contains_uppercase,
  contains_lowercase, contains_number, contains_special, at_least, number, validate,
}
use harbor_satellite.GroundControl.Policy.Laws.{load_policy_from_config_lengths}

abbrev ascii : Unicode
ascii = record {
  is_upper = λ c. leb b'A' (code c) && leb (code c) b'Z';
  is_lower = λ c. leb b'a' (code c) && leb (code c) b'z';
  is_digit = λ c. leb b'0' (code c) && leb (code c) b'9';
  is_letter =
      λ c. (leb b'A' (code c) && leb (code c) b'Z') || (leb b'a' (code c) && leb (code c) b'z');
}

-- The second test of policy_test.go: the minimum wins.
abbrev crossed : PolicyConfig
crossed = record {
  min_length = pos 16;
  max_length = negsuc 7;
  require_uppercase = true;
  require_lowercase = true;
  require_number = true;
  require_special = false;
}

accepted : validate ascii default_policy "ValidPassword123" ≡ none
unfolding validate default_policy contains_uppercase contains_lowercase contains_number
    contains_special some_char
accepted = refl

refused : validate ascii default_policy "Pass" ≡ some (at_least (pos 8) ∷ number ∷ [])
unfolding validate default_policy contains_uppercase contains_lowercase contains_number
    contains_special some_char
refused = refl

load_policy_from_config_lengths_example :
    (ltℤ (pos 0) (load_policy_from_config crossed).min_length ≡ true)
    × ((load_policy_from_config crossed).min_length ≤ℤ (load_policy_from_config crossed).max_length)
load_policy_from_config_lengths_example = load_policy_from_config_lengths crossed
