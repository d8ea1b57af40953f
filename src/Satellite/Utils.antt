-- ===== src/Satellite/Utils.antt =====
-- internal/utils/utils.go: the helpers on texts that the reconciliation uses, with the functions of
-- the package strings that they call.
pub mod Laws
pub mod Tests
use Prim.Native.Char.{Char, code}
use harbor_satellite.Common.{
  ℕ, String, ◌⧺◌, Bool, Option, none, some, List, [], ◌∷◌, ◌++◌, eqb, if◌then◌else◌,
}

-- One more character in front of the parts of a text.
unfoldable pub cut : ℕ → Char → List String → List String
cut sep c [] = []
cut sep c (part ∷ parts) = if eqb (code c) sep then "" ∷ part ∷ parts else String.◌∷◌ c part ∷ parts

-- strings.Split with a separator of one character, given by its number.
unfoldable pub split : ℕ → String → List String
split sep String.[] = "" ∷ []
split sep (String.◌∷◌ c s) = cut sep c (split sep s)

-- strings.Join
unfoldable pub join : String → List String → String
join sep [] = ""
join sep (part ∷ []) = part
join sep (part ∷ next ∷ parts) = part ⧺ (sep ⧺ join sep (next ∷ parts))

-- What follows a prefix, if the text has it.
unfoldable pub strip : String → String → Option String
strip String.[] s = some s
strip (String.◌∷◌ p ps) String.[] = none
strip (String.◌∷◌ p ps) (String.◌∷◌ c s) = if eqb (code p) (code c) then strip ps s else none

-- strings.TrimPrefix
pub trim_prefix : String → String → String
trim_prefix prefix s = elim (strip prefix s) [ none ↦ s | some rest ↦ rest ]

pub format_registry_url : String → String
format_registry_url url = trim_prefix "http://" (trim_prefix "https://" url)

-- `none` stands for the error on a repository with no slash.
unfoldable pub get_repository_and_image_name_from_artifact : String → Option (String × String)
get_repository_and_image_name_from_artifact repository = elim (split b'/' repository) [
  | [] ↦ none
  | repo ∷ rest ↦ elim rest [ [] ↦ none | image ∷ images ↦ some (repo, join "/" (image ∷ images)) ]
]
