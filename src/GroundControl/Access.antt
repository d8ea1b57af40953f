-- ===== src/GroundControl/Access.antt =====
-- internal/groundcontrol/server/middleware.go: who a request is from. The headers' words are compared
-- with strings.EqualFold, and credentials are decoded by encoding/base64: both are parameters.
pub mod Rows
pub mod Sessions
pub mod RequestId
pub mod Tests
use Prim.Native.Char.{Char, code}
use Prim.Native.String.{len}
use harbor_satellite.Common.{
  ℕ, String, Bool, true, false, ◌&&◌, ◌||◌, Option, none, some, List, [], ◌∷◌, ltb, leb, eqb, ◌==◌,
  if◌then◌else◌,
}
use harbor_satellite.GroundControl.Accounts.{
  Role, is_system_admin, User, Session, Db, get_user_by_username, get_session_by_token,
}

-- strings.SplitN(s, sep, 2) with a separator of one character: `none` where it does not occur.
pub split_n2 : ℕ → String → Option (String × String)
split_n2 sep String.[] = none
split_n2 sep (String.◌∷◌ c s) =
    let rest = split_n2 sep s in
    if eqb (code c) sep
    then some ("", s)
    else (elim rest [ none ↦ none | some (before, after) ↦ some (String.◌∷◌ c before, after) ])

pub record Codecs : Type 0 where
  pub equal_fold : String → String → Bool
  pub decode_base64 : String → Option String

module _ (codecs : Codecs) where
  -- What follows the word in the header Authorization.
  pub credentials : String → String → Option String
  credentials word header = if header == "" then none else (elim (split_n2 b' ' header) [
    | none ↦ none
    | some (scheme, rest) ↦ if codecs.equal_fold scheme word then some rest else none
  ])

  -- The empty text where there is no token.
  pub extract_bearer_token : String → String
  unfolding credentials
  extract_bearer_token header = elim (credentials "Bearer" header) [
    | none ↦ ""
    | some token ↦ token
  ]

  pub extract_basic_auth : String → Option (String × String)
  unfolding credentials
  extract_basic_auth header = elim (credentials "Basic" header) [
    | none ↦ none
    | some encoded ↦ elim (codecs.decode_base64 encoded) [
      | none ↦ none
      | some decoded ↦ split_n2 b':' decoded
    ]
  ]

pub record AuthUser : Type 0 where
  pub id : ℕ
  pub username : String
  pub role : Role

abbrev pub auth_user : User → AuthUser
auth_user u = record { id = u.id; username = u.username; role = u.role }

-- The clock that the database read, and which of the two queries fail.
pub record Lookup : Type 0 where
  pub now : ℕ
  pub session_fails : Bool
  pub user_fails : Bool

module _ (verify_password : String → String → Bool) (l : Lookup) (db : Db) where
  unfoldable pub by_session : String → Option AuthUser
  by_session token =
      if token == "" || l.session_fails then none else (elim (get_session_by_token l.now token db) [
        | none ↦ none
        | some (session, user) ↦ some (auth_user user)
      ])

  unfoldable pub by_password : Option (String × String) → Option AuthUser
  by_password none = none
  by_password (some (username, password)) =
      if l.user_fails then none else (elim (get_user_by_username username db) [
        | none ↦ none
        | some user ↦
            if verify_password password user.password_hash then some (auth_user user) else none
      ])

  -- AuthMiddleware: `none` stands for the answer 401.
  pub auth_middleware : Codecs → String → Option AuthUser
  unfolding by_session by_password
  auth_middleware codecs header = elim (by_session (extract_bearer_token codecs header)) [
    | some user ↦ some user
    | none ↦ by_password (extract_basic_auth codecs header)
  ]

pub data Access : Type 0 where
  allowed unauthorized forbidden : Access

-- RequireRole(roleSystemAdmin, …), the only role that a route requires.
pub require_system_admin : Option AuthUser → Access
require_system_admin none = unauthorized
require_system_admin (some user) = if is_system_admin user.role then allowed else forbidden

-- strings.ContainsRune
pub contains_rune : String → Char → Bool
contains_rune String.[] c = false
contains_rune (String.◌∷◌ x s) c =
    let rest = contains_rune s c in if eqb (code x) (code c) then true else rest

abbrev pub allowed_runes : String
allowed_runes = "abcdefghijklmnopqrstuvwxyzABCDEFGHIJKLMNOPQRSTUVWXYZ0123456789._-"

pub all_allowed : String → Bool
unfolding contains_rune
all_allowed String.[] = true
all_allowed (String.◌∷◌ c s) =
    let rest = all_allowed s in if contains_rune allowed_runes c then rest else false

pub valid_request_id : String → Bool
unfolding all_allowed
valid_request_id s = if eqb (len s) 0 || ltb 128 (len s) then false else all_allowed s

-- The id that RequestIDMiddleware attaches, given the trimmed header and a new UUID.
pub request_id : String → String → String
unfolding valid_request_id
request_id header uuid = if valid_request_id header then header else uuid
