-- ===== src/GroundControl/Access/Tests.antt =====
-- Access at concrete inputs.
use mathlib.Core.Option.{some-injective}
use harbor_satellite.Common.{
  find, subst, ◌+◌, String, ◌≡◌, ◌≢◌, refl, ◌⊎◌, true, false, none, some, [], ◌∷◌, ◌==◌, arith,
  distinct, if◌then◌else◌, ltb, Bool-cases, inl, inr,
}
use harbor_satellite.GroundControl.Accounts.{
  User, Db, get_user_by_username, get_user_by_id, create_session, get_login_attempts,
  reset_login_attempts, update,
}
use harbor_satellite.GroundControl.Login.{
  session_token, is_locked, format_rfc3339, start_session, check_password, check_account,
  login_handler, logout_handler,
}
use harbor_satellite.GroundControl.Login.Tests.{server, alice, db, call}
use harbor_satellite.GroundControl.Access.{
  Codecs, extract_basic_auth, split_n2, credentials, auth_user, Lookup, by_session, request_id,
}
use harbor_satellite.GroundControl.Access.Sessions.{session_lifetime}
use harbor_satellite.GroundControl.Access.Rows.{HasUserIds}
use harbor_satellite.GroundControl.Access.RequestId.{
  EachPlain, each_plain-EachPlain, Safe, request_id-Safe,
}

abbrev codecs : Codecs
codecs = record { equal_fold = λ a b. a == b; decode_base64 = λ s. some s }

-- The password may hold a colon.
basic : extract_basic_auth codecs "Basic alice:pass:word" ≡ some ("alice", "pass:word")
unfolding extract_basic_auth credentials split_n2
basic = refl

request_id-Safe_example :
    ((request_id "a b" "7c9e6679-7425-40de-944b-e07fc1f90ae7" ≡ "a b")
      ⊎ (request_id "a b" "7c9e6679-7425-40de-944b-e07fc1f90ae7"
          ≡ "7c9e6679-7425-40de-944b-e07fc1f90ae7"))
    × Safe (request_id "a b" "7c9e6679-7425-40de-944b-e07fc1f90ae7")
request_id-Safe_example = request_id-Safe "a b" "7c9e6679-7425-40de-944b-e07fc1f90ae7" safe
  where
    each : EachPlain "7c9e6679-7425-40de-944b-e07fc1f90ae7"
    each = each_plain-EachPlain "7c9e6679-7425-40de-944b-e07fc1f90ae7" refl

    safe : Safe "7c9e6679-7425-40de-944b-e07fc1f90ae7"
    safe = (omega arith, omega arith, each)

abbrev noon : Lookup
noon = record { now = 24000000112; session_fails = false; user_fails = false }

abbrev after : Db
after = record db {
  sessions = (record { user_id = 1; token = "token"; expires_at = 24000001000 }) ∷ [];
}

db-HasUserIds : HasUserIds db
unfolding get_user_by_username get_user_by_id find
db-HasUserIds username u h = elim (Bool-cases ("alice" == username)) [
  | inl named ↦
      let same : some alice ≡ some u = rw named at h in
      subst (λ v. get_user_by_id v.id db ≡ some v) (some-injective alice u same) refl
  | inr other ↦ cc (rw other at h)
]

logged_in : login_handler server (call 900 "right") db ≡ (after, session_token "token" 24)
unfolding login_handler check_account check_password start_session format_rfc3339 create_session
    get_login_attempts get_user_by_username find is_locked reset_login_attempts update
logged_in = refl

session_lifetime_example :
    (user : User) × (username : String) × (password : String) × ((call 900 "right").body
      ≡ some (username, password))
    × (get_user_by_username username db ≡ some user)
    × (server.verify_password password user.password_hash ≡ true)
    × (24 ≡ format_rfc3339 (900 + 24000000000))
    × (by_session server.verify_password noon after "token"
        ≡ (if ltb noon.now 24000001000 then some (auth_user user) else none))
    × (by_session server.verify_password noon (logout_handler "token" false after).0 "token" ≡ none)
    × ((other : String)
        → "token" ≢ other
        → other ≢ ""
        → (by_session server.verify_password noon after other
            ≡ by_session server.verify_password noon db other)
          × (by_session server.verify_password noon (logout_handler "token" false after).0 other
              ≡ by_session server.verify_password noon db other))
session_lifetime_example =
    session_lifetime server (call 900 "right") db after "token" 24 noon logged_in db-HasUserIds
      (distinct refl) refl
