-- ===== src/GroundControl/Fleet/Credentials.antt =====
-- The queries on robot accounts and tokens.
use harbor_satellite.Common.{
  Option, String, [], eqb, find, keep, none, not, some, suc, ℕ, ◌&&◌, ◌++◌, ◌==◌, ◌∷◌,
}
use harbor_satellite.GroundControl.Fleet.{Fleet, RobotAccount, SatelliteToken, update_where}

-- robot_accounts.sql.go
unfoldable pub get_robot_acc_by_satellite_id : ℕ → Fleet → Option RobotAccount
get_robot_acc_by_satellite_id id db = find (λ r. eqb r.satellite_id id) db.robot_accounts

-- ON CONFLICT (robot_id) DO UPDATE, which keeps satellite_id; `none` is a violation of the unique
-- name by a row with another robot_id.
unfoldable pub add_robot_account :
    String → String → ℕ → ℕ → Option ℕ → Fleet → Option (Fleet × RobotAccount)
add_robot_account name hash robot_id satellite_id expiry db =
    let taken =
      find (λ r. r.robot_name == name && not (eqb r.robot_id robot_id)) db.robot_accounts in
    let held = find (λ r. eqb r.robot_id robot_id) db.robot_accounts in
    elim taken [
      | some r ↦ none
      | none ↦ elim held [
        | some old ↦
            let new : RobotAccount = record old {
              robot_name = name;
              robot_secret_hash = hash;
              robot_expiry = expiry;
            } in
            some (
              record db {
                robot_accounts =
                    update_where (λ r. eqb r.robot_id robot_id) (λ r. new) db.robot_accounts;
              },
              new,
            )
        | none ↦
            let new : RobotAccount = record {
              id = db.next_id;
              robot_name = name;
              robot_secret_hash = hash;
              robot_id = robot_id;
              satellite_id = satellite_id;
              robot_expiry = expiry;
            } in
            some (
              record db {
                robot_accounts = db.robot_accounts ++ (new ∷ []);
                next_id = suc db.next_id;
              },
              new,
            )
      ]
    ]

unfoldable pub update_robot_account : ℕ → String → String → ℕ → Option ℕ → Fleet → Fleet
update_robot_account id name hash robot_id expiry db = record db {
  robot_accounts =
      update_where (λ r. eqb r.id id)
        (λ r. record r {
          robot_name = name;
          robot_secret_hash = hash;
          robot_id = robot_id;
          robot_expiry = expiry;
        })
        db.robot_accounts;
}

-- satellite_token.sql.go; `none` is a violation of the unique token.
unfoldable pub add_token : ℕ → String → ℕ → Fleet → Option (Fleet × String)
add_token satellite_id token expires_at db = elim (find (λ t. t.token == token) db.tokens) [
  | some t ↦ none
  | none ↦
      let new : SatelliteToken = record {
        satellite_id = satellite_id;
        token = token;
        expires_at = expires_at;
      } in
      some (record db { tokens = db.tokens ++ (new ∷ []) }, token)
]

unfoldable pub get_token_by_value : String → Fleet → Option SatelliteToken
get_token_by_value token db = find (λ t. t.token == token) db.tokens

unfoldable pub delete_token : String → Fleet → Fleet
delete_token token db = record db { tokens = keep (λ t. not (t.token == token)) db.tokens }
