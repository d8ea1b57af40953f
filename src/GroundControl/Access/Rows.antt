-- ===== src/GroundControl/Access/Rows.antt =====
-- What a token finds in the table after a session is stored or deleted.
use mathlib.Core.Option.{some-injective}
use harbor_satellite.Common.{
  find, ◌++◌, ℕ, String, ◌≡◌, ◌≢◌, refl, sym, ap, ◌∙◌, Bool, false, not, ◌&&◌, Option, none, some,
  List, [], ◌∷◌, ltb, eqb, ◌==◌, eq_iff, eq_refl, if◌then◌else◌, arith, Bool-cases, Option-cases,
  inl, inr,
}
use harbor_satellite.GroundControl.Accounts.{
  User, Session, Db, get_user_by_username, get_user_by_id, get_session_by_token, create_session,
  delete_session,
}
use harbor_satellite.GroundControl.Accounts.Laws.{
  find-append, find-append_miss, find-none, find-keep, find-keep-none,
}

-- A user that is found by name is found by its id: the primary key of the table.
abbrev pub HasUserIds : Db → Type 0
HasUserIds db =
    (username : String) (u : User)
    → get_user_by_username username db ≡ some u
    → get_user_by_id u.id db ≡ some u

module _ (session : Session) (db db' : Db) (stored : create_session session db ≡ some db') where
  created :
      (find (λ t. t.token == session.token) db.sessions ≡ none)
      × (db'.sessions ≡ db.sessions ++ (session ∷ []))
      × (db'.users ≡ db.users)
  unfolding create_session
  created = elim (Option-cases (find (λ t. t.token == session.token) db.sessions)) [
    | inl new ↦
        let out = some-injective _ _ (rw (new, create_session) at stored) in
        (new, sym (ap (λ d. d.sessions) out), sym (ap (λ d. d.users) out))
    | inr (t, taken) ↦ cc (rw (taken, create_session) at stored)
  ]

  -- The rows that a token finds.
  found_new :
      (now : ℕ)
      → find (λ t. t.token == session.token && ltb now t.expires_at) db'.sessions
        ≡ (if ltb now session.expires_at then some session else none)
  found_new now =
      let live : Session → Bool = λ t. t.token == session.token && ltb now t.expires_at in
      let before =
        find-none (λ t. t.token == session.token) live db.sessions (λ t miss. rw miss refl)
          created.0 in
      ap (find live) created.1
      ∙ find-append live db.sessions session
      ∙ rw (before, eq_refl session.token) refl

  found_old :
      (now : ℕ) (token : String)
      → session.token ≢ token
      → find (λ t. t.token == token && ltb now t.expires_at) db'.sessions
        ≡ find (λ t. t.token == token && ltb now t.expires_at) db.sessions
  found_old now token other =
      let live : Session → Bool = λ t. t.token == token && ltb now t.expires_at in
      let missed : live session ≡ false = ground (arith, eq_iff session.token token, other) in
      ap (find live) created.1 ∙ find-append_miss live db.sessions session missed

abbrev attach : Session → Option User → Option (Session × User)
attach t none = none
attach t (some u) = some (t, u)

abbrev owned : List User → Option Session → Option (Session × User)
owned users none = none
owned users (some t) = attach t (find (λ u. eqb u.id t.user_id) users)

get_session-find :
    (now : ℕ) (token : String) (db : Db)
    → get_session_by_token now token db
      ≡ owned db.users (find (λ t. t.token == token && ltb now t.expires_at) db.sessions)
unfolding get_session_by_token get_user_by_id
get_session-find now token db =
    elim (Option-cases (find (λ t. t.token == token && ltb now t.expires_at) db.sessions)) [
      | inl absent ↦ rw (absent, get_session_by_token) refl
      | inr (t, there) ↦ rw (there, get_session_by_token) refl
    ]

module _ (session : Session) (db db' : Db) (stored : create_session session db ≡ some db') where
  pub get_session-created :
      (now : ℕ) (user : User)
      → get_user_by_id session.user_id db ≡ some user
      → get_session_by_token now session.token db'
        ≡ (if ltb now session.expires_at then some (session, user) else none)
  unfolding get_user_by_id
  get_session-created now user owner =
      get_session-find now session.token db'
      ∙ ap (λ o. owned db'.users o) (found_new session db db' stored now)
      ∙ ap (λ us. owned us (if ltb now session.expires_at then some session else none))
          (created session db db' stored).2
      ∙ elim (Bool-cases (ltb now session.expires_at)) [
        | inl live ↦ rw live (ap (λ o. attach session o) owner)
        | inr over ↦ rw over refl
      ]

  pub get_session-created_ne :
      (now : ℕ) (token : String)
      → session.token ≢ token
      → get_session_by_token now token db' ≡ get_session_by_token now token db
  get_session-created_ne now token other =
      get_session-find now token db'
      ∙ ap (λ o. owned db'.users o) (found_old session db db' stored now token other)
      ∙ ap (λ us. owned us (find (λ t. t.token == token && ltb now t.expires_at) db.sessions))
          (created session db db' stored).2
      ∙ sym (get_session-find now token db)

pub get_session-deleted :
    (now : ℕ) (token : String) (db : Db)
    → get_session_by_token now token (delete_session token db) ≡ none
unfolding delete_session
get_session-deleted now token db =
    get_session-find now token (delete_session token db)
    ∙ ap (λ o. owned db.users o)
        (find-keep-none (λ t. t.token == token && ltb now t.expires_at)
          (λ t. not (t.token == token)) db.sessions (λ t kept. ground (arith, kept)))

pub get_session-deleted_ne :
    (now : ℕ) (token asked : String) (db : Db)
    → token ≢ asked
    → get_session_by_token now asked (delete_session token db) ≡ get_session_by_token now asked db
unfolding delete_session
get_session-deleted_ne now token asked db other =
    get_session-find now asked (delete_session token db)
    ∙ ap (λ o. owned db.users o)
        (find-keep (λ t. t.token == asked && ltb now t.expires_at) (λ t. not (t.token == token))
          db.sessions
          (λ t gone. ground (arith, gone, eq_iff t.token token, eq_iff t.token asked, other)))
    ∙ sym (get_session-find now asked db)
