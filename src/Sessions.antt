-- ===== src/Sessions.antt =====
-- app/sessions.py: the login sessions of the table `sessions`, and the reads of `users`.
-- Times are whole microseconds and `now` is the clock's reading. The hash of a token, the random
-- tokens and the ids are arguments. A call that reads and then writes takes the table twice: as its
-- SELECT saw it, and as its UPDATE finds it, which another process may have changed in between.
pub mod Steps
pub mod Resolve
mod Tests
use frostvault.Prelude.{
  ℕ, ◌+◌, ◌*◌, String, str_eq, Bool, true, false, not, ◌&&◌, ◌||◌, Option, none, some, List, [],
  ◌∷◌, ◌++◌, ltb, leb, ◌==◌, if◌then◌else◌, any, is_none, is_some, opt_all,
}
use frostvault.Prelude.Table.{fetch_one, update}

pub record Settings : Type 0 where
  pub session_idle_seconds : ℕ
  pub session_absolute_seconds : ℕ

pub record User : Type 0 where
  pub id : ℕ
  pub session_version : ℕ

pub record Session : Type 0 where
  pub id : String
  pub user_id : ℕ
  pub token_hash : String
  pub auth_method : String
  pub csrf_token : String
  pub session_version : ℕ
  pub created_at : ℕ
  pub last_seen_at : ℕ
  pub idle_expires_at : ℕ
  pub absolute_expires_at : ℕ
  pub reauth_at : Option ℕ
  pub ip : Option String
  pub user_agent : Option String
  pub revoked_at : Option ℕ
  pub vault_id : Option ℕ
  pub transition_version : ℕ

pub data Error : Type 0 where
  unknown_user session_transition : Error

pub data Result {ℓ} (A : Type ℓ) : Type ℓ where
  ok : A → Result A
  raise : Error → Result A

-- `timedelta(seconds=n)`.
abbrev pub seconds : ℕ → ℕ
seconds n = n * 1000000

unfoldable pub find_user : ℕ → List User → Option User
find_user id users = fetch_one (λ u. u.id == id) users

unfoldable pub find_session : String → List Session → Option Session
find_session id sessions = fetch_one (λ s. str_eq s.id id) sessions

unfoldable pub find_token : String → List Session → Option Session
find_token hashed sessions = fetch_one (λ s. str_eq s.token_hash hashed) sessions

-- `_session_is_expired`.
unfoldable pub session_is_expired : Session → ℕ → Bool
session_is_expired s now = leb s.absolute_expires_at now || leb s.idle_expires_at now

-- `revoked_at IS NULL AND absolute_expires_at > now AND idle_expires_at > now`.
unfoldable pub is_live : ℕ → Session → Bool
is_live now s = is_none s.revoked_at && ltb now s.absolute_expires_at && ltb now s.idle_expires_at

unfoldable pub revoke : ℕ → Session → Session
revoke now s = record s { revoked_at = some now; transition_version = s.transition_version + 1 }

unfoldable pub expires : String → ℕ → Session → Bool
expires session_id now s =
    str_eq s.id session_id
    && is_none s.revoked_at
    && (leb s.absolute_expires_at now || leb s.idle_expires_at now)

unfoldable pub expire_session_if_needed : List Session → String → ℕ → List Session × Bool
expire_session_if_needed sessions session_id now =
    (update (expires session_id now) (revoke now) sessions, any (expires session_id now) sessions)

-- The random values of a new session.
pub record Fresh : Type 0 where
  pub id : String
  pub raw_token : String
  pub csrf_token : String

unfoldable pub new_session :
    Settings
    → (String → String)
    → Fresh
    → User
    → String
    → Option String
    → Option String
    → ℕ
    → Session
new_session cfg hash fresh user auth_method ip user_agent now = record {
  id = fresh.id;
  user_id = user.id;
  token_hash = hash fresh.raw_token;
  auth_method = auth_method;
  csrf_token = fresh.csrf_token;
  session_version = user.session_version;
  created_at = now;
  last_seen_at = now;
  idle_expires_at = now + seconds cfg.session_idle_seconds;
  absolute_expires_at = now + seconds cfg.session_absolute_seconds;
  reauth_at = some now;
  ip = ip;
  user_agent = user_agent;
  revoked_at = none;
  vault_id = none;
  transition_version = 1;
}

-- The new table and the raw token.
unfoldable pub create_session :
    Settings
    → (String → String)
    → Fresh
    → List User
    → List Session
    → ℕ
    → String
    → Option String
    → Option String
    → ℕ
    → Result (List Session × String)
create_session cfg hash fresh users sessions user_id auth_method ip user_agent now =
    elim (find_user user_id users) [
      | none ↦ raise unknown_user
      | some user ↦ ok (
        sessions ++ (new_session cfg hash fresh user auth_method ip user_agent now ∷ []),
        fresh.raw_token,
      )
    ]

unfoldable pub touches : String → ℕ → Session → Bool
touches session_id now s = str_eq s.id session_id && is_live now s

unfoldable pub touch : Settings → ℕ → Session → Session
touch cfg now s = record s {
  last_seen_at = now;
  idle_expires_at = now + seconds cfg.session_idle_seconds;
}

-- The end of `resolve_session`, once the row read is neither revoked nor expired: the user's
-- version, and the sliding of the deadline. It returns the row read.
unfoldable pub resolve_row :
    Settings → List User → List Session → Session → ℕ → List Session × Option Session
resolve_row cfg users current row now = elim (find_user row.user_id users) [
  | none ↦ (current, none)
  | some user ↦
      if row.session_version == user.session_version
      then (let table = update (touches row.id now) (touch cfg now) current in
          (table, if any (touches row.id now) current then some row else none))
      else (current, none)
]

unfoldable pub resolve_session :
    Settings
    → (String → String)
    → List User
    → List Session
    → List Session
    → Option String
    → ℕ
    → List Session × Option Session
resolve_session cfg hash users seen current none now = (current, none)
resolve_session cfg hash users seen current (some raw_token) now =
    if str_eq raw_token "" then (current, none) else elim (find_token (hash raw_token) seen) [
      | none ↦ (current, none)
      | some row ↦
          if is_some row.revoked_at
          then (current, none)
          else if session_is_expired row now
          then ((expire_session_if_needed current row.id now).0, none)
          else resolve_row cfg users current row now
    ]

unfoldable pub csrf_token_for :
    (String → String) → List User → List Session → Option String → ℕ → Option String
csrf_token_for hash users sessions none now = none
csrf_token_for hash users sessions (some raw_token) now =
    if str_eq raw_token "" then none else elim (find_token (hash raw_token) sessions) [
      | none ↦ none
      | some row ↦ elim (find_user row.user_id users) [
        | none ↦ none
        | some user ↦
            if is_some row.revoked_at || not (row.session_version == user.session_version)
            then none
            else if session_is_expired row now
            then none
            else some row.csrf_token
      ]
    ]

unfoldable pub mark_reauthenticated : List Session → String → ℕ → List Session
mark_reauthenticated sessions session_id now =
    update (λ s. str_eq s.id session_id) (λ s. record s { reauth_at = some now }) sessions

unfoldable pub is_reauth_recent : Option ℕ → ℕ → ℕ → Bool
is_reauth_recent none now window_seconds = false
is_reauth_recent (some at) now window_seconds = leb now (at + seconds window_seconds)

unfoldable pub revokes : String → Session → Bool
revokes session_id s = str_eq s.id session_id && is_none s.revoked_at

unfoldable pub revoke_session : List Session → String → ℕ → List Session × Bool
revoke_session sessions session_id now =
    (update (revokes session_id) (revoke now) sessions, any (revokes session_id) sessions)

unfoldable pub rotate : Settings → String → Bool → ℕ → Session → Session
rotate cfg hashed reauthenticated now s = record s {
  token_hash = hashed;
  last_seen_at = now;
  idle_expires_at = now + seconds cfg.session_idle_seconds;
  transition_version = s.transition_version + 1;
  reauth_at = if reauthenticated then some now else s.reauth_at;
}

-- The new table; the raw token returned is the fresh one.
unfoldable pub rotate_session :
    Settings
    → (String → String)
    → String
    → List Session
    → String
    → Bool
    → ℕ
    → Result (List Session × String)
rotate_session cfg hash raw_token sessions session_id reauthenticated now =
    if any (touches session_id now) sessions
    then ok (
      update (touches session_id now) (rotate cfg (hash raw_token) reauthenticated now) sessions,
      raw_token,
    )
    else raise session_transition

unfoldable pub selects : String → Option ℕ → ℕ → Session → Bool
selects session_id expected_version now s =
    touches session_id now s && opt_all (λ v. s.transition_version == v) expected_version

unfoldable pub select_vault : Option ℕ → Session → Session
select_vault vault_id s = record s {
  vault_id = vault_id;
  transition_version = s.transition_version + 1;
}

-- The row that `RETURNING` gives, if there is one.
unfoldable pub set_session_vault :
    List Session → String → Option ℕ → Option ℕ → ℕ → List Session × Option Session
set_session_vault sessions session_id vault_id expected_version now =
    let table = update (selects session_id expected_version now) (select_vault vault_id) sessions in
    (
      table,
      if any (selects session_id expected_version now) sessions
          then find_session session_id table
          else none,
    )
