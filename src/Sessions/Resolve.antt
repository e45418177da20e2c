-- ===== src/Sessions/Resolve.antt =====
-- What it takes for a token of app/sessions.py to be accepted.
use frostvault.Prelude.{
  ℕ, ◌≤◌, String, str_eq, str_eq_iff, true, false, ◌≡◌, refl, Option, none, some, List, ◌==◌,
  if◌then◌else◌, any, is_some, opt_map, Bool-cases, Option-cases, inl, inr, arith,
}
use frostvault.Prelude.Table.{update}
use frostvault.Prelude.Table.Reads.{any-of-fetch_one, any-update_none, update_nothing}
use frostvault.Sessions.{
  Settings, User, Session, find_token, find_user, is_live, revoke, touches, resolve_row,
  resolve_session, csrf_token_for, revokes, revoke_session, selects, select_vault,
  set_session_vault, session_is_expired,
}

-- A row that is neither revoked nor expired is live, and touches itself.
touches_self :
    (s : Session) (now : ℕ)
    → is_some s.revoked_at ≡ false
    → session_is_expired s now ≡ false
    → touches s.id now s ≡ true
unfolding touches is_live session_is_expired
touches_self s now r x = ground (arith, str_eq_iff s.id s.id)

live_found :
    (hashed : String) (t : List Session) (row : Session) (now : ℕ)
    → find_token hashed t ≡ some row
    → is_some row.revoked_at ≡ false
    → session_is_expired row now ≡ false
    → any (touches row.id now) t ≡ true
unfolding find_token
live_found hashed t row now f r x =
    any-of-fetch_one (λ s. str_eq s.token_hash hashed) (touches row.id now) t row f
      (touches_self row now r x)

revoked_untouched :
    (t : List Session) (id : String) (now now' : ℕ)
    → any (touches id now') (revoke_session t id now).0 ≡ false
unfolding revoke_session
revoked_untouched t id now now' =
    any-update_none (revokes id) (touches id now') (revoke now)
      (λ r h. unfold revokes touches is_live revoke in ground arith)
      (λ r h. unfold revokes touches is_live revoke in ground arith) t

module _ (cfg : Settings) (hash : String → String) (users : List User) where
  resolve_row-csrf :
      (t : List Session) (row : Session) (now : ℕ)
      → any (touches row.id now) t ≡ true
      → opt_map (λ (s : Session). s.csrf_token) (resolve_row cfg users t row now).1
        ≡ elim (find_user row.user_id users) [
          | none ↦ none
          | some user ↦
              if row.session_version == user.session_version then some row.csrf_token else none
        ]
  unfolding resolve_row
  resolve_row-csrf t row now h = ground arith

  resolve_row-none :
      (t : List Session) (row : Session) (now : ℕ)
      → any (touches row.id now) t ≡ false
      → (resolve_row cfg users t row now).1 ≡ none
  unfolding resolve_row
  resolve_row-none t row now h = ground arith

  -- On one table at one time, the middleware's read and the request's resolution accept the same
  -- tokens, and agree on the session's CSRF token.
  csrf-resolve :
      (t : List Session) (raw_token : Option String) (now : ℕ)
      → csrf_token_for hash users t raw_token now
        ≡ opt_map
            (λ (s : Session). s.csrf_token)
            (resolve_session cfg hash users t t raw_token now).1
  unfolding csrf_token_for resolve_session
  csrf-resolve t none now = refl
  csrf-resolve t (some raw) now = elim (Bool-cases (str_eq raw "")) [
    | inl e ↦ rw e
    | inr e ↦ rw e (elim (Option-cases (find_token (hash raw) t)) [
      | inl f ↦ rw f
      | inr (row, f) ↦
          rw f (ground (arith, live_found (hash raw) t row now f, resolve_row-csrf t row now))
    ])
  ]

  -- A logout that commits before the deadline is slid wins: no token is accepted whose row, in
  -- whatever earlier reading, carries the id of the revoked session, at whatever times.
  pub revoke_wins :
      (seen t : List Session) (row : Session) (raw : String) (now now' : ℕ)
      → find_token (hash raw) seen ≡ some row
      → (resolve_session cfg hash users seen (revoke_session t row.id now).0 (some raw) now').1
        ≡ none
  unfolding resolve_session
  revoke_wins seen t row raw now now' f = rw f (
      ground (
        arith,
        resolve_row-none (revoke_session t row.id now).0 row now'
            (revoked_untouched t row.id now now'),
      ))

selected_once :
    (t : List Session) (id : String) (v : Option ℕ) (n now now' : ℕ)
    → now ≤ now'
    → any (selects id (some n) now') (update (selects id (some n) now) (select_vault v) t) ≡ false
selected_once t id v n now now' le =
    any-update_none (selects id (some n) now) (selects id (some n) now') (select_vault v)
      (λ r h. unfold selects select_vault in ground arith)
      (λ r h. unfold selects touches is_live in ground arith) t

-- When a vault has been selected for an expected transition, a later selection that expects the
-- same transition changes nothing and returns no row.
pub select_vault_once :
    (t : List Session) (id : String) (v v' : Option ℕ) (n now now' : ℕ) {t' : List Session}
    {r : Session}
    → set_session_vault t id v (some n) now ≡ (t', some r)
    → now ≤ now'
    → set_session_vault t' id v' (some n) now' ≡ (t', none)
unfolding set_session_vault
select_vault_once t id v v' n now now' {t'} {r} e le = ground (
  arith,
  selected_once t id v n now now' le,
  update_nothing (selects id (some n) now') (select_vault v') t',
)
