-- ===== src/Sessions/Steps.antt =====
-- Sequences of the calls of app/sessions.py by any number of processes. Each call sees its own
-- earlier reading of the table.
use frostvault.Prelude.{
  ℕ, ◌≤◌, String, str_eq, Bool, true, ◌≡◌, ◌⊎◌, ap, ◌∙◌, Option, none, some, List, [], ◌∷◌, ◌==◌,
  if◌then◌else◌, any, is_none, is_some, opt_map, Bool-cases, Option-cases, inl, inr, arith,
}
use frostvault.Prelude.Table.{update}
use frostvault.Prelude.Table.Reads.{fetch_one-update, fetch_one-append_found}
use frostvault.Sessions.{
  Settings, User, Session, Result, ok, raise, Fresh, find_session, find_token, find_user, revoke,
  expires, expire_session_if_needed, create_session, touches, touch, resolve_row, resolve_session,
  mark_reauthenticated, revokes, revoke_session, rotate, rotate_session, selects, select_vault,
  set_session_vault, session_is_expired,
}

pub data Call : Type 0 where
  create : Fresh → List User → ℕ → String → Option String → Option String → ℕ → Call
  resolve : List User → List Session → Option String → ℕ → Call
  reauthenticate : String → ℕ → Call
  end : String → ℕ → Call
  renew_token : String → String → Bool → ℕ → Call
  choose_vault : String → Option ℕ → Option ℕ → ℕ → Call

abbrev table_after {ℓ} : {A : Type ℓ} → List Session → Result (List Session × A) → List Session
table_after sessions (ok (sessions', a)) = sessions'
table_after sessions (raise e) = sessions

module _ (cfg : Settings) (hash : String → String) where
  unfoldable pub run_call : List Session → Call → List Session
  run_call t (create fresh users user_id auth_method ip user_agent now) =
      table_after t (create_session cfg hash fresh users t user_id auth_method ip user_agent now)
  run_call t (resolve users seen raw_token now) =
      (resolve_session cfg hash users seen t raw_token now).0
  run_call t (reauthenticate id now) = mark_reauthenticated t id now
  run_call t (end id now) = (revoke_session t id now).0
  run_call t (renew_token id raw_token reauthenticated now) =
      table_after t (rotate_session cfg hash raw_token t id reauthenticated now)
  run_call t (choose_vault id vault_id expected now) =
      (set_session_vault t id vault_id expected now).0

  unfoldable pub run_calls : List Session → List Call → List Session
  run_calls t [] = t
  run_calls t (c ∷ cs) = run_calls (run_call t c) cs

-- What no call undoes: the deadline, the owner and the password version of a session, that it is
-- revoked, and the count of its transitions.
pub record Keeps (old new : Session) : Type 0 where
  pub same_id : new.id ≡ old.id
  pub same_user : new.user_id ≡ old.user_id
  pub same_version : new.session_version ≡ old.session_version
  pub same_deadline : new.absolute_expires_at ≡ old.absolute_expires_at
  pub stays_revoked : (old.revoked_at ≡ none) ⊎ (new.revoked_at ≡ old.revoked_at)
  pub counted : old.transition_version ≤ new.transition_version

Keeps-refl : (s : Session) → Keeps s s
Keeps-refl s = ground arith

Keeps-trans : (a b c : Session) → Keeps a b → Keeps b c → Keeps a c
Keeps-trans a b c h k = ground arith

-- A session's row is there, and keeps what `s` had.
abbrev Kept : String → Session → List Session → Type 0
Kept k s t = (s' : Session) × (find_session k t ≡ some s') × Keeps s s'

-- A row that an update may reach.
reached :
    (k : String) (q : Session → Bool) (f : Session → Session)
    → ((s : Session) → q s ≡ true → Keeps s (f s))
    → (t : List Session) (s : Session) → find_session k t ≡ some s
    → Kept k s (update q f t)
unfolding find_session
reached k q f h t s e = (
  if q s then f s else s,
  fetch_one-update (λ r. str_eq r.id k) q f (λ r m. ap (λ i. str_eq i k) (h r m).same_id) t
      ∙ ap (opt_map (λ r. if q r then f r else r)) e,
  elim (Bool-cases (q s)) [ inl m ↦ rw m (h s m) | inr m ↦ rw m (Keeps-refl s) ],
)

module _ (k : String) (t : List Session) (s : Session) (found : find_session k t ≡ some s) where
  unmoved : Kept k s t
  unmoved = (s, found, Keeps-refl s)

  revoke-Kept :
      (q : Session → Bool) (now : ℕ)
      → ((s : Session) → q s ≡ true → is_none s.revoked_at ≡ true)
      → Kept k s (update q (revoke now) t)
  unfolding revoke
  revoke-Kept q now h = reached k q (revoke now) (λ r m. ground (arith, h r m)) t s found

  resolve_row-Kept :
      (cfg : Settings) (users : List User) (row : Session) (now : ℕ)
      → Kept k s (resolve_row cfg users t row now).0
  unfolding touch resolve_row
  resolve_row-Kept cfg users row now = elim (Option-cases (find_user row.user_id users)) [
    | inl e ↦ rw (e, resolve_row) unmoved
    | inr (user, e) ↦ elim (Bool-cases (row.session_version == user.session_version)) [
      | inl m ↦
          rw (e, resolve_row)
            (rw m (reached k (touches row.id now) (touch cfg now) (λ r h. ground arith) t s found))
      | inr m ↦ rw (e, resolve_row) (rw m unmoved)
    ]
  ]

  resolve_session-Kept :
      (cfg : Settings) (hash : String → String) (users : List User) (seen : List Session)
      (raw_token : Option String) (now : ℕ)
      → Kept k s (resolve_session cfg hash users seen t raw_token now).0
  unfolding resolve_session expire_session_if_needed expires
  resolve_session-Kept cfg hash users seen none now = unmoved
  resolve_session-Kept cfg hash users seen (some raw) now = elim (Bool-cases (str_eq raw "")) [
    | inl e ↦ rw e unmoved
    | inr e ↦ rw e (elim (Option-cases (find_token (hash raw) seen)) [
      | inl f ↦ rw f unmoved
      | inr (row, f) ↦ rw f (elim (Bool-cases (is_some row.revoked_at)) [
        | inl r ↦ rw r unmoved
        | inr r ↦ rw r (elim (Bool-cases (session_is_expired row now)) [
          | inl x ↦ rw x (revoke-Kept (expires row.id now) now (λ s h. ground arith))
          | inr x ↦ rw x (resolve_row-Kept cfg users row now)
        ])
      ])
    ])
  ]

  run_call-Kept :
      (cfg : Settings) (hash : String → String) (c : Call) → Kept k s (run_call cfg hash t c)
  unfolding run_call create_session mark_reauthenticated revoke_session revokes rotate_session
      rotate set_session_vault select_vault find_session
  run_call-Kept cfg hash (create fresh users user_id auth_method ip user_agent now) =
      elim (Option-cases (find_user user_id users)) [
        | inl e ↦ rw (e, table_after) unmoved
        | inr (user, e) ↦
            rw (e, table_after)
              (s, fetch_one-append_found (λ r. str_eq r.id k) t s _ found, Keeps-refl s)
      ]
  run_call-Kept cfg hash (resolve users seen raw_token now) =
      resolve_session-Kept cfg hash users seen raw_token now
  run_call-Kept cfg hash (reauthenticate id now) =
      reached k _ (λ r. record r { reauth_at = some now }) (λ r h. ground arith) t s found
  run_call-Kept cfg hash (end id now) = revoke-Kept (revokes id) now (λ r h. ground arith)
  run_call-Kept cfg hash (renew_token id raw_token reauthenticated now) =
      elim (Bool-cases (any (touches id now) t)) [
        | inl e ↦ rw e (
            reached k (touches id now) (rotate cfg (hash raw_token) reauthenticated now)
              (λ r h. ground arith) t s found)
        | inr e ↦ rw e unmoved
      ]
  run_call-Kept cfg hash (choose_vault id vault_id expected now) =
      reached k (selects id expected now) (select_vault vault_id) (λ r h. ground arith) t s found

-- Whatever calls processes make, in whatever order and with whatever stale readings: a session's
-- row stays, its owner, its version and its absolute deadline never change, its count of
-- transitions never falls, and once it is revoked it keeps the time of that.
pub session_kept :
    (cfg : Settings) (hash : String → String) (t : List Session) (cs : List Call) (k : String)
    (s : Session)
    → find_session k t ≡ some s
    → (s' : Session) × (find_session k (run_calls cfg hash t cs) ≡ some s') × Keeps s s'
unfolding run_calls
session_kept cfg hash t [] k s f = (s, f, Keeps-refl s)
session_kept cfg hash t (c ∷ cs) k s f =
    let (s', f', kept) = run_call-Kept k t s f cfg hash c in
    let (s'', f'', later) = session_kept cfg hash (run_call cfg hash t c) cs k s' f' in
    (s'', f'', Keeps-trans s s' s'' kept later)
