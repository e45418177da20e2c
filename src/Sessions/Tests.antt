-- ===== src/Sessions/Tests.antt =====
-- Examples of sessions: one session of one user, which ends, is renewed and selects a vault.
use frostvault.Prelude.{◌≡◌, refl, String, true, none, some, List, [], ◌∷◌, arith}
use frostvault.Prelude.Table.{fetch_one, update}
use frostvault.Sessions.{
  Settings, User, Session, find_session, find_token, is_live, touches, resolve_session,
  revoke_session, selects, select_vault, set_session_vault,
}
use frostvault.Sessions.Steps.{Call, resolve, end, renew_token, run_calls, Keeps, session_kept}
use frostvault.Sessions.Resolve.{revoke_wins, select_vault_once}

abbrev cfg : Settings
cfg = record { session_idle_seconds = 60; session_absolute_seconds = 600 }

-- A hash that leaves the token as it is.
abbrev hash : String → String
hash token = token

abbrev users : List User
users = record { id = 7; session_version = 1 } ∷ []

abbrev session : Session
session = record {
  id = "s";
  user_id = 7;
  token_hash = "t";
  auth_method = "password";
  csrf_token = "c";
  session_version = 1;
  created_at = 0;
  last_seen_at = 0;
  idle_expires_at = 60000000;
  absolute_expires_at = 600000000;
  reauth_at = some 0;
  ip = none;
  user_agent = none;
  revoked_at = none;
  vault_id = none;
  transition_version = 1;
}

abbrev sessions : List Session
sessions = session ∷ []

abbrev calls : List Call
calls = resolve users sessions (some "t") 10 ∷ end "s" 20 ∷ renew_token "s" "u" true 30 ∷ []

session_is_found : find_session "s" sessions ≡ some session
unfolding find_session fetch_one
session_is_found = refl

session_kept_example :
    (s' : Session) × (find_session "s" (run_calls cfg hash sessions calls) ≡ some s')
    × Keeps session s'
session_kept_example = session_kept cfg hash sessions calls "s" session session_is_found

token_is_found : find_token (hash "t") sessions ≡ some session
unfolding find_token fetch_one
token_is_found = refl

revoke_wins_example :
    (resolve_session cfg hash users sessions (revoke_session sessions "s" 10).0 (some "t") 20).1
    ≡ none
revoke_wins_example = revoke_wins cfg hash users sessions sessions session "t" 10 20 token_is_found

abbrev in_vault : Session
in_vault = record session { vault_id = some 3; transition_version = 2 }

vault_is_selected :
    set_session_vault sessions "s" (some 3) (some 1) 10 ≡ (in_vault ∷ [], some in_vault)
unfolding set_session_vault selects select_vault touches is_live find_session fetch_one update
vault_is_selected = refl

select_vault_once_example :
    set_session_vault (in_vault ∷ []) "s" (some 4) (some 1) 20 ≡ (in_vault ∷ [], none)
select_vault_once_example =
    select_vault_once sessions "s" (some 3) (some 4) 1 10 20 vault_is_selected (omega arith)
