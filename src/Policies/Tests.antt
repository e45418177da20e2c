-- ===== src/Policies/Tests.antt =====
-- Examples of operation policies: a Vault whose automatic uploads are switched off and stay off.
use frostvault.Prelude.{
  ℕ, zero, suc, ◌*◌, Bool, true, false, ◌≡◌, refl, ap, ◌∙◌, none, some, List, [], ◌∷◌, ◌==◌,
  if◌then◌else◌, coalesce, all,
}
use frostvault.Prelude.Result.{Result, ok}
use frostvault.Prelude.Table.{update, fetch_one}
use frostvault.Jobs.{Vault, active}
use frostvault.Jobs.Claimable.{is_active}
use frostvault.Policies.{
  Text, pos, Error, Runtime, OperationPolicy, default_policy, lstrip, rstrip, normal_glob, is_empty,
  normalize_globs, validate_policy, microseconds, day, file_is_stable, local_cleanup_is_due,
}
use frostvault.Policies.Store.{
  Row, is_row, get_policy, new_row, upsert, mark_suspension, canonical, is_quiesced, is_missing,
  set_policy,
}
use frostvault.Policies.Clocks.{is_past, clocks-is_past}
use frostvault.Policies.RoundTrip.{suspended_since, set_policy-get_policy}
use frostvault.Policies.Kept.{kept}
use frostvault.Policies.Suspension.{Call, run_calls, suspension_kept}

-- A text for lists of texts: each character raised by one, each text ended by a zero, after a one.
abbrev write_text : Text → Text → Text
write_text [] rest = 0 ∷ rest
write_text (c ∷ cs) rest = suc c ∷ write_text cs rest

abbrev write_texts : List Text → Text
write_texts [] = []
write_texts (t ∷ ts) = write_text t (write_texts ts)

abbrev dump : List Text → Text
dump ts = 1 ∷ write_texts ts

abbrev push : ℕ → List Text → List Text
push c [] = (c ∷ []) ∷ []
push c (t ∷ ts) = (c ∷ t) ∷ ts

abbrev read_texts : Text → List Text
read_texts [] = []
read_texts (zero ∷ cs) = [] ∷ read_texts cs
read_texts (suc c ∷ cs) = push c (read_texts cs)

abbrev load : Text → Result Error (List Text)
load [] = ok []
load (c ∷ cs) = ok (read_texts cs)

abbrev is_space : ℕ → Bool
is_space c = c == 32

abbrev runtime : Runtime
runtime = record { is_blank = is_space; dumps = dump; loads = load }

read_text : (t rest : Text) → read_texts (write_text t rest) ≡ t ∷ read_texts rest
read_text [] rest = refl
read_text (c ∷ t) rest = ap (push c) (read_text t rest)

read_all : (ts : List Text) → read_texts (write_texts ts) ≡ ts
read_all [] = refl
read_all (t ∷ ts) = read_text t (write_texts ts) ∙ ap (λ us. t ∷ us) (read_all ts)

reads_back : (xs : List Text) → runtime.loads (runtime.dumps xs) ≡ ok xs
reads_back xs = ap ok (read_all xs)

not_empty : (xs : List Text) → is_empty (runtime.dumps xs) ≡ false
not_empty xs = refl

abbrev vaults : List Vault
vaults =
    record { id = 1; enabled = true; decommission_state = active; relocation_ready = true } ∷ []

-- The glob ` a\\* `, with blanks and a backslash.
abbrev off : OperationPolicy
off = record default_policy {
  auto_upload = false;
  exclude_globs = (32 ∷ 97 ∷ 92 ∷ 42 ∷ 32 ∷ []) ∷ [];
}

abbrev stored : OperationPolicy
stored = record off { exclude_globs = (97 ∷ 47 ∷ 42 ∷ []) ∷ [] }

abbrev row : Row
row = record {
  vault_id = 1;
  auto_upload = false;
  local_release_after_days = none;
  stability_seconds = pos 300;
  include_globs_json = some (dump []);
  exclude_globs_json = some (dump ((97 ∷ 47 ∷ 42 ∷ []) ∷ []));
  upload_verification = none;
  suspended_at = some 50;
}

is_set : set_policy runtime vaults [] 1 off 50 ≡ ok (row ∷ [], stored)
unfolding set_policy validate_policy normalize_globs normal_glob lstrip rstrip canonical new_row
    upsert mark_suspension is_missing is_quiesced is_active fetch_one update
is_set = refl

set_policy-get_policy_example :
    (get_policy runtime (row ∷ []) 1 ≡ ok (kept runtime off))
    × (stored ≡ kept runtime off)
    × (get_policy runtime (row ∷ []) 2 ≡ get_policy runtime [] 2)
    × (suspended_since (fetch_one (is_row 1) (row ∷ [])) ≡ (
        if off.auto_upload
        then none
        else some (coalesce (suspended_since (fetch_one (is_row 1) [])) 50)))
set_policy-get_policy_example =
    set_policy-get_policy runtime vaults [] 1 off 50 2 reads_back not_empty is_set refl

abbrev calls : List Call
calls =
    record { vault_id = 1; policy = off; at = 60 }
    ∷ record { vault_id = 2; policy = default_policy; at = 70 }
    ∷ []

is_suspended : suspended_since (fetch_one (is_row 1) (row ∷ [])) ≡ some 50
unfolding fetch_one
is_suspended = refl

suspension_kept_example :
    suspended_since (fetch_one (is_row 1) (run_calls runtime vaults (row ∷ []) calls)) ≡ some 50
suspension_kept_example =
    suspension_kept runtime vaults (row ∷ []) calls 1 50 is_suspended (refl, (refl, tt))

clocks-is_past_example :
    (local_cleanup_is_due 5 90 100 (some 7) none (some 6)
      ≡ all (is_past (90 * day) 100) (some 5 ∷ none ∷ some 6 ∷ some 7 ∷ []))
    × (file_is_stable 5 100 (pos 300) (some 6)
        ≡ all (is_past (300 * microseconds) 100) (some 5 ∷ some 6 ∷ []))
clocks-is_past_example = clocks-is_past 5 90 100 300 5 (some 7) none (some 6)
