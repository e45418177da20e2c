-- ===== src/Revisions/Tests.antt =====
-- Examples of catalog events: two Vaults, a prune, and an append to a Vault that does not exist.
use frostvault.Prelude.{ℕ, true, false, ◌≡◌, refl, List, [], ◌∷◌, arith}
use frostvault.Prelude.Result.{ok}
use frostvault.Revisions.{Entry, Store, read_events}
use frostvault.Revisions.Spec.{empty_log, Op, append, prune, run_ops, log_op, log_ops, log_page}
use frostvault.Revisions.Pages.{viewed, read_events_refines}

abbrev entry : ℕ → Entry
entry at = record { domain = "catalog"; scope = ""; payload_json = "{}"; created_at = at }

abbrev start : Store
start = record { vaults = 1 ∷ 2 ∷ []; revisions = []; events = []; last_id = 0 }

abbrev calls : List Op
calls =
    append 1 (entry 10)
    ∷ append 2 (entry 11)
    ∷ append 1 (entry 12)
    ∷ append 9 (entry 13)
    ∷ append 1 (entry 14)
    ∷ prune 1 2 15
    ∷ []

-- Two entries are retained of which the page shows the first.
log_page_here : log_page (log_ops (1 ∷ 2 ∷ []) 1 empty_log calls) 1 1 ≡ record {
  current = 3;
  retained_from = 2;
  has_gap = false;
  has_more = true;
  entries = (2, entry 12) ∷ [];
}
unfolding log_page log_ops log_op
log_page_here = refl

read_events_refines_example :
    viewed (read_events (run_ops start calls) 1 1 1)
    ≡ ok (log_page (log_ops (1 ∷ 2 ∷ []) 1 empty_log calls) 1 1)
read_events_refines_example =
    read_events_refines (1 ∷ 2 ∷ []) 0 calls 1 1 1 (omega arith) (omega arith)
