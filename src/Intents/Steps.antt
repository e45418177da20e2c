-- ===== src/Intents/Steps.antt =====
-- Sequences of the calls of app/services/upload_provenance.py on one journal, with a count of the
-- sends and the granted refusals of one intent.
use frostvault.Prelude.{ℕ, ◌+◌, String, str_eq, Bool, true, false, ◌≢◌, Option, List, [], ◌∷◌}
use frostvault.Intents.{
  Reason, ok, blocked, NoWrite, Pin, Journal, Fresh, prepare, mark_send_started, append_receipt,
  record_no_write,
}

pub data Step : Type 0 where
  prepares : Option Reason → Fresh → ℕ → ℕ → Pin → ℕ → Step
  sends : Option Reason → String → Step
  receives : String → List (String × String) → Step
  refuses : Option Reason → String → Option NoWrite → Step

-- A journal with the sends and the granted refusals of one intent so far.
pub record Trace : Type 0 where
  pub db : Journal
  pub sent : ℕ
  pub refused : ℕ

abbrev pub bit : Bool → ℕ
bit true = 1
bit false = 0

-- A blocked call changes nothing.
unfoldable pub run_step : String → Trace → Step → Trace
run_step k t (prepares refusal fresh file_id job_id pin at) =
    elim (prepare t.db refusal fresh file_id job_id pin at) [
      | ok r ↦ record t { db = r.0 }
      | blocked e ↦ t
    ]
run_step k t (sends refusal id) = elim (mark_send_started t.db refusal id) [
  | ok db ↦ record t { db = db; sent = t.sent + bit (str_eq id k) }
  | blocked e ↦ t
]
run_step k t (receives id response) = record t { db = append_receipt t.db id response }
run_step k t (refuses refusal id operation) = elim (record_no_write t.db refusal id operation) [
  | ok db ↦ record t { db = db; refused = t.refused + bit (str_eq id k) }
  | blocked e ↦ t
]

unfoldable pub run_steps : String → Trace → List Step → Trace
run_steps k t [] = t
run_steps k t (s ∷ ss) = run_steps k (run_step k t s) ss

-- An id that a call draws is not `k`.
abbrev pub Draws : String → Step → Type 0
Draws k (prepares refusal fresh file_id job_id pin at) = fresh.id ≢ k
Draws k _ = Unit {0}
