-- ===== src/Intents/Receipts.antt =====
-- Once a response is journaled for an intent (app/services/upload_provenance.py), the intent is never
-- armed or disarmed again.
use frostvault.Prelude.{
  ℕ, ◌+◌, String, str_eq, str_eq_iff, Bool, true, false, ◌&&◌, ◌||◌, ◌≡◌, ◌≢◌, refl, Option, none,
  some, List, [], ◌∷◌, ◌++◌, any, is_none, is_some, Bool-cases, Option-cases, inl, inr, arith,
}
use frostvault.Prelude.Table.{select, update}
use frostvault.Intents.{
  ◌>>=◌, OnOk, OnOk-bind, OnOk-then, Reason, ambiguous_receipt, ambiguous_send, Result, ok, blocked,
  require, Response, no_write, facts, Receipt, Journal, insert_receipt, is_same_receipt,
  same_response, fact_lists, combine, receipt, require_no_receipt, NoWrite, mark_send_started,
  record_no_write, append_receipt, prepare, settle_unstarted, prepare_new, prepare_existing, Intent,
  Fresh, Pin, load_for_job, outstanding, same_pin, settle_rows, is_unstarted, refreshes, repin,
  starts, disarms,
}
use frostvault.Intents.Steps.{
  Step, prepares, sends, receives, refuses, Trace, bit, run_step, run_steps,
}

unfoldable pub is_fact : Response → Bool
is_fact (no_write op) = false
is_fact (facts fs) = true

-- A response is journaled for the intent.
unfoldable pub answers : String → Receipt → Bool
answers k r = str_eq r.intent_id k && is_fact r.response

fact_lists_some :
    (k : String) (rs : List Receipt)
    → any (answers k) rs ≡ true
    → fact_lists (select (λ r. str_eq r.intent_id k) rs) ≢ []
unfolding fact_lists answers is_fact select
fact_lists_some k [] h = ground arith
fact_lists_some k (r ∷ rs) h = ground (arith, fact_lists_some k rs)

combine_blocks :
    (l : List (List (String × String)))
    → l ≢ []
    → (combine l >>= λ saved. require (is_none saved) ambiguous_receipt) ≡ blocked ambiguous_receipt
unfolding combine
combine_blocks [] n = absurd (n refl)
combine_blocks (fs ∷ rest) n = ground arith

answered_blocks :
    (k : String) (rs : List Receipt)
    → any (answers k) rs ≡ true
    → require_no_receipt rs k ≡ blocked ambiguous_receipt
unfolding require_no_receipt receipt
answered_blocks k rs h = combine_blocks _ (fact_lists_some k rs h)

any-append {ℓ} :
    {A : Type ℓ} (p : A → Bool) (xs ys : List A) → any p xs ≡ true → any p (xs ++ ys) ≡ true
any-append p [] ys h = ground arith
any-append p (x ∷ xs) ys h = ground (arith, any-append p xs ys)

-- A receipt that is inserted, or is not as it is there already, takes no answer away.
insert-Answered :
    (k id : String) (response : Response) (rs : List Receipt)
    → any (answers k) rs ≡ true
    → any (answers k) (insert_receipt id response rs) ≡ true
unfolding insert_receipt
insert-Answered k id response rs h = elim (Bool-cases (any (is_same_receipt id response) rs)) [
  | inl e ↦ rw e h
  | inr e ↦ rw e (any-append (answers k) rs _ h)
]

abbrev Answered : String → Journal → Type 0
Answered k db = any (answers k) db.receipts ≡ true

abbrev AnsweredPair : String → Journal × Option Intent → Type 0
AnsweredPair k r = Answered k r.0

module _ (k : String) where
  settle-Answered :
      (db : Journal) (file_id : ℕ) (keep : Option String)
      → Answered k db
      → OnOk (Answered k) (settle_unstarted db file_id keep)
  unfolding settle_unstarted
  settle-Answered db file_id keep h =
      OnOk-bind (Answered k)
        (settle_rows db.receipts (select (is_unstarted file_id keep) db.intents) db.intents)
        (λ intents. ok (record db { intents = intents })) (λ intents e. h)

  existing-Answered :
      (db : Journal) (fresh : Fresh) (file_id : ℕ) (pin : Pin) (at : ℕ) (existing : Intent)
      → Answered k db
      → OnOk (AnsweredPair k) (prepare_existing db fresh file_id pin at existing)
  unfolding prepare_existing
  existing-Answered db fresh file_id pin at existing h =
      elim (Bool-cases (
        existing.send_started
        || existing.settled
        || is_some existing.archive_version_id
        || same_pin pin existing.pin)) [
          | inl m ↦ rw m h
          | inr m ↦ rw m (
              OnOk-bind (AnsweredPair k) (require_no_receipt db.receipts existing.id) _ (λ _ r.
                OnOk-bind (AnsweredPair k)
                  (require (any (refreshes existing.id) db.intents) ambiguous_send) _
                  (λ _ found.
                    OnOk-then (AnsweredPair k) (Answered k)
                      (settle_unstarted (record db { intents = repinned }) file_id
                        (some existing.id))
                      _
                      (settle-Answered (record db { intents = repinned }) file_id (some existing.id)
                        h)
                      (λ db' h'. h'))))
        ]
    where
      repinned : List Intent
      repinned = update (refreshes existing.id) (repin fresh pin at) db.intents

  new-Answered :
      (db : Journal) (fresh : Fresh) (file_id job_id : ℕ) (pin : Pin) (at : ℕ)
      → Answered k db
      → OnOk (AnsweredPair k) (prepare_new db fresh file_id job_id pin at)
  unfolding prepare_new
  new-Answered db fresh file_id job_id pin at h =
      OnOk-then (AnsweredPair k) (Answered k) (settle_unstarted db file_id none) _
        (settle-Answered db file_id none h)
        (λ db' h'. OnOk-bind (AnsweredPair k) (outstanding db' file_id) _ (λ previous e.
          OnOk-bind (AnsweredPair k) (require (is_none previous) ambiguous_send) _ (λ _ r. h')))

  prepare-Answered :
      (db : Journal) (refusal : Option Reason) (fresh : Fresh) (file_id job_id : ℕ) (pin : Pin)
      (at : ℕ)
      → Answered k db
      → OnOk (AnsweredPair k) (prepare db refusal fresh file_id job_id pin at)
  unfolding prepare
  prepare-Answered db (some reason) fresh file_id job_id pin at h = tt
  prepare-Answered db none fresh file_id job_id pin at h =
      elim (Option-cases (load_for_job db job_id)) [
        | inl e ↦ rw e (new-Answered db fresh file_id job_id pin at h)
        | inr (existing, e) ↦ rw e (existing-Answered db fresh file_id pin at existing h)
      ]

  send-Answered :
      (db : Journal) (refusal : Option Reason) (id : String)
      → Answered k db
      → OnOk (Answered k) (mark_send_started db refusal id)
  unfolding mark_send_started
  send-Answered db (some reason) id h = tt
  send-Answered db none id h = OnOk-bind (Answered k) (require_no_receipt db.receipts id) _ (λ _ r.
      OnOk-bind (Answered k) (require (any (starts id) db.intents) ambiguous_send) _ (λ _ e. h))

  refuse-Answered :
      (db : Journal) (refusal : Option Reason) (id : String) (operation : Option NoWrite)
      → Answered k db
      → OnOk (Answered k) (record_no_write db refusal id operation)
  unfolding record_no_write
  refuse-Answered db refusal id none h = tt
  refuse-Answered db (some reason) id (some operation) h = tt
  refuse-Answered db none id (some operation) h =
      OnOk-bind (Answered k) (require_no_receipt db.receipts id) _ (λ _ r.
        OnOk-bind (Answered k) (require (any (disarms id) db.intents) ambiguous_receipt) _
          (λ _ e. insert-Answered k id (no_write operation) db.receipts h))

  run_step-Answered : (t : Trace) (s : Step) → Answered k t.db → Answered k (run_step k t s).db
  unfolding run_step append_receipt
  run_step-Answered t (prepares refusal fresh file_id job_id pin at) h =
      after (prepare t.db refusal fresh file_id job_id pin at)
        (prepare-Answered t.db refusal fresh file_id job_id pin at h)
    where
      after :
          (r : Result (Journal × Option Intent))
          → OnOk (AnsweredPair k) r
          → let end : Trace = elim r [ ok r ↦ record t { db = r.0 } | blocked e ↦ t ] in
            Answered k end.db
      after (ok r) a = a
      after (blocked e) a = h
  run_step-Answered t (sends refusal id) h =
      after (mark_send_started t.db refusal id) (send-Answered t.db refusal id h)
    where
      after :
          (r : Result Journal)
          → OnOk (Answered k) r
          → let end : Trace = elim r [
            | ok db ↦ record t { db = db; sent = t.sent + bit (str_eq id k) }
            | blocked e ↦ t
          ] in
            Answered k end.db
      after (ok r) a = a
      after (blocked e) a = h
  run_step-Answered t (receives id response) h =
      insert-Answered k id (facts response) t.db.receipts h
  run_step-Answered t (refuses refusal id operation) h =
      after (record_no_write t.db refusal id operation)
        (refuse-Answered t.db refusal id operation h)
    where
      after :
          (r : Result Journal)
          → OnOk (Answered k) r
          → let end : Trace = elim r [
            | ok db ↦ record t { db = db; refused = t.refused + bit (str_eq id k) }
            | blocked e ↦ t
          ] in
            Answered k end.db
      after (ok r) a = a
      after (blocked e) a = h

  run_steps-Answered :
      (t : Trace) (ss : List Step) → Answered k t.db → Answered k (run_steps k t ss).db
  unfolding run_steps
  run_steps-Answered t [] h = h
  run_steps-Answered t (s ∷ ss) h = run_steps-Answered (run_step k t s) ss (run_step-Answered t s h)

any-last {ℓ} :
    {A : Type ℓ} (p : A → Bool) (xs : List A) (y : A) → p y ≡ true → any p (xs ++ (y ∷ [])) ≡ true
any-last p [] y h = ground arith
any-last p (x ∷ xs) y h = ground (arith, any-last p xs y)

-- A response that is the same as a journaled one is an answer to the same intent.
same-answers :
    (k : String) (response : List (String × String)) (r : Receipt)
    → is_same_receipt k (facts response) r ≡ true
    → answers k r ≡ true
unfolding is_same_receipt answers is_fact same_response
same-answers k response r h = ground arith

any-same :
    (k : String) (response : List (String × String)) (rs : List Receipt)
    → any (is_same_receipt k (facts response)) rs ≡ true
    → any (answers k) rs ≡ true
any-same k response [] h = ground arith
any-same k response (r ∷ rs) h = ground (arith, same-answers k response r, any-same k response rs)

append_receipt-Answered :
    (k : String) (db : Journal) (response : List (String × String))
    → Answered k (append_receipt db k response)
unfolding append_receipt insert_receipt
append_receipt-Answered k db response =
    elim (Bool-cases (any (is_same_receipt k (facts response)) db.receipts)) [
      | inl e ↦ rw e (any-same k response db.receipts e)
      | inr e ↦ rw e (
          any-last (answers k) db.receipts _
            (unfold answers in unfold is_fact in ground (arith, str_eq_iff k k)))
    ]

-- After a response to an intent is appended, and whatever calls follow, no send is granted for the
-- intent and no refusal is journaled for it: both calls are blocked as an ambiguous receipt.
pub acknowledged_final :
    (k : String) (t : Trace) (response : List (String × String)) (ss : List Step)
    (operation : NoWrite)
    → let end = (run_steps k (record t { db = append_receipt t.db k response }) ss).db in
      (mark_send_started end none k ≡ blocked ambiguous_receipt)
      × (record_no_write end none k (some operation) ≡ blocked ambiguous_receipt)
acknowledged_final k t response ss operation =
    let start = record t { db = append_receipt t.db k response } in
    let answered = run_steps-Answered k start ss (append_receipt-Answered k t.db response) in
    let r = answered_blocks k _ answered in
    (unfold mark_send_started in rw r, unfold record_no_write in rw r)
