-- ===== src/Intents/Sends.antt =====
-- The balance of an intent's sends and granted refusals (app/services/upload_provenance.py).
use frostvault.Prelude.{
  ◌+◌, ◌≤◌, String, str_eq, str_eq_iff, Bool, true, false, ◌≡◌, refl, Option, none, some, List, [],
  ◌∷◌, any, All, Bool-cases, inl, inr, arith,
}
use frostvault.Prelude.Table.{update}
use frostvault.Intents.{
  OnOk, OnOk-bind, ambiguous_send, ambiguous_receipt, Reason, Result, ok, blocked, require,
  require_no_receipt, NoWrite, no_write, Intent, Receipt, Journal, prepare, starts,
  mark_send_started, append_receipt, insert_receipt, disarms, record_no_write,
}
use frostvault.Intents.Steps.{
  Step, prepares, sends, receives, refuses, Trace, bit, run_step, run_steps, Draws,
}
use frostvault.Intents.Armed.{Only-update, Only-any, Armed, ArmedPair, Armed-prepare}

-- One step: the intent's flag and the two counts move together.
abbrev Moves : String → Bool → Trace → Trace → Type 0
Moves k b t t' =
    (b' : Bool) × Armed k b' t'.db.intents
    × (bit b + t'.sent + t.refused ≡ bit b' + t'.refused + t.sent)

module _ (k : String) (b : Bool) (t : Trace) (a : Armed k b t.db.intents) where
  unmoved : (db : Journal) → Armed k b db.intents → Moves k b t (record t { db = db })
  unmoved db a' = (b, a', omega arith)

  -- The journal after a successful send or refusal on `id`, with what it adds to the flag.
  abbrev Sent : String → Journal → Type 0
  Sent id db = (b' : Bool) × Armed k b' db.intents × (bit b + bit (str_eq id k) ≡ bit b')

  abbrev Refused : String → Journal → Type 0
  Refused id db = (b' : Bool) × Armed k b' db.intents × (bit b ≡ bit b' + bit (str_eq id k))

  granted :
      (id : String)
      → any (starts id) t.db.intents ≡ true
      → Sent id (record t.db {
        intents = update (starts id) (λ i. record i { send_started = true }) t.db.intents;
      })
  granted id h =
      let (i, same, flag, o) = a in
      let p =
        Only-update k (starts id) (λ i. record i { send_started = true }) (λ r. refl) i t.db.intents
          o in
      elim (Bool-cases (str_eq id k)) [
        | inl e ↦
            let q : starts id i ≡ true =
              Only-any k (starts id)
                (λ r m. unfold starts in ground (arith, str_eq_iff r.id id, str_eq_iff id k)) i
                t.db.intents o h in
            let off : b ≡ false = unfold starts in ground arith in
            (true, (record i { send_started = true }, same, refl, rw q at p), rw (e, off))
        | inr e ↦
            let q : starts id i ≡ false =
              unfold starts in ground (arith, str_eq_iff i.id id, str_eq_iff id k) in
            (b, (i, same, flag, rw q at p), rw e (omega arith))
      ]

  withdrawn :
      (id : String) (receipts : List Receipt)
      → any (disarms id) t.db.intents ≡ true
      → Refused id (record t.db {
        intents = update (disarms id) (λ i. record i { send_started = false }) t.db.intents;
        receipts = receipts;
      })
  withdrawn id receipts h =
      let (i, same, flag, o) = a in
      let p =
        Only-update k (disarms id) (λ i. record i { send_started = false }) (λ r. refl) i
          t.db.intents o in
      elim (Bool-cases (str_eq id k)) [
        | inl e ↦
            let q : disarms id i ≡ true =
              Only-any k (disarms id)
                (λ r m. unfold disarms in ground (arith, str_eq_iff r.id id, str_eq_iff id k)) i
                t.db.intents o h in
            let on : b ≡ true = unfold disarms in ground arith in
            (false, (record i { send_started = false }, same, refl, rw q at p), rw (e, on))
        | inr e ↦
            let q : disarms id i ≡ false =
              unfold disarms in ground (arith, str_eq_iff i.id id, str_eq_iff id k) in
            (b, (i, same, flag, rw q at p), rw e (omega arith))
      ]

  sends_ok :
      (refusal : Option Reason) (id : String) → OnOk (Sent id) (mark_send_started t.db refusal id)
  unfolding mark_send_started
  sends_ok (some reason) id = tt
  sends_ok none id = OnOk-bind (Sent id) (require_no_receipt t.db.receipts id) _ (λ _ r.
      OnOk-bind (Sent id) (require (any (starts id) t.db.intents) ambiguous_send) _
        (λ _ e. granted id (ground arith)))

  refuses_ok :
      (refusal : Option Reason) (id : String) (operation : Option NoWrite)
      → OnOk (Refused id) (record_no_write t.db refusal id operation)
  unfolding record_no_write
  refuses_ok refusal id none = tt
  refuses_ok (some reason) id (some operation) = tt
  refuses_ok none id (some operation) =
      OnOk-bind (Refused id) (require_no_receipt t.db.receipts id) _ (λ _ r.
        OnOk-bind (Refused id) (require (any (disarms id) t.db.intents) ambiguous_receipt) _ (λ _ e.
          withdrawn id (insert_receipt id (no_write operation) t.db.receipts) (ground arith)))

  after_send :
      (id : String) (r : Result Journal)
      → OnOk (Sent id) r
      → Moves k b t (elim r [
        | ok db ↦ record t { db = db; sent = t.sent + bit (str_eq id k) }
        | blocked e ↦ t
      ])
  after_send id (ok db) (b', a', e) = (b', a', omega arith)
  after_send id (blocked e) h = unmoved t.db a

  after_refusal :
      (id : String) (r : Result Journal)
      → OnOk (Refused id) r
      → Moves k b t (elim r [
        | ok db ↦ record t { db = db; refused = t.refused + bit (str_eq id k) }
        | blocked e ↦ t
      ])
  after_refusal id (ok db) (b', a', e) = (b', a', omega arith)
  after_refusal id (blocked e) h = unmoved t.db a

  after_prepare :
      (r : Result (Journal × Option Intent))
      → OnOk (ArmedPair k b) r
      → Moves k b t (elim r [ ok r ↦ record t { db = r.0 } | blocked e ↦ t ])
  after_prepare (ok r) h = unmoved r.0 h
  after_prepare (blocked e) h = unmoved t.db a

  run_step-Moves : (s : Step) → Draws k s → Moves k b t (run_step k t s)
  unfolding run_step append_receipt
  run_step-Moves (prepares refusal fresh file_id job_id pin at) n =
      after_prepare (prepare t.db refusal fresh file_id job_id pin at)
        (Armed-prepare k b t.db refusal fresh file_id job_id pin at n a)
  run_step-Moves (sends refusal id) n = after_send id _ (sends_ok refusal id)
  run_step-Moves (receives id response) n = unmoved (append_receipt t.db id response) a
  run_step-Moves (refuses refusal id operation) n =
      after_refusal id _ (refuses_ok refusal id operation)

bit-le : (b : Bool) → bit b ≤ 1
bit-le b = ground arith

steps_balance :
    (k : String) (b : Bool) (t : Trace) (ss : List Step)
    → Armed k b t.db.intents
    → All (Draws k) ss
    → Moves k b t (run_steps k t ss)
unfolding run_steps
steps_balance k b t [] a n = (b, a, omega arith)
steps_balance k b t (s ∷ ss) a n =
    let (b', a', e) = run_step-Moves k b t a s n.0 in
    let (b'', a'', e') = steps_balance k b' (run_step k t s) ss a' n.1 in (b'', a'', omega arith)

-- For an intent whose id names one row, over any sequence of calls that draw other ids for new
-- intents: the sends that it is granted exceed the refusals that it is granted, those calls of
-- record_no_write that disarm it, by its send_started flag, up to where both stood before. So between
-- two sends lies a refusal that returned; it may be one whose receipt was journaled already.
pub sends_balance :
    (k : String) (b : Bool) (t : Trace) (ss : List Step)
    → Armed k b t.db.intents
    → All (Draws k) ss
    → let end = run_steps k t ss in
      (end.sent + t.refused ≤ end.refused + t.sent + 1)
      × ((b' : Bool) × Armed k b' end.db.intents
          × (bit b + end.sent + t.refused ≡ bit b' + end.refused + t.sent))
sends_balance k b t ss a n =
    let (b', a', e) = steps_balance k b t ss a n in
    (omega (arith, bit-le b, bit-le b'), (b', a', e))
