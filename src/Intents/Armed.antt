-- ===== src/Intents/Armed.antt =====
-- An intent's `send_started` flag under the calls of app/services/upload_provenance.py that do not move
-- it: settling, pinning again and adding intents.
use frostvault.Prelude.{
  ℕ, String, Bool, true, ◌≡◌, ◌≢◌, refl, sym, ◌∙◌, ap, Option, none, some, List, [], ◌∷◌, ◌++◌,
  if◌then◌else◌, any, is_none, is_some, ◌||◌, Bool-cases, Option-cases, ◌⊎◌, inl, inr, arith,
}
use frostvault.Prelude.Table.{update, select}
use frostvault.Intents.{
  OnOk, OnOk-bind, OnOk-then, ambiguous_send, same_pin, Reason, ok, require, require_no_receipt,
  Pin, Intent, Receipt, Journal, Fresh, settle_one, settle_rows, settle_unstarted, is_unstarted,
  outstanding, refreshes, repin, prepare_existing, new_intent, prepare_new, prepare, load_for_job,
}

-- Every row with the id is `i`, as the table's key has it.
abbrev pub Only : String → Intent → List Intent → Type 0
Only k i [] = Unit {0}
Only k i (r ∷ rs) = ((r.id ≢ k) ⊎ (r ≡ i)) × Only k i rs

module _ (k : String) where
  pub Only-update :
      (q : Intent → Bool) (f : Intent → Intent)
      → ((r : Intent) → (f r).id ≡ r.id)
      → (i : Intent) (t : List Intent) → Only k i t
      → Only k (if q i then f i else i) (update q f t)
  unfolding update
  Only-update q f h i [] o = tt
  Only-update q f h i (r ∷ t) o = (
    elim o.0 [
      | inl n ↦ inl (λ e. n (sym (written_id r) ∙ e))
      | inr e ↦ inr (ap (λ x. if q x then f x else x) e)
    ],
    Only-update q f h i t o.1,
  )
    where
      written_id : (r : Intent) → (if q r then f r else r).id ≡ r.id
      written_id r = elim (Bool-cases (q r)) [ inl m ↦ rw m (h r) | inr m ↦ rw m ]

  pub Only-any :
      (q : Intent → Bool)
      → ((r : Intent) → q r ≡ true → r.id ≡ k)
      → (i : Intent) (t : List Intent) → Only k i t
      → any q t ≡ true
      → q i ≡ true
  Only-any q h i [] o e = ground arith
  Only-any q h i (r ∷ t) o e = elim (Bool-cases (q r)) [
    | inl m ↦ elim o.0 [ inl n ↦ absurd (n (h r m)) | inr same ↦ sym (ap q same) ∙ m ]
    | inr m ↦ Only-any q h i t o.1 (ground arith)
  ]

  pub Only-append :
      (i new : Intent) (t : List Intent) → new.id ≢ k → Only k i t → Only k i (t ++ (new ∷ []))
  Only-append i new [] n o = (inl n, tt)
  Only-append i new (r ∷ t) n o = (o.0, Only-append i new t n o.1)

-- The rows with the id are one intent, whose `send_started` is `b`.
abbrev pub Armed : String → Bool → List Intent → Type 0
Armed k b t = (i : Intent) × (i.id ≡ k) × (i.send_started ≡ b) × Only k i t

module _ (k : String) (b : Bool) where
  pub Armed-update :
      (q : Intent → Bool) (f : Intent → Intent)
      → ((r : Intent) → (f r).id ≡ r.id)
      → ((r : Intent) → q r ≡ true → (f r).send_started ≡ r.send_started)
      → (t : List Intent) → Armed k b t
      → Armed k b (update q f t)
  Armed-update q f h g t (i, id, started, o) = elim (Bool-cases (q i)) [
    | inl m ↦ (f i, h i ∙ id, g i m ∙ started, let p = Only-update k q f h i t o in rw m at p)
    | inr m ↦ (i, id, started, let p = Only-update k q f h i t o in rw m at p)
  ]

  pub Armed-settle_one : (id : String) (t : List Intent) → Armed k b t → Armed k b (settle_one id t)
  unfolding settle_one
  Armed-settle_one id t a =
      Armed-update _ (λ i. record i { settled = true; blocked_reason = none }) (λ r. refl)
        (λ r h. refl) t a

  pub Armed-settle_rows :
      (receipts : List Receipt) (rows t : List Intent)
      → Armed k b t
      → OnOk (Armed k b) (settle_rows receipts rows t)
  unfolding settle_rows
  Armed-settle_rows receipts [] t a = a
  Armed-settle_rows receipts (row ∷ rows) t a =
      OnOk-bind (Armed k b) (require_no_receipt receipts row.id)
        (λ _. settle_rows receipts rows (settle_one row.id t))
        (λ _ h. Armed-settle_rows receipts rows (settle_one row.id t) (Armed-settle_one row.id t a))

  abbrev pub ArmedJournal : Journal → Type 0
  ArmedJournal db = Armed k b db.intents

  pub Armed-settle_unstarted :
      (db : Journal) (file_id : ℕ) (keep : Option String)
      → ArmedJournal db
      → OnOk ArmedJournal (settle_unstarted db file_id keep)
  unfolding settle_unstarted
  Armed-settle_unstarted db file_id keep a =
      let rows = select (is_unstarted file_id keep) db.intents in
      OnOk-then ArmedJournal (Armed k b) (settle_rows db.receipts rows db.intents)
        (λ intents. ok (record db { intents = intents }))
        (Armed-settle_rows db.receipts rows db.intents a) (λ intents h. h)

  abbrev pub ArmedPair : Journal × Option Intent → Type 0
  ArmedPair r = ArmedJournal r.0

  pub Armed-prepare_existing :
      (db : Journal) (fresh : Fresh) (file_id : ℕ) (pin : Pin) (at : ℕ) (existing : Intent)
      → ArmedJournal db
      → OnOk ArmedPair (prepare_existing db fresh file_id pin at existing)
  unfolding prepare_existing
  Armed-prepare_existing db fresh file_id pin at existing a =
      elim (Bool-cases (
        existing.send_started
        || existing.settled
        || is_some existing.archive_version_id
        || same_pin pin existing.pin)) [
          | inl m ↦ rw m a
          | inr m ↦ rw m (
              OnOk-bind ArmedPair (require_no_receipt db.receipts existing.id) _ (λ _ r.
                OnOk-bind ArmedPair
                  (require (any (refreshes existing.id) db.intents) ambiguous_send) _
                  (λ _ found.
                    OnOk-then ArmedPair ArmedJournal
                      (settle_unstarted (record db { intents = repinned }) file_id
                        (some existing.id))
                      _
                      (Armed-settle_unstarted (record db { intents = repinned }) file_id
                        (some existing.id)
                        (Armed-update (refreshes existing.id) (repin fresh pin at)
                          (λ r. unfold repin in refl) (λ r h. unfold repin in refl) db.intents a))
                      (λ db' h. h))))
        ]
    where
      repinned : List Intent
      repinned = update (refreshes existing.id) (repin fresh pin at) db.intents

  pub Armed-prepare_new :
      (db : Journal) (fresh : Fresh) (file_id job_id : ℕ) (pin : Pin) (at : ℕ)
      → fresh.id ≢ k
      → ArmedJournal db
      → OnOk ArmedPair (prepare_new db fresh file_id job_id pin at)
  unfolding prepare_new
  Armed-prepare_new db fresh file_id job_id pin at n a =
      OnOk-then ArmedPair ArmedJournal (settle_unstarted db file_id none) _
        (Armed-settle_unstarted db file_id none a)
        (λ db' (i, id, started, o). OnOk-bind ArmedPair (outstanding db' file_id) _ (λ previous e.
          OnOk-bind ArmedPair (require (is_none previous) ambiguous_send) _ (λ _ none_left.
            (i, id, started, Only-append k i _ db'.intents (unfold new_intent in n) o))))

  pub Armed-prepare :
      (db : Journal) (refusal : Option Reason) (fresh : Fresh) (file_id job_id : ℕ) (pin : Pin)
      (at : ℕ)
      → fresh.id ≢ k
      → ArmedJournal db
      → OnOk ArmedPair (prepare db refusal fresh file_id job_id pin at)
  unfolding prepare
  Armed-prepare db (some reason) fresh file_id job_id pin at n a = tt
  Armed-prepare db none fresh file_id job_id pin at n a =
      elim (Option-cases (load_for_job db job_id)) [
        | inl e ↦ rw e (Armed-prepare_new db fresh file_id job_id pin at n a)
        | inr (existing, e) ↦ rw e (Armed-prepare_existing db fresh file_id pin at existing a)
      ]
