-- ===== src/Intents.antt =====
-- app/services/upload_provenance.py: the journal of uploads. An intent is pinned before any request,
-- `send_started` is committed before the send, and receipts are only appended. Ids and tokens are
-- texts that the caller draws; JSON columns are compared as the texts they are.
pub mod Steps
pub mod Armed
pub mod Sends
pub mod Receipts
mod Tests
use frostvault.Prelude.{
  ℕ, String, str_eq, Bool, true, false, not, ◌&&◌, ◌||◌, Option, none, some, List, [], ◌∷◌, ◌++◌,
  ◌==◌, if◌then◌else◌, any, is_none, is_some, ◌≡◌, refl,
}
use frostvault.Prelude.Table.{fetch_one, update, select}

-- `NO_WRITE_OPERATIONS`.
pub data NoWrite : Type 0 where
  put_object create_multipart_upload upload_part complete_multipart_upload proven_absent : NoWrite

-- A receipt's JSON: a journaled refusal, or the facts of a response.
pub data Response : Type 0 where
  no_write : NoWrite → Response
  facts : List (String × String) → Response

pub data Reason : Type 0 where
  ambiguous_send ambiguous_receipt identity_changed : Reason
  owner_cancelled already_resolved vault_suspended active_operation cloud_only_conflict : Reason

pub data Result {ℓ} (A : Type ℓ) : Type ℓ where
  ok : A → Result A
  blocked : Reason → Result A

infixl 5 ◌>>=◌ ◌>>◌
abbrev pub ◌>>=◌ {ℓ κ} : {A : Type ℓ} {B : Type κ} → Result A → (A → Result B) → Result B
ok a >>= f = f a
blocked e >>= f = blocked e

abbrev pub ◌>>◌ {ℓ} : {B : Type ℓ} → Result (Unit {0}) → Result B → Result B
m >> k = m >>= λ _. k

abbrev pub require : Bool → Reason → Result (Unit {0})
require true e = ok tt
require false e = blocked e

-- What holds of a result that is not blocked.
abbrev pub OnOk {ℓ κ} : {A : Type ℓ} → (A → Type κ) → Result A → Type κ
OnOk P (ok a) = P a
OnOk P (blocked e) = Unit

pub OnOk-bind {ℓ κ μ} :
    {A : Type ℓ} {B : Type κ} (P : B → Type μ) (m : Result A) (f : A → Result B)
    → ((a : A) → m ≡ ok a → OnOk P (f a))
    → OnOk P (m >>= f)
OnOk-bind P (ok a) f h = h a refl
OnOk-bind P (blocked e) f h = tt

pub OnOk-then {ℓ κ μ ν} :
    {A : Type ℓ} {B : Type κ} (P : B → Type μ) (Q : A → Type ν) (m : Result A) (f : A → Result B)
    → OnOk Q m
    → ((a : A) → Q a → OnOk P (f a))
    → OnOk P (m >>= f)
OnOk-then P Q (ok a) f q h = h a q
OnOk-then P Q (blocked e) f q h = tt

-- What `target`, read again, has against the job and the pinned target: `require_target`.
abbrev pub require_target : Option Reason → Result (Unit {0})
require_target none = ok tt
require_target (some reason) = blocked reason

-- The columns that `prepare` compares: target, snapshot, requested mode and cloud inventory.
pub record Pin : Type 0 where
  pub target_json : String
  pub snapshot_json : String
  pub requested : String
  pub inventory_json : String

pub record Intent : Type 0 where
  pub id : String
  pub token : String
  pub vault_file_id : ℕ
  pub original_job_id : ℕ
  pub pin : Pin
  pub created_at : ℕ
  pub send_started : Bool
  pub settled : Bool
  pub archive_version_id : Option String
  pub blocked_reason : Option Reason

pub record Binding : Type 0 where
  pub job_id : ℕ
  pub intent_id : String

pub record Receipt : Type 0 where
  pub intent_id : String
  pub response : Response

pub record Journal : Type 0 where
  pub intents : List Intent
  pub bindings : List Binding
  pub receipts : List Receipt

unfoldable pub find_intent : String → List Intent → Option Intent
find_intent id intents = fetch_one (λ i. str_eq i.id id) intents

unfoldable pub load_for_job : Journal → ℕ → Option Intent
load_for_job db job_id = elim (fetch_one (λ b. b.job_id == job_id) db.bindings) [
  | none ↦ none
  | some b ↦ find_intent b.intent_id db.intents
]

-- The facts of the responses that are no journaled refusals.
unfoldable pub fact_lists : List Receipt → List (List (String × String))
fact_lists [] = []
fact_lists (r ∷ rs) =
    let rest = fact_lists rs in elim r.response [ no_write op ↦ rest | facts fs ↦ fs ∷ rest ]

unfoldable pub lookup : String → List (String × String) → Option String
lookup k [] = none
lookup k ((j, v) ∷ m) = if str_eq j k then some v else lookup k m

-- One response merged into `combined`; `none` where a key has two values.
unfoldable pub merge :
    List (String × String) → List (String × String) → Option (List (String × String))
merge combined [] = some combined
merge combined ((k, v) ∷ rest) = elim (lookup k combined) [
  | none ↦ merge (combined ++ ((k, v) ∷ [])) rest
  | some w ↦ if str_eq w v then merge combined rest else none
]

unfoldable pub merge_all :
    List (String × String) → List (List (String × String)) → Option (List (String × String))
merge_all combined [] = some combined
merge_all combined (fs ∷ rest) = elim (merge combined fs) [
  | none ↦ none
  | some combined' ↦ merge_all combined' rest
]

-- `combined.get("VersionId")` is there, and is neither empty nor "null".
unfoldable pub has_version : List (String × String) → Bool
has_version fs = elim (lookup "VersionId" fs) [
  | none ↦ false
  | some v ↦ not (str_eq v "") && not (str_eq v "null")
]

unfoldable pub combine : List (List (String × String)) → Result (Option (List (String × String)))
combine [] = ok none
combine (fs ∷ rest) = elim (merge_all [] (fs ∷ rest)) [
  | none ↦ blocked ambiguous_receipt
  | some combined ↦ if has_version combined then ok (some combined) else blocked ambiguous_receipt
]

unfoldable pub receipt : List Receipt → String → Result (Option (List (String × String)))
receipt receipts intent_id =
    combine (fact_lists (select (λ r. str_eq r.intent_id intent_id) receipts))

-- `if receipt(...) is not None: raise UploadBlocked("ambiguous_receipt")`.
unfoldable pub require_no_receipt : List Receipt → String → Result (Unit {0})
require_no_receipt receipts intent_id = do
  saved ← receipt receipts intent_id
  require (is_none saved) ambiguous_receipt

unfoldable pub is_outstanding : ℕ → Intent → Bool
is_outstanding file_id i = i.vault_file_id == file_id && not i.settled && i.send_started

-- The rows are in the order of `created_at, id`.
unfoldable pub outstanding : Journal → ℕ → Result (Option Intent)
outstanding db file_id = elim (select (is_outstanding file_id) db.intents) [
  | [] ↦ ok none
  | i ∷ rest ↦ elim rest [ [] ↦ ok (some i) | _ ∷ _ ↦ blocked ambiguous_send ]
]

unfoldable pub is_unstarted : ℕ → Option String → Intent → Bool
is_unstarted file_id keep_intent_id i =
    i.vault_file_id == file_id
    && not i.settled
    && not i.send_started
    && is_none i.archive_version_id
    && elim keep_intent_id [ none ↦ true | some k ↦ not (str_eq i.id k) ]

unfoldable pub settle_one : String → List Intent → List Intent
settle_one id intents =
    update (λ i. str_eq i.id id && not i.send_started)
      (λ i. record i { settled = true; blocked_reason = none }) intents

-- The loop over the rows that `_settle_unstarted` read.
unfoldable pub settle_rows : List Receipt → List Intent → List Intent → Result (List Intent)
settle_rows receipts [] intents = ok intents
settle_rows receipts (row ∷ rows) intents = do
  require_no_receipt receipts row.id
  settle_rows receipts rows (settle_one row.id intents)

unfoldable pub settle_unstarted : Journal → ℕ → Option String → Result Journal
settle_unstarted db file_id keep_intent_id = do
  intents ←
      settle_rows db.receipts (select (is_unstarted file_id keep_intent_id) db.intents) db.intents
  ok (record db { intents = intents })

unfoldable pub same_pin : Pin → Pin → Bool
same_pin a b =
    str_eq a.target_json b.target_json
    && str_eq a.snapshot_json b.snapshot_json
    && str_eq a.requested b.requested
    && str_eq a.inventory_json b.inventory_json

-- The values that a call draws.
pub record Fresh : Type 0 where
  pub id : String
  pub token : String

unfoldable pub refreshes : String → Intent → Bool
refreshes id i =
    str_eq i.id id && not i.send_started && not i.settled && is_none i.archive_version_id

unfoldable pub repin : Fresh → Pin → ℕ → Intent → Intent
repin fresh pin at i = record i {
  token = fresh.token;
  pin = pin;
  created_at = at;
  blocked_reason = none;
}

unfoldable pub prepare_existing :
    Journal → Fresh → ℕ → Pin → ℕ → Intent → Result (Journal × Option Intent)
prepare_existing db fresh file_id pin at existing =
    if existing.send_started
      || existing.settled
      || is_some existing.archive_version_id
      || same_pin pin existing.pin
    then ok (db, some existing)
    else do
      require_no_receipt db.receipts existing.id
      require (any (refreshes existing.id) db.intents) ambiguous_send
      let intents = update (refreshes existing.id) (repin fresh pin at) db.intents
      db' ← settle_unstarted (record db { intents = intents }) file_id (some existing.id)
      ok (db', find_intent existing.id intents)

unfoldable pub new_intent : Fresh → ℕ → ℕ → Pin → ℕ → Intent
new_intent fresh file_id job_id pin at = record {
  id = fresh.id;
  token = fresh.token;
  vault_file_id = file_id;
  original_job_id = job_id;
  pin = pin;
  created_at = at;
  send_started = false;
  settled = false;
  archive_version_id = none;
  blocked_reason = none;
}

unfoldable pub prepare_new : Journal → Fresh → ℕ → ℕ → Pin → ℕ → Result (Journal × Option Intent)
prepare_new db fresh file_id job_id pin at = do
  db' ← settle_unstarted db file_id none
  previous ← outstanding db' file_id
  require (is_none previous) ambiguous_send
  let row = new_intent fresh file_id job_id pin at
  ok (
    record db' {
      intents = db'.intents ++ (row ∷ []);
      bindings = db'.bindings ++ (record { job_id = job_id; intent_id = fresh.id } ∷ []);
    },
    some row,
  )

unfoldable pub prepare :
    Journal → Option Reason → Fresh → ℕ → ℕ → Pin → ℕ → Result (Journal × Option Intent)
prepare db refusal fresh file_id job_id pin at = do
  require_target refusal
  elim (load_for_job db job_id) [
    | some existing ↦ prepare_existing db fresh file_id pin at existing
    | none ↦ prepare_new db fresh file_id job_id pin at
  ]

unfoldable pub starts : String → Intent → Bool
starts intent_id i = str_eq i.id intent_id && not i.send_started

unfoldable pub mark_send_started : Journal → Option Reason → String → Result Journal
mark_send_started db refusal intent_id = do
  require_target refusal
  require_no_receipt db.receipts intent_id
  require (any (starts intent_id) db.intents) ambiguous_send
  ok (record db {
    intents = update (starts intent_id) (λ i. record i { send_started = true }) db.intents;
  })

-- The text of `canonical` is the same: it lists the facts in the order of their keys.
abbrev pub same_facts : List (String × String) → List (String × String) → Bool
same_facts [] [] = true
same_facts [] (fact ∷ rest) = false
same_facts (fact ∷ rest) [] = false
same_facts ((key, value) ∷ rest) ((key', value') ∷ rest') =
    str_eq key key' && str_eq value value' && same_facts rest rest'

unfoldable pub operation_name : NoWrite → String
operation_name put_object = "PutObject"
operation_name create_multipart_upload = "CreateMultipartUpload"
operation_name upload_part = "UploadPart"
operation_name complete_multipart_upload = "CompleteMultipartUpload"
operation_name proven_absent = "ProvenAbsent"

-- Equal texts have equal hashes, and different ones are taken to have different hashes.
unfoldable pub same_response : Response → Response → Bool
same_response (no_write op) (no_write op') = str_eq (operation_name op) (operation_name op')
same_response (no_write op) (facts fs) = false
same_response (facts fs) (no_write op) = false
same_response (facts fs) (facts fs') = same_facts fs fs'

-- The key `(intent_id, receipt_hash)` of the table.
unfoldable pub is_same_receipt : String → Response → Receipt → Bool
is_same_receipt intent_id response r =
    str_eq r.intent_id intent_id && same_response r.response response

-- `INSERT … ON CONFLICT DO NOTHING`.
unfoldable pub insert_receipt : String → Response → List Receipt → List Receipt
insert_receipt intent_id response receipts =
    if any (is_same_receipt intent_id response) receipts
    then receipts
    else receipts ++ (record { intent_id = intent_id; response = response } ∷ [])

-- `response` holds those of the call's facts whose keys are allowed, in the order of the keys.
unfoldable pub append_receipt : Journal → String → List (String × String) → Journal
append_receipt db intent_id response = record db {
  receipts = insert_receipt intent_id (facts response) db.receipts;
}

unfoldable pub disarms : String → Intent → Bool
disarms intent_id i =
    str_eq i.id intent_id && i.send_started && not i.settled && is_none i.archive_version_id

-- `operation` is `none` for a name that is not in `NO_WRITE_OPERATIONS`.
unfoldable pub record_no_write : Journal → Option Reason → String → Option NoWrite → Result Journal
record_no_write db refusal intent_id none = blocked ambiguous_send
record_no_write db refusal intent_id (some operation) = do
  require_target refusal
  require_no_receipt db.receipts intent_id
  require (any (disarms intent_id) db.intents) ambiguous_receipt
  ok (record db {
    intents = update (disarms intent_id) (λ i. record i { send_started = false }) db.intents;
    receipts = insert_receipt intent_id (no_write operation) db.receipts;
  })

-- `unsent`.
unfoldable pub unsent : Journal → Option String → Bool
unsent db none = false
unsent db (some intent_id) =
    not (str_eq intent_id "")
    && any (λ i. str_eq i.id intent_id && not i.send_started && is_none i.archive_version_id)
        db.intents
