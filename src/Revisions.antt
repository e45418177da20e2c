-- ===== src/Revisions.antt =====
-- app/services/catalog_events.py: the revisions of each Vault's catalog and the events that carry
-- them. A prepared event's payload is its JSON text; times are numbers.
pub mod Spec
pub mod Numbered
pub mod Append
pub mod Prune
pub mod Refine
pub mod Pages
mod Tests
use frostvault.Prelude.{
  ℕ, suc, ◌+◌, ◌-◌, String, Bool, true, false, not, ◌&&◌, ◌||◌, ◌==◌, Option, none, some, List, [],
  ◌∷◌, ◌++◌, ltb, leb, if◌then◌else◌, min, max, length, take, any, coalesce, opt_map, is_some,
}
use frostvault.Prelude.Result.{Result, ok, raise, require, ◌>>=◌, ◌>>◌}
use frostvault.Prelude.Table.{select, fetch_one, update, delete}
use frostvault.Prelude.Table.Sort.{sorted}

pub data Error : Type 0 where
  value_error lookup_error runtime_error : Error

-- What `_prepare_event` hands on.
pub record Entry : Type 0 where
  pub domain : String
  pub scope : String
  pub payload_json : String
  pub created_at : ℕ

-- A row of `vault_catalog_revisions`.
pub record Revision : Type 0 where
  pub vault_id : ℕ
  pub revision : ℕ
  pub retained_from : ℕ
  pub updated_at : ℕ

-- A row of `catalog_events`.
pub record Event : Type 0 where
  pub id : ℕ
  pub vault_id : ℕ
  pub revision : ℕ
  pub entry : Entry

-- The ids of the table `vaults`, the two tables, and the last id that the event sequence gave.
pub record Store : Type 0 where
  pub vaults : List ℕ
  pub revisions : List Revision
  pub events : List Event
  pub last_id : ℕ

abbrev pub revision_of : ℕ → Revision → Bool
revision_of vault_id r = r.vault_id == vault_id

abbrev pub event_of : ℕ → Event → Bool
event_of vault_id e = e.vault_id == vault_id

-- `MAX_EVENT_PAGE_SIZE`.
abbrev pub max_event_page_size : ℕ
max_event_page_size = 100

-- `_positive_or_zero` and the test for zero, then `_lock_vault`, which changes no value.
unfoldable pub lock_vault : Store → ℕ → Result Error (Unit {0})
lock_vault s vault_id =
    require (ltb 0 vault_id) value_error >> require (any (λ v. v == vault_id) s.vaults) lookup_error

-- `ON CONFLICT(vault_id) DO NOTHING`.
unfoldable pub ensure_revision_row : List Revision → ℕ → ℕ → List Revision
ensure_revision_row revisions vault_id at =
    if is_some (fetch_one (revision_of vault_id) revisions)
    then revisions
    else revisions
      ++ (record { vault_id = vault_id; revision = 0; retained_from = 1; updated_at = at } ∷ [])

unfoldable pub advance : ℕ → Revision → Revision
advance at r = record r { revision = suc r.revision; updated_at = at }

unfoldable pub new_event : Store → ℕ → ℕ → Entry → Event
new_event s vault_id revision entry = record {
  id = suc s.last_id;
  vault_id = vault_id;
  revision = revision;
  entry = entry;
}

-- The insert of the event and the read of its row.
unfoldable pub insert_event : Store → List Revision → ℕ → ℕ → Entry → Result Error (Store × Event)
insert_event s revisions vault_id revision entry =
    let events = s.events ++ (new_event s vault_id revision entry ∷ []) in
    elim (fetch_one (λ e. event_of vault_id e && e.revision == revision) events) [
      | none ↦ raise runtime_error
      | some row ↦
          ok (record s { revisions = revisions; events = events; last_id = suc s.last_id }, row)
    ]

unfoldable pub append_locked : Store → ℕ → Entry → Result Error (Store × Event)
append_locked s vault_id entry =
    let revisions =
      update (revision_of vault_id) (advance entry.created_at)
        (ensure_revision_row s.revisions vault_id entry.created_at) in
    elim (fetch_one (revision_of vault_id) revisions) [
      | none ↦ raise runtime_error
      | some state ↦
          require (ltb 0 state.revision) runtime_error
          >> insert_event s revisions vault_id state.revision entry
    ]

unfoldable pub append_event : Store → ℕ → Entry → Result Error (Store × Event)
append_event s vault_id entry = lock_vault s vault_id >> append_locked s vault_id entry

abbrev pub revision_row : Store → ℕ → Option Revision
revision_row s vault_id = fetch_one (revision_of vault_id) s.revisions

unfoldable pub current_revision : Store → ℕ → ℕ
current_revision s vault_id = coalesce (opt_map (λ r. r.revision) (revision_row s vault_id)) 0

unfoldable pub retained_from_revision : Store → ℕ → ℕ
retained_from_revision s vault_id =
    coalesce (opt_map (λ r. r.retained_from) (revision_row s vault_id)) 1

pub record Page : Type 0 where
  pub current_revision : ℕ
  pub retained_from_revision : ℕ
  pub has_gap : Bool
  pub has_more : Bool
  pub events : List Event

unfoldable pub first_is_after : ℕ → List Event → Bool
first_is_after expected [] = false
first_is_after expected (e ∷ es) = ltb expected e.revision

abbrev pub is_empty {ℓ} : {A : Type ℓ} → List A → Bool
is_empty [] = true
is_empty (x ∷ xs) = false

-- The three tests that set `has_gap`.
unfoldable pub shows_gap : ℕ → ℕ → ℕ → List Event → Bool
shows_gap after_revision current retained_from visible =
    ltb after_revision (retained_from - 1)
    || first_is_after (max (suc after_revision) retained_from) visible
    || (is_empty visible && ltb after_revision current)

-- `ORDER BY revision`.
abbrev pub revision_before : Event → Event → Bool
revision_before a b = leb a.revision b.revision

unfoldable pub read_events : Store → ℕ → ℕ → ℕ → Result Error Page
read_events s vault_id after_revision limit =
    require (ltb 0 vault_id) value_error
    >> require (ltb 0 limit) value_error
    >> let limit = min limit max_event_page_size in
      let current = current_revision s vault_id in
      let retained_from = retained_from_revision s vault_id in
      let rows = take (suc limit) (
        sorted revision_before
          (select (λ e. event_of vault_id e && ltb after_revision e.revision) s.events)) in
      let visible = take limit rows in
      ok record {
        current_revision = current;
        retained_from_revision = retained_from;
        has_gap = shows_gap after_revision current retained_from visible;
        has_more = ltb limit (length rows);
        events = visible;
      }

unfoldable pub retain : ℕ → ℕ → Revision → Revision
retain retained_from at r = record r { retained_from = retained_from; updated_at = at }

-- The count of the deleted rows is left out.
unfoldable pub prune_events : Store → ℕ → ℕ → ℕ → Result Error Store
prune_events s vault_id retain_from_revision updated_at =
    require (ltb 0 vault_id) value_error
    >> require (ltb 0 retain_from_revision) value_error
    >> lock_vault s vault_id
    >> elim (revision_row s vault_id) [
      | none ↦ require (retain_from_revision == 1) value_error >> ok s
      | some state ↦
          require (leb retain_from_revision (suc state.revision)) value_error
          >> ok record s {
            events =
                delete (λ e. event_of vault_id e && ltb e.revision retain_from_revision) s.events;
            revisions =
                update (revision_of vault_id)
                  (retain (max state.retained_from retain_from_revision) updated_at) s.revisions;
          }
    ]
