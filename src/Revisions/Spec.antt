-- ===== src/Revisions/Spec.antt =====
-- What the event store of app/services/catalog_events.py promises of one Vault: a log of which a
-- first part may have been pruned, and pages of it.
use frostvault.Prelude.{
  ℕ, suc, ◌-◌, Bool, ◌&&◌, ◌==◌, List, [], ◌∷◌, ◌++◌, ltb, leb, if◌then◌else◌, min, max, length,
  take, drop, any, map, ◌≡◌, ◌≤◌,
}
use frostvault.Prelude.Result.{Result, ok, raise}
use frostvault.Prelude.Table.{select}
use frostvault.Revisions.{
  Entry, Event, Store, Page, append_event, prune_events, max_event_page_size, Error,
  current_revision, retained_from_revision, event_of,
}

-- Everything appended, and the first revision that is retained.
pub record Log : Type 0 where
  pub entries : List Entry
  pub retained_from : ℕ

abbrev pub empty_log : Log
empty_log = record { entries = []; retained_from = 1 }

-- The entries with their revisions.
abbrev pub numbered : ℕ → List Entry → List (ℕ × Entry)
numbered n [] = []
numbered n (e ∷ es) = (n, e) ∷ numbered (suc n) es

pub data Op : Type 0 where
  append : ℕ → Entry → Op
  prune : ℕ → ℕ → ℕ → Op

abbrev pub store_after : Store → Result Error Store → Store
store_after s (ok s') = s'
store_after s (raise e) = s

abbrev pub first_of {ℓ} : {A : Type ℓ} → Result Error (Store × A) → Result Error Store
first_of (ok (s, a)) = ok s
first_of (raise e) = raise e

-- A call that raises leaves the tables as they were.
unfoldable pub run_op : Store → Op → Store
run_op s (append vault_id entry) = store_after s (first_of (append_event s vault_id entry))
run_op s (prune vault_id from at) = store_after s (prune_events s vault_id from at)

unfoldable pub run_ops : Store → List Op → Store
run_ops s [] = s
run_ops s (o ∷ os) = run_ops (run_op s o) os

abbrev pub exists_in : List ℕ → ℕ → Bool
exists_in vaults vault_id = ltb 0 vault_id && any (λ v. v == vault_id) vaults

-- What a call means for the log of the Vault `v`.
unfoldable pub log_op : List ℕ → ℕ → Log → Op → Log
log_op vaults v l (append vault_id entry) =
    if vault_id == v && exists_in vaults vault_id
    then record l { entries = l.entries ++ (entry ∷ []) }
    else l
log_op vaults v l (prune vault_id from at) =
    if vault_id == v && exists_in vaults vault_id && ltb 0 from && leb from (suc (length l.entries))
    then record l { retained_from = max l.retained_from from }
    else l

unfoldable pub log_ops : List ℕ → ℕ → Log → List Op → Log
log_ops vaults v l [] = l
log_ops vaults v l (o ∷ os) = log_ops vaults v (log_op vaults v l o) os

-- A page without the ids of its rows.
pub record LogPage : Type 0 where
  pub current : ℕ
  pub retained_from : ℕ
  pub has_gap : Bool
  pub has_more : Bool
  pub entries : List (ℕ × Entry)

abbrev pub stamp : Event → ℕ × Entry
stamp e = (e.revision, e.entry)

abbrev pub view : Page → LogPage
view p = record {
  current = p.current_revision;
  retained_from = p.retained_from_revision;
  has_gap = p.has_gap;
  has_more = p.has_more;
  entries = map stamp p.events;
}

-- The last revision that a reader cannot get, because it has it or because it is pruned.
abbrev pub skipped : Log → ℕ → ℕ
skipped l after = max after (l.retained_from - 1)

unfoldable pub log_page : Log → ℕ → ℕ → LogPage
log_page l after limit =
    let size = min limit max_event_page_size in
    let rest = drop (skipped l after) l.entries in
    record {
      current = length l.entries;
      retained_from = l.retained_from;
      has_gap = ltb after (l.retained_from - 1);
      has_more = ltb size (length rest);
      entries = take size (numbered (suc (skipped l after)) rest);
    }

-- What the tables keep of the Vault's events.
abbrev pub rows : Store → ℕ → List (ℕ × Entry)
rows s v = map stamp (select (event_of v) s.events)

-- What is retained of the log.
abbrev pub is_kept : Log → ℕ × Entry → Bool
is_kept l x = leb l.retained_from x.0

-- The tables show the log of the Vault `v`.
pub record Shows (s : Store) (v : ℕ) (l : Log) : Type 0 where
  pub counted : current_revision s v ≡ length l.entries
  pub kept_from : retained_from_revision s v ≡ l.retained_from
  pub kept : rows s v ≡ select (is_kept l) (numbered 1 l.entries)
  pub bounded : l.retained_from ≤ suc (length l.entries)
