-- ===== src/Stream.antt =====
-- app/services/catalog_event_stream.py: the one signal by which a client catches up with the events
-- after its cursor. `decode` is `json.loads` with what is no object made an empty one; the count of
-- statements is left out.
pub mod Told
pub mod Catchup
mod Tests
use frostvault.Prelude.{
  ℕ, suc, ◌-◌, String, Bool, true, false, not, ◌&&◌, ◌||◌, Option, none, some, List, [], ◌∷◌, leb,
  ltb, if◌then◌else◌, min, max, length, take, map,
}
use frostvault.Prelude.Result.{Result, ok, raise, ◌>>=◌}
use frostvault.Events.{
  Error, Texts, Value, absent, text, Signal, normalize_invalidate_domains, signal_from_event,
  coalesce_signals,
}
use frostvault.Events
use frostvault.Revisions.{
  Event, Store, current_revision, retained_from_revision, first_is_after, max_event_page_size,
}
use frostvault.Revisions.Pages.{rows_after}

-- The signal, the count of the events read, and whether the backlog was truncated.
abbrev pub Caught : Type 0
Caught = Signal × ℕ × Bool

unfoldable pub invalidate_all_signal : Texts → ℕ → ℕ → Signal
invalidate_all_signal texts vault_id revision = record {
  vault_id = vault_id;
  revision = revision;
  domains = normalize_invalidate_domains texts absent;
  has_gap = true;
}

unfoldable pub quiet_signal : ℕ → ℕ → Signal
quiet_signal vault_id revision = record {
  vault_id = vault_id;
  revision = revision;
  domains = [];
  has_gap = false;
}

-- The event that a row is decoded to.
abbrev pub hub_event : (String → Value) → Event → Events.Event
hub_event decode e = record {
  vault_id = e.vault_id;
  revision = e.revision;
  payload = decode e.entry.payload_json;
  domain = text e.entry.domain;
  has_gap = false;
}

unfoldable pub signal_of : Texts → (String → Value) → Event → Signal
signal_of texts decode e = signal_from_event texts (hub_event decode e)

-- `merged`, or a quiet signal.
abbrev pub merged_or_quiet : ℕ → ℕ → ℕ → Option Signal → Caught
merged_or_quiet vault_id current events_read none =
    (quiet_signal vault_id current, events_read, false)
merged_or_quiet vault_id current events_read (some merged) = (merged, events_read, false)

-- What follows the read of the rows.
unfoldable pub catchup_page :
    Texts → (String → Value) → ℕ → ℕ → ℕ → ℕ → Bool → List Event → Result Error Caught
catchup_page texts decode vault_id after current retained_from has_more [] = ok (
  if ltb after current
      then invalidate_all_signal texts vault_id current
      else quiet_signal vault_id current,
  0,
  ltb after current,
)
catchup_page texts decode vault_id after current retained_from has_more (e ∷ es) =
    if first_is_after (max (suc after) retained_from) (e ∷ es) || has_more
    then ok (invalidate_all_signal texts vault_id current, length (e ∷ es), true)
    else coalesce_signals texts (map (signal_of texts decode) (e ∷ es)) >>= λ merged.
        ok (merged_or_quiet vault_id current (length (e ∷ es)) merged)

-- The two reads of the source, of the revisions and then of the events, see one state of the tables.
unfoldable pub coalesced_catchup :
    Texts → (String → Value) → Store → ℕ → ℕ → ℕ → Result Error Caught
coalesced_catchup texts decode s vault_id after max_events =
    let size = max 1 (min max_events max_event_page_size) in
    let current = current_revision s vault_id in
    let retained_from = retained_from_revision s vault_id in
    let rows = take (suc size) (rows_after s vault_id after) in
    if leb current after && leb (retained_from - 1) after
    then ok (quiet_signal vault_id current, 0, false)
    else if ltb after (retained_from - 1)
    then ok (invalidate_all_signal texts vault_id current, 0, true)
    else catchup_page texts decode vault_id after current retained_from (ltb size (length rows))
        (take size rows)
