-- ===== src/Events.antt =====
-- app/services/catalog_event_hub.py: the signals that wake the browsers watching a Vault, and the mailbox
-- of one subscriber, which merges the signals that its reader has not taken.
pub mod Domains
pub mod Merge
pub mod Mailbox
mod Tests
use frostvault.Prelude.{
  ℕ, String, str_eq, Bool, true, false, not, ◌&&◌, ◌||◌, Option, none, some, List, [], ◌∷◌, ◌++◌,
  ◌==◌, if◌then◌else◌, any, map, max,
}
use frostvault.Prelude.Result.{Result, ok, raise, ◌>>=◌, ◌>>◌, require}
use frostvault.Prelude.Table.{select}

-- `ValueError`.
pub data Error : Type 0 where
  other_vault : Error

-- What the calls use of Python's texts: `strip` and `split(",")`.
pub record Texts : Type 0 where
  pub strip : String → String
  pub split_commas : String → List String

-- What a caller may pass for domains: nothing, a text, a mapping with its entries `invalidate` and
-- `domains`, the texts of the elements of another iterable, or anything else.
pub data Value : Type 0 where
  absent other : Value
  text : String → Value
  mapping : Value → Value → Value
  iterable : List String → Value

pub record Signal : Type 0 where
  pub vault_id : ℕ
  pub revision : ℕ
  pub domains : List String
  pub has_gap : Bool

pub record Event : Type 0 where
  pub vault_id : ℕ
  pub revision : ℕ
  pub payload : Value
  pub domain : Value
  pub has_gap : Bool

-- `DEFAULT_INVALIDATE_DOMAINS`.
abbrev pub default_domains : List String
default_domains = "files" ∷ "stats" ∷ []

abbrev pub contains : String → List String → Bool
contains domain domains = any (str_eq domain) domains

-- The loop that keeps the first of each domain.
unfoldable pub first_of_each : List String → List String → List String
first_of_each seen [] = []
first_of_each seen (d ∷ ds) = elim (contains d seen) [
  | true ↦ first_of_each seen ds
  | false ↦ d ∷ first_of_each (d ∷ seen) ds
]

-- `ordered or list(DEFAULT_INVALIDATE_DOMAINS)`.
abbrev pub or_default : List String → List String
or_default [] = default_domains
or_default (d ∷ ds) = d ∷ ds

-- The texts that are not blank, without the blanks around them.
unfoldable pub stripped : Texts → List String → List String
stripped texts ds = select (λ d. not (str_eq d "")) (map texts.strip ds)

abbrev pub is_absent : Value → Bool
is_absent absent = true
is_absent _ = false

unfoldable pub normalize_invalidate_domains : Texts → Value → List String
normalize_invalidate_domains texts absent = or_default (first_of_each [] default_domains)
normalize_invalidate_domains texts other = or_default (first_of_each [] default_domains)
normalize_invalidate_domains texts (text t) =
    or_default (first_of_each [] (stripped texts (texts.split_commas t)))
normalize_invalidate_domains texts (mapping invalidate domains) =
    let nested = normalize_invalidate_domains texts invalidate in
    let fallback = normalize_invalidate_domains texts domains in
    if is_absent invalidate then fallback else nested
normalize_invalidate_domains texts (iterable ds) = or_default (first_of_each [] (stripped texts ds))

-- `payload if isinstance(payload, Mapping) else {}`.
abbrev pub mapping_of : Value → Value
mapping_of (mapping invalidate domains) = mapping invalidate domains
mapping_of _ = mapping absent absent

abbrev pub is_given : Value → Bool
is_given absent = false
is_given _ = true

abbrev pub is_nothing : List String → Bool
is_nothing [] = true
is_nothing (d ∷ ds) = false

-- An empty `domain` counts as absent.
unfoldable pub signal_from_event : Texts → Event → Signal
signal_from_event texts event =
    let domains = normalize_invalidate_domains texts (mapping_of event.payload) in
    record {
      vault_id = event.vault_id;
      revision = event.revision;
      domains =
          if is_nothing domains && is_given event.domain
          then normalize_invalidate_domains texts event.domain
          else domains;
      has_gap = event.has_gap;
    }

-- One turn of the loop of `coalesce_signals`.
unfoldable pub merge : Texts → Option Signal → Signal → Result Error Signal
merge texts none signal =
    ok (record signal { domains = normalize_invalidate_domains texts (iterable signal.domains) })
merge texts (some merged) signal =
    let domains = normalize_invalidate_domains texts (iterable signal.domains) in
    do
      require (signal.vault_id == merged.vault_id) other_vault
      ok (record merged {
        revision = max merged.revision signal.revision;
        domains = normalize_invalidate_domains texts (iterable (merged.domains ++ domains));
        has_gap = merged.has_gap || signal.has_gap;
      })

unfoldable pub merge_all : Texts → Option Signal → List Signal → Result Error (Option Signal)
merge_all texts merged [] = ok merged
merge_all texts merged (s ∷ ss) = do next ← merge texts merged s; merge_all texts (some next) ss

unfoldable pub coalesce_signals : Texts → List Signal → Result Error (Option Signal)
coalesce_signals texts signals = merge_all texts none signals

-- `_Subscriber`; the queue has no bound, and `None` ends it.
pub record Subscriber : Type 0 where
  pub queue : List (Option Signal)
  pub closed : Bool

abbrev pub new_subscriber : Subscriber
new_subscriber = record { queue = []; closed = false }

abbrev pub put : Option Signal → Subscriber → Subscriber
put entry s = record s { queue = s.queue ++ (entry ∷ []) }

-- `offer` after the pending entry has been taken out of the queue.
unfoldable pub offer_pending : Texts → Subscriber → Option Signal → Signal → Result Error Subscriber
offer_pending texts s none signal = ok (put (some signal) s)
offer_pending texts s (some pending) signal = do
  merged ← coalesce_signals texts (pending ∷ signal ∷ [])
  ok (put merged s)

unfoldable pub offer : Texts → Subscriber → Signal → Result Error Subscriber
offer texts s signal = if s.closed then ok s else elim s.queue [
  | [] ↦ offer_pending texts s none signal
  | pending ∷ rest ↦ offer_pending texts (record s { queue = rest }) pending signal
]

unfoldable pub close : Subscriber → Subscriber
close s = if s.closed then s else put none (record s { closed = true })

-- `queue.get()` of the reader, where the queue holds an entry.
unfoldable pub take_next : Subscriber → Option (Option Signal × Subscriber)
take_next s = elim s.queue [ [] ↦ none | entry ∷ rest ↦ some (entry, record s { queue = rest }) ]
