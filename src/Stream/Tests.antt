-- ===== src/Stream/Tests.antt =====
-- Examples of a catch-up: a client one event behind, on a Vault whose older events are pruned.
use frostvault.Prelude.{String, ◌≡◌, refl, List, [], ◌∷◌}
use frostvault.Prelude.Result.{ok}
use frostvault.Events.{Texts, Value, absent, mapping, iterable}
use frostvault.Revisions.{Entry, Store}
use frostvault.Revisions.Spec.{Op, append, prune, empty_log, run_ops, log_ops}
use frostvault.Stream.{Caught, coalesced_catchup}
use frostvault.Stream.Catchup.{Tells, changes, catchup_loses_nothing}

abbrev texts : Texts
texts = record { strip = λ t. t; split_commas = λ t. t ∷ [] }

abbrev decode : String → Value
decode payload = mapping (iterable (payload ∷ [])) absent

abbrev entry : String → Entry
entry payload = record { domain = "catalog"; scope = ""; payload_json = payload; created_at = 10 }

abbrev calls : List Op
calls =
    append 1 (entry "files")
    ∷ append 2 (entry "stats")
    ∷ append 1 (entry "jobs")
    ∷ prune 1 2 11
    ∷ []

abbrev tables : Store
tables = record { vaults = 1 ∷ 2 ∷ []; revisions = []; events = []; last_id = 0 }

catchup_loses_nothing_example :
    (c : Caught) × (coalesced_catchup texts decode (run_ops tables calls) 1 1 64 ≡ ok c)
    × Tells (changes texts decode (log_ops (1 ∷ 2 ∷ []) 1 empty_log calls) 1) c
catchup_loses_nothing_example =
    catchup_loses_nothing texts decode (λ t. refl) refl refl (1 ∷ 2 ∷ []) 0 calls 1 1 64
