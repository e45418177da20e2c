-- ===== src/Intents/Tests.antt =====
-- Examples of upload intents: one that is sent, refused, sent again and acknowledged.
use frostvault.Prelude.{
  ◌+◌, ◌≤◌, ◌≡◌, ◌≢◌, refl, ap, inr, String, str_eq, Bool, false, none, some, List, [], ◌∷◌, All,
  arith,
}
use frostvault.Intents.{
  ambiguous_receipt, blocked, put_object, Pin, Intent, Journal, Fresh, mark_send_started,
  record_no_write, append_receipt,
}
use frostvault.Intents.Steps.{Step, prepares, sends, refuses, Trace, bit, run_steps, Draws}
use frostvault.Intents.Armed.{Armed}
use frostvault.Intents.Sends.{sends_balance}
use frostvault.Intents.Receipts.{acknowledged_final}

abbrev pin : Pin
pin = record {
  target_json = "{}";
  snapshot_json = "{}";
  requested = "Versioned";
  inventory_json = "{}";
}

abbrev intent : Intent
intent = record {
  id = "i";
  token = "t";
  vault_file_id = 1;
  original_job_id = 1;
  pin = pin;
  created_at = 1;
  send_started = false;
  settled = false;
  archive_version_id = none;
  blocked_reason = none;
}

abbrev journal : Journal
journal = record {
  intents = intent ∷ [];
  bindings = record { job_id = 1; intent_id = "i" } ∷ [];
  receipts = [];
}

abbrev start : Trace
start = record { db = journal; sent = 0; refused = 0 }

abbrev other_values : Fresh
other_values = record { id = "k"; token = "u" }

abbrev steps : List Step
steps =
    sends none "i"
    ∷ refuses none "i" (some put_object)
    ∷ prepares none other_values 1 2 pin 5
    ∷ sends none "i"
    ∷ sends none "i"
    ∷ []

abbrev id_k : String
id_k = "k"

abbrev id_i : String
id_i = "i"

other_id : id_k ≢ id_i
other_id e = ground (arith, ap (λ s. str_eq s "k") e)

is_unsent : Armed "i" false start.db.intents
is_unsent = (intent, refl, refl, (inr refl, tt))

other_ids : All (Draws "i") steps
other_ids = (tt, (tt, (other_id, (tt, (tt, tt)))))

sends_balance_example :
    ((run_steps "i" start steps).sent + 0 ≤ (run_steps "i" start steps).refused + 0 + 1)
    × ((b' : Bool) × Armed "i" b' (run_steps "i" start steps).db.intents
        × (bit false + (run_steps "i" start steps).sent + 0
            ≡ bit b' + (run_steps "i" start steps).refused + 0))
sends_balance_example = sends_balance "i" false start steps is_unsent other_ids

abbrev response : List (String × String)
response = ("VersionId", "v1") ∷ []

acknowledged_final_example :
    (mark_send_started
        (run_steps "i" (record start { db = append_receipt journal "i" response }) steps).db
        none
        "i"
      ≡ blocked ambiguous_receipt)
    × (record_no_write
          (run_steps "i" (record start { db = append_receipt journal "i" response }) steps).db
          none
          "i"
          (some put_object)
        ≡ blocked ambiguous_receipt)
acknowledged_final_example = acknowledged_final "i" start response steps put_object
