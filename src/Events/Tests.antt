-- ===== src/Events/Tests.antt =====
-- Examples of a mailbox: two signals are merged before the reader takes one, and a third one waits.
use frostvault.Prelude.{String, true, false, ◌≡◌, refl, Option, List, [], ◌∷◌, ◌++◌}
use frostvault.Prelude.Result.{ok}
use frostvault.Events.{
  Texts, Signal, Event, text, mapping, absent, new_subscriber, signal_from_event, contains,
  or_default, mapping_of,
}
use frostvault.Events.Domains.{is_normal, named, signal-is_normal}
use frostvault.Events.Merge.{holding}
use frostvault.Events.Mailbox.{
  Step, offers, takes, run_steps, with_offered, unread, tells, mailbox_refines,
}

-- Texts without blanks, and without commas.
abbrev same : String → String
same t = t

abbrev alone : String → List String
alone t = t ∷ []

abbrev plain : Texts
plain = record { strip = same; split_commas = alone }

abbrev first : Signal
first = record { vault_id = 1; revision = 4; domains = "files" ∷ []; has_gap = false }

abbrev second : Signal
second = record { vault_id = 1; revision = 5; domains = "jobs" ∷ "files" ∷ []; has_gap = true }

abbrev third : Signal
third = record { vault_id = 1; revision = 6; domains = "stats" ∷ []; has_gap = false }

abbrev steps : List Step
steps = offers first ∷ offers second ∷ takes ∷ takes ∷ offers third ∷ []

mailbox_refines_example :
    (held : Option Signal) × (taken : List Signal) × (run_steps plain (new_subscriber, []) steps
      ≡ ok (holding held, taken))
    × (tells "jobs" (unread held ++ taken) ≡ tells "jobs" (with_offered steps []))
mailbox_refines_example = mailbox_refines plain 1 "jobs" steps refl

abbrev event : Event
event = record {
  vault_id = 1;
  revision = 4;
  payload = mapping absent (text "jobs");
  domain = text "jobs";
  has_gap = false;
}

signal-is_normal_example :
    (is_normal plain (signal_from_event plain event) ≡ true)
    × (contains "jobs" (signal_from_event plain event).domains
        ≡ contains "jobs" (or_default (named plain (mapping_of event.payload))))
    × (signal_from_event plain event ≡ signal_from_event plain (record event { domain = absent }))
signal-is_normal_example = signal-is_normal plain event absent "jobs" (λ t. refl) refl refl
