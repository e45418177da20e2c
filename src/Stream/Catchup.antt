-- ===== src/Stream/Catchup.antt =====
-- No invalidation is lost by the catch-up of app/services/catalog_event_stream.py: the store of events
-- and the merging of signals together.
use frostvault.Prelude.{
  ℕ, zero, suc, ◌-◌, ◌≤◌, String, Bool, true, false, ◌&&◌, ◌||◌, ◌≡◌, refl, sym, ap, ◌∙◌, ◌⊎◌, inl,
  inr, List, [], ◌∷◌, leb, ltb, min, max, length, take, drop, map, any, All, arith, Bool-cases,
}
use frostvault.Prelude.Result.{ok}
use frostvault.Prelude.Table.Sort.{All-sorted}
use frostvault.Prelude.Table.Reads.{All-select, All-take}
use frostvault.Events.{Texts, Value, absent, contains, signal_from_event}
use frostvault.Events.Domains.{signal-is_normal}
use frostvault.Revisions.{
  Entry, Event, Store, current_revision, retained_from_revision, first_is_after,
  max_event_page_size, revision_before,
}
use frostvault.Revisions.Spec.{
  Log, empty_log, numbered, Op, run_ops, log_ops, stamp, skipped, Shows,
}
use frostvault.Revisions.Refine.{run_ops-Shows, empty-Shows}
use frostvault.Revisions.Pages.{rows_after, rows_after-numbered}
use frostvault.Stream.Told.{told, IsReady, coalesce-told}
use frostvault.Stream.{
  Caught, hub_event, invalidate_all_signal, quiet_signal, signal_of, catchup_page,
  coalesced_catchup,
}

take_short {ℓ} :
    {A : Type ℓ} (n : ℕ) (xs : List A)
    → ltb n (length (take (suc n) xs)) ≡ false
    → take n (take (suc n) xs) ≡ xs
take_short zero [] h = refl
take_short zero (x ∷ xs) h = absurd (ground arith)
take_short (suc n) [] h = refl
take_short (suc n) (x ∷ xs) h = ap (λ t. x ∷ t) (take_short n xs (ground (arith, h)))

drop_past {ℓ} : {A : Type ℓ} (n : ℕ) (xs : List A) → length xs ≤ n → drop n xs ≡ []
drop_past zero [] h = refl
drop_past zero (x ∷ xs) h = absurd (omega (arith, h))
drop_past (suc n) [] h = refl
drop_past (suc n) (x ∷ xs) h = drop_past n xs (omega (arith, h))

-- The signal tells of a gap, or exactly of the domains of `spec`.
abbrev pub Tells : (String → Bool) → Caught → Type 0
Tells spec (signal, events_read, truncated) =
    (signal.has_gap ≡ true) ⊎ ((d : String) → contains d signal.domains ≡ spec d)

module _ (texts : Texts) (decode : String → Value) where
  -- The domains that an entry invalidates.
  abbrev pub entry_domains : Entry → List String
  entry_domains entry =
      (signal_of texts decode
        (record { id = 0; vault_id = 0; revision = 0; entry = entry })).domains

  -- What the entries after a revision invalidate.
  abbrev pub changes : Log → ℕ → String → Bool
  changes l after d = any (λ e. contains d (entry_domains e)) (drop after l.entries)

  told-stamps :
      (d : String) (es : List Event)
      → told d (map (signal_of texts decode) es)
        ≡ any (λ x. contains d (entry_domains x.1)) (map stamp es)
  unfolding signal_of signal_from_event
  told-stamps d [] = refl
  told-stamps d (e ∷ es) = ap (λ b. contains d (entry_domains e.entry) || b) (told-stamps d es)

  any-numbered :
      (d : String) (k : ℕ) (es : List Entry)
      → any (λ x. contains d (entry_domains x.1)) (numbered k es)
        ≡ any (λ e. contains d (entry_domains e)) es
  any-numbered d k [] = refl
  any-numbered d k (e ∷ es) =
      ap (λ b. contains d (entry_domains e) || b) (any-numbered d (suc k) es)

  module _ (again : (t : String) → texts.strip (texts.strip t) ≡ texts.strip t)
      (files : texts.strip "files" ≡ "files") (stats : texts.strip "stats" ≡ "stats") where
    signal_of-IsReady :
        (v : ℕ) (e : Event) → e.vault_id ≡ v → IsReady texts v (signal_of texts decode e)
    unfolding signal_of signal_from_event
    signal_of-IsReady v e h =
        ((signal-is_normal texts (hub_event decode e) absent "" again files stats).0, h)

    signals-IsReady :
        (v : ℕ) (es : List Event)
        → All (λ (e : Event). e.vault_id ≡ v) es
        → All (IsReady texts v) (map (signal_of texts decode) es)
    signals-IsReady v [] h = tt
    signals-IsReady v (e ∷ es) h = (signal_of-IsReady v e h.0, signals-IsReady v es h.1)

    page-Tells :
        (spec : String → Bool) (v after current retained_from : ℕ) (more : Bool)
        (rows visible : List Event)
        → All (λ (e : Event). e.vault_id ≡ v) visible
        → (more ≡ false → visible ≡ rows)
        → ((d : String) → told d (map (signal_of texts decode) rows) ≡ spec d)
        → (current ≤ after → (d : String) → spec d ≡ false)
        → (c : Caught) × (catchup_page texts decode v after current retained_from more visible
            ≡ ok c)
          × Tells spec c
    unfolding catchup_page invalidate_all_signal quiet_signal
    page-Tells spec v after current retained_from more rows [] own whole tells past =
        elim (Bool-cases (ltb after current)) [
          | inl e ↦ (_, refl, inl (rw e refl))
          | inr e ↦ (_, refl, inr (λ d. rw e (sym (past (ground (arith, e)) d))))
        ]
    page-Tells spec v after current retained_from more rows (e ∷ es) own whole tells past =
        let late = first_is_after (max (suc after) retained_from) (e ∷ es) in
        elim (Bool-cases (late || more)) [
          | inl f ↦
              ((invalidate_all_signal texts v current, length (e ∷ es), true), rw f refl, inl refl)
          | inr f ↦
              let one =
                coalesce-told texts v (signal_of texts decode e) (map (signal_of texts decode) es)
                  (signals-IsReady v (e ∷ es) own) in
              (
                (one.0, length (e ∷ es), false),
                rw f (rw one.1 refl),
                inr (λ d.
                    one.2 d
                    ∙ ap (λ r. told d (map (signal_of texts decode) r)) (whole (ground (arith, f)))
                    ∙ tells d),
              )
        ]

    rows-own :
        (s : Store) (v after : ℕ) → All (λ (e : Event). e.vault_id ≡ v) (rows_after s v after)
    rows-own s v after =
        All-sorted revision_before (λ (e : Event). e.vault_id ≡ v) _
          (All-select (λ (e : Event). e.vault_id ≡ v) _ (λ e h. ground arith) s.events)

    rows-changes :
        (s : Store) (v : ℕ) (l : Log) (after : ℕ)
        → Shows s v l
        → l.retained_from - 1 ≤ after
        → (d : String)
        → told d (map (signal_of texts decode) (rows_after s v after)) ≡ changes l after d
    rows-changes s v l after h k d =
        let start : skipped l after ≡ after = omega (arith, k) in
        told-stamps d (rows_after s v after)
        ∙ ap (λ xs. any (λ x. contains d (entry_domains x.1)) xs)
            (rows_after-numbered s v l after h)
        ∙ any-numbered d (suc (skipped l after)) (drop (skipped l after) l.entries)
        ∙ ap (λ n. changes l n d) start

    past-changes :
        (l : Log) (after : ℕ) → length l.entries ≤ after → (d : String) → changes l after d ≡ false
    past-changes l after h d =
        ap (λ es. any (λ e. contains d (entry_domains e)) es) (drop_past after l.entries h)

    catchup-Tells :
        (s : Store) (v : ℕ) (l : Log) (after max_events : ℕ)
        → Shows s v l
        → (c : Caught) × (coalesced_catchup texts decode s v after max_events ≡ ok c)
          × Tells (changes l after) c
    unfolding coalesced_catchup quiet_signal invalidate_all_signal
    catchup-Tells s v l after max_events h =
        let size : ℕ = max 1 (min max_events max_event_page_size) in
        let rows : List Event = take (suc size) (rows_after s v after) in
        elim (Bool-cases
          (leb (current_revision s v) after && leb (retained_from_revision s v - 1) after)) [
            | inl e ↦ (
              (quiet_signal v (current_revision s v), 0, false),
              rw e refl,
              inr (λ d. sym (past-changes l after (ground (arith, h.counted, e)) d)),
            )
            | inr e ↦ rw e (elim (Bool-cases (ltb after (retained_from_revision s v - 1))) [
              | inl f ↦ (
                (invalidate_all_signal texts v (current_revision s v), 0, true),
                rw f refl,
                inl refl,
              )
              | inr f ↦ rw f (
                  page-Tells (changes l after) v after (current_revision s v)
                    (retained_from_revision s v) (ltb size (length rows)) (rows_after s v after)
                    (take size rows)
                    (All-take (λ (e : Event). e.vault_id ≡ v) size rows
                      (All-take (λ (e : Event). e.vault_id ≡ v) (suc size) (rows_after s v after)
                        (rows-own s v after)))
                    (take_short size (rows_after s v after))
                    (rows-changes s v l after h (ground (arith, h.kept_from, f)))
                    (λ le. past-changes l after (ground (arith, h.counted, le))))
            ])
          ]

-- No invalidation is lost between the store and its clients: after any sequence of appends and
-- prunes from tables without rows, a client's catch-up from any cursor, on any Vault and with any
-- bound on the page, returns one signal, and this tells of a gap, which reloads everything, or names
-- exactly the domains that the events appended to the Vault after the cursor invalidate. `strip` of
-- a stripped text and of the two default domains is the text.
pub catchup_loses_nothing :
    (texts : Texts) (decode : String → Value)
    → ((t : String) → texts.strip (texts.strip t) ≡ texts.strip t)
    → texts.strip "files" ≡ "files"
    → texts.strip "stats" ≡ "stats"
    → (vaults : List ℕ) (last_id : ℕ) (os : List Op) (v after max_events : ℕ)
    → (c : Caught) × (coalesced_catchup texts decode
          (run_ops (record { vaults = vaults; revisions = []; events = []; last_id = last_id }) os)
          v
          after
          max_events
        ≡ ok c)
      × Tells (changes texts decode (log_ops vaults v empty_log os) after) c
catchup_loses_nothing texts decode again files stats vaults last_id os v after max_events =
    catchup-Tells texts decode again files stats _ v _ after max_events
      (run_ops-Shows os _ v empty_log (empty-Shows vaults last_id v))
