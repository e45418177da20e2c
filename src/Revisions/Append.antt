-- ===== src/Revisions/Append.antt =====
-- What `append_event` of app/services/catalog_events.py leaves of a Vault's log.
use mathlib.Core.List.{append-nil}
use frostvault.Prelude.{
  ℕ, suc, ◌+◌, Bool, true, false, ◌&&◌, ◌≡◌, refl, ap, ◌∙◌, some, List, [], ◌∷◌, ◌++◌, leb, ltb,
  ◌==◌, if◌then◌else◌, length, length-append, arith, Bool-cases, Option-cases, inl, inr, coalesce,
  is_some, opt_map,
}
use frostvault.Prelude.Result.{ok}
use frostvault.Prelude.Table.{select, fetch_one, update}
use frostvault.Prelude.Table.Reads.{
  map-select-append, select-append, fetch_one-append_missing, fetch_one-append_other,
  fetch_one-append_exists, fetch_one-update_self, fetch_one-update_other,
}
use frostvault.Revisions.{
  Entry, Revision, Event, Store, revision_of, event_of, ensure_revision_row, advance, new_event,
  insert_event, append_locked, revision_row, current_revision, retained_from_revision,
}
use frostvault.Revisions.Spec.{Log, numbered, stamp, rows, Shows, is_kept}
use frostvault.Revisions.Numbered.{numbered-append}

-- The row that an append finds or creates, and writes.
abbrev own_row : Store → ℕ → ℕ → Revision
own_row s u at =
    coalesce (revision_row s u)
      (record { vault_id = u; revision = 0; retained_from = 1; updated_at = at })

module _ (s : Store) (u : ℕ) (entry : Entry) where
  abbrev revisions_after : List Revision
  revisions_after =
      update (revision_of u) (advance entry.created_at)
        (ensure_revision_row s.revisions u entry.created_at)

  abbrev pub appended : Store
  appended = record s {
    revisions = revisions_after;
    events = s.events ++ (new_event s u (suc (current_revision s u)) entry ∷ []);
    last_id = suc s.last_id;
  }

  own_row_after :
      fetch_one (revision_of u) revisions_after
      ≡ some (advance entry.created_at (own_row s u entry.created_at))
  unfolding ensure_revision_row advance
  own_row_after = elim (Option-cases (fetch_one (revision_of u) s.revisions)) [
    | inl e ↦ rw e (
        fetch_one-update_self (revision_of u) (advance entry.created_at) (λ r h. h) _
        ∙ ap (opt_map (advance entry.created_at))
            (fetch_one-append_missing (revision_of u) s.revisions _ e (ground arith)))
    | inr (r, e) ↦ rw e (
        fetch_one-update_self (revision_of u) (advance entry.created_at) (λ r h. h) _
        ∙ ap (opt_map (advance entry.created_at)) e)
  ]

  other_row_after :
      (v : ℕ) → u == v ≡ false → fetch_one (revision_of v) revisions_after ≡ revision_row s v
  unfolding ensure_revision_row advance
  other_row_after v h =
      fetch_one-update_other (revision_of v) (revision_of u) (advance entry.created_at)
        (λ r e. ground arith) (λ r e. ground arith) _
      ∙ elim (Bool-cases (is_some (fetch_one (revision_of u) s.revisions))) [
        | inl e ↦ rw e
        | inr e ↦ rw e (fetch_one-append_other (revision_of v) s.revisions _ h)
      ]

  own_row-revision : (own_row s u entry.created_at).revision ≡ current_revision s u
  unfolding current_revision
  own_row-revision = elim (Option-cases (revision_row s u)) [
    | inl e ↦ rw e refl
    | inr (r, e) ↦ rw e refl
  ]

  insert_event-ok :
      (revisions : List Revision) (n : ℕ)
      → (row : Event) × (insert_event s revisions u n entry
          ≡ ok (
            record s {
              revisions = revisions;
              events = s.events ++ (new_event s u n entry ∷ []);
              last_id = suc s.last_id;
            },
            row,
          ))
  unfolding insert_event new_event
  insert_event-ok revisions n =
      let finds : Event → Bool = λ e. event_of u e && e.revision == n in
      let new : Event = new_event s u n entry in
      elim (Option-cases (fetch_one finds (s.events ++ (new ∷ [])))) [
        | inr (row, e) ↦ (row, rw (insert_event, e) refl)
        | inl e ↦
            absurd (
              let found = fetch_one-append_exists finds s.events new (ground arith) in ground arith)
      ]

  pub append_locked-ok : (row : Event) × (append_locked s u entry ≡ ok (appended, row))
  unfolding append_locked advance
  append_locked-ok =
      let done = insert_event-ok revisions_after (suc (current_revision s u)) in
      let positive : ltb 0 (suc (current_revision s u)) ≡ true = ground arith in
      (done.0, rw (append_locked, own_row_after) (rw own_row-revision (rw positive done.1)))

  appended-rows :
      (v : ℕ)
      → rows appended v
        ≡ rows s v ++ (if u == v then (suc (current_revision s u), entry) ∷ [] else [])
  unfolding new_event
  appended-rows v = map-select-append stamp (event_of v) s.events _

  own_row-retained_from : (own_row s u entry.created_at).retained_from ≡ retained_from_revision s u
  unfolding retained_from_revision
  own_row-retained_from = elim (Option-cases (revision_row s u)) [
    | inl e ↦ rw e refl
    | inr (r, e) ↦ rw e refl
  ]

  appended-kept :
      (l : Log)
      → Shows s u l
      → rows appended u ≡ select (is_kept l) (numbered 1 (l.entries ++ (entry ∷ [])))
  unfolding select
  appended-kept l h =
      let number : 1 + length l.entries ≡ suc (current_revision s u) = omega (arith, h.counted) in
      let own : u == u ≡ true = ground arith in
      let stays : leb l.retained_from (suc (current_revision s u)) ≡ true =
        ground (arith, h.bounded, h.counted) in
      appended-rows u
      ∙ rw own (
          rw h.kept (
            rw (numbered-append 1 l.entries entry) (
              rw number (
                rw
                  (select-append (is_kept l) (numbered 1 l.entries)
                    ((suc (current_revision s u), entry) ∷ []))
                  (rw stays refl)))))

  pub appended-Shows_self :
      (l : Log) → Shows s u l → Shows appended u (record l { entries = l.entries ++ (entry ∷ []) })
  unfolding current_revision retained_from_revision advance
  appended-Shows_self l h = record {
    counted =
        rw own_row_after (
          ap suc own_row-revision ∙ omega (arith, h.counted, length-append l.entries (entry ∷ [])));
    kept_from = rw own_row_after (own_row-retained_from ∙ h.kept_from);
    kept = appended-kept l h;
    bounded = omega (arith, h.bounded, length-append l.entries (entry ∷ []));
  }

  pub appended-Shows_other : (v : ℕ) (l : Log) → u == v ≡ false → Shows s v l → Shows appended v l
  unfolding current_revision retained_from_revision
  appended-Shows_other v l e h = record {
    counted = rw (other_row_after v e) h.counted;
    kept_from = rw (other_row_after v e) h.kept_from;
    kept = appended-rows v ∙ rw e (append-nil (rows s v) ∙ h.kept);
    bounded = h.bounded;
  }
