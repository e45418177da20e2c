-- ===== src/Revisions/Prune.antt =====
-- What `prune_events` of app/services/catalog_events.py leaves of a Vault's log.
use frostvault.Prelude.{
  ℕ, suc, Bool, true, false, ◌&&◌, ◌≡◌, refl, sym, ap, ◌∙◌, none, some, leb, ltb, ◌==◌, map, max,
  arith, Option-cases, inl, inr, opt_map,
}
use frostvault.Prelude.Table.{select, update, delete}
use frostvault.Prelude.Table.Reads.{
  map-select-delete, select-delete_other, select-select, fetch_one-update_self,
  fetch_one-update_other,
}
use frostvault.Revisions.{
  Revision, Store, revision_of, event_of, lock_vault, revision_row, current_revision,
  retained_from_revision, retain, prune_events,
}
use frostvault.Revisions.Spec.{Log, numbered, prune, run_op, exists_in, stamp, rows, Shows, is_kept}

-- The tables after a prune that found its Vault's row.
abbrev pub pruned : Store → ℕ → ℕ → ℕ → Revision → Store
pruned s u from at state = record s {
  events = delete (λ e. event_of u e && ltb e.revision from) s.events;
  revisions = update (revision_of u) (retain (max state.retained_from from) at) s.revisions;
}

-- What a prune asks for.
abbrev pub may_prune : Store → ℕ → ℕ → Bool
may_prune s u from = exists_in s.vaults u && ltb 0 from && leb from (suc (current_revision s u))

module _ (s : Store) (u from at : ℕ) where
  -- A prune that raises, or that finds nothing to write.
  pub prune_refused : may_prune s u from ≡ false → run_op s (prune u from at) ≡ s
  unfolding run_op prune_events lock_vault current_revision
  prune_refused h = elim (Option-cases (revision_row s u)) [
    | inl e ↦ rw (prune_events, e) (ground arith)
    | inr (state, e) ↦
        let own : current_revision s u ≡ state.revision = rw e refl in
        rw (prune_events, e) (ground (arith, h, own))
  ]

  pub prune_unwritten : revision_row s u ≡ none → run_op s (prune u from at) ≡ s
  unfolding run_op prune_events lock_vault
  prune_unwritten e = rw (prune_events, e) (ground arith)

  pub prune_written :
      (state : Revision)
      → revision_row s u ≡ some state
      → may_prune s u from ≡ true
      → run_op s (prune u from at) ≡ pruned s u from at state
  unfolding run_op prune_events lock_vault current_revision
  prune_written state e h = rw (prune_events, e) (ground arith)

  module _ (state : Revision) (e : revision_row s u ≡ some state) where
    pruned-rows : rows (pruned s u from at state) u ≡ select (λ x. leb from x.0) (rows s u)
    pruned-rows =
        map-select-delete stamp (event_of u) (λ r. event_of u r && ltb r.revision from)
          (λ x. leb from x.0) (λ r h. ground arith) s.events

    pruned-row :
        revision_row (pruned s u from at state) u
        ≡ some (retain (max state.retained_from from) at state)
    unfolding retain
    pruned-row =
        fetch_one-update_self (revision_of u) (retain (max state.retained_from from) at) (λ r h. h)
          s.revisions
        ∙ ap (opt_map (retain (max state.retained_from from) at)) e

    pruned-row_other :
        (v : ℕ) → u == v ≡ false → revision_row (pruned s u from at state) v ≡ revision_row s v
    unfolding retain
    pruned-row_other v ne =
        fetch_one-update_other (revision_of v) (revision_of u) _ (λ r h. ground arith)
          (λ r h. ground arith) s.revisions

    pub pruned-Shows_self :
        (l : Log)
        → Shows s u l
        → leb from (suc (current_revision s u)) ≡ true
        → Shows (pruned s u from at state) u (record l { retained_from = max l.retained_from from })
    unfolding current_revision retained_from_revision retain
    pruned-Shows_self l h b = record {
      counted =
          rw pruned-row
            (let own : current_revision s u ≡ state.revision = rw e refl in sym own ∙ h.counted);
      kept_from = rw pruned-row (
          let own : retained_from_revision s u ≡ state.retained_from = rw e refl in
          ap (λ n. max n from) (sym own ∙ h.kept_from));
      kept =
          pruned-rows
          ∙ rw h.kept (
              select-select (λ x. leb from x.0) (is_kept l) _ (λ x. ground arith)
                (numbered 1 l.entries));
      bounded = ground (arith, h.bounded, h.counted);
    }

    pub pruned-Shows_other :
        (v : ℕ) (l : Log) → u == v ≡ false → Shows s v l → Shows (pruned s u from at state) v l
    unfolding current_revision retained_from_revision
    pruned-Shows_other v l ne h = record {
      counted = rw (pruned-row_other v ne) h.counted;
      kept_from = rw (pruned-row_other v ne) h.kept_from;
      kept =
          ap (map stamp) (
            select-delete_other (event_of v) (λ r. event_of u r && ltb r.revision from)
              (λ r g. ground arith) s.events)
          ∙ h.kept;
      bounded = h.bounded;
    }
