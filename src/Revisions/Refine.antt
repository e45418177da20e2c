-- ===== src/Revisions/Refine.antt =====
-- The event store of app/services/catalog_events.py implements the logs of its Vaults.
use frostvault.Prelude.{
  ℕ, true, false, ◌&&◌, ◌≡◌, refl, sym, ap, ◌∙◌, subst, none, List, [], ◌∷◌, ◌++◌, ltb, ◌==◌,
  length, max, arith, Bool-cases, Option-cases, inl, inr, any,
}
use frostvault.Prelude.Table.{select, fetch_one}
use frostvault.Revisions.{
  Entry, Store, lock_vault, append_event, revision_row, current_revision, retained_from_revision,
}
use frostvault.Revisions.Spec.{
  Log, empty_log, Op, append, prune, run_op, run_ops, exists_in, log_op, log_ops, Shows,
}
use frostvault.Revisions.Append.{
  appended, append_locked-ok, appended-Shows_self, appended-Shows_other,
}
use frostvault.Revisions.Prune.{
  may_prune, prune_refused, prune_unwritten, prune_written, pruned-Shows_self, pruned-Shows_other,
}

append_refused :
    (s : Store) (u : ℕ) (entry : Entry)
    → exists_in s.vaults u ≡ false
    → run_op s (append u entry) ≡ s
unfolding run_op append_event lock_vault
append_refused s u entry h = ground arith

append_written :
    (s : Store) (u : ℕ) (entry : Entry)
    → exists_in s.vaults u ≡ true
    → run_op s (append u entry) ≡ appended s u entry
unfolding run_op append_event lock_vault
append_written s u entry h =
    let positive : ltb 0 u ≡ true = ground arith in
    let known : any (λ v. v == u) s.vaults ≡ true = ground arith in
    rw positive (rw known (rw (append_locked-ok s u entry).1 refl))

append_meant :
    (vaults : List ℕ) (v : ℕ) (l : Log) (u : ℕ) (entry : Entry)
    → u == v ≡ true
    → exists_in vaults u ≡ true
    → log_op vaults v l (append u entry) ≡ record l { entries = l.entries ++ (entry ∷ []) }
unfolding log_op
append_meant vaults v l u entry e f = rw e (rw f refl)

append_not_meant :
    (vaults : List ℕ) (v : ℕ) (l : Log) (u : ℕ) (entry : Entry)
    → u == v && exists_in vaults u ≡ false
    → log_op vaults v l (append u entry) ≡ l
unfolding log_op
append_not_meant vaults v l u entry e = rw e refl

append-Shows :
    (s : Store) (v : ℕ) (l : Log) (u : ℕ) (entry : Entry)
    → Shows s v l
    → Shows (run_op s (append u entry)) v (log_op s.vaults v l (append u entry))
append-Shows s v l u entry h = elim (Bool-cases (exists_in s.vaults u)) [
  | inr e ↦
      rw (append_not_meant s.vaults v l u entry (ground (arith, e)))
        (rw (append_refused s u entry e) h)
  | inl e ↦ rw (append_written s u entry e) (elim (Bool-cases (u == v)) [
    | inr q ↦
        rw (append_not_meant s.vaults v l u entry (ground (arith, q)))
          (appended-Shows_other s u entry v l q h)
    | inl q ↦
        let same : u ≡ v = ground arith in
        rw (append_meant s.vaults v l u entry q e) (
          subst
            (λ w. Shows (appended s u entry) w (record l { entries = l.entries ++ (entry ∷ []) }))
            same (appended-Shows_self s u entry l (subst (λ w. Shows s w l) (sym same) h)))
  ])
]

prune_meant :
    (s : Store) (v : ℕ) (l : Log) (u from at : ℕ)
    → u == v ≡ true
    → current_revision s u ≡ length l.entries
    → may_prune s u from ≡ true
    → log_op s.vaults v l (prune u from at) ≡ record l { retained_from = max l.retained_from from }
unfolding log_op
prune_meant s v l u from at e c m = ground arith

prune_not_meant :
    (s : Store) (v : ℕ) (l : Log) (u from at : ℕ)
    → Shows s v l
    → u == v && may_prune s u from ≡ false
    → log_op s.vaults v l (prune u from at) ≡ l
unfolding log_op
prune_not_meant s v l u from at h e = elim (Bool-cases (u == v)) [
  | inr q ↦ rw q refl
  | inl q ↦
      let same : u ≡ v = ground arith in
      let counted : current_revision s u ≡ length l.entries =
        subst (λ w. current_revision s w ≡ length l.entries) (sym same) h.counted in
      ground arith
]

-- A prune of a Vault without a row asks for what is retained anyway.
prune_nothing :
    (s : Store) (u from : ℕ) (l : Log)
    → Shows s u l
    → revision_row s u ≡ none
    → may_prune s u from ≡ true
    → record l { retained_from = max l.retained_from from } ≡ l
unfolding current_revision retained_from_revision
prune_nothing s u from l h e m =
    let none_counted : current_revision s u ≡ 0 = rw e refl in
    let none_kept : retained_from_revision s u ≡ 1 = rw e refl in
    let first : 1 ≡ l.retained_from = sym none_kept ∙ h.kept_from in
    ap (λ n. record l { retained_from = n }) (ground arith)

prune-Shows :
    (s : Store) (u : ℕ) (l : Log) (from at : ℕ)
    → Shows s u l
    → may_prune s u from ≡ true
    → Shows (run_op s (prune u from at)) u (record l { retained_from = max l.retained_from from })
prune-Shows s u l from at h e = elim (Option-cases (revision_row s u)) [
  | inl f ↦ rw (prune_unwritten s u from at f) (rw (prune_nothing s u from l h f e) h)
  | inr (state, f) ↦
      rw (prune_written s u from at state f e)
        (pruned-Shows_self s u from at state f l h (ground (arith, e)))
]

prune-Shows_other :
    (s : Store) (v : ℕ) (l : Log) (u from at : ℕ)
    → Shows s v l
    → u == v && may_prune s u from ≡ false
    → Shows (run_op s (prune u from at)) v l
prune-Shows_other s v l u from at h e = elim (Bool-cases (may_prune s u from)) [
  | inr m ↦ rw (prune_refused s u from at m) h
  | inl m ↦ elim (Option-cases (revision_row s u)) [
    | inl f ↦ rw (prune_unwritten s u from at f) h
    | inr (state, f) ↦
        rw (prune_written s u from at state f m)
          (pruned-Shows_other s u from at state f v l (ground (arith, e, m)) h)
  ]
]

-- A call leaves the tables showing what it means for the Vault's log.
run_op-Shows :
    (s : Store) (v : ℕ) (l : Log) (o : Op)
    → Shows s v l
    → Shows (run_op s o) v (log_op s.vaults v l o)
run_op-Shows s v l (append u entry) h = append-Shows s v l u entry h
run_op-Shows s v l (prune u from at) h = elim (Bool-cases (u == v && may_prune s u from)) [
  | inr e ↦ rw (prune_not_meant s v l u from at h e) (prune-Shows_other s v l u from at h e)
  | inl e ↦
      let same : u ≡ v = ground arith in
      let h' : Shows s u l = subst (λ w. Shows s w l) (sym same) h in
      rw (prune_meant s v l u from at (ground arith) h'.counted (ground arith)) (
        subst
          (λ w.
            Shows (run_op s (prune u from at)) w
              (record l { retained_from = max l.retained_from from }))
          same (prune-Shows s u l from at h' (ground arith)))
]

run_op-vaults : (s : Store) (o : Op) → (run_op s o).vaults ≡ s.vaults
run_op-vaults s (append u entry) = elim (Bool-cases (exists_in s.vaults u)) [
  | inl e ↦ rw (append_written s u entry e) refl
  | inr e ↦ rw (append_refused s u entry e) refl
]
run_op-vaults s (prune u from at) = elim (Bool-cases (may_prune s u from)) [
  | inr e ↦ rw (prune_refused s u from at e) refl
  | inl e ↦ elim (Option-cases (revision_row s u)) [
    | inl f ↦ rw (prune_unwritten s u from at f) refl
    | inr (state, f) ↦ rw (prune_written s u from at state f e) refl
  ]
]

pub run_ops-Shows :
    (os : List Op) (s : Store) (v : ℕ) (l : Log)
    → Shows s v l
    → Shows (run_ops s os) v (log_ops s.vaults v l os)
unfolding run_ops log_ops
run_ops-Shows [] s v l h = h
run_ops-Shows (o ∷ os) s v l h =
    subst (λ vs. Shows (run_ops (run_op s o) os) v (log_ops vs v (log_op s.vaults v l o) os))
      (run_op-vaults s o) (run_ops-Shows os (run_op s o) v _ (run_op-Shows s v l o h))

-- Tables without rows show empty logs.
pub empty-Shows :
    (vaults : List ℕ) (last_id v : ℕ)
    → Shows (record { vaults = vaults; revisions = []; events = []; last_id = last_id }) v empty_log
unfolding current_revision retained_from_revision fetch_one select
empty-Shows vaults last_id v = record {
  counted = refl;
  kept_from = refl;
  kept = refl;
  bounded = omega arith;
}
