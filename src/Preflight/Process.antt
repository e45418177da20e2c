-- ===== src/Preflight/Process.antt =====
-- The threads of a process around its readiness (app/services/cloud_preflight_gate.py): sequences of the
-- parts of `check` and `invalidate`.
use frostvault.Prelude.{
  ℕ, zero, suc, Bool, true, false, not, ◌&&◌, ◌≡◌, ◌⊎◌, refl, Option, none, some, List, [], ◌∷◌,
  All, all, coalesce, arith,
}
use frostvault.Preflight.{
  World, Gate, Probe, check_locked, probe_and_publish, set_ready_pid, clear_ready_pid, block_row,
  remediation_of, holds,
}

-- A process: the world that it sees, and the verdicts of its checks whose last lines are still to come.
pub record Process : Type 0 where
  pub world : World
  pub pending : List Bool

-- What happens: the parts of the calls that the threads of the process make, in any order, a restart,
-- and other processes' commits, which may write any row. `sets n` ends the check of the pending verdict
-- `n`.
pub data Step : Type 0 where
  checks : World → Bool → ℕ → ℕ → Probe → ℕ → Bool → Step
  sets : ℕ → Step
  clears : Step
  blocks : ℕ → Bool → Step
  restarts : Step
  others_write : Option Gate → Step

unfoldable pub add_verdict : Option Bool → List Bool → List Bool
add_verdict none pending = pending
add_verdict (some verdict) pending = verdict ∷ pending

unfoldable pub verdict_at : ℕ → List Bool → Option Bool
verdict_at n [] = none
verdict_at zero (verdict ∷ pending) = some verdict
verdict_at (suc n) (verdict ∷ pending) = verdict_at n pending

unfoldable pub remove_at : ℕ → List Bool → List Bool
remove_at n [] = []
remove_at zero (verdict ∷ pending) = pending
remove_at (suc n) (verdict ∷ pending) = verdict ∷ remove_at n pending

unfoldable pub run_step : Process → Step → Process
run_step p (checks seen acquired now locked_at probe completed commits) =
    let end = check_locked seen acquired p.world now locked_at probe completed commits in
    record { world = record p.world { row = end.row }; pending = add_verdict end.verdict p.pending }
run_step p (sets n) = record {
  world = set_ready_pid p.world (verdict_at n p.pending);
  pending = remove_at n p.pending;
}
run_step p clears = record p { world = clear_ready_pid p.world }
run_step p (blocks stamp commits) = record p { world = block_row p.world stamp commits }
run_step p restarts = record { world = record p.world { is_ready_pid = false }; pending = [] }
run_step p (others_write row) = record p { world = record p.world { row = row } }

unfoldable pub run_steps : Process → List Step → Process
run_steps p [] = p
run_steps p (s ∷ ss) = run_steps (run_step p s) ss

-- The step is no probe of this process that passes and is committed.
abbrev pub NoPass : Step → Type 0
NoPass (checks seen acquired now locked_at probe completed commits) =
    (holds (remediation_of probe) ≡ true) ⊎ (commits ≡ false)
NoPass _ = Unit {0}

-- The process is not validated, and no check that passed is about to validate it.
abbrev pub is_unready : Process → Bool
is_unready p = not p.world.is_ready_pid && all not p.pending

verdict_at-unready :
    (n : ℕ) (pending : List Bool)
    → all not pending ≡ true
    → coalesce (verdict_at n pending) false ≡ false
unfolding verdict_at
verdict_at-unready n [] h = refl
verdict_at-unready zero (verdict ∷ pending) h = ground arith
verdict_at-unready (suc n) (verdict ∷ pending) h = verdict_at-unready n pending (ground arith)

remove_at-unready :
    (n : ℕ) (pending : List Bool) → all not pending ≡ true → all not (remove_at n pending) ≡ true
unfolding remove_at
remove_at-unready n [] h = h
remove_at-unready zero (verdict ∷ pending) h = ground arith
remove_at-unready (suc n) (verdict ∷ pending) h =
    let rest = remove_at-unready n pending (ground arith) in ground arith

-- A check whose probe fails or is not committed has no verdict, or that the process is not ready.
check_locked-unready :
    (seen w : World) (acquired : Bool) (now locked_at : ℕ) (probe : Probe) (completed : ℕ)
    (commits : Bool)
    → NoPass (checks seen acquired now locked_at probe completed commits)
    → coalesce (check_locked seen acquired w now locked_at probe completed commits).verdict false
      ≡ false
unfolding check_locked probe_and_publish
check_locked-unready seen w acquired now locked_at probe completed true n = ground arith
check_locked-unready seen w acquired now locked_at probe completed false n = ground arith

add_verdict-unready :
    (verdict : Option Bool) (pending : List Bool)
    → coalesce verdict false ≡ false
    → all not pending ≡ true
    → all not (add_verdict verdict pending) ≡ true
unfolding add_verdict
add_verdict-unready none pending v h = h
add_verdict-unready (some verdict) pending v h = ground arith

add_verdict-ready :
    (p : Process) (verdict : Option Bool)
    → coalesce verdict false ≡ false
    → is_unready p ≡ true
    → not p.world.is_ready_pid && all not (add_verdict verdict p.pending) ≡ true
add_verdict-ready p verdict v h =
    let rest = add_verdict-unready verdict p.pending v (ground arith) in ground arith

unready_step :
    (p : Process) (s : Step) → NoPass s → is_unready p ≡ true → is_unready (run_step p s) ≡ true
unfolding run_step set_ready_pid clear_ready_pid block_row
unready_step p (checks seen acquired now locked_at probe completed commits) n h =
    let v = check_locked-unready seen p.world acquired now locked_at probe completed commits n in
    add_verdict-ready p _ v h
unready_step p (sets k) n h =
    let v = verdict_at-unready k p.pending (ground arith) in
    let rest = remove_at-unready k p.pending (ground arith) in ground arith
unready_step p clears n h = ground arith
unready_step p (blocks stamp commits) n h = h
unready_step p restarts n h = refl
unready_step p (others_write row) n h = h

pub unready_steps :
    (p : Process) (ss : List Step)
    → All NoPass ss
    → is_unready p ≡ true
    → is_unready (run_steps p ss) ≡ true
unfolding run_steps
unready_steps p [] n h = h
unready_steps p (s ∷ ss) n h = unready_steps (run_step p s) ss n.1 (unready_step p s n.0 h)
