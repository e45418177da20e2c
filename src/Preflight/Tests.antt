-- ===== src/Preflight/Tests.antt =====
-- Examples of the readiness gate: a first start, a check that passes, one that fails, a refusal.
use frostvault.Prelude.{
  ◌+◌, ◌<◌, ◌≡◌, refl, true, false, none, some, List, [], ◌∷◌, if◌then◌else◌, arith, not, ◌&&◌,
  ◌||◌, ltb, leb,
}
use frostvault.Preflight.{
  Gate, World, ready, passed, failed, reprobe_seconds, snapshot, is_blocked, probe_due,
  dispatch_ready, remediation_of, holds, must_probe, check, invalidate, seconds,
}
use frostvault.Preflight.Process.{
  Process, Step, checks, sets, clears, blocks, restarts, others_write,
}
use frostvault.Preflight.Authority.{failed_backs_off, invalidate_fences}

abbrev open_gate : Gate
open_gate = record {
  status = ready;
  remediation = none;
  failure_count = 0;
  next_probe_at = some 70000000;
}

abbrev started : World
started = record { row = some open_gate; is_ready_pid = false }

abbrev working : World
working = record { row = some open_gate; is_ready_pid = true }

abbrev process : Process
process = record { world = started; pending = [] }

abbrev calls : List Step
calls =
    others_write (some open_gate)
    ∷ checks started true 1 1 failed 2 true
    ∷ clears
    ∷ sets 0
    ∷ blocks 3 true
    ∷ restarts
    ∷ []

must_start : must_probe started 20000000 ≡ true
unfolding must_probe snapshot
must_start = refl

fails : holds (remediation_of failed) ≡ true
unfolding remediation_of holds
fails = refl

in_time : 22000000 < 21000000 + seconds (reprobe_seconds ((snapshot started.row).failure_count + 1))
unfolding reprobe_seconds snapshot
in_time = omega arith

failed_backs_off_example :
    (is_blocked
        (snapshot
          (check (some open_gate) true started 20000000 20000000 failed 21000000 true).0.row).status
      ≡ true)
    × (check
          (check (some open_gate) true started 20000000 20000000 failed 21000000 true).0.row
          true
          (check (some open_gate) true started 20000000 20000000 failed 21000000 true).0
          22000000
          22000000
          passed
          23000000
          true
        ≡ (
          (check (some open_gate) true started 20000000 20000000 failed 21000000 true).0,
          (check (some open_gate) true started 20000000 20000000 failed 21000000 true).0.row,
        ))
failed_backs_off_example =
    failed_backs_off (some open_gate) started 20000000 20000000 21000000 must_start must_start
      failed true 22000000 22000000 passed 23000000 true fails (omega arith) in_time

invalidate_fences_example :
    (dispatch_ready true (snapshot (invalidate working 30000000 true).row) 30000001 ≡ false)
    × (is_blocked (snapshot (invalidate working 30000000 true).row).status ≡ true)
    × (probe_due (snapshot (invalidate working 30000000 true).row) 30000001 ≡ (
        if is_blocked (snapshot working.row).status
        then probe_due (snapshot working.row) 30000001
        else not (ltb 30000001 30000000 && leb 30000000 (30000001 + seconds 60))))
    × (probe_due (snapshot (invalidate working 30000000 true).row) 30000000 ≡ (
        not (is_blocked (snapshot working.row).status)
        || probe_due (snapshot working.row) 30000000))
    × ((snapshot (invalidate working 30000000 true).row).failure_count
        ≡ (snapshot working.row).failure_count)
invalidate_fences_example = invalidate_fences working 30000000 true 30000001
