-- ===== src/Preflight/Authority.antt =====
-- Who may dispatch Jobs to S3 (app/services/cloud_preflight_gate.py): a process that has itself committed
-- a probe that passes, and for less than 60 seconds.
use frostvault.Prelude.{
  ℕ, zero, suc, ◌+◌, ◌-◌, ◌*◌, ◌≤◌, ◌<◌, min, Bool, true, false, ◌&&◌, ◌≡◌, refl, Option, ltb, leb,
  if◌then◌else◌, not, ◌||◌, Option-cases, Bool-cases, inl, inr, arith,
}
use frostvault.Preflight.{
  Gate, World, Probe, passed, check_locked, set_ready_pid, clear_ready_pid, block_row,
  reprobe_seconds, snapshot, is_blocked, probe_due, dispatch_ready, remediation_of, holds, publish,
  must_probe, probe_and_publish, check, invalidate_row, invalidate, seconds,
}
use frostvault.Preflight.Process.{Process}

capped : (n : ℕ) → 5 ≤ n → reprobe_seconds n ≡ 60
unfolding reprobe_seconds
capped n h = let four : min (n - 1) 4 ≡ 4 = omega arith in rw four refl

ladder_top :
    (n : ℕ)
    → 5 ≤ n
    → (5 ≤ reprobe_seconds n)
      × (reprobe_seconds n ≤ 60)
      × (reprobe_seconds (n + 2) ≡ min 60 (2 * reprobe_seconds (n + 1)))
ladder_top n h =
    let here = capped n h in
    let next = capped (n + 1) (omega arith) in
    let later = capped (n + 2) (omega arith) in (omega arith, omega arith, rw (later, next) refl)

-- The back-off is between 5 and 60 seconds, is 5 seconds at the first failure, and each further
-- failure doubles it up to the cap of 60.
reprobe_seconds_ladder :
    (failures : ℕ)
    → (5 ≤ reprobe_seconds failures)
      × (reprobe_seconds failures ≤ 60)
      × (reprobe_seconds 1 ≡ 5)
      × (reprobe_seconds (failures + 2) ≡ min 60 (2 * reprobe_seconds (failures + 1)))
unfolding reprobe_seconds
reprobe_seconds_ladder zero = (omega arith, omega arith, refl, refl)
reprobe_seconds_ladder (suc zero) = (omega arith, omega arith, refl, refl)
reprobe_seconds_ladder (suc (suc zero)) = (omega arith, omega arith, refl, refl)
reprobe_seconds_ladder (suc (suc (suc zero))) = (omega arith, omega arith, refl, refl)
reprobe_seconds_ladder (suc (suc (suc (suc zero)))) = (omega arith, omega arith, refl, refl)
reprobe_seconds_ladder (suc (suc (suc (suc (suc n))))) =
    let (low, high, next) = ladder_top (suc (suc (suc (suc (suc n))))) (omega arith) in
    (low, high, refl, next)

module _ (seen : Option Gate) (w : World) (now locked_at completed : ℕ)
    (first : must_probe (record w { row = seen }) now ≡ true)
    (again : must_probe w locked_at ≡ true) where
  probed :
      (probe : Probe) (commits : Bool)
      → check seen true w now locked_at probe completed commits ≡ (
        set_ready_pid
            (record w { row = (probe_and_publish w probe completed commits).row })
            (probe_and_publish w probe completed commits).verdict,
        (probe_and_publish w probe completed commits).answer,
      )
  unfolding check check_locked
  probed probe commits = rw (first, again)

  -- After a check that has to probe, gets the lock, passes and is committed, this process
  -- dispatches from the probe's end on and for less than 60 seconds, and at no other time.
  passed_window :
      (t : ℕ)
      → let end = (check seen true w now locked_at passed completed true).0 in
        dispatch_ready end.is_ready_pid (snapshot end.row) t
        ≡ (leb completed t && ltb t (completed + seconds 60))
  unfolding dispatch_ready probe_due snapshot probe_and_publish publish remediation_of holds
      set_ready_pid
  passed_window t = rw (probed passed true) (ground arith)

  -- After a check that has to probe, gets the lock, fails and is committed, the gate is blocked,
  -- and until the back-off of the failures so far has passed every check answers that row and
  -- changes nothing, whatever its probe would do.
  pub failed_backs_off :
      (probe : Probe) (acquired : Bool) (t t' : ℕ) (probe' : Probe) (completed' : ℕ)
      (commits' : Bool)
      → holds (remediation_of probe) ≡ true
      → completed ≤ t
      → t < completed + seconds (reprobe_seconds ((snapshot w.row).failure_count + 1))
      → let end = (check seen true w now locked_at probe completed true).0 in
        (is_blocked (snapshot end.row).status ≡ true)
        × (check end.row acquired end t t' probe' completed' commits' ≡ (end, end.row))
  failed_backs_off probe acquired t t' probe' completed' commits' failing from until =
      let below = (reprobe_seconds_ladder ((snapshot w.row).failure_count + 1)).1 in
      rw (probed probe true) (
        unfold probe_and_publish in
        unfold publish in
        unfold set_ready_pid in
        unfold check in
        unfold check_locked in
        unfold must_probe in unfold snapshot in unfold probe_due in rw failing (ground arith))

-- A committed invalidation blocks the gate and stops the dispatch of every process, at any time. A gate
-- that was blocked keeps its back-off: at every time a probe is due just when it was. For any other a
-- probe is due from the invalidation on, and for a clock that is more than 60 seconds behind it. The count
-- of failures stays.
pub invalidate_fences :
    (w : World) (stamp : ℕ) (is_ready_pid : Bool) (t : ℕ)
    → let old = snapshot w.row in
      let end = invalidate w stamp true in
      (dispatch_ready is_ready_pid (snapshot end.row) t ≡ false)
      × (is_blocked (snapshot end.row).status ≡ true)
      × (probe_due (snapshot end.row) t ≡ (
          if is_blocked old.status
          then probe_due old t
          else not (ltb t stamp && leb stamp (t + seconds 60))))
      × (probe_due (snapshot end.row) stamp ≡ (not (is_blocked old.status) || probe_due old stamp))
      × ((snapshot end.row).failure_count ≡ old.failure_count)
unfolding invalidate clear_ready_pid block_row invalidate_row dispatch_ready snapshot probe_due
invalidate_fences w stamp is_ready_pid t = elim (Option-cases w.row) [
  | inl e ↦ rw e (ground arith)
  | inr (row, e) ↦ elim (Bool-cases (is_blocked row.status)) [
    | inl b ↦ rw (e, b) (ground arith)
    | inr b ↦ rw (e, b) (ground arith)
  ]
]
