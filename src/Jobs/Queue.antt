-- ===== src/Jobs/Queue.antt =====
-- What `list_claimable_jobs` and `claimable_queue_depth` of app/catalog.py agree on, and the delays of
-- a retry (app/storage.py, app/services/upload_retry.py).
use frostvault.Prelude.{
  ℕ, zero, suc, ◌+◌, ◌*◌, ◌%◌, ◌≤◌, ◌<◌, min, Bool, true, ◌&&◌, ◌≡◌, refl, ap, ◌∙◌, Option, List,
  arith, length, All, coalesce, two_pow-pos, two_pow-suc,
}
use frostvault.Prelude.Table.{select}
use frostvault.Prelude.Table.Reads.{select_ext, All-select, length-take, All-take}
use frostvault.Prelude.Table.Sort.{sorted, All-sorted, length-sorted}
use frostvault.Jobs.{Job, Vault}
use frostvault.Jobs.Claimable.{
  is_claimable, joins_vault, vault_admits, is_counted, counts_in, requested_before, runnable_jobs,
  list_claimable_jobs, claimable_queue_depth,
}
use frostvault.Jobs.Transitions.{upload_retry_delay_seconds, retry_after_at}

-- The two statements write the vault's clauses each for itself.
joins_vault-is_counted :
    (vaults : List Vault) (j : Job) → joins_vault vaults j ≡ is_counted vaults j
unfolding joins_vault vault_admits is_counted counts_in
joins_vault-is_counted vaults j = refl

-- A scheduler's batch holds only Jobs that the metric of the queue's depth counts, and claimable ones, and
-- its length is that depth, capped by the limit.
pub list_claimable-queue_depth :
    (p : ℕ → Option Bool) (vaults : List Vault) (jobs : List Job) (now due limit : ℕ)
    → let batch = list_claimable_jobs p vaults jobs now due limit in
      (All (λ j. (is_counted vaults j ≡ true) × (is_claimable p now due jobs j ≡ true)) batch)
      × (length batch ≡ min limit (claimable_queue_depth p vaults jobs now due))
unfolding list_claimable_jobs claimable_queue_depth runnable_jobs
list_claimable-queue_depth p vaults jobs now due limit =
    let q = λ (j : Job). joins_vault vaults j && is_claimable p now due jobs j in
    let r = λ (j : Job). is_counted vaults j && is_claimable p now due jobs j in
    let P = λ (j : Job). (is_counted vaults j ≡ true) × (is_claimable p now due jobs j ≡ true) in
    let same : select q jobs ≡ select r jobs =
      select_ext q r (λ j. ground (arith, joins_vault-is_counted vaults j)) jobs in
    (
      All-take P limit _ (
          All-sorted requested_before P _
            (All-select P q (λ j h. ground (arith, joins_vault-is_counted vaults j)) jobs)),
      length-take limit (sorted requested_before (select q jobs))
          ∙ ap (min limit) (length-sorted requested_before (select q jobs) ∙ ap length same),
    )

-- The delay of an upload's retry lies between two seconds and five minutes, and never falls with the attempts.
upload_retry_delay_bounds :
    (n : ℕ)
    → (2 ≤ upload_retry_delay_seconds n)
      × (upload_retry_delay_seconds n ≤ 300)
      × (upload_retry_delay_seconds n ≤ upload_retry_delay_seconds (suc n))
unfolding upload_retry_delay_seconds
upload_retry_delay_bounds zero = ground arith
upload_retry_delay_bounds (suc n) = ground (arith, two_pow-pos n, two_pow-suc n)

jitter-le : (d r : ℕ) → r < 1000 → d * 200 * r ≤ d * 200000
jitter-le d r h = grind arith

-- A retry is due at least the delay after now, and at most a fifth of the delay later than that.
pub retry_after_bounds :
    (now : ℕ) (delay_seconds : Option ℕ) (retry_count draw : ℕ)
    → let delay = coalesce delay_seconds (upload_retry_delay_seconds retry_count) * 1000000 in
      (now + delay ≤ retry_after_at now delay_seconds retry_count draw)
      × (5 * retry_after_at now delay_seconds retry_count draw ≤ 5 * now + 6 * delay)
unfolding retry_after_at
retry_after_bounds now delay_seconds retry_count draw =
    let d = coalesce delay_seconds (upload_retry_delay_seconds retry_count) in
    let small : draw % 1000 < 1000 = omega arith in omega (arith, jitter-le d (draw % 1000) small)
