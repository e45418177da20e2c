-- ===== src/Scheduler.antt =====
-- app/services/job_scheduler.py: the selection of Jobs that gives each Vault its turn.
pub mod Turns
pub mod Filing
pub mod Rounds
pub mod Fair
mod Tests
use frostvault.Prelude.{
  ℕ, zero, suc, Bool, true, false, not, ◌&&◌, ◌||◌, ◌==◌, List, [], ◌∷◌, ◌++◌, ltb, leb,
  if◌then◌else◌, any, length,
}
use frostvault.Prelude.Table.{delete}
use frostvault.Prelude.Table.Sort.{sorted}
use frostvault.Jobs.{Job}
use frostvault.Jobs.Claimable.{requested_before}

-- `by_vault`: the keys in the order of their insertion, and the queue of each; a Vault without a key
-- has no queue.
pub record ByVault : Type 0 where
  pub keys : List ℕ
  pub queue : ℕ → List Job

abbrev pub no_vaults : ByVault
no_vaults = record { keys = []; queue = λ v. [] }

abbrev pub is_empty {ℓ} : {A : Type ℓ} → List A → Bool
is_empty [] = true
is_empty (x ∷ xs) = false

abbrev pub contains : ℕ → List ℕ → Bool
contains v vs = any (λ u. u == v) vs

-- `by_vault[item_vault_id(job)].append(job)`.
unfoldable pub push : ByVault → Job → ByVault
push b j = record {
  keys = if contains j.vault_id b.keys then b.keys else b.keys ++ (j.vault_id ∷ []);
  queue = λ u. if u == j.vault_id then b.queue u ++ (j ∷ []) else b.queue u;
}

unfoldable pub push_all : ByVault → List Job → ByVault
push_all b [] = b
push_all b (j ∷ js) = push_all (push b j) js

-- The order of Vaults by their next Job, then by their id; a key's queue is not empty.
unfoldable pub heads_before : List Job → List Job → ℕ → ℕ → Bool
heads_before [] q v w = true
heads_before (a ∷ p) [] v w = true
heads_before (a ∷ p) (b ∷ q) v w =
    ltb a.requested_at b.requested_at
    || (a.requested_at == b.requested_at && (ltb a.id b.id || (a.id == b.id && leb v w)))

unfoldable pub vault_order : ByVault → List ℕ
vault_order b = sorted (λ v w. heads_before (b.queue v) (b.queue w) v w) b.keys

-- One pass over the Vaults.
pub record Pass : Type 0 where
  pub selected : List Job
  pub by_vault : ByVault
  pub next_order : List ℕ
  pub progressed : Bool

-- The queue of `v` after `popleft`, with its key gone if it is empty.
unfoldable pub set_queue : ℕ → List Job → ByVault → ByVault
set_queue v rest b = record {
  keys = if is_empty rest then delete (λ u. u == v) b.keys else b.keys;
  queue = λ u. if u == v then rest else b.queue u;
}

unfoldable pub take_turn : ℕ → Job → List Job → Pass → Pass
take_turn v j rest s = record {
  selected = s.selected ++ (j ∷ []);
  by_vault = set_queue v rest s.by_vault;
  next_order = if is_empty rest then s.next_order else s.next_order ++ (v ∷ []);
  progressed = true;
}

-- `by_vault.pop(vault_id, None)`.
abbrev pub drop_vault : ℕ → Pass → Pass
drop_vault v s = record s { by_vault = set_queue v [] s.by_vault }

-- `for vault_id in vault_order`.
unfoldable pub one_round : ℕ → List ℕ → Pass → Pass
one_round limit [] s = s
one_round limit (v ∷ vs) s = elim (s.by_vault.queue v) [
  | [] ↦ one_round limit vs (drop_vault v s)
  | j ∷ rest ↦
      let turn = take_turn v j rest s in
      let more = one_round limit vs turn in if leb limit (length turn.selected) then turn else more
]

abbrev pub new_pass : List Job → ByVault → Pass
new_pass selected b = record {
  selected = selected;
  by_vault = b;
  next_order = [];
  progressed = false;
}

abbrev pub or_sorted : List ℕ → ByVault → List ℕ
or_sorted [] b = vault_order b
or_sorted (v ∷ vs) b = v ∷ vs

-- The `while` loop on fuel, of which each round that progresses spends one.
unfoldable pub rounds : ℕ → ℕ → List ℕ → List Job → ByVault → List Job
rounds zero limit order selected b = selected
rounds (suc n) limit order selected b =
    let s = one_round limit order (new_pass selected b) in
    let more = rounds n limit (or_sorted s.next_order s.by_vault) s.selected s.by_vault in
    if ltb (length selected) limit && not (is_empty b.keys)
    then if s.progressed then more else s.selected
    else selected

unfoldable pub select_fair_jobs : List Job → ℕ → List Job
select_fair_jobs jobs limit =
    let b = push_all no_vaults (sorted requested_before jobs) in
    if leb limit 0 || is_empty jobs then [] else rounds limit limit (vault_order b) [] b
