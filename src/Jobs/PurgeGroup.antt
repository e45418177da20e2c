-- ===== src/Jobs/PurgeGroup.antt =====
-- A cloud-purge group is leased whole: what its claim (app/catalog.py) leaves for later calls.
use frostvault.Prelude.{
  ℕ, String, str_eq_iff, Bool, true, false, ◌&&◌, ◌≡◌, ◌≢◌, ◌<◌, refl, sym, ap, ◌∙◌, Option, none,
  some, List, [], ◌∷◌, map, ◌==◌, if◌then◌else◌, arith, opt_map,
}
use frostvault.Prelude.Table.{fetch_one, update, select}
use frostvault.Prelude.Table.Reads.{fetch_one-update, select-update, all-map, all-map_fails}
use frostvault.Prelude.Table.Sort.{sorted}
use frostvault.Jobs.{Job, is_terminal, is_cleaning, is_purge, truthy, text_is}
use frostvault.Jobs.Claimable.{same_group, requested_before}
use frostvault.Jobs.Claims.{
  Lease, ok, is_member, is_active_member, find_lead, group_is_free, take_group_lease, claim_members,
  claim_purge_group, claim_is_available, purge_job_is_runnable, owns, load_claimed_purge_group,
}

same_group_eq : (a b : Option String) → same_group a b ≡ true → a ≡ b
unfolding same_group
same_group_eq none b h = ground arith
same_group_eq (some g) none h = ground arith
same_group_eq (some g) (some h) e = ground (arith, str_eq_iff g h)

-- Leads of one group have the same members.
is_active_member-same :
    (a b r : Job)
    → a.vault_id ≡ b.vault_id
    → a.group_id ≡ b.group_id
    → is_active_member a r ≡ is_active_member b r
unfolding is_active_member is_member
is_active_member-same a b r v g = ground arith

lead_found :
    (jobs : List Job) (id : ℕ) (lead : Job)
    → find_lead jobs id ≡ some lead
    → (fetch_one (λ j. j.id == id && is_purge j.action) jobs ≡ some lead)
      × (truthy lead.group_id ≡ true)
unfolding find_lead
lead_found jobs id lead f = ground arith

lead_of :
    (jobs : List Job) (id : ℕ) (lead : Job)
    → fetch_one (λ j. j.id == id && is_purge j.action) jobs ≡ some lead
    → truthy lead.group_id ≡ true
    → find_lead jobs id ≡ some lead
unfolding find_lead
lead_of jobs id lead f g = ground arith

module _ (lead : Job) (lease : Lease) (jobs : List Job) where
  -- The table after the group's update.
  leased : List Job
  leased = update (is_active_member lead) (take_group_lease lease) jobs

  stays_member :
      (other r : Job)
      → other.vault_id ≡ lead.vault_id
      → other.group_id ≡ lead.group_id
      → is_active_member lead r ≡ true
      → is_active_member other (take_group_lease lease r) ≡ true
  unfolding is_active_member is_member take_group_lease is_terminal
  stays_member other r v g h = ground arith

  members-leased :
      (other : Job)
      → other.vault_id ≡ lead.vault_id
      → other.group_id ≡ lead.group_id
      → select (is_active_member other) leased
        ≡ map (take_group_lease lease) (select (is_active_member lead) jobs)
  unfolding leased
  members-leased other v g =
      select-update (is_active_member lead) (is_active_member other) (take_group_lease lease)
        (λ r h. stays_member other r v g h) (λ r h. is_active_member-same other lead r v g ∙ h) jobs

  owned :
      (now : ℕ) (r : Job)
      → now < lease.expires_at
      → is_cleaning (take_group_lease lease r).status
          && owns lease.token now (take_group_lease lease r)
        ≡ true
  unfolding take_group_lease is_cleaning owns text_is
  owned now r lt = ground (arith, str_eq_iff lease.token lease.token)

  unavailable :
      (now : ℕ) (r : Job)
      → now < lease.expires_at
      → lease.token ≢ ""
      → claim_is_available now (take_group_lease lease r)
          && purge_job_is_runnable now (take_group_lease lease r)
        ≡ false
  unfolding take_group_lease claim_is_available truthy
  unavailable now r lt n = ground (arith, str_eq_iff lease.token "")

  -- While the lease lasts the group is not free for any lead of it.
  leased_not_free :
      (other : Job) (now now' : ℕ)
      → other.vault_id ≡ lead.vault_id
      → other.group_id ≡ lead.group_id
      → lease.token ≢ ""
      → group_is_free now jobs lead ≡ true
      → now' < lease.expires_at
      → group_is_free now' leased other ≡ false
  unfolding group_is_free
  leased_not_free other now now' v g n free lt = rw (members-leased other v g) (
      ground (
        arith,
        all-map_fails (take_group_lease lease)
            (λ (j : Job). claim_is_available now' j && purge_job_is_runnable now' j)
            (λ r. unavailable now' r lt n) (select (is_active_member lead) jobs),
      ))

  -- The lead's row after the update is a lead of the same group.
  find_lead-leased :
      (id : ℕ)
      → find_lead jobs id ≡ some lead
      → (other : Job) × (find_lead leased id ≡ some other)
        × (other.vault_id ≡ lead.vault_id)
        × (other.group_id ≡ lead.group_id)
  unfolding leased take_group_lease
  find_lead-leased id f =
      let (found, grouped) = lead_found jobs id lead f in
      let other : Job = if is_active_member lead lead then take_group_lease lease lead else lead in
      let same : other.group_id ≡ lead.group_id = ground arith in
      (
        other,
        lead_of leased id other
            (fetch_one-update (λ j. j.id == id && is_purge j.action) (is_active_member lead)
                (take_group_lease lease) (λ r h. refl) jobs
              ∙ ap (opt_map (λ r. if is_active_member lead r then take_group_lease lease r else r))
                  found)
            (rw same grouped),
        ground arith,
        same,
      )

  -- The Jobs that a successful claim returns are those that its worker can load.
  load-leased :
      (id now : ℕ)
      → find_lead jobs id ≡ some lead
      → now < lease.expires_at
      → load_claimed_purge_group leased id lease.token now
        ≡ sorted requested_before
            (map (take_group_lease lease) (select (is_active_member lead) jobs))
  unfolding load_claimed_purge_group
  load-leased id now f lt =
      let (other, found, v, g) = find_lead-leased id f in
      rw (found, load_claimed_purge_group)
        (rw (members-leased other v g) (
          ground (
            arith,
            all-map (take_group_lease lease)
                (λ (j : Job). is_cleaning j.status && owns lease.token now j) (λ r. owned now r lt)
                (select (is_active_member lead) jobs),
          )))

  -- What a claim that returns a Job has done.
  claimed_parts :
      (id now : ℕ) (acquired : Bool) {t : List Job} {c : Job} {cs : List Job}
      → find_lead jobs id ≡ some lead
      → claim_purge_group acquired jobs id lease now ≡ ok (t, c ∷ cs)
      → (group_is_free now jobs lead ≡ true)
        × (leased ≡ t)
        × (sorted requested_before
              (map (take_group_lease lease) (select (is_active_member lead) jobs))
            ≡ c ∷ cs)
        × (lease.token ≢ "")
  unfolding claim_purge_group claim_members leased
  claimed_parts id now acquired f e = ground (arith, str_eq_iff lease.token "")

-- A group that is not free gives no Job.
claim-not_free :
    (acquired : Bool) (jobs : List Job) (id : ℕ) (lead : Job) (lease : Lease) (now : ℕ)
    → lease.token ≢ ""
    → find_lead jobs id ≡ some lead
    → group_is_free now jobs lead ≡ false
    → claim_purge_group acquired jobs id lease now ≡ ok (jobs, [])
unfolding claim_purge_group claim_members
claim-not_free acquired jobs id lead lease now n f h = ground (arith, str_eq_iff lease.token "")

-- When a claim of a purge group returns Jobs, then at any time before the lease expires
-- load_claimed_purge_group gives its worker the same Jobs, and a claim under a nonempty token by
-- any lead of the group in that table returns no Job and changes nothing.
pub purge_group_exclusive :
    (jobs : List Job) (id : ℕ) (lead : Job) (lease : Lease) (now now' : ℕ)
    (acquired acquired' : Bool) {t : List Job} {c : Job} {cs : List Job} (id' : ℕ) (other : Job)
    (rival : Lease)
    → find_lead jobs id ≡ some lead
    → claim_purge_group acquired jobs id lease now ≡ ok (t, c ∷ cs)
    → now' < lease.expires_at
    → find_lead t id' ≡ some other
    → is_member lead other ≡ true
    → rival.token ≢ ""
    → (load_claimed_purge_group t id lease.token now' ≡ c ∷ cs)
      × (claim_purge_group acquired' t id' rival now' ≡ ok (t, []))
unfolding is_member
purge_group_exclusive jobs id lead lease now now' acquired acquired' {t} {c} {cs} id' other rival f
      e lt f' m n =
    let (free, same, listed, named) = claimed_parts lead lease jobs id now acquired f e in
    let v : other.vault_id ≡ lead.vault_id = ground arith in
    let g : other.group_id ≡ lead.group_id =
      same_group_eq other.group_id lead.group_id (ground arith) in
    (
      ap (λ u. load_claimed_purge_group u id lease.token now') (sym same)
          ∙ load-leased lead lease jobs id now' f lt
          ∙ listed,
      claim-not_free acquired' t id' other rival now' n f' (
          ap (λ u. group_is_free now' u other) (sym same)
          ∙ leased_not_free lead lease jobs other now now' v g named free lt),
    )
