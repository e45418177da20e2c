-- ===== src/Revisions/Pages.antt =====
-- The pages that `read_events` of app/services/catalog_events.py reads are pages of the Vault's log.
use frostvault.Prelude.{
  ℕ, zero, suc, ◌-◌, ◌<◌, true, ◌&&◌, ◌≡◌, refl, sym, ap, ◌∙◌, List, [], ◌∷◌, leb, ltb, length,
  length-drop, drop, take, map, min, arith, take-take-suc, map-take, length-map,
}
use frostvault.Prelude.Result.{Result, ok, raise}
use frostvault.Prelude.Table.{select}
use frostvault.Prelude.Table.Sort.{sorted, map-sorted}
use frostvault.Prelude.Table.Reads.{map-select_and, length-take, select-select}
use frostvault.Revisions.{
  Entry, Event, Store, Page, Error, event_of, current_revision, retained_from_revision,
  first_is_after, shows_gap, revision_before, read_events, max_event_page_size,
}
use frostvault.Revisions.Spec.{
  Log, empty_log, numbered, Op, run_ops, log_ops, LogPage, stamp, view, skipped, log_page, Shows,
  is_kept,
}
use frostvault.Revisions.Numbered.{select_after, sorted-numbered}
use frostvault.Revisions.Refine.{run_ops-Shows, empty-Shows}

length-numbered : (k : ℕ) (es : List Entry) → length (numbered k es) ≡ length es
length-numbered k [] = refl
length-numbered k (e ∷ es) = ap suc (length-numbered (suc k) es)

-- The rows of the Vault after a revision, in the order of the read.
abbrev pub rows_after : Store → ℕ → ℕ → List Event
rows_after s v after =
    sorted revision_before (select (λ e. event_of v e && ltb after e.revision) s.events)

pub rows_after-numbered :
    (s : Store) (v : ℕ) (l : Log) (after : ℕ)
    → Shows s v l
    → map stamp (rows_after s v after)
      ≡ numbered (suc (skipped l after)) (drop (skipped l after) l.entries)
rows_after-numbered s v l after h =
    map-sorted stamp revision_before (λ a b. leb a.0 b.0) (λ a b. refl) _
    ∙ ap (sorted (λ a b. leb a.0 b.0)) (
        map-select_and stamp (event_of v) (λ e. ltb after e.revision) (λ x. ltb after x.0)
          (λ e. refl) s.events
        ∙ ap (select (λ x. ltb after x.0)) h.kept
        ∙ select-select (λ x. ltb after x.0) (is_kept l) (λ x. ltb (skipped l after) x.0)
            (λ x. ground arith) (numbered 1 l.entries)
        ∙ select_after (skipped l after) 0 (skipped l after) l.entries (omega arith))
    ∙ sorted-numbered (suc (skipped l after)) (drop (skipped l after) l.entries)

abbrev first_or : ℕ → List (ℕ × Entry) → ℕ
first_or n [] = n
first_or n (x ∷ xs) = x.0

first_number :
    (n k : ℕ) (rest : List Entry) (x : ℕ × Entry) (xs : List (ℕ × Entry))
    → x ∷ xs ≡ take n (numbered k rest)
    → x.0 ≡ k
first_number zero k rest x xs h = absurd (ground arith)
first_number (suc n) k [] x xs h = absurd (ground arith)
first_number (suc n) k (e ∷ rest) x xs h = ap (first_or k) h

-- The test for a gap answers for what is pruned alone.
gap :
    (l : Log) (after n : ℕ) (visible : List Event)
    → 0 < n
    → map stamp visible
      ≡ take n (numbered (suc (skipped l after)) (drop (skipped l after) l.entries))
    → shows_gap after (length l.entries) l.retained_from visible ≡ ltb after (l.retained_from - 1)
unfolding shows_gap first_is_after
gap l after n [] pos h =
    let none_left =
      ap length h
      ∙ length-take n (numbered (suc (skipped l after)) (drop (skipped l after) l.entries)) in
    ground (
      arith,
      none_left,
      length-numbered (suc (skipped l after)) (drop (skipped l after) l.entries),
      length-drop (skipped l after) l.entries,
    )
gap l after n (e ∷ es) pos h =
    let first =
      first_number n (suc (skipped l after)) (drop (skipped l after) l.entries) (stamp e)
        (map stamp es) h in
    ground (arith, first)

abbrev pub viewed : Result Error Page → Result Error LogPage
viewed (ok p) = ok (view p)
viewed (raise e) = raise e

module _ (s : Store) (v : ℕ) (l : Log) (after n : ℕ) (h : Shows s v l) where
  abbrev shown : List Event
  shown = take n (take (suc n) (rows_after s v after))

  shown-numbered :
      map stamp shown ≡ take n (numbered (suc (skipped l after)) (drop (skipped l after) l.entries))
  shown-numbered =
      ap (map stamp) (take-take-suc n (rows_after s v after))
      ∙ map-take stamp n (rows_after s v after)
      ∙ ap (take n) (rows_after-numbered s v l after h)

  more :
      ltb n (length (take (suc n) (rows_after s v after)))
      ≡ ltb n (length (drop (skipped l after) l.entries))
  more =
      let read : length (rows_after s v after) ≡ length (drop (skipped l after) l.entries) =
        sym (length-map stamp (rows_after s v after))
        ∙ ap length (rows_after-numbered s v l after h)
        ∙ length-numbered (suc (skipped l after)) (drop (skipped l after) l.entries) in
      ground (arith, read, length-take (suc n) (rows_after s v after))

  page_shown :
      0 < n
      → view (record {
        current_revision = current_revision s v;
        retained_from_revision = retained_from_revision s v;
        has_gap = shows_gap after (current_revision s v) (retained_from_revision s v) shown;
        has_more = ltb n (length (take (suc n) (rows_after s v after)));
        events = shown;
      })
        ≡ record {
          current = length l.entries;
          retained_from = l.retained_from;
          has_gap = ltb after (l.retained_from - 1);
          has_more = ltb n (length (drop (skipped l after) l.entries));
          entries = take n (numbered (suc (skipped l after)) (drop (skipped l after) l.entries));
        }
  page_shown pos = rw h.counted (
      rw h.kept_from (λ i. record {
        current = length l.entries;
        retained_from = l.retained_from;
        has_gap = gap l after n shown pos shown-numbered i;
        has_more = more i;
        entries = shown-numbered i;
      }))

read_events-log_page :
    (s : Store) (v : ℕ) (l : Log) (after limit : ℕ)
    → Shows s v l
    → 0 < v
    → 0 < limit
    → viewed (read_events s v after limit) ≡ ok (log_page l after limit)
unfolding read_events log_page
read_events-log_page s v l after limit h pos_v pos_l =
    let vault : ltb 0 v ≡ true = ground arith in
    let some_rows : ltb 0 limit ≡ true = ground arith in
    rw vault (
      rw some_rows (ap ok (page_shown s v l after (min limit max_event_page_size) h (omega arith))))

-- The store refines the log: after any sequence of appends and prunes, refused calls included, from
-- tables without rows, reading a Vault with a positive id and a positive limit returns the page of
-- the Vault's log, which holds what was appended to this Vault and the highest first revision that
-- a prune set: the consecutive entries after `after` that are retained, 100 or `limit` at most, with
-- `has_more` exactly if others follow and `has_gap` exactly if an entry after `after` was pruned.
pub read_events_refines :
    (vaults : List ℕ) (last_id : ℕ) (os : List Op) (v after limit : ℕ)
    → 0 < v
    → 0 < limit
    → viewed (
        read_events
          (run_ops (record { vaults = vaults; revisions = []; events = []; last_id = last_id }) os)
          v
          after
          limit)
      ≡ ok (log_page (log_ops vaults v empty_log os) after limit)
read_events_refines vaults last_id os v after limit pos_v pos_l =
    read_events-log_page _ v _ after limit
      (run_ops-Shows os _ v empty_log (empty-Shows vaults last_id v)) pos_v pos_l
