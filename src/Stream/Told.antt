-- ===== src/Stream/Told.antt =====
-- What the merging of several signals of a Vault tells: the domains of all of them (as
-- app/services/catalog_event_stream.py merges a page).
use frostvault.Prelude.{
  ℕ, String, Bool, true, false, ◌||◌, ◌≡◌, refl, ap, ◌∙◌, some, List, [], ◌∷◌, ◌==◌, max, any,
  any-append, all, all-append, All, str_eq, ◌++◌, arith,
}
use frostvault.Prelude.Result.{ok}
use frostvault.Events.{
  Texts, Signal, contains, iterable, normalize_invalidate_domains, merge, merge_all,
  coalesce_signals, is_nothing,
}
use frostvault.Events.Domains.{is_normal, is_domain, contains-normalized, normalized-domains}
use frostvault.Events.Merge.{is_nothing-append}

abbrev pub told : String → List Signal → Bool
told d ss = any (λ s. contains d s.domains) ss

module _ (texts : Texts) (v : ℕ) where
  abbrev pub IsReady : Signal → Type 0
  IsReady s = (is_normal texts s ≡ true) × (s.vault_id ≡ v)

  -- The signal that `merge` makes of two.
  module _ (p s : Signal) (hp : IsReady p) (hs : IsReady s) where
    abbrev joined : List String
    joined = p.domains ++ normalize_invalidate_domains texts (iterable s.domains)

    abbrev next : Signal
    next = record p {
      revision = max p.revision s.revision;
      domains = normalize_invalidate_domains texts (iterable joined);
      has_gap = p.has_gap || s.has_gap;
    }

    joined-some : is_nothing joined ≡ false
    joined-some = is_nothing-append p.domains _ (ground (arith, hp.0))

    joined-all : all (is_domain texts) joined ≡ true
    joined-all =
        let one =
          normalized-domains texts s.domains (ground (arith, hs.0)) (ground (arith, hs.0)) in
        all-append (is_domain texts) p.domains
          (normalize_invalidate_domains texts (iterable s.domains)) (ground (arith, hp.0))
          (ground (arith, one))

    merge-next : merge texts (some p) s ≡ ok next
    unfolding merge
    merge-next =
        let same : s.vault_id == p.vault_id ≡ true = ground (arith, hp.1, hs.1) in rw same refl

    next-IsReady : IsReady next
    next-IsReady = (normalized-domains texts joined joined-some joined-all, hp.1)

    contains-next :
        (d : String) → contains d next.domains ≡ (contains d p.domains || contains d s.domains)
    contains-next d =
        contains-normalized texts joined joined-some joined-all d
        ∙ any-append (str_eq d) p.domains (normalize_invalidate_domains texts (iterable s.domains))
        ∙ ap (λ x. contains d p.domains || x)
            (contains-normalized texts s.domains (ground (arith, hs.0)) (ground (arith, hs.0)) d)

  merge_all-told :
      (ss : List Signal) (p : Signal)
      → IsReady p
      → All IsReady ss
      → (q : Signal) × (merge_all texts (some p) ss ≡ ok (some q))
        × ((d : String) → contains d q.domains ≡ (contains d p.domains || told d ss))
  unfolding merge_all
  merge_all-told [] p hp hs = (p, refl, λ d. ground arith)
  merge_all-told (s ∷ ss) p hp hs =
      let rest = merge_all-told ss (next p s hp hs.0) (next-IsReady p s hp hs.0) hs.1 in
      (
        rest.0,
        rw (merge-next p s hp hs.0) rest.1,
        λ d. ground (arith, rest.2 d, contains-next p s hp hs.0 d),
      )

  -- The first signal goes through the merging alone.
  pub coalesce-told :
      (s : Signal) (ss : List Signal)
      → All IsReady (s ∷ ss)
      → (q : Signal) × (coalesce_signals texts (s ∷ ss) ≡ ok (some q))
        × ((d : String) → contains d q.domains ≡ told d (s ∷ ss))
  unfolding coalesce_signals merge_all merge
  coalesce-told s ss h =
      let some_domain : is_nothing s.domains ≡ false = ground (arith, h.0.0) in
      let normal : all (is_domain texts) s.domains ≡ true = ground (arith, h.0.0) in
      let rest =
        merge_all-told ss
          (record s { domains = normalize_invalidate_domains texts (iterable s.domains) })
          (normalized-domains texts s.domains some_domain normal, h.0.1) h.1 in
      (
        rest.0,
        rest.1,
        λ d. ground (arith, rest.2 d, contains-normalized texts s.domains some_domain normal d),
      )
