-- ===== src/Events/Merge.antt =====
-- Two signals that a mailbox makes one (app/services/catalog_event_hub.py).
use frostvault.Prelude.{
  String, str_eq, true, false, ◌||◌, ◌≡◌, refl, ◌∙◌, Option, none, some, List, [], ◌∷◌, ◌++◌, ◌==◌,
  all, max, any-append, all-append, arith,
}
use frostvault.Prelude.Result.{ok}
use frostvault.Events.{
  Texts, Signal, contains, iterable, normalize_invalidate_domains, merge, merge_all,
  coalesce_signals, Subscriber, new_subscriber, offer_pending, offer, is_nothing,
}
use frostvault.Events.Domains.{is_domain, is_normal, contains-normalized, normalized-domains}

pub is_nothing-append :
    (xs ys : List String) → is_nothing xs ≡ false → is_nothing (xs ++ ys) ≡ false
is_nothing-append [] ys h = ground arith
is_nothing-append (x ∷ xs) ys h = refl

-- A mailbox that is open and holds at most one signal.
abbrev pub holding : Option Signal → Subscriber
holding none = new_subscriber
holding (some p) = record { queue = some p ∷ []; closed = false }

-- The signal that two signals of a Vault become.
unfoldable pub both : Texts → Signal → Signal → Signal
both texts p s = record p {
  revision = max p.revision s.revision;
  domains = normalize_invalidate_domains texts (
      iterable (
        normalize_invalidate_domains texts (iterable p.domains)
        ++ normalize_invalidate_domains texts (iterable s.domains)));
  has_gap = p.has_gap || s.has_gap;
}

module _ (texts : Texts) (p s : Signal) (p_normal : is_normal texts p ≡ true)
    (s_normal : is_normal texts s ≡ true) where
  p_some : is_nothing p.domains ≡ false
  p_some = ground arith

  s_some : is_nothing s.domains ≡ false
  s_some = ground arith

  p_all : all (is_domain texts) p.domains ≡ true
  p_all = ground arith

  s_all : all (is_domain texts) s.domains ≡ true
  s_all = ground arith

  joined : List String
  joined =
      normalize_invalidate_domains texts (iterable p.domains)
      ++ normalize_invalidate_domains texts (iterable s.domains)

  joined-some : is_nothing joined ≡ false
  unfolding joined
  joined-some =
      let h = normalized-domains texts p.domains p_some p_all in
      is_nothing-append _ (normalize_invalidate_domains texts (iterable s.domains)) (ground arith)

  joined-all : all (is_domain texts) joined ≡ true
  unfolding joined
  joined-all =
      let h = normalized-domains texts p.domains p_some p_all in
      let k = normalized-domains texts s.domains s_some s_all in
      all-append (is_domain texts) _ (normalize_invalidate_domains texts (iterable s.domains))
        (ground arith) (ground arith)

  pub both-is_normal : is_normal texts (both texts p s) ≡ true
  unfolding both joined
  both-is_normal = normalized-domains texts joined joined-some joined-all

  pub contains-both :
      (d : String)
      → contains d (both texts p s).domains ≡ (contains d p.domains || contains d s.domains)
  unfolding both joined
  contains-both d =
      contains-normalized texts joined joined-some joined-all d
      ∙ any-append (str_eq d) (normalize_invalidate_domains texts (iterable p.domains))
          (normalize_invalidate_domains texts (iterable s.domains))
      ∙ rw
          (
            contains-normalized texts p.domains p_some p_all d,
            contains-normalized texts s.domains s_some s_all d,
          )
          refl

  pub offer-holding :
      (s.vault_id == p.vault_id) ≡ true
      → offer texts (holding (some p)) s ≡ ok (holding (some (both texts p s)))
  unfolding both offer offer_pending coalesce_signals merge_all merge
  offer-holding h = rw h refl
