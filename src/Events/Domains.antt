-- ===== src/Events/Domains.antt =====
-- The domains of a signal (app/services/catalog_event_hub.py): normalizing keeps domains that are
-- normalized, each once, and a signal of an event always has some.
use frostvault.Prelude.{
  String, str_eq, str_eq_iff, Bool, true, false, not, ◌&&◌, ◌||◌, ◌≡◌, refl, ap, sym, subst, ◌∙◌,
  List, [], ◌∷◌, all, map, if◌then◌else◌, arith, Bool-cases, inl, inr,
}
use frostvault.Prelude.Table.{select}
use frostvault.Events.{
  Texts, Value, Event, absent, other, text, mapping, is_absent, mapping_of, default_domains,
  signal_from_event, Signal, contains, first_of_each, or_default, stripped, iterable,
  normalize_invalidate_domains, is_nothing,
}

-- A domain as `normalize_invalidate_domains` leaves it.
abbrev pub is_domain : Texts → String → Bool
is_domain texts d = str_eq (texts.strip d) d && not (str_eq d "")

-- A signal as `signal_from_event` makes it: some domains, all normalized.
abbrev pub is_normal : Texts → Signal → Bool
is_normal texts s = not (is_nothing s.domains) && all (is_domain texts) s.domains

domain-strip : (texts : Texts) (d : String) → is_domain texts d ≡ true → texts.strip d ≡ d
domain-strip texts d h = (str_eq_iff (texts.strip d) d).0 (ground arith)

pub stripped-domains :
    (texts : Texts) (ds : List String) → all (is_domain texts) ds ≡ true → stripped texts ds ≡ ds
unfolding stripped select
stripped-domains texts [] h = refl
stripped-domains texts (d ∷ ds) h =
    let same = domain-strip texts d (ground arith) in
    let named : str_eq d "" ≡ false = ground arith in
    rw (same, named, stripped-domains texts ds (ground arith)) refl

-- The loop leaves out a domain that it has seen, and keeps one that it has not.
skips :
    (x : String) (seen ds : List String)
    → contains x seen ≡ true
    → first_of_each seen (x ∷ ds) ≡ first_of_each seen ds
unfolding first_of_each
skips x seen ds e = rw (first_of_each, e) refl

keeps :
    (x : String) (seen ds : List String)
    → contains x seen ≡ false
    → first_of_each seen (x ∷ ds) ≡ x ∷ first_of_each (x ∷ seen) ds
unfolding first_of_each
keeps x seen ds e = rw (first_of_each, e) refl

contains-same :
    (d x : String) (seen : List String)
    → contains x seen ≡ true
    → str_eq d x ≡ true
    → contains d seen ≡ true
contains-same d x seen h e = subst (λ z. contains z seen ≡ true) (sym ((str_eq_iff d x).0 e)) h

pub contains-first_of_each :
    (d : String) (seen ds : List String)
    → (contains d (first_of_each seen ds) || contains d seen) ≡ (contains d ds || contains d seen)
unfolding first_of_each
contains-first_of_each d seen [] = refl
contains-first_of_each d seen (x ∷ ds) = elim (Bool-cases (contains x seen)) [
  | inl e ↦ rw (skips x seen ds e) (
      let rest = contains-first_of_each d seen ds in
      let had = contains-same d x seen e in
      elim (Bool-cases (str_eq d x)) [
        | inl q ↦ let k = had q in ground arith
        | inr q ↦ ground arith
      ])
  | inr e ↦
      rw (keeps x seen ds e) (let rest = contains-first_of_each d (x ∷ seen) ds in ground arith)
]

pub all-first_of_each :
    (p : String → Bool) (seen ds : List String)
    → all p ds ≡ true
    → all p (first_of_each seen ds) ≡ true
unfolding first_of_each
all-first_of_each p seen [] h = refl
all-first_of_each p seen (x ∷ ds) h = elim (Bool-cases (contains x seen)) [
  | inl e ↦ rw (skips x seen ds e) (all-first_of_each p seen ds (ground arith))
  | inr e ↦
      rw (keeps x seen ds e)
        (let rest = all-first_of_each p (x ∷ seen) ds (ground arith) in ground arith)
]

pub or_false : (b : Bool) → (b || false) ≡ b
or_false b = ground arith

pub first_of_each-some :
    (ds : List String) → is_nothing ds ≡ false → is_nothing (first_of_each [] ds) ≡ false
first_of_each-some [] h = ground arith
first_of_each-some (x ∷ ds) h = rw (keeps x [] ds refl) refl

pub or_default-some : (ds : List String) → is_nothing ds ≡ false → or_default ds ≡ ds
or_default-some [] h = ground arith
or_default-some (x ∷ ds) h = refl

-- Normalizing domains that are normalized one by one keeps them, each once.
module _ (texts : Texts) (ds : List String) (some_domain : is_nothing ds ≡ false)
    (normal : all (is_domain texts) ds ≡ true) where
  normalized : normalize_invalidate_domains texts (iterable ds) ≡ first_of_each [] ds
  unfolding normalize_invalidate_domains
  normalized =
      rw
        (
          stripped-domains texts ds normal,
          or_default-some (first_of_each [] ds) (first_of_each-some ds some_domain),
        )
        refl

  pub contains-normalized :
      (d : String) → contains d (normalize_invalidate_domains texts (iterable ds)) ≡ contains d ds
  contains-normalized d =
      rw normalized (sym (or_false _) ∙ contains-first_of_each d [] ds ∙ or_false _)

  pub normalized-domains :
      (not (is_nothing (normalize_invalidate_domains texts (iterable ds)))
        && all (is_domain texts) (normalize_invalidate_domains texts (iterable ds)))
      ≡ true
  normalized-domains =
      rw
        (
          normalized,
          first_of_each-some ds some_domain,
          all-first_of_each (is_domain texts) [] ds normal,
        )
        refl

-- A text without blanks around it, which is not empty.
stripped-all :
    (texts : Texts)
    → ((t : String) → texts.strip (texts.strip t) ≡ texts.strip t)
    → (ds : List String) → all (is_domain texts) (stripped texts ds) ≡ true
unfolding stripped select
stripped-all texts again [] = refl
stripped-all texts again (d ∷ ds) =
    let rest = stripped-all texts again ds in
    let fixed = (str_eq_iff (texts.strip (texts.strip d)) (texts.strip d)).1 (again d) in
    ground arith

module _ (texts : Texts) (again : (t : String) → texts.strip (texts.strip t) ≡ texts.strip t)
    (files : texts.strip "files" ≡ "files") (stats : texts.strip "stats" ≡ "stats") where
  default-all : all (is_domain texts) default_domains ≡ true
  default-all = rw (files, stats) refl

  or_default-all :
      (ds : List String)
      → all (is_domain texts) ds ≡ true
      → not (is_nothing (or_default ds)) && all (is_domain texts) (or_default ds) ≡ true
  or_default-all [] h = default-all
  or_default-all (d ∷ ds) h = h

  each-all :
      (ds : List String)
      → all (is_domain texts) ds ≡ true
      → not (is_nothing (or_default (first_of_each [] ds)))
          && all (is_domain texts) (or_default (first_of_each [] ds))
        ≡ true
  each-all ds h = or_default-all (first_of_each [] ds) (all-first_of_each (is_domain texts) [] ds h)

  normalize-all :
      (v : Value)
      → not (is_nothing (normalize_invalidate_domains texts v))
          && all (is_domain texts) (normalize_invalidate_domains texts v)
        ≡ true
  unfolding normalize_invalidate_domains
  normalize-all absent = each-all default_domains default-all
  normalize-all other = each-all default_domains default-all
  normalize-all (text t) =
      each-all (stripped texts (texts.split_commas t))
        (stripped-all texts again (texts.split_commas t))
  normalize-all (iterable ds) = each-all (stripped texts ds) (stripped-all texts again ds)
  normalize-all (mapping invalidate domains) = elim (Bool-cases (is_absent invalidate)) [
    | inl e ↦ rw e (normalize-all domains)
    | inr e ↦ rw e (normalize-all invalidate)
  ]

-- The domains that a value names: the trimmed texts that are not empty, and the default ones where it is
-- no text, no list and no mapping.
abbrev pub named : Texts → Value → List String
named texts absent = default_domains
named texts other = default_domains
named texts (text t) = select (λ d. not (str_eq d "")) (map texts.strip (texts.split_commas t))
named texts (iterable ds) = select (λ d. not (str_eq d "")) (map texts.strip ds)
named texts (mapping invalidate domains) =
    if is_absent invalidate then named texts domains else named texts invalidate

contains-or_default :
    (d : String) (ds : List String)
    → contains d (or_default (first_of_each [] ds)) ≡ contains d (or_default ds)
contains-or_default d [] = unfold first_of_each in refl
contains-or_default d (x ∷ ds) =
    ap (contains d) (or_default-some (first_of_each [] (x ∷ ds)) (first_of_each-some (x ∷ ds) refl))
    ∙ sym (or_false _)
    ∙ contains-first_of_each d [] (x ∷ ds)
    ∙ or_false _

contains-named :
    (texts : Texts) (d : String) (v : Value)
    → contains d (normalize_invalidate_domains texts v) ≡ contains d (or_default (named texts v))
unfolding normalize_invalidate_domains stripped
contains-named texts d absent = contains-or_default d default_domains
contains-named texts d other = contains-or_default d default_domains
contains-named texts d (text t) = contains-or_default d (named texts (text t))
contains-named texts d (iterable ds) = contains-or_default d (named texts (iterable ds))
contains-named texts d (mapping invalidate domains) = elim (Bool-cases (is_absent invalidate)) [
  | inl e ↦ rw e (contains-named texts d domains)
  | inr e ↦ rw e (contains-named texts d invalidate)
]

-- The signal of any event has some domains, each without blanks around it and not empty, as `strip` of
-- a stripped text and of the two default domains is the text. They are just the domains that the payload
-- names, or the default ones where it names none, and the `domain` of the event is never used.
pub signal-is_normal :
    (texts : Texts) (event : Event) (domain : Value) (d : String)
    → ((t : String) → texts.strip (texts.strip t) ≡ texts.strip t)
    → texts.strip "files" ≡ "files"
    → texts.strip "stats" ≡ "stats"
    → (is_normal texts (signal_from_event texts event) ≡ true)
      × (contains d (signal_from_event texts event).domains
          ≡ contains d (or_default (named texts (mapping_of event.payload))))
      × (signal_from_event texts event ≡ signal_from_event texts (record event { domain = domain }))
unfolding signal_from_event
signal-is_normal texts event domain d again files stats =
    let h = normalize-all texts again files stats (mapping_of event.payload) in
    let some_domain : is_nothing (normalize_invalidate_domains texts (mapping_of event.payload))
        ≡ false =
      ground arith in
    (
      rw some_domain h,
      rw some_domain (contains-named texts d (mapping_of event.payload)),
      rw some_domain refl,
    )
