-- ===== src/Policies/Clocks.antt =====
-- When a Local Copy may be released and a file is uploaded (app/services/operation_policies.py).
use frostvault.Prelude.{
  ℕ, ◌+◌, ◌*◌, Bool, true, ◌&&◌, ◌≡◌, ap, if◌then◌else◌, ◌∙◌, Option, none, some, [], ◌∷◌, all, leb,
  max, coalesce, opt_all, opt_map, arith,
}
use frostvault.Policies.{
  pos, microseconds, day, later, file_is_stable, has_aged, local_cleanup_is_due,
}

-- A whole period lies between the time and now, where the time is known.
abbrev pub is_past : ℕ → ℕ → Option ℕ → Bool
is_past period now time = opt_all (λ t. leb (t + period) now) time

leb-max :
    (a b period now : ℕ)
    → leb (max a b + period) now ≡ (leb (a + period) now && leb (b + period) now)
leb-max a b period now = ground arith

leb-later :
    (a : ℕ) (time : Option ℕ) (period now : ℕ)
    → leb (later a time + period) now ≡ (leb (a + period) now && is_past period now time)
leb-later a none period now = ground arith
leb-later a (some t) period now = leb-max a t period now

-- The last of the times, where a modification counts only if it is later.
leb-newest :
    (a m period now : ℕ)
    → leb ((if leb m a then a else m) + period) now ≡ (leb (a + period) now && leb (m + period) now)
leb-newest a m period now = ground arith

and_last : (a b c d : Bool) → ((a && b) && c) && d ≡ (a && (b && (c && (d && true))))
and_last a b c d = ground arith

and_true : (a b c : Bool) → (a && b) && c ≡ (a && (b && (c && true)))
and_true a b c = ground arith

leb-reference :
    (v : ℕ) (r c : Option ℕ) (period now : ℕ)
    → leb (later (later v r) c + period) now
      ≡ ((leb (v + period) now && is_past period now r) && is_past period now c)
leb-reference v r c period now =
    leb-later (later v r) c period now
    ∙ ap (λ b. b && is_past period now c) (leb-later v r period now)

stable-is_past :
    (mtime period now : ℕ) (time : Option ℕ)
    → leb (coalesce (opt_map (max mtime) time) mtime + period) now
      ≡ (leb (mtime + period) now && (is_past period now time && true))
stable-is_past mtime period now none = ground arith
stable-is_past mtime period now (some t) = ground arith

-- A Local Copy is released exactly when the retention period has passed since its verification, and
-- since its recovery, the observation of its content and its modification where they are known; and a
-- file counts as stable exactly when it has rested for the window since its modification, and since the
-- observation of its content where it is known.
pub clocks-is_past :
    (verified_at retention_days now seconds mtime : ℕ)
    (local_mtime recovered_at content_observed_at : Option ℕ)
    → (local_cleanup_is_due verified_at retention_days now local_mtime recovered_at
          content_observed_at
        ≡ all
            (is_past (retention_days * day) now)
            (some verified_at ∷ recovered_at ∷ content_observed_at ∷ local_mtime ∷ []))
      × (file_is_stable mtime now (pos seconds) content_observed_at
          ≡ all (is_past (seconds * microseconds) now) (some mtime ∷ content_observed_at ∷ []))
unfolding local_cleanup_is_due file_is_stable has_aged
clocks-is_past verified_at retention_days now seconds mtime none recovered_at content_observed_at =
    (
      leb-reference verified_at recovered_at content_observed_at (retention_days * day) now
          ∙ and_true _ (is_past (retention_days * day) now recovered_at)
              (is_past (retention_days * day) now content_observed_at),
      stable-is_past mtime (seconds * microseconds) now content_observed_at,
    )
clocks-is_past verified_at retention_days now seconds mtime (some m) recovered_at
      content_observed_at =
    (
      leb-newest (later (later verified_at recovered_at) content_observed_at) m
            (retention_days * day) now
          ∙ ap (λ b. b && leb (m + retention_days * day) now)
              (leb-reference verified_at recovered_at content_observed_at (retention_days * day)
                now)
          ∙ and_last _ (is_past (retention_days * day) now recovered_at)
              (is_past (retention_days * day) now content_observed_at) _,
      stable-is_past mtime (seconds * microseconds) now content_observed_at,
    )
