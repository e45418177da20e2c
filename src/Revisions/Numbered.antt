-- ===== src/Revisions/Numbered.antt =====
-- The numbered entries of a log: how its parts are read and ordered.
use frostvault.Prelude.{
  ℕ, zero, suc, ◌+◌, ◌≤◌, ◌≡◌, refl, ap, ◌∙◌, List, [], ◌∷◌, ◌++◌, leb, ltb, length, drop, arith,
}
use frostvault.Prelude.Table.{select}
use frostvault.Prelude.Table.Sort.{sorted, insert}
use frostvault.Revisions.{Entry}
use frostvault.Revisions.Spec.{numbered}

pub numbered-append :
    (k : ℕ) (es : List Entry) (e : Entry)
    → numbered k (es ++ (e ∷ [])) ≡ numbered k es ++ ((k + length es, e) ∷ [])
numbered-append k [] e = ap (λ n. (n, e) ∷ []) (omega arith)
numbered-append k (x ∷ es) e =
    let number : suc k + length es ≡ k + suc (length es) = omega arith in
    ap (λ t. (k, x) ∷ t)
      (numbered-append (suc k) es e ∙ ap (λ n. numbered (suc k) es ++ ((n, e) ∷ [])) number)

-- What is numbered from after `k` has numbers after `k`.
select_all :
    (m k : ℕ) (es : List Entry)
    → m ≤ k
    → select (λ x. ltb m x.0) (numbered (suc k) es) ≡ numbered (suc k) es
unfolding select
select_all m k [] h = refl
select_all m k (e ∷ es) h = ground (arith, select_all m (suc k) es (omega arith))

-- The entries after the `d`-th.
pub select_after :
    (d k m : ℕ) (es : List Entry)
    → m ≡ d + k
    → select (λ x. ltb m x.0) (numbered (suc k) es) ≡ numbered (suc m) (drop d es)
unfolding select
select_after zero k m es h =
    select_all m k es (omega arith) ∙ ap (λ n. numbered (suc n) es) (omega arith)
select_after (suc d) k m [] h = refl
select_after (suc d) k m (e ∷ es) h = ground (arith, select_after d (suc k) m es (omega arith))

pub sorted-numbered :
    (k : ℕ) (es : List Entry) → sorted (λ a b. leb a.0 b.0) (numbered k es) ≡ numbered k es
unfolding sorted insert
sorted-numbered k [] = refl
sorted-numbered k (e ∷ []) = refl
sorted-numbered k (e ∷ d ∷ es) = rw (sorted-numbered (suc k) (d ∷ es)) (ground arith)
