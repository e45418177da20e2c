-- ===== src/Scheduler/Rounds.antt =====
-- What one pass of `select_fair_jobs` (app/services/job_scheduler.py) over the Vaults leaves.
use frostvault.Prelude.{
  ℕ, ◌≤◌, ◌<◌, Bool, true, false, ◌≡◌, refl, ◌⊎◌, inl, inr, List, [], ◌∷◌, leb, length,
  length-append, arith, Bool-cases,
}
use frostvault.Jobs.{Job}
use frostvault.Scheduler.{Pass, take_turn, drop_vault, one_round}
use frostvault.Scheduler.Turns.{Turn, Turn-drop, Turn-take}

-- What a pass over the Vaults leaves, from what it started with.
pub record Round (limit : ℕ) (jobs : List Job) (k : ℕ) (before : List Job) (order : List ℕ)
    (had : Bool) (t : Pass) : Type 0 where
  pub left : List ℕ
  pub turn : Turn jobs k left t.next_order t.selected t.by_vault
  pub ended : (left ≡ []) ⊎ (limit ≤ length t.selected)
  pub bounded : length t.selected ≤ limit
  pub monotone : length before ≤ length t.selected
  pub grown : t.progressed ≡ true → (had ≡ true) ⊎ (length before < length t.selected)
  pub keeps : had ≡ true → t.progressed ≡ true
  pub idle : t.progressed ≡ false → t.next_order ≡ order

abbrev pub RoundFrom : ℕ → List Job → ℕ → Pass → Pass → Type 0
RoundFrom limit jobs k s t = Round limit jobs k s.selected s.next_order s.progressed t

queue-cases {ℓ} : {A : Type ℓ} (xs : List A) → (xs ≡ []) ⊎ ((x : A) × (ys : List A) × (xs ≡ x ∷ ys))
queue-cases [] = inl refl
queue-cases (x ∷ ys) = inr (x, ys, refl)

-- A pass that has given a turn, and then goes on or stops at the limit.
turn-Round :
    (limit : ℕ) (jobs : List Job) (k v : ℕ) (j : Job) (js : List Job) (s t : Pass)
    → RoundFrom limit jobs k (take_turn v j js s) t
    → RoundFrom limit jobs k s t
unfolding take_turn
turn-Round limit jobs k v j js s t r =
    let longer = length-append s.selected (j ∷ []) in
    record {
      left = r.left;
      turn = r.turn;
      ended = r.ended;
      bounded = r.bounded;
      monotone = omega (arith, r.monotone, longer);
      grown = λ p. inr (omega (arith, r.monotone, longer));
      keeps = λ p. r.keeps refl;
      idle = λ p. absurd (let progressed = r.keeps refl in ground (arith, p, progressed));
    }

stop-Round :
    (limit : ℕ) (jobs : List Job) (k v : ℕ) (j : Job) (js : List Job) (left : List ℕ) (s : Pass)
    → length s.selected < limit
    → Turn jobs k left
        (take_turn v j js s).next_order
        (take_turn v j js s).selected
        (take_turn v j js s).by_vault
    → leb limit (length (take_turn v j js s).selected) ≡ true
    → RoundFrom limit jobs k (take_turn v j js s) (take_turn v j js s)
unfolding take_turn
stop-Round limit jobs k v j js left s lt h e = record {
  left = left;
  turn = h;
  ended = inr (ground (arith, e));
  bounded = omega (arith, lt, length-append s.selected (j ∷ []));
  monotone = omega arith;
  grown = λ p. inl refl;
  keeps = λ p. refl;
  idle = λ p. refl;
}

pub one_round-Round :
    (limit : ℕ) (jobs : List Job) (k : ℕ) (order : List ℕ) (s : Pass)
    → length s.selected < limit
    → Turn jobs k order s.next_order s.selected s.by_vault
    → RoundFrom limit jobs k s (one_round limit order s)
unfolding one_round take_turn
one_round-Round limit jobs k [] s lt h = record {
  left = [];
  turn = h;
  ended = inl refl;
  bounded = omega (arith, lt);
  monotone = omega arith;
  grown = λ p. inl p;
  keeps = λ p. p;
  idle = λ p. refl;
}
one_round-Round limit jobs k (v ∷ vs) s lt h = elim (queue-cases (s.by_vault.queue v)) [
  | inl e ↦
      rw (one_round, e)
        (one_round-Round limit jobs k vs (drop_vault v s) lt
          (Turn-drop jobs k v vs s.next_order s.selected s.by_vault h e))
  | inr (j, js, e) ↦
      let next = Turn-take jobs k v vs s.next_order s.selected s.by_vault h j js e in
      rw (one_round, e)
        (turn-Round limit jobs k v j js s _
          (elim (Bool-cases (leb limit (length (take_turn v j js s).selected))) [
            | inl f ↦ rw f (stop-Round limit jobs k v j js vs s lt next f)
            | inr f ↦
                rw f (one_round-Round limit jobs k vs (take_turn v j js s) (ground (arith, f)) next)
          ]))
]
