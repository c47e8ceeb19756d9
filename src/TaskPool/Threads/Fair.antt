-- ===== src/TaskPool/Threads/Fair.antt =====
-- What the threads of src/Task.cpp come to under a fair scheduler.
use ff_test.Base.{
  ℕ, zero, suc, ◌+◌, ◌-◌, ◌≤◌, ◌<◌, ◌≡◌, ◌⊎◌, refl, sym, ap, inl, inr, List, [], ◌∷◌, All, arith,
  length, subst,
}
use ff_test.Base.Int.{ℤ}
use ff_test.TaskPool.{Task, Pool}
use ff_test.TaskPool.Threads.Counting.{AllFinished, Move-done}
use ff_test.TaskPool.Threads.Ending.{CanEnd, ranks, Move-CanEnd, svc_step_next, svc_step-CanEnd}
use ff_test.TaskPool.Threads.Schedule.{tick_tasks, tick, tick-Move, after, after-add}

-- Each of `size` threads is scheduled again after any tick.
abbrev pub Fair : (ℕ → ℕ) → ℕ → Type 0
Fair picks size = (i j : ℕ) → i < size → (m : ℕ) × (j ≤ m) × (picks m ≡ i)

-- `size` tasks whose threads can all end.
abbrev AllEnd : ℤ → ℕ → Pool → Type 0
AllEnd seclive size p = All (CanEnd seclive) p.tasks × (length p.tasks ≡ size)

-- A tick changes nothing, or leaves one step less.
tick-ranks :
    (seclive : ℤ) (size i : ℕ) (p : Pool)
    → AllEnd seclive size p
    → AllEnd seclive size (tick seclive i p)
      × ((tick seclive i p ≡ p) ⊎ (suc (ranks (tick seclive i p).tasks) ≡ ranks p.tasks))
tick-ranks seclive size i p (c, l) = elim (tick-Move seclive i p) [
  | inl same ↦ (rw same (c, l), inl same)
  | inr m ↦
      let (r, c') = Move-CanEnd seclive m c in
      ((c', omega (arith, (Move-done seclive m).1, l)), inr r)
]

-- After some ticks nothing has changed, or fewer steps are left.
after-ranks :
    (seclive : ℤ) (picks : ℕ → ℕ) (size k d : ℕ) (p : Pool)
    → AllEnd seclive size p
    → AllEnd seclive size (after seclive picks k d p)
      × ((after seclive picks k d p ≡ p)
          ⊎ (ranks (after seclive picks k d p).tasks < ranks p.tasks))
unfolding after
after-ranks seclive picks size k zero p a = (a, inl refl)
after-ranks seclive picks size k (suc d) p a =
    let (a', before) = after-ranks seclive picks size k d p a in
    let (a'', now) = tick-ranks seclive size (picks (k + d)) (after seclive picks k d p) a' in
    (
      a'',
      elim now [
        | inl still ↦ subst (λ q. (q ≡ p) ⊎ (ranks q.tasks < ranks p.tasks)) (sym still) before
        | inr less ↦ inr (elim before [
          | inl same ↦ omega (arith, less, ap (λ q. ranks q.tasks) same)
          | inr fewer ↦ omega (arith, less, fewer)
        ])
      ],
    )

-- The thread `i` has a step, if that is not its last.
unfinished :
    (seclive : ℤ) (ts : List Task) (n : ℕ)
    → All (CanEnd seclive) ts
    → AllFinished ts
      ⊎ ((i : ℕ) × (i < length ts) × (suc (ranks (tick_tasks seclive i ts n).0) ≡ ranks ts))
unfinished seclive [] n c = inl tt
unfinished seclive (t ∷ ts) n (c, cs) = elim (svc_step_next seclive t n c) [
  | inr (t', n', e) ↦
      let (r, _) = svc_step-CanEnd seclive t t' n n' e c in
      inr (zero, omega arith, rw e (omega (arith, r)))
  | inl over ↦ elim (unfinished seclive ts n cs) [
    | inl rest ↦ inl (over, rest)
    | inr (i, h, r) ↦ inr (suc i, omega (arith, h), omega (arith, r))
  ]
]

-- The ticks until a thread runs that has a step: fewer steps are left then.
goes_on :
    (seclive : ℤ) (picks : ℕ → ℕ) (size k : ℕ) (p : Pool)
    → Fair picks size
    → AllEnd seclive size p
    → AllFinished p.tasks ⊎ ((d : ℕ) × (ranks (after seclive picks k d p).tasks < ranks p.tasks))
unfolding after tick
goes_on seclive picks size k p fair (c, l) = elim (unfinished seclive p.tasks p.sem c) [
  | inl over ↦ inl over
  | inr (i, h, r) ↦
      let (m, le, picked) = fair i k (omega (arith, h, l)) in
      let at : k + (m - k) ≡ m = omega arith in
      let (_, before) = after-ranks seclive picks size k (m - k) p (c, l) in
      elim before [
        | inr fewer ↦ inr (m - k, fewer)
        | inl same ↦ inr (suc (m - k), rw (same, at, picked) (omega (arith, r)))
      ]
]

-- Under a fair scheduler, threads that can end have all ended after some ticks.
pub settle :
    (seclive : ℤ) (picks : ℕ → ℕ) (size left k : ℕ) (p : Pool)
    → Fair picks size
    → ranks p.tasks ≤ left
    → AllEnd seclive size p
    → (d : ℕ) × AllFinished (after seclive picks k d p).tasks
unfolding after
settle seclive picks size zero k p fair le a = elim (goes_on seclive picks size k p fair a) [
  | inl over ↦ (zero, over)
  | inr (d, less) ↦ absurd (omega (arith, less))
]
settle seclive picks size (suc left) k p fair le a = elim (goes_on seclive picks size k p fair a) [
  | inl over ↦ (zero, over)
  | inr (d, less) ↦
      let q = after seclive picks k d p in
      let (a', _) = after-ranks seclive picks size k d p a in
      let (e, over) = settle seclive picks size left (k + d) q fair (omega (arith, less)) a' in
      (d + e, rw (after-add seclive picks k d e p) over)
]
