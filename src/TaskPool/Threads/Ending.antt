-- ===== src/TaskPool/Threads/Ending.antt =====
-- Why the threads of src/Task.cpp end: in one-loop mode, or once they are told to stop.
use ff_test.Base.{
  ℕ, zero, suc, ◌+◌, ◌*◌, ◌≤◌, ◌<◌, ◌≡◌, ◌⊎◌, refl, inl, inr, true, some, List, [], ◌∷◌, map, All,
  arith, length, Bool-cases,
}
use ff_test.Base.Int.{ℤ, pos, is_zero}
use ff_test.TaskPool.{
  Place, absent, waiting, looping, leaving, finished, Task, Created, init, start, svc_step,
  set_affinity, Pool, new_pool, init_tasks, init_pool, start_pool, is_stop,
}
use ff_test.TaskPool.Threads.{Move, first, later, Moves, still, move}
use ff_test.TaskPool.Threads.Counting.{
  IsCounted, AllFinished, init_pool-IsCounted, counted-is_stop, Move-done, start_pool-IsCounted,
}

-- The thread exists, and does not wait for a post of its semaphore that has not come.
abbrev pub IsStarted : Place → ℕ → Type 0
IsStarted absent sem = ⊥
IsStarted waiting sem = 0 < sem
IsStarted _ sem = Unit {0}

-- Started, and with a reason to leave the loop.
abbrev pub CanEnd : ℤ → Task → Type 0
CanEnd seclive t = IsStarted t.place t.sem × ((t.exit ≡ true) ⊎ (is_zero seclive ≡ true))

-- The steps that are left to a thread.
abbrev pub rank : Place → ℕ
rank absent = 0
rank waiting = 3
rank looping = 2
rank leaving = 1
rank finished = 0

abbrev pub ranks : List Task → ℕ
ranks [] = 0
ranks (t ∷ ts) = rank t.place + ranks ts

ranks_le : (ts : List Task) → ranks ts ≤ 3 * length ts
ranks_le [] = omega arith
ranks_le (t ∷ ts) = omega (arith, ranks_le ts, small t.place)
  where
    small : (x : Place) → rank x ≤ 3
    small absent = omega arith
    small waiting = omega arith
    small looping = omega arith
    small leaving = omega arith
    small finished = omega arith

pub svc_step-CanEnd :
    (seclive : ℤ) (t t' : Task) (n n' : ℕ)
    → svc_step seclive t n ≡ some (t', n')
    → CanEnd seclive t
    → (suc (rank t'.place) ≡ rank t.place) × CanEnd seclive t'
unfolding svc_step
svc_step-CanEnd seclive t t' n n' e c = ground (arith, svc_step)

pub Move-CanEnd :
    (seclive : ℤ) {ts ts' : List Task} {n n' : ℕ}
    → Move seclive ts n ts' n'
    → All (CanEnd seclive) ts
    → (suc (ranks ts') ≡ ranks ts) × All (CanEnd seclive) ts'
Move-CanEnd seclive {n = n} {n' = n'} (first {t} {t'} e) (c, cs) =
    let (r, c') = svc_step-CanEnd seclive t t' n n' e c in (omega (arith, r), (c', cs))
Move-CanEnd seclive (later m) (c, cs) =
    let (r, cs') = Move-CanEnd seclive m cs in (omega (arith, r), (c, cs'))

Moves-CanEnd :
    (seclive : ℤ) {ts : List Task} {n k : ℕ} {ts' : List Task} {n' : ℕ}
    → Moves seclive ts n k ts' n'
    → All (CanEnd seclive) ts
    → (k + ranks ts' ≡ ranks ts) × All (CanEnd seclive) ts'
Moves-CanEnd seclive still cs = (omega arith, cs)
Moves-CanEnd seclive (move ms m) cs =
    let (r, cs') = Moves-CanEnd seclive ms cs in
    let (r', cs'') = Move-CanEnd seclive m cs' in (omega (arith, r, r'), cs'')

-- A thread that has a step.
pub svc_step_next :
    (seclive : ℤ) (t : Task) (n : ℕ)
    → CanEnd seclive t
    → (t.place ≡ finished) ⊎ ((t' : Task) × (n' : ℕ) × (svc_step seclive t n ≡ some (t', n')))
unfolding svc_step
svc_step_next seclive t n c = go t.place refl c.0
  where
    wakes :
        (m : ℕ)
        → t.sem ≡ m
        → t.place ≡ waiting
        → 0 < m
        → (t.place ≡ finished) ⊎ ((t' : Task) × (n' : ℕ) × (svc_step seclive t n ≡ some (t', n')))
    wakes zero q e s = absurd (omega arith)
    wakes (suc m) q e s = inr (record t { sem = m; place = looping }, n, rw (e, svc_step, q) refl)

    go :
        (x : Place)
        → t.place ≡ x
        → IsStarted x t.sem
        → (t.place ≡ finished) ⊎ ((t' : Task) × (n' : ℕ) × (svc_step seclive t n ≡ some (t', n')))
    go absent e s = absurd s
    go waiting e s = wakes t.sem refl e s
    go looping e s = elim (Bool-cases t.exit) [
      | inl told ↦ inr (record t { place = leaving }, n, rw (e, svc_step, told) refl)
      | inr going ↦ elim (Bool-cases (is_zero seclive)) [
        | inl once ↦ inr (record t { place = leaving }, n, rw (e, svc_step, going, once) refl)
        | inr more ↦ absurd (elim c.1 [ inl told ↦ cc | inr once ↦ cc ])
      ]
    ]
    go leaving e s = inr (record t { place = finished }, suc n, rw (e, svc_step))
    go finished e s = inl e

next-Move :
    (seclive : ℤ) (ts : List Task) (n : ℕ)
    → All (CanEnd seclive) ts
    → AllFinished ts ⊎ ((ts' : List Task) × (n' : ℕ) × Move seclive ts n ts' n')
next-Move seclive [] n c = inl tt
next-Move seclive (t ∷ ts) n (c, cs) = elim (svc_step_next seclive t n c) [
  | inr (t', n', e) ↦ inr (t' ∷ ts, n', first e)
  | inl over ↦ elim (next-Move seclive ts n cs) [
    | inl rest ↦ inl (over, rest)
    | inr (ts', n', m) ↦ inr (t ∷ ts', n', later m)
  ]
]

pub Moves-IsCounted :
    (seclive : ℤ) (size : ℕ) {ts : List Task} {n k : ℕ} {ts' : List Task} {n' : ℕ}
    → Moves seclive ts n k ts' n'
    → IsCounted size ts n
    → IsCounted size ts' n'
Moves-IsCounted seclive size still v = v
Moves-IsCounted seclive size (move ms m) v =
    let w = Moves-IsCounted seclive size ms v in
    let (d, l) = Move-done seclive m in
    record { counted = omega (arith, d, w.counted); sized = omega (arith, l, w.sized) }

-- The threads of a pool that are started, and told to stop or in one-loop mode, take at most three
-- steps each; and while `is_stop` does not answer `true`, some thread has a step.
pub threads_end :
    (seclive : ℤ) (size k n : ℕ) (p : Pool) (ts : List Task)
    → IsCounted size p.tasks p.sem
    → All (CanEnd seclive) p.tasks
    → Moves seclive p.tasks p.sem k ts n
    → (k ≤ 3 * size)
      × ((is_stop size (record { tasks = ts; sem = n }) ≡ true)
          ⊎ ((ts' : List Task) × (n' : ℕ) × Move seclive ts n ts' n'))
threads_end seclive size k n p ts v c ms =
    let (r, c') = Moves-CanEnd seclive ms c in
    let w = Moves-IsCounted seclive size ms v in
    (
      omega (arith, r, ranks_le p.tasks, v.sized),
      elim (next-Move seclive ts n c') [
        | inl over ↦ inl ((counted-is_stop size (record { tasks = ts; sem = n }) w).1 over)
        | inr m ↦ inr m
      ],
    )

-- Every thread was created.
abbrev pub AllCreated : List (ℤ × Created) → Type 0
AllCreated = All (λ x. x.1.ret ≡ pos 0)

pub started_tasks-CanEnd :
    (setaffinity : List ℕ → ℕ) (cores : List (ℤ × Created))
    → AllCreated cores
    → All (CanEnd (pos 0)) (map (λ t. (start t).1) (init_tasks setaffinity cores))
unfolding init_tasks init set_affinity start
started_tasks-CanEnd setaffinity [] a = tt
started_tasks-CanEnd setaffinity ((core, c) ∷ cores) (made, a) =
    (rw made (omega arith, inr refl), started_tasks-CanEnd setaffinity cores a)

-- In one-loop mode (`-l 0`), with every thread created, the threads of a pool that was
-- initialised and started take at most three steps for each core, in any order; and while
-- `is_stop` does not answer `true`, some thread has a step.
pub one_loop_ends :
    (setaffinity : List ℕ → ℕ) (cores : List (ℤ × Created)) (k n : ℕ) (ts : List Task)
    → AllCreated cores
    → let p = start_pool (init_pool setaffinity cores new_pool) in
      Moves (pos 0) p.tasks p.sem k ts n
      → (k ≤ 3 * length cores)
        × ((is_stop (length cores) (record { tasks = ts; sem = n }) ≡ true)
            ⊎ ((ts' : List Task) × (n' : ℕ) × Move (pos 0) ts n ts' n'))
unfolding start_pool init_pool
one_loop_ends setaffinity cores k n ts a ms =
    threads_end (pos 0) (length cores) k n (start_pool (init_pool setaffinity cores new_pool)) ts
      (start_pool-IsCounted (length cores) (init_pool setaffinity cores new_pool)
        (init_pool-IsCounted setaffinity cores))
      (started_tasks-CanEnd setaffinity cores a) ms
