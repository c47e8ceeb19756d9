-- ===== src/TaskPool/Threads/Schedule.antt =====
-- The threads of src/Task.cpp under a scheduler, one tick after the other.
use ff_test.Base.{
  ℕ, zero, suc, ◌+◌, ◌-◌, ◌≤◌, ◌≡◌, ◌⊎◌, refl, ap, inl, inr, Option, none, some, List, [], ◌∷◌, All,
  arith, length, Option-cases, subst, sym,
}
use ff_test.Base.Int.{ℤ, pos}
use ff_test.TaskPool.{Task, Created, svc_step, Pool, new_pool, init_pool, start_pool}
use ff_test.TaskPool.Threads.{Move, first, later}
use ff_test.TaskPool.Threads.Counting.{
  IsCounted, AllFinished, Move-done, start_pool-IsCounted, init_pool-IsCounted,
}
use ff_test.TaskPool.Threads.Ending.{IsStarted, CanEnd, AllCreated, started_tasks-CanEnd}

-- The tasks after a step of the first, if it has one.
abbrev pub stepped : Option (Task × ℕ) → Task → List Task → ℕ → List Task × ℕ
stepped none t ts n = (t ∷ ts, n)
stepped (some (t', n')) t ts n = (t' ∷ ts, n')

-- The `i`-th thread is scheduled: it takes its step, if it has one.
abbrev pub tick_tasks : ℤ → ℕ → List Task → ℕ → List Task × ℕ
tick_tasks seclive i [] n = ([], n)
tick_tasks seclive zero (t ∷ ts) n = stepped (svc_step seclive t n) t ts n
tick_tasks seclive (suc i) (t ∷ ts) n = let r = tick_tasks seclive i ts n in (t ∷ r.0, r.1)

unfoldable pub tick : ℤ → ℕ → Pool → Pool
tick seclive i p = let r = tick_tasks seclive i p.tasks p.sem in record { tasks = r.0; sem = r.1 }

-- The pool after `d` ticks from the tick `k` on, when `picks` is the thread that runs at each tick.
unfoldable pub after : ℤ → (ℕ → ℕ) → ℕ → ℕ → Pool → Pool
unfolding tick
after seclive picks k zero p = p
after seclive picks k (suc d) p = tick seclive (picks (k + d)) (after seclive picks k d p)

pub after-add :
    (seclive : ℤ) (picks : ℕ → ℕ) (k d e : ℕ) (p : Pool)
    → after seclive picks k (d + e) p ≡ after seclive picks (k + d) e (after seclive picks k d p)
unfolding after
after-add seclive picks k d zero p = let z : d + zero ≡ d = omega arith in rw z refl
after-add seclive picks k d (suc e) p =
    let s : d + suc e ≡ suc (d + e) = omega arith in
    let a : k + (d + e) ≡ k + d + e = omega arith in
    rw (s, a) (ap (tick seclive (picks (k + d + e))) (after-add seclive picks k d e p))

pub after_first :
    (seclive : ℤ) (picks : ℕ → ℕ) (k d : ℕ) (p : Pool)
    → after seclive picks k (suc d) p ≡ after seclive picks (suc k) d (tick seclive (picks k) p)
unfolding after
after_first seclive picks k zero p = let e : k + zero ≡ k = omega arith in rw e refl
after_first seclive picks k (suc d) p =
    let e : k + suc d ≡ suc k + d = omega arith in
    rw e (ap (tick seclive (picks (suc k + d))) (after_first seclive picks k d p))

-- A tick is a step of a thread, or changes nothing.
tick_tasks-Move :
    (seclive : ℤ) (i : ℕ) (ts : List Task) (n : ℕ)
    → (tick_tasks seclive i ts n ≡ (ts, n))
      ⊎ Move seclive ts n (tick_tasks seclive i ts n).0 (tick_tasks seclive i ts n).1
tick_tasks-Move seclive i [] n = inl refl
tick_tasks-Move seclive zero (t ∷ ts) n = elim (Option-cases (svc_step seclive t n)) [
  | inl stuck ↦ inl (rw stuck refl)
  | inr (r, e) ↦ inr (rw e (first e))
]
tick_tasks-Move seclive (suc i) (t ∷ ts) n = elim (tick_tasks-Move seclive i ts n) [
  | inl same ↦ inl (rw same refl)
  | inr m ↦ inr (later m)
]

pub tick-Move :
    (seclive : ℤ) (i : ℕ) (p : Pool)
    → (tick seclive i p ≡ p)
      ⊎ Move seclive p.tasks p.sem (tick seclive i p).tasks (tick seclive i p).sem
unfolding tick
tick-Move seclive i p = elim (tick_tasks-Move seclive i p.tasks p.sem) [
  | inl same ↦ inl (ap (λ r. record { tasks = r.0; sem = r.1 }) same)
  | inr m ↦ inr m
]

-- What every step of a thread keeps, ticks keep.
module _ (seclive : ℤ) (P : List Task → ℕ → Type 0)
    (keeps : (ts ts' : List Task) (n n' : ℕ) → Move seclive ts n ts' n' → P ts n → P ts' n') where
  tick-keeps :
      (i : ℕ) (p : Pool) → P p.tasks p.sem → P (tick seclive i p).tasks (tick seclive i p).sem
  tick-keeps i p h = elim (tick-Move seclive i p) [
    | inl same ↦ subst (λ q. P q.tasks q.sem) (sym same) h
    | inr m ↦ keeps p.tasks _ p.sem _ m h
  ]

  pub after-keeps :
      (picks : ℕ → ℕ) (k d : ℕ) (p : Pool)
      → P p.tasks p.sem
      → P (after seclive picks k d p).tasks (after seclive picks k d p).sem
  unfolding after
  after-keeps picks k zero p h = h
  after-keeps picks k (suc d) p h =
      tick-keeps (picks (k + d)) (after seclive picks k d p) (after-keeps picks k d p h)

-- The semaphore keeps counting the threads that have returned.
pub after-IsCounted :
    (seclive : ℤ) (picks : ℕ → ℕ) (size k d : ℕ) (p : Pool)
    → IsCounted size p.tasks p.sem
    → IsCounted size (after seclive picks k d p).tasks (after seclive picks k d p).sem
after-IsCounted seclive picks size k d p v =
    after-keeps seclive (IsCounted size)
      (λ ts ts' n n' m v.
        let (done, same) = Move-done seclive m in
        record { counted = omega (arith, done, v.counted); sized = omega (arith, same, v.sized) })
      picks k d p v

-- A thread that is started stays so.
abbrev pub AllStarted : List Task → Type 0
AllStarted = All (λ t. IsStarted t.place t.sem)

svc_step-IsStarted :
    (seclive : ℤ) (t t' : Task) (n n' : ℕ)
    → svc_step seclive t n ≡ some (t', n')
    → IsStarted t.place t.sem
    → IsStarted t'.place t'.sem
unfolding svc_step
svc_step-IsStarted seclive t t' n n' e s = ground (arith, svc_step)

Move-AllStarted :
    (seclive : ℤ) {ts ts' : List Task} {n n' : ℕ}
    → Move seclive ts n ts' n'
    → AllStarted ts
    → AllStarted ts'
Move-AllStarted seclive {n = n} {n' = n'} (first {t} {t'} e) (s, ss) =
    (svc_step-IsStarted seclive t t' n n' e s, ss)
Move-AllStarted seclive (later m) (s, ss) = (s, Move-AllStarted seclive m ss)

pub after-AllStarted :
    (seclive : ℤ) (picks : ℕ → ℕ) (k d : ℕ) (p : Pool)
    → AllStarted p.tasks
    → AllStarted (after seclive picks k d p).tasks
after-AllStarted seclive picks k d p s =
    after-keeps seclive (λ ts n. AllStarted ts) (λ ts ts' n n' m s. Move-AllStarted seclive m s)
      picks k d p s

Move-AllFinished :
    (seclive : ℤ) {ts ts' : List Task} {n n' : ℕ}
    → Move seclive ts n ts' n'
    → AllFinished ts
    → AllFinished ts'
unfolding svc_step
Move-AllFinished seclive (first {t} e) (over, a) = cc (rw (over, svc_step) at e)
Move-AllFinished seclive (later m) (over, a) = (over, Move-AllFinished seclive m a)

-- Threads that have returned stay so.
pub after-AllFinished :
    (seclive : ℤ) (picks : ℕ → ℕ) (k d : ℕ) (p : Pool)
    → AllFinished p.tasks
    → AllFinished (after seclive picks k d p).tasks
after-AllFinished seclive picks k d p a =
    after-keeps seclive (λ ts n. AllFinished ts) (λ ts ts' n n' m a. Move-AllFinished seclive m a)
      picks k d p a

pub finished_later :
    (seclive : ℤ) (picks : ℕ → ℕ) (k d e : ℕ) (p : Pool)
    → AllFinished (after seclive picks k d p).tasks
    → d ≤ e
    → AllFinished (after seclive picks k e p).tasks
finished_later seclive picks k d e p over le =
    let split : e ≡ d + (e - d) = omega arith in
    rw (split, after-add seclive picks k d (e - d) p)
      (after-AllFinished seclive picks (k + d) (e - d) (after seclive picks k d p) over)

CanEnd-AllStarted : (seclive : ℤ) (ts : List Task) → All (CanEnd seclive) ts → AllStarted ts
CanEnd-AllStarted seclive [] a = tt
CanEnd-AllStarted seclive (t ∷ ts) ((s, _), a) = (s, CanEnd-AllStarted seclive ts a)

-- After `init` with every thread created and `start`, every thread is started, and the semaphore
-- counts those that have returned.
pub start_pool-AllStarted :
    (setaffinity : List ℕ → ℕ) (cores : List (ℤ × Created))
    → AllCreated cores
    → let p = start_pool (init_pool setaffinity cores new_pool) in
      AllStarted p.tasks × IsCounted (length cores) p.tasks p.sem
unfolding start_pool init_pool
start_pool-AllStarted setaffinity cores made = (
  CanEnd-AllStarted (pos 0) _ (started_tasks-CanEnd setaffinity cores made),
  start_pool-IsCounted (length cores) (init_pool setaffinity cores new_pool)
      (init_pool-IsCounted setaffinity cores),
)
