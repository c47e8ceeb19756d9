-- ===== src/TaskPool/Threads/Clearing.antt =====
-- `TaskPool::clear` of src/TaskPool.cpp: when its joins return.
use ff_test.Base.{
  ℕ, ◌*◌, ◌≤◌, ◌<◌, ◌≡◌, refl, ◌∙◌, none, some, List, [], ◌∷◌, map, arith, length, All, Bool-cases,
  Option-cases, some_inj, inl, inr, true, false,
}
use ff_test.Base.Int.{ℤ}
use ff_test.TaskPool.{
  waiting, Task, Created, init, stop, release, svc_step, set_affinity, Pool, new_pool, init_tasks,
  init_pool, stop_pool, release_tasks, clear, destroy_tasks, destroy_pool,
}
use ff_test.TaskPool.Threads.{Move, first, later, Moves}
use ff_test.TaskPool.Threads.Counting.{IsCounted, AllFinished, counted-is_stop, stop_pool-IsCounted}
use ff_test.TaskPool.Threads.Ending.{AllCreated, IsStarted, CanEnd, threads_end, Moves-IsCounted}

stopped_tasks-CanEnd :
    (seclive : ℤ) (ts : List Task)
    → All (λ t. IsStarted t.place t.sem) ts
    → All (CanEnd seclive) (map stop ts)
stopped_tasks-CanEnd seclive [] a = tt
stopped_tasks-CanEnd seclive (t ∷ ts) (s, a) = ((s, inl refl), stopped_tasks-CanEnd seclive ts a)

-- Threads that are started can end once `clear` has told them to stop.
pub stop_pool-CanEnd :
    (seclive : ℤ) (p : Pool)
    → All (λ t. IsStarted t.place t.sem) p.tasks
    → All (CanEnd seclive) (stop_pool p).tasks
unfolding stop_pool
stop_pool-CanEnd seclive p started = stopped_tasks-CanEnd seclive p.tasks started

-- When all threads have returned no join waits, and no task keeps a thread.
pub release_tasks_finished :
    (ts : List Task)
    → AllFinished ts
    → (ts' : List Task) × (release_tasks ts ≡ some ts')
      × (length ts' ≡ length ts)
      × All (λ t. t.has_thread ≡ false) ts'
unfolding release_tasks release
release_tasks_finished [] a = ([], refl, refl, tt)
release_tasks_finished (t ∷ ts) (over, a) =
    let (ts', e, l, none_left) = release_tasks_finished ts a in
    elim (Bool-cases t.has_thread) [
      | inl thread ↦
          let t' : Task = record t { exit = true; has_thread = false } in
          (t' ∷ ts', rw (release, thread, over) (rw e refl), omega (arith, l), (refl, none_left))
      | inr free ↦
          let t' : Task = record t { exit = true } in
          (t' ∷ ts', rw (release, free) (rw e refl), omega (arith, l), (free, none_left))
    ]

-- No task has a thread to join.
abbrev pub NoThread : List Task → Type 0
NoThread = All (λ t. t.has_thread ≡ false)

release-no_thread : (t t' : Task) → release t ≡ some t' → t'.has_thread ≡ false
unfolding release
release-no_thread t t' e = ground arith

pub release_tasks-NoThread : (ts ts' : List Task) → release_tasks ts ≡ some ts' → NoThread ts'
unfolding release_tasks
release_tasks-NoThread [] ts' e = rw (← some_inj e) tt
release_tasks-NoThread (t ∷ ts) ts' e = elim (Option-cases (release t)) [
  | inl stuck ↦ cc (rw stuck at e)
  | inr (t', freed) ↦ elim (Option-cases (release_tasks ts)) [
    | inl stuck ↦ cc (rw (freed, stuck) at e)
    | inr (rest, freed') ↦
        rw (← some_inj (rw (freed, freed') at e))
          (release-no_thread t t' freed, release_tasks-NoThread ts rest freed')
  ]
]

-- `clear` of a pool whose threads are all started, in any mode, while the semaphore counts those
-- that have returned: after its first loop the threads take at most three steps each, in any
-- order, and once none has a step left each join of its second loop returns, and no task keeps a
-- thread.
pub clear_ends :
    (seclive : ℤ) (size k n : ℕ) (p : Pool) (ts : List Task)
    → IsCounted size p.tasks p.sem
    → All (λ t. IsStarted t.place t.sem) p.tasks
    → Moves seclive (stop_pool p).tasks (stop_pool p).sem k ts n
    → ((ts' : List Task) (n' : ℕ) → ¬ Move seclive ts n ts' n')
    → (k ≤ 3 * size)
      × (ts' : List Task) × (release_tasks ts ≡ some ts')
      × (length ts' ≡ size)
      × All (λ t. t.has_thread ≡ false) ts'
clear_ends seclive size k n p ts v started ms stuck =
    let w = stop_pool-IsCounted size p v in
    let c = stop_pool-CanEnd seclive p started in
    let (bound, next) = threads_end seclive size k n (stop_pool p) ts w c ms in
    let x = Moves-IsCounted seclive size ms w in
    elim next [
      | inr (ts', n', m) ↦ absurd (stuck ts' n' m)
      | inl over ↦
          let (ts', e, l, none_left) =
            release_tasks_finished ts
              ((counted-is_stop size (record { tasks = ts; sem = n }) x).0 over) in
          (bound, ts', e, l ∙ x.sized, none_left)
    ]

-- The thread waits for a post.
abbrev IsIdle : Task → Type 0
IsIdle t = (t.place ≡ waiting) × (t.sem ≡ 0)

init_tasks-IsIdle :
    (setaffinity : List ℕ → ℕ) (cores : List (ℤ × Created))
    → AllCreated cores
    → All IsIdle (map stop (init_tasks setaffinity cores))
unfolding init_tasks init set_affinity
init_tasks-IsIdle setaffinity [] a = tt
init_tasks-IsIdle setaffinity ((core, c) ∷ cores) (made, a) =
    (rw made (refl, refl), init_tasks-IsIdle setaffinity cores a)

no_Move : (seclive : ℤ) {ts ts' : List Task} {n n' : ℕ} → Move seclive ts n ts' n' → ¬ All IsIdle ts
unfolding svc_step
no_Move seclive (first e) (idle, a) = cc (rw (idle.0, svc_step, idle.1) at e)
no_Move seclive (later m) (idle, a) = no_Move seclive m a

release_tasks_idle :
    (setaffinity : List ℕ → ℕ) (cores : List (ℤ × Created))
    → AllCreated cores
    → 0 < length cores
    → release_tasks (map stop (init_tasks setaffinity cores)) ≡ none
unfolding release_tasks release init_tasks init set_affinity
release_tasks_idle setaffinity [] a lt = absurd (omega arith)
release_tasks_idle setaffinity ((core, c) ∷ cores) (made, a) lt = rw made refl

-- `clear` of a pool of at least one core whose threads were created but not started never
-- returns: its first join has to wait, and after its first loop no thread has a step.
pub clear_unstarted :
    (setaffinity : List ℕ → ℕ) (cores : List (ℤ × Created)) (seclive : ℤ) (ts : List Task) (n : ℕ)
    → AllCreated cores
    → 0 < length cores
    → let p = init_pool setaffinity cores new_pool in
      (clear p ≡ none) × ¬ Move seclive (stop_pool p).tasks (stop_pool p).sem ts n
unfolding clear stop_pool init_pool
clear_unstarted setaffinity cores seclive ts n a some_core = (
  rw (release_tasks_idle setaffinity cores a some_core) refl,
  λ m. no_Move seclive m (init_tasks-IsIdle setaffinity cores a),
)

released-NoThread :
    (ts : List Task)
    → NoThread ts
    → (ts' : List Task) × (release_tasks ts ≡ some ts') × NoThread ts'
unfolding release_tasks release
released-NoThread [] none_left = ([], refl, tt)
released-NoThread (t ∷ ts) (free, none_left) =
    let (ts', e, none_left') = released-NoThread ts none_left in
    let t' : Task = record t { exit = true } in
    (t' ∷ ts', rw (release, free) (rw e refl), (free, none_left'))

stop-NoThread : (ts : List Task) → NoThread ts → NoThread (map stop ts)
stop-NoThread [] none_left = tt
stop-NoThread (t ∷ ts) (free, none_left) = (free, stop-NoThread ts none_left)

destroy_tasks_lem : (ts : List Task) → NoThread ts → destroy_tasks ts ≡ some tt
unfolding destroy_tasks release
destroy_tasks_lem [] none_left = refl
destroy_tasks_lem (t ∷ ts) (free, none_left) = rw (release, free) (destroy_tasks_lem ts none_left)

-- Once `clear` has returned, the destructor of the pool returns at once, though it calls `clear`
-- again and then releases each task a third time; the pool has no task then, and its semaphore is
-- as it was.
pub clear-destroy_pool :
    (p p' : Pool) → clear p ≡ some p' → destroy_pool p' ≡ some (record { tasks = []; sem = p.sem })
unfolding clear destroy_pool stop_pool
clear-destroy_pool p p' cleared = elim (Option-cases (release_tasks (map stop p.tasks))) [
  | inl stuck ↦ cc (rw stuck at cleared)
  | inr (ts, freed) ↦
      let none_left = release_tasks-NoThread (map stop p.tasks) ts freed in
      let e = some_inj (rw freed at cleared) in
      let (ts', freed', none_left') =
        released-NoThread (map stop ts) (stop-NoThread ts none_left) in
      rw (← e) (rw freed' (rw (destroy_tasks_lem ts' none_left') refl))
]
