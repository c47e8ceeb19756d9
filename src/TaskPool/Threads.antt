-- ===== src/TaskPool/Threads.antt =====
-- The runs of the threads of src/Task.cpp beside the main thread's calls of src/TaskPool.cpp.
pub mod Counting
pub mod Ending
pub mod Clearing
pub mod Schedule
pub mod Fair
use ff_test.Base.{ℕ, zero, suc, ◌+◌, ◌≡◌, Option, some, List, [], ◌∷◌}
use ff_test.Base.Int.{ℤ}
use ff_test.TaskPool.{Task, svc_step, Pool, start_pool, stop_pool, release}

-- One thread of the list takes one step: it changes its task and the pool's semaphore.
pub data Move (seclive : ℤ) : List Task → ℕ → List Task → ℕ → Type 0 where
  first :
      {t t' : Task} {ts : List Task} {n n' : ℕ}
      → svc_step seclive t n ≡ some (t', n')
      → Move seclive (t ∷ ts) n (t' ∷ ts) n'
  later :
      {t : Task} {ts ts' : List Task} {n n' : ℕ}
      → Move seclive ts n ts' n'
      → Move seclive (t ∷ ts) n (t ∷ ts') n'

-- `k` steps of threads, in any order.
pub data Moves (seclive : ℤ) (ts : List Task) (n : ℕ) : ℕ → List Task → ℕ → Type 0 where
  still : Moves seclive ts n zero ts n
  move :
      {k : ℕ} {ts' ts'' : List Task} {n' n'' : ℕ}
      → Moves seclive ts n k ts' n'
      → Move seclive ts' n' ts'' n''
      → Moves seclive ts n (suc k) ts'' n''

-- One task of the list is released.
pub data Joins : List Task → List Task → Type 0 where
  joins_first : {t t' : Task} {ts : List Task} → release t ≡ some t' → Joins (t ∷ ts) (t' ∷ ts)
  joins_later : {t : Task} {ts ts' : List Task} → Joins ts ts' → Joins (t ∷ ts) (t ∷ ts')

-- What can happen to a pool after its `init`: a thread's step, `start`, `stop`, and the return of
-- the `release` of one task.
pub data Step (seclive : ℤ) (p : Pool) : Pool → Type 0 where
  threads :
      {ts : List Task} {n : ℕ}
      → Move seclive p.tasks p.sem ts n
      → Step seclive p (record { tasks = ts; sem = n })
  starts : Step seclive p (start_pool p)
  stops : Step seclive p (stop_pool p)
  releases : {ts : List Task} → Joins p.tasks ts → Step seclive p (record p { tasks = ts })

pub data Reach (seclive : ℤ) (p : Pool) : Pool → Type 0 where
  here : Reach seclive p p
  then_step : {q r : Pool} → Reach seclive p q → Step seclive q r → Reach seclive p r
