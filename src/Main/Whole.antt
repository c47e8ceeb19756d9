-- ===== src/Main/Whole.antt =====
-- `main` of src/main.cpp as a whole, while the threads of its tasks run.
pub mod Returns
use ff_test.Base.{ℕ, zero, suc, ◌+◌, Option, none, some, List, length, ◌>>=◌}
use ff_test.Base.Int.{ℤ, pos, negsuc}
use ff_test.Base.Text.{Text}
use ff_test.FileList.{Mode}
use ff_test.TaskPool.{Created, Pool, stop_pool, is_stop, release_tasks}
use ff_test.TaskPool.Threads.Schedule.{tick, after}
use ff_test.Main.{wait_job_done, prepare}

-- The second loop of `TaskPool::clear` from the tick `k` on, over at most `fuel` ticks: a join
-- waits, and the threads run on, until the thread of its task has returned.
pub join_tasks : ℕ → ℤ → (ℕ → ℕ) → ℕ → Pool → Option Pool
join_tasks zero seclive picks k p = none
join_tasks (suc fuel) seclive picks k p = elim (release_tasks p.tasks) [
  | some ts ↦ some (record p { tasks = ts })
  | none ↦ join_tasks fuel seclive picks (suc k) (tick seclive (picks k) p)
]

-- `TaskPool::clear` from the tick `k` on.
pub clear_running : ℕ → ℤ → (ℕ → ℕ) → ℕ → Pool → Option Pool
unfolding join_tasks
clear_running fuel seclive picks k p = join_tasks fuel seclive picks k (stop_pool p)

-- What the program meets: the files, the answers of the thread library, the thread that runs at
-- each tick, and the ticks that have passed at each second of the wait.
pub record Outside : Type 0 where
  pub stat : Text → Option Mode
  pub readdir : Text → Option (List Text)
  pub setaffinity : List ℕ → ℕ
  pub created : ℕ → Created
  pub picks : ℕ → ℕ
  pub clock : ℕ → ℕ

-- From `wait_job_done` to the `return`, for the settings' `seclive` and number of cores.
pub finish : ℕ → Outside → ℤ → ℕ → Pool → Option (ℤ × Option Pool)
unfolding clear_running
finish fuel o seclive size p = do
  seconds ← wait_job_done fuel seclive (λ s. is_stop size (after seclive o.picks 0 (o.clock s) p))
  p' ←
      clear_running fuel seclive o.picks (o.clock seconds)
        (after seclive o.picks 0 (o.clock seconds) p)
  some (pos 0, some p')

-- `main`, for the words of a command line: its result, and the pool that it leaves, if it made one.
pub main : ℕ → Outside → List Text → Option (ℤ × Option Pool)
unfolding finish
main fuel o words =
    let (cfg, started) = prepare o.stat o.readdir o.setaffinity o.created words in
    elim started [
      | none ↦ some (negsuc 0, none)
      | some p ↦ finish fuel o cfg.seclive (length cfg.vec_core) p
    ]
