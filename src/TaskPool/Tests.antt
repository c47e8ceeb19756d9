-- ===== src/TaskPool/Tests.antt =====
-- Pools of one thread on which the theorems about src/TaskPool.cpp apply.
use ff_test.Base.{
  ℕ, ◌≤◌, ◌≡◌, ◌↔◌, ◌⊎◌, refl, true, false, none, some, List, [], ◌∷◌, arith, length, All,
}
use ff_test.Base.Int.{ℤ, pos}
use ff_test.Utils.{util_cpu_bind, cpus_of, cpus_from}
use ff_test.TaskPool.{
  Place, waiting, looping, leaving, finished, Task, Created, init, set_affinity, bind_thread, start,
  svc_step, Pool, new_pool, init_tasks, init_pool, start_pool, stop_pool, is_stop, release_tasks,
  clear,
}
use ff_test.TaskPool.Threads.{
  Move, first, later, Moves, still, move, threads, starts, Reach, here, then_step,
}
use ff_test.TaskPool.Threads.Counting.{IsCounted, AllFinished, is_stop_iff}
use ff_test.TaskPool.Threads.Ending.{one_loop_ends}
use ff_test.TaskPool.Threads.Clearing.{clear_ends, clear_unstarted}

abbrev binds : List ℕ → ℕ
binds cpus = 0

abbrev one_core : List (ℤ × Created)
one_core = (pos 1, record { ret = pos 0; leaves_tid = true }) ∷ []

-- The task of that core, with a thread.
abbrev task_at : Place → ℕ → Task
task_at place sem = record {
  has_thread = true;
  exit = false;
  core_id = 1;
  sem = sem;
  place = place;
  cpus = some (1 ∷ []);
}

abbrev pool_of : Task → ℕ → Pool
pool_of t sem = record { tasks = t ∷ []; sem = sem }

one_run : Reach (pos 0) (init_pool binds one_core new_pool) (pool_of (task_at finished 0) 1)
unfolding init_pool init_tasks init set_affinity bind_thread util_cpu_bind cpus_of cpus_from
    start_pool start svc_step
one_run =
    then_step
      (then_step
        (then_step (then_step here starts)
          (threads {ts = task_at looping 0 ∷ []} {n = 0} (first refl)))
        (threads {ts = task_at leaving 0 ∷ []} {n = 0} (first refl)))
      (threads {ts = task_at finished 0 ∷ []} {n = 1} (first refl))

is_stop_iff_example :
    (is_stop 1 (pool_of (task_at finished 0) 1) ≡ true) ↔ AllFinished (task_at finished 0 ∷ [])
is_stop_iff_example = is_stop_iff binds one_core (pos 0) (pool_of (task_at finished 0) 1) one_run

first_steps :
    let p = start_pool (init_pool binds one_core new_pool) in
    Moves (pos 0) p.tasks p.sem 2 (task_at leaving 0 ∷ []) 0
unfolding init_pool init_tasks init set_affinity bind_thread util_cpu_bind cpus_of cpus_from
    start_pool start svc_step
first_steps =
    move (move {ts' = task_at waiting 1 ∷ []} still (first {t' = task_at looping 0} {n' = 0} refl))
      (first refl)

one_loop_ends_example :
    (2 ≤ 3)
    × ((is_stop 1 (pool_of (task_at leaving 0) 0) ≡ true)
        ⊎ ((ts' : List Task) × (n' : ℕ) × Move (pos 0) (task_at leaving 0 ∷ []) 0 ts' n'))
one_loop_ends_example =
    one_loop_ends binds one_core 2 0 (task_at leaving 0 ∷ []) (refl, tt) first_steps

-- A thread that loops without end until it is told to stop.
looping_pool-IsCounted : IsCounted 1 (task_at looping 0 ∷ []) 0
looping_pool-IsCounted = record { counted = refl; sized = refl }

abbrev told : Place → Task
told place = record (task_at place 0) { exit = true }

stop_steps :
    let p = stop_pool (pool_of (task_at looping 0) 0) in
    Moves (pos 5) p.tasks p.sem 2 (told finished ∷ []) 1
unfolding stop_pool svc_step
stop_steps =
    move (move {ts' = told looping ∷ []} still (first {t' = told leaving} {n' = 0} refl))
      (first refl)

no_step_left : (ts' : List Task) (n' : ℕ) → ¬ Move (pos 5) (told finished ∷ []) 1 ts' n'
unfolding svc_step
no_step_left ts' n' (first e) = cc
no_step_left ts' n' (later m) = no_task m
  where
    no_task : {ts : List Task} {i : ℕ} → ¬ Move (pos 5) [] 1 ts i
    no_task m = elim m [ ]

clear_ends_example :
    (2 ≤ 3)
    × (ts' : List Task) × (release_tasks (told finished ∷ []) ≡ some ts')
    × (length ts' ≡ 1)
    × All (λ t. t.has_thread ≡ false) ts'
clear_ends_example =
    clear_ends (pos 5) 1 2 1 (pool_of (task_at looping 0) 0) (told finished ∷ [])
      looping_pool-IsCounted (tt, tt) stop_steps no_step_left

clear_unstarted_example :
    let p = init_pool binds one_core new_pool in
    (clear p ≡ none) × ¬ Move (pos 0) (stop_pool p).tasks (stop_pool p).sem [] 0
clear_unstarted_example = clear_unstarted binds one_core (pos 0) [] 0 (refl, tt) (omega arith)
