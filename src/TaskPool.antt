-- ===== src/TaskPool.antt =====
-- src/TaskPool.hpp, src/TaskPool.cpp and the thread of a task in src/Task.cpp: `Task::svc`, what
-- the main thread does to a task, and the pool of tasks with its semaphore. A thread goes one step
-- at a time, from its place in `svc`.
pub mod Threads
pub mod Binding
mod Tests
use ff_test.Base.{
  ℕ, zero, suc, ◌+◌, ◌-◌, ◌%◌, Bool, true, false, if◌then◌else◌, Option, none, some, List, [], ◌∷◌,
  ◌++◌, map, ◌==◌, ◌>>=◌, u8_mod,
}
use ff_test.Base.Int.{ℤ, pos, negsuc, is_negative, is_zero, eqb}
use ff_test.Utils.{cpus_of, util_cpu_bind}
use ff_test.Utils.Laws.{core_mask}

-- Where a task's thread is: there is none, it is at `sem_wait`, at the test of `m_bExit`, before
-- `pool.notify()`, or it has returned.
pub data Place : Type 0 where
  absent waiting looping leaving finished : Place

-- `has_thread` is `m_tid != 0`; `cpus` are the processors that the thread has been bound to, if it
-- has.
pub record Task : Type 0 where
  pub has_thread : Bool
  pub exit : Bool
  pub core_id : ℕ
  pub sem : ℕ
  pub place : Place
  pub cpus : Option (List ℕ)

-- `Task::Task()`
abbrev pub new_task : Task
new_task = record {
  has_thread = false;
  exit = false;
  core_id = 1;
  sem = 0;
  place = absent;
  cpus = none;
}

-- What `pthread_create` answers, and whether the thread id that it leaves after an error is not 0,
-- which POSIX does not say.
pub record Created : Type 0 where
  pub ret : ℤ
  pub leaves_tid : Bool

-- `util_cpu_bind(m_tid, 1 << m_core_id)` for a thread that is there: its result, and the task after
-- it. `setaffinity` is `pthread_setaffinity_np` for the thread. The shift is defined up to the core
-- 31.
unfoldable pub bind_thread : (List ℕ → ℕ) → Task → ℤ × Task
bind_thread setaffinity t =
    let mask = core_mask t.core_id in
    let ret = util_cpu_bind setaffinity mask in
    (ret, record t { cpus = if is_zero ret then some (cpus_of mask) else t.cpus })

-- `Task::init`. It does not look at the result of the binding; with an error number from
-- `pthread_create` there is no thread to bind.
unfoldable pub init : (List ℕ → ℕ) → Created → Task → Bool × Task
unfolding bind_thread
init setaffinity c t =
    if is_negative c.ret
    then (false, record t { has_thread = false })
    else if is_zero c.ret
    then (true, (bind_thread setaffinity (record t { has_thread = true; place = waiting })).1)
    else (true, record t { has_thread = c.leaves_tid })

-- `Task::start`
unfoldable pub start : Task → Bool × Task
start t = if t.has_thread then (true, record t { sem = suc t.sem }) else (false, t)

-- `Task::stop`, which always answers `true`
abbrev pub stop : Task → Task
stop t = record t { exit = true }

abbrev pub is_finished : Place → Bool
is_finished finished = true
is_finished _ = false

-- `Task::release`, when it returns at once: `pthread_join` waits until the thread has returned.
unfoldable pub release : Task → Option Task
release t =
    if t.has_thread
    then (if is_finished t.place then some (record t { exit = true; has_thread = false }) else none)
    else some (record t { exit = true })

-- The cast of an `int` to uint8_t.
abbrev pub to_u8 : ℤ → ℕ
to_u8 (pos n) = n % u8_mod
to_u8 (negsuc n) = u8_mod - 1 - n % u8_mod

-- `Task::set_affinity`
unfoldable pub set_affinity : (List ℕ → ℕ) → ℤ → Task → Bool × Task
unfolding bind_thread
set_affinity setaffinity core t =
    let t' = record t { core_id = to_u8 core } in
    if t.has_thread
    then (let (ret, t'') = bind_thread setaffinity t' in (is_zero ret, t''))
    else (true, t')

-- `TaskPool::notify`, on the pool's semaphore.
abbrev pub notify : ℕ → ℕ
notify pool_sem = suc pool_sem

-- One step of `Task::svc`, with the pool's semaphore; `none` when the thread has to wait or is
-- over.
unfoldable pub svc_step : ℤ → Task → ℕ → Option (Task × ℕ)
svc_step seclive t pool_sem = elim t.place [
  | absent ↦ none
  | waiting ↦ elim t.sem [
    | zero ↦ none
    | suc n ↦ some (record t { sem = n; place = looping }, pool_sem)
  ]
  | looping ↦
      if t.exit
      then some (record t { place = leaving }, pool_sem)
      else if is_zero seclive
      then some (record t { place = leaving }, pool_sem)
      else some (t, pool_sem)
  | leaving ↦ some (record t { place = finished }, notify pool_sem)
  | finished ↦ none
]

pub record Pool : Type 0 where
  pub tasks : List Task
  pub sem : ℕ

-- `TaskPool::TaskPool()`
abbrev pub new_pool : Pool
new_pool = record { tasks = []; sem = 0 }

-- `TaskPool::init` for the cores of `m_vecCore`, each with the answers for its task.
unfoldable pub init_tasks : (List ℕ → ℕ) → List (ℤ × Created) → List Task
unfolding init set_affinity
init_tasks setaffinity [] = []
init_tasks setaffinity ((core, c) ∷ cores) =
    (init setaffinity c (set_affinity setaffinity core new_task).1).1 ∷ init_tasks setaffinity cores

unfoldable pub init_pool : (List ℕ → ℕ) → List (ℤ × Created) → Pool → Pool
unfolding init_tasks
init_pool setaffinity cores p = record p { tasks = p.tasks ++ init_tasks setaffinity cores }

-- `TaskPool::start`
unfoldable pub start_pool : Pool → Pool
unfolding start
start_pool p = record p { tasks = map (λ t. (start t).1) p.tasks }

-- `TaskPool::stop`, and the first loop of `TaskPool::clear`
pub stop_pool : Pool → Pool
stop_pool p = record p { tasks = map stop p.tasks }

-- `TaskPool::is_stop`; `size` is `m_vecCore.size()`.
abbrev pub is_stop : ℕ → Pool → Bool
is_stop size p = p.sem == size

-- The second loop of `TaskPool::clear`, when no join has to wait.
pub release_tasks : List Task → Option (List Task)
unfolding release
release_tasks [] = some []
release_tasks (t ∷ ts) = do t' ← release t; ts' ← release_tasks ts; some (t' ∷ ts')

-- `TaskPool::clear`, when no join has to wait.
pub clear : Pool → Option Pool
unfolding release_tasks stop_pool
clear p = do ts ← release_tasks (stop_pool p).tasks; some (record p { tasks = ts })

-- `Task::~Task`, when its `release` returns.
abbrev pub destroy_task : Task → Option Task
destroy_task t = release t

-- The loop of `~TaskPool` that deletes the tasks.
pub destroy_tasks : List Task → Option (Unit {0})
unfolding release
destroy_tasks [] = some tt
destroy_tasks (t ∷ ts) = do _ ← destroy_task t; destroy_tasks ts

-- `TaskPool::~TaskPool`, when no join has to wait.
pub destroy_pool : Pool → Option Pool
unfolding clear destroy_tasks
destroy_pool p = do p' ← clear p; _ ← destroy_tasks p'.tasks; some (record p' { tasks = [] })
