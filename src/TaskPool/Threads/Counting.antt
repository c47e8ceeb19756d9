-- ===== src/TaskPool/Threads/Counting.antt =====
-- What the semaphore of the pool of src/TaskPool.cpp counts.
use ff_test.Base.{
  ℕ, ◌+◌, ◌≤◌, ◌≡◌, ◌↔◌, refl, sym, ◌∙◌, true, some, List, [], ◌∷◌, map, All, arith, length,
}
use ff_test.Base.Int.{ℤ}
use ff_test.TaskPool.{
  Place, absent, waiting, looping, leaving, finished, Task, Created, init, start, stop, release,
  svc_step, set_affinity, Pool, new_pool, init_tasks, init_pool, start_pool, stop_pool, is_stop,
}
use ff_test.TaskPool.Threads.{
  Move, first, later, Joins, joins_first, joins_later, Step, threads, starts, stops, releases,
  Reach, here, then_step,
}

-- 1 for a thread that has returned.
abbrev pub done : Place → ℕ
done finished = 1
done _ = 0

abbrev pub done_count : List Task → ℕ
done_count [] = 0
done_count (t ∷ ts) = done t.place + done_count ts

-- The semaphore counts the threads that have returned, and there are `size` tasks.
pub record IsCounted (size : ℕ) (ts : List Task) (n : ℕ) : Type 0 where
  pub counted : n ≡ done_count ts
  pub sized : length ts ≡ size

svc_step-done :
    (seclive : ℤ) (t t' : Task) (n n' : ℕ)
    → svc_step seclive t n ≡ some (t', n')
    → n' + done t.place ≡ n + done t'.place
unfolding svc_step
svc_step-done seclive t t' n n' e = ground (arith, svc_step)

pub Move-done :
    (seclive : ℤ) {ts ts' : List Task} {n n' : ℕ}
    → Move seclive ts n ts' n'
    → (n' + done_count ts ≡ n + done_count ts') × (length ts ≡ length ts')
Move-done seclive {n = n} {n' = n'} (first {t} {t'} e) =
    (omega (arith, svc_step-done seclive t t' n n' e), refl)
Move-done seclive (later m) =
    let (d, l) = Move-done seclive m in (omega (arith, d), omega (arith, l))

start-done :
    (ts : List Task)
    → (done_count (map (λ t. (start t).1) ts) ≡ done_count ts)
      × (length (map (λ t. (start t).1) ts) ≡ length ts)
unfolding start
start-done [] = (refl, refl)
start-done (t ∷ ts) = ground (arith, start-done ts)

stop-done :
    (ts : List Task)
    → (done_count (map stop ts) ≡ done_count ts) × (length (map stop ts) ≡ length ts)
stop-done [] = (refl, refl)
stop-done (t ∷ ts) = let (d, l) = stop-done ts in (omega (arith, d), omega (arith, l))

release-place : (t t' : Task) → release t ≡ some t' → t'.place ≡ t.place
unfolding release
release-place t t' e = ground arith

Joins-done :
    {ts ts' : List Task}
    → Joins ts ts'
    → (done_count ts' ≡ done_count ts) × (length ts' ≡ length ts)
Joins-done (joins_first {t} {t'} e) = rw (release-place t t' e) (refl, refl)
Joins-done (joins_later j) = let (d, l) = Joins-done j in (omega (arith, d), omega (arith, l))

pub start_pool-IsCounted :
    (size : ℕ) (p : Pool)
    → IsCounted size p.tasks p.sem
    → IsCounted size (start_pool p).tasks (start_pool p).sem
unfolding start_pool
start_pool-IsCounted size p v =
    let (d, l) = start-done p.tasks in record { counted = v.counted ∙ sym d; sized = l ∙ v.sized }

pub stop_pool-IsCounted :
    (size : ℕ) (p : Pool)
    → IsCounted size p.tasks p.sem
    → IsCounted size (stop_pool p).tasks (stop_pool p).sem
unfolding stop_pool
stop_pool-IsCounted size p v =
    let (d, l) = stop-done p.tasks in record { counted = v.counted ∙ sym d; sized = l ∙ v.sized }

Step-IsCounted :
    (seclive : ℤ) (size : ℕ) {p q : Pool}
    → Step seclive p q
    → IsCounted size p.tasks p.sem
    → IsCounted size q.tasks q.sem
Step-IsCounted seclive size (threads m) v =
    let (d, l) = Move-done seclive m in
    record { counted = omega (arith, d, v.counted); sized = omega (arith, l, v.sized) }
Step-IsCounted seclive size {p} starts v = start_pool-IsCounted size p v
Step-IsCounted seclive size {p} stops v = stop_pool-IsCounted size p v
Step-IsCounted seclive size (releases j) v =
    let (d, l) = Joins-done j in record { counted = v.counted ∙ sym d; sized = l ∙ v.sized }

Reach-IsCounted :
    (seclive : ℤ) (size : ℕ) {p q : Pool}
    → Reach seclive p q
    → IsCounted size p.tasks p.sem
    → IsCounted size q.tasks q.sem
Reach-IsCounted seclive size here v = v
Reach-IsCounted seclive size (then_step r s) v =
    Step-IsCounted seclive size s (Reach-IsCounted seclive size r v)

init_tasks-done :
    (setaffinity : List ℕ → ℕ) (cores : List (ℤ × Created))
    → (done_count (init_tasks setaffinity cores) ≡ 0)
      × (length (init_tasks setaffinity cores) ≡ length cores)
unfolding init_tasks init set_affinity
init_tasks-done setaffinity [] = (refl, refl)
init_tasks-done setaffinity ((core, c) ∷ cores) = ground (arith, init_tasks-done setaffinity cores)

done-finished : (x : Place) → (done x ≤ 1) × ((done x ≡ 1) ↔ (x ≡ finished))
done-finished absent = ground arith
done-finished waiting = ground arith
done-finished looping = ground arith
done-finished leaving = ground arith
done-finished finished = (omega arith, ((λ e. refl), (λ e. refl)))

done_count_le : (ts : List Task) → done_count ts ≤ length ts
done_count_le [] = omega arith
done_count_le (t ∷ ts) = omega (arith, done_count_le ts, (done-finished t.place).0)

abbrev pub AllFinished : List Task → Type 0
AllFinished = All (λ t. t.place ≡ finished)

all_done : (ts : List Task) → (done_count ts ≡ length ts) ↔ AllFinished ts
all_done [] = ((λ e. tt), (λ a. refl))
all_done (t ∷ ts) =
    let le = done_count_le ts in
    let (small, (to, from)) = done-finished t.place in
    let (rest, back) = all_done ts in
    (
      λ e. (to (omega (arith, le, small)), rest (omega (arith, le, small))),
      λ a. omega (arith, from a.0, back a.1),
    )

-- With the count right, `is_stop` tells whether all threads have returned.
pub counted-is_stop :
    (size : ℕ) (p : Pool)
    → IsCounted size p.tasks p.sem
    → (is_stop size p ≡ true) ↔ AllFinished p.tasks
counted-is_stop size p v =
    let (to, from) = all_done p.tasks in
    (λ e. to (ground (arith, v.counted, v.sized)), λ a. ground (arith, v.counted, v.sized, from a))

pub init_pool-IsCounted :
    (setaffinity : List ℕ → ℕ) (cores : List (ℤ × Created))
    → let p = init_pool setaffinity cores new_pool in IsCounted (length cores) p.tasks p.sem
unfolding init_pool
init_pool-IsCounted setaffinity cores =
    let (d, l) = init_tasks-done setaffinity cores in record { counted = sym d; sized = l }

-- Whatever the threads and the main thread do after the `init` of a new pool, in any order,
-- `is_stop` answers `true` exactly when every task has a thread that has returned.
pub is_stop_iff :
    (setaffinity : List ℕ → ℕ) (cores : List (ℤ × Created)) (seclive : ℤ) (p : Pool)
    → Reach seclive (init_pool setaffinity cores new_pool) p
    → (is_stop (length cores) p ≡ true) ↔ AllFinished p.tasks
is_stop_iff setaffinity cores seclive p r =
    counted-is_stop (length cores) p
      (Reach-IsCounted seclive (length cores) r (init_pool-IsCounted setaffinity cores))
