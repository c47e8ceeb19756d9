-- ===== src/Main/Whole/Returns.antt =====
-- When `main` of src/main.cpp returns.
use ff_test.Base.{
  ℕ, zero, suc, ◌+◌, ◌≤◌, ◌<◌, ◌≡◌, refl, ◌∙◌, inl, inr, Bool, true, false, some, List, [], ◌∷◌,
  All, arith, length, Bool-cases, Option-cases,
}
use ff_test.Base.Int.{ℤ, pos}
use ff_test.Base.Text.{Text}
use ff_test.TaskPool.{Task, Pool, stop_pool, is_stop, release_tasks}
use ff_test.TaskPool.Threads.Counting.{IsCounted, AllFinished, counted-is_stop, stop_pool-IsCounted}
use ff_test.TaskPool.Threads.Ending.{CanEnd, ranks}
use ff_test.TaskPool.Threads.Clearing.{
  stop_pool-CanEnd, NoThread, release_tasks-NoThread, release_tasks_finished,
}
use ff_test.TaskPool.Threads.Schedule.{
  tick, after, after_first, AllStarted, start_pool-AllStarted, after-IsCounted, after-AllStarted,
  finished_later,
}
use ff_test.TaskPool.Threads.Fair.{Fair, settle}
use ff_test.Main.{wait_job_done, with_answers, prepare}
use ff_test.Main.Run.{length-with_answers, with_answers-AllCreated, prepare_pool}
use ff_test.Main.Wait.{count_down_lem, wait_job_done_lem}
use ff_test.Main.Whole.{join_tasks, clear_running, Outside, finish, main}

-- The joins return when the threads have returned, if not before.
join_tasks-NoThread :
    (seclive : ℤ) (picks : ℕ → ℕ) (d k fuel : ℕ) (p : Pool)
    → AllFinished (after seclive picks k d p).tasks
    → d < fuel
    → (p' : Pool) × (join_tasks fuel seclive picks k p ≡ some p') × NoThread p'.tasks
unfolding join_tasks
join_tasks-NoThread seclive picks d k zero p over lt = absurd (omega arith)
join_tasks-NoThread seclive picks zero k (suc fuel) p over lt =
    unfold after in
    let (ts, freed, _, none_left) = release_tasks_finished p.tasks over in
    (record p { tasks = ts }, rw (join_tasks, freed) refl, none_left)
join_tasks-NoThread seclive picks (suc d) k (suc fuel) p over lt =
    elim (Option-cases (release_tasks p.tasks)) [
      | inr (ts, freed) ↦ (
        record p { tasks = ts },
        rw (join_tasks, freed) refl,
        release_tasks-NoThread p.tasks ts freed,
      )
      | inl waiting ↦
          let over' = rw (after_first seclive picks k d p) at over in
          let (p', run, none_left) =
            join_tasks-NoThread seclive picks d (suc k) fuel (tick seclive (picks k) p) over'
              (omega arith) in
          (p', rw (join_tasks, waiting) run, none_left)
    ]

-- The first number of which a test is true.
first_true :
    (n : ℕ) (f : ℕ → Bool) → f n ≡ true → (m : ℕ) × (f m ≡ true) × ((j : ℕ) → j < m → f j ≡ false)
first_true zero f now = (zero, now, λ j h. absurd (omega arith))
first_true (suc n) f now = elim (Bool-cases (f zero)) [
  | inl first ↦ (zero, first, λ j h. absurd (omega arith))
  | inr later ↦
      let (m, found, before) = first_true n (λ j. f (suc j)) now in
      (suc m, found, below f m later before)
]
  where
    below :
        (f : ℕ → Bool) (m : ℕ)
        → f zero ≡ false
        → ((j : ℕ) → j < m → f (suc j) ≡ false)
        → (j : ℕ) → j < suc m
        → f j ≡ false
    below f m later before zero h = later
    below f m later before (suc j) h = before j (omega arith)

started-CanEnd : (ts : List Task) → AllStarted ts → All (CanEnd (pos 0)) ts
started-CanEnd [] a = tt
started-CanEnd (t ∷ ts) (s, a) = ((s, inr refl), started-CanEnd ts a)

-- The seconds of the wait go on as long as the threads need.
abbrev pub Ticks : (ℕ → ℕ) → Type 0
Ticks clock = (k : ℕ) → (s : ℕ) × (k ≤ clock s)

-- The wait ends, with `more` rounds beyond enough.
wait_ends :
    (o : Outside) (n size : ℕ) (p : Pool)
    → IsCounted size p.tasks p.sem
    → AllStarted p.tasks
    → Fair o.picks size
    → Ticks o.clock
    → (bound : ℕ) × (seconds : ℕ) × ((more : ℕ)
        → wait_job_done
            (bound + more)
            (pos n)
            (λ s. is_stop size (after (pos n) o.picks 0 (o.clock s) p))
          ≡ some seconds)
wait_ends o zero size p v s fair ticks =
    let (d, over) =
      settle (pos 0) o.picks size (ranks p.tasks) 0 p fair (omega arith)
        (started-CanEnd p.tasks s, v.sized) in
    let (sec, le) = ticks d in
    let stops : ℕ → Bool = λ i. is_stop size (after (pos 0) o.picks 0 (o.clock i) p) in
    let counted = after-IsCounted (pos 0) o.picks size 0 (o.clock sec) p v in
    let over' = finished_later (pos 0) o.picks 0 d (o.clock sec) p over le in
    let (m, found, before) = first_true sec stops ((counted-is_stop size _ counted).1 over') in
    (
      suc (suc m),
      m,
      λ more.
          (wait_job_done_lem m 0 0 (suc (suc m) + more) stops (omega arith) (omega arith) found
            before).0,
    )
wait_ends o (suc n) size p v s fair ticks = (
  suc (suc n),
  0 + suc n,
  λ more. unfold wait_job_done in count_down_lem (suc n) (suc (suc n) + more) 0 (omega arith),
)

-- The joins end as well, and leave no thread.
clear_ends_too :
    (seclive : ℤ) (picks : ℕ → ℕ) (size k : ℕ) (p : Pool)
    → IsCounted size p.tasks p.sem
    → AllStarted p.tasks
    → Fair picks size
    → (bound : ℕ) × ((more : ℕ)
        → (p' : Pool) × (clear_running (bound + more) seclive picks k p ≡ some p')
          × NoThread p'.tasks)
unfolding clear_running
clear_ends_too seclive picks size k p v s fair =
    let told = stop_pool-CanEnd seclive p s in
    let (d, over) =
      settle seclive picks size (ranks (stop_pool p).tasks) k (stop_pool p) fair (omega arith)
        (told, (stop_pool-IsCounted size p v).sized) in
    (
      suc d,
      λ more. join_tasks-NoThread seclive picks d k (suc d + more) (stop_pool p) over (omega arith),
    )

finish_lem :
    (fuel : ℕ) (o : Outside) (seclive : ℤ) (size seconds : ℕ) (p p' : Pool)
    → wait_job_done fuel seclive (λ s. is_stop size (after seclive o.picks 0 (o.clock s) p))
      ≡ some seconds
    → clear_running fuel seclive o.picks
        (o.clock seconds)
        (after seclive o.picks 0 (o.clock seconds) p)
      ≡ some p'
    → finish fuel o seclive size p ≡ some (pos 0, some p')
unfolding finish
finish_lem fuel o seclive size seconds p p' waited cleared = rw (waited, cleared) refl

finish_returns :
    (o : Outside) (n size : ℕ) (p : Pool)
    → IsCounted size p.tasks p.sem
    → AllStarted p.tasks
    → Fair o.picks size
    → Ticks o.clock
    → (bound : ℕ) × ((more : ℕ)
        → (p' : Pool) × (finish (bound + more) o (pos n) size p ≡ some (pos 0, some p'))
          × NoThread p'.tasks)
finish_returns o n size p v s fair ticks =
    let (wait, seconds, waited) = wait_ends o n size p v s fair ticks in
    let at : ℕ = o.clock seconds in
    let (join, joined) =
      clear_ends_too (pos n) o.picks size at (after (pos n) o.picks 0 at p)
        (after-IsCounted (pos n) o.picks size 0 at p v) (after-AllStarted (pos n) o.picks 0 at p s)
        fair in
    (
      wait + join,
      λ more.
          let first : wait + join + more ≡ wait + (join + more) = omega arith in
          let second : wait + join + more ≡ join + (wait + more) = omega arith in
          let (p', run, none_left) = joined (wait + more) in
          (
            p',
            finish_lem (wait + join + more) o (pos n) size seconds p p'
                (rw first (waited (join + more))) (rw second run),
            none_left,
          ),
    )

main-finish :
    (fuel : ℕ) (o : Outside) (words : List Text) (p : Pool)
    → let (cfg, started) = prepare o.stat o.readdir o.setaffinity o.created words in
      started ≡ some p → main fuel o words ≡ finish fuel o cfg.seclive (length cfg.vec_core) p
unfolding main
main-finish fuel o words p begun = rw (main, begun) refl

-- Without the option 'l', or with one that is not negative, when `main` has come to start its
-- tasks, every thread could be created, the scheduler is fair to the threads and time goes on:
-- `main` returns 0, and no task keeps a thread.
pub main_returns :
    (o : Outside) (words : List Text) (n : ℕ) (p : Pool)
    → let (cfg, started) = prepare o.stat o.readdir o.setaffinity o.created words in
      cfg.seclive ≡ pos n
      → started ≡ some p
      → ((j : ℕ) → (o.created j).ret ≡ pos 0)
      → Fair o.picks (length cfg.vec_core)
      → Ticks o.clock
      → (bound : ℕ) × ((more : ℕ)
          → (p' : Pool) × (main (bound + more) o words ≡ some (pos 0, some p')) × NoThread p'.tasks)
main_returns o words n p live begun made fair ticks =
    let cfg = (prepare o.stat o.readdir o.setaffinity o.created words).0 in
    let (started, counted) =
      start_pool-AllStarted o.setaffinity (with_answers o.created 0 cfg.vec_core)
        (with_answers-AllCreated o.created 0 cfg.vec_core made) in
    let pool_is = prepare_pool o.stat o.readdir o.setaffinity o.created words p begun in
    let counted' = rw (length-with_answers o.created 0 cfg.vec_core, pool_is) at counted in
    let (bound, returns) =
      finish_returns o n (length cfg.vec_core) p counted' (rw pool_is at started) fair ticks in
    (
      bound,
      λ more.
          let (p', run, none_left) = returns more in
          (p', main-finish (bound + more) o words p begun ∙ rw live run, none_left),
    )
