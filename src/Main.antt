-- ===== src/Main.antt =====
-- src/main.cpp: what `main` does before its tasks run, and how long it waits for them. The
-- collection of the input files is in the module `FileList`.
pub mod Wait
pub mod Run
pub mod Whole
pub mod Binding
mod Tests
use ff_test.Base.Text.{Text}
use ff_test.Config.{Config, default_config}
use ff_test.Config.Getopt.{parse_argv}
use ff_test.FileList.{FileList, Mode, new_list, input_collect}
use ff_test.TaskPool.{Created, Pool, new_pool, init_pool, start_pool}
use ff_test.Base.{
  ℕ, List, [], ◌∷◌, zero, suc, ◌+◌, Bool, true, false, if◌then◌else◌, Option, none, some,
}
use ff_test.Base.Int.{ℤ, pos, negsuc, is_negative}

-- `while (!task_pool.is_stop()) sleep(1)`, over at most `fuel` tests, where `i` seconds have passed
-- and `is_stop i` is the answer at that time; the result is the time at the end.
pub poll : ℕ → (ℕ → Bool) → ℕ → Option ℕ
poll zero is_stop i = none
poll (suc fuel) is_stop i =
    let rest = poll fuel is_stop (i + 1) in if is_stop i then some i else rest

-- `while (seclive) { sleep(1); seclive--; }`
pub count_down : ℕ → ℕ → ℕ → Option ℕ
count_down zero seclive i = none
count_down (suc fuel) zero i = some i
count_down (suc fuel) (suc seclive) i = count_down fuel seclive (i + 1)

-- `wait_job_done`: the seconds that it waits, if it ends within `fuel` rounds. With a negative
-- number it pauses for ever.
pub wait_job_done : ℕ → ℤ → (ℕ → Bool) → Option ℕ
unfolding poll count_down
wait_job_done fuel (negsuc _) is_stop = none
wait_job_done fuel (pos zero) is_stop = poll fuel is_stop 0
wait_job_done fuel (pos (suc n)) is_stop = count_down fuel (suc n) 0

-- The cores of `m_vecCore` from the `i`-th on, each with the answers for its task.
abbrev pub with_answers : (ℕ → Created) → ℕ → List ℤ → List (ℤ × Created)
with_answers created i [] = []
with_answers created i (core ∷ cores) = (core, created i) ∷ with_answers created (i + 1) cores

-- `main` up to `task_pool.start()`: the settings, and the pool with its started tasks, or none when
-- there is no input file, where `main` returns -1.
pub prepare :
    (Text → Option Mode)
    → (Text → Option (List Text))
    → (List ℕ → ℕ)
    → (ℕ → Created)
    → List Text
    → Config × Option Pool
prepare stat readdir setaffinity created words =
    let cfg = parse_argv words default_config in
    let (ret, files) = input_collect stat readdir cfg.dir_path cfg.file_path new_list in
    (
      cfg,
      if is_negative ret
          then none
          else some
              (start_pool (init_pool setaffinity (with_answers created 0 cfg.vec_core) new_pool)),
    )
