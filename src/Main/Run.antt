-- ===== src/Main/Run.antt =====
-- What `main` of src/main.cpp comes to, from the command line to the end of its tasks.
use ff_test.Base.{
  ℕ, suc, ◌+◌, ◌*◌, ◌≤◌, ◌≡◌, ◌⊎◌, refl, ◌∙◌, inl, inr, true, false, if◌then◌else◌, Option, none,
  some, List, [], ◌∷◌, ◌++◌, length, some_inj, ap, Bool-cases,
}
use ff_test.Base.Int.{ℤ, pos, is_negative}
use ff_test.Base.Text.{Text, is_empty}
use ff_test.Config.{Config, default_config}
use ff_test.Config.Getopt.{getopt, parse_argv}
use ff_test.Config.Options.{last_of, parse_last}
use ff_test.FileList.{Mode, new_list, input_collect, ff_filter}
use ff_test.FileList.Search.{joined, input_collect_files}
use ff_test.TaskPool.{Task, Created, Pool, new_pool, init_pool, start_pool, is_stop}
use ff_test.TaskPool.Threads.{Move, Moves}
use ff_test.TaskPool.Threads.Counting.{IsCounted, init_pool-IsCounted, start_pool-IsCounted}
use ff_test.TaskPool.Threads.Ending.{AllCreated, one_loop_ends}
use ff_test.Main.{with_answers, prepare}

pub length-with_answers :
    (created : ℕ → Created) (i : ℕ) (cores : List ℤ)
    → length (with_answers created i cores) ≡ length cores
length-with_answers created i [] = refl
length-with_answers created i (core ∷ cores) = ap suc (length-with_answers created (i + 1) cores)

pub with_answers-AllCreated :
    (created : ℕ → Created) (i : ℕ) (cores : List ℤ)
    → ((j : ℕ) → (created j).ret ≡ pos 0)
    → AllCreated (with_answers created i cores)
with_answers-AllCreated created i [] made = tt
with_answers-AllCreated created i (core ∷ cores) made =
    (made i, with_answers-AllCreated created (i + 1) cores made)

-- The pool that `main` starts.
pub prepare_pool :
    (stat : Text → Option Mode) (readdir : Text → Option (List Text)) (setaffinity : List ℕ → ℕ)
    (created : ℕ → Created) (words : List Text) (p : Pool)
    → let (cfg, started) = prepare stat readdir setaffinity created words in
      started ≡ some p
      → start_pool (init_pool setaffinity (with_answers created 0 cfg.vec_core) new_pool) ≡ p
unfolding prepare
prepare_pool stat readdir setaffinity created words p e =
    let cfg : Config = parse_argv words default_config in
    let r = input_collect stat readdir cfg.dir_path cfg.file_path new_list in
    elim (Bool-cases (is_negative r.0)) [
      | inl missing ↦ cc (rw missing at e)
      | inr found ↦ some_inj (rw found at e)
    ]

-- Without the option 'l', when `main` has come to start its tasks and every thread could be
-- created: the threads of the pool take at most three steps for each core, in any order; and
-- while `is_stop` does not answer `true`, which ends the wait of `main`, some thread has a step.
pub main_ends :
    (stat : Text → Option Mode) (readdir : Text → Option (List Text)) (setaffinity : List ℕ → ℕ)
    (created : ℕ → Created) (words : List Text) (p : Pool) (k n : ℕ) (ts : List Task)
    → last_of b'l' (getopt none words) ≡ none
    → ((j : ℕ) → (created j).ret ≡ pos 0)
    → (prepare stat readdir setaffinity created words).1 ≡ some p
    → let cfg = (prepare stat readdir setaffinity created words).0 in
      Moves cfg.seclive p.tasks p.sem k ts n
      → (k ≤ 3 * length cfg.vec_core)
        × ((is_stop (length cfg.vec_core) (record { tasks = ts; sem = n }) ≡ true)
            ⊎ ((ts' : List Task) × (n' : ℕ) × Move cfg.seclive ts n ts' n'))
unfolding prepare parse_argv
main_ends stat readdir setaffinity created words p k n ts no_l made e ms =
    let cfg : Config = parse_argv words default_config in
    let (_, _, _, _, _, _, live, _) = parse_last (getopt none words) default_config in
    let one_loop : cfg.seclive ≡ pos 0 = live ∙ rw no_l refl in
    let cores = with_answers created 0 cfg.vec_core in
    let pool_is = prepare_pool stat readdir setaffinity created words p e in
    let ms' = rw one_loop at (rw (← pool_is) at ms) in
    rw one_loop (
      rw (length-with_answers created 0 cfg.vec_core) at (
        one_loop_ends setaffinity cores k n ts (with_answers-AllCreated created 0 cfg.vec_core made)
          ms'))

not_empty : (files : List Text) (file : Text) → is_empty (files ++ file ∷ []) ≡ false
not_empty [] file = refl
not_empty (f ∷ files) file = refl

collect_some :
    (stat : Text → Option Mode) (readdir : Text → Option (List Text)) (dir file : Text) (c : ℕ)
    (name : Text)
    → file ≡ c ∷ name
    → is_negative (input_collect stat readdir dir file new_list).0 ≡ false
collect_some stat readdir dir file c name path =
    rw (input_collect_files stat readdir dir file new_list, path)
      (rw
        (not_empty (if is_empty dir then [] else joined (ff_filter stat) dir (readdir dir))
          (c ∷ name))
        refl)

-- When the last option 'f' has an argument that is not empty, `main` starts its tasks, one for
-- each core, whether or not there is such a file.
pub main_file_given :
    (stat : Text → Option Mode) (readdir : Text → Option (List Text)) (setaffinity : List ℕ → ℕ)
    (created : ℕ → Created) (words : List Text) (c : ℕ) (name : Text)
    → last_of b'f' (getopt none words) ≡ some (c ∷ name)
    → let (cfg, started) = prepare stat readdir setaffinity created words in
      (p : Pool) × (started ≡ some p) × (length p.tasks ≡ length cfg.vec_core)
unfolding prepare parse_argv
main_file_given stat readdir setaffinity created words c name e =
    let cfg : Config = parse_argv words default_config in
    let (_, file, _, _, _, _, _, _) = parse_last (getopt none words) default_config in
    let path : cfg.file_path ≡ c ∷ name = file ∙ rw e refl in
    let cores = with_answers created 0 cfg.vec_core in
    let p : Pool = start_pool (init_pool setaffinity cores new_pool) in
    let counted : IsCounted (length cores) p.tasks p.sem =
      start_pool-IsCounted (length cores) (init_pool setaffinity cores new_pool)
        (init_pool-IsCounted setaffinity cores) in
    (
      p,
      rw (collect_some stat readdir cfg.dir_path cfg.file_path c name path) refl,
      counted.sized ∙ length-with_answers created 0 cfg.vec_core,
    )
