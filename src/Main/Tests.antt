-- ===== src/Main/Tests.antt =====
-- A run with one input file, for the theorem about src/main.cpp as a whole.
use ff_test.Base.{
  inl, inr, Bool-cases, if◌then◌else◌, ℕ, ◌+◌, ◌≡◌, refl, true, false, Option, some, none, List, [],
  ◌∷◌, arith,
}
use ff_test.Base.Int.{pos}
use ff_test.Base.Text.{Text}
use ff_test.Config.{parse, apply_option}
use ff_test.Config.Getopt.{requires_argument, letters, getopt, parse_argv}
use ff_test.FileList.{Mode, regular, input_collect, set_filter, add}
use ff_test.Utils.{util_cpu_bind, cpus_of, cpus_from}
use ff_test.TaskPool.{
  waiting, Created, init, set_affinity, bind_thread, start, Pool, init_tasks, init_pool, start_pool,
  stop_pool,
}
use ff_test.TaskPool.Threads.Clearing.{NoThread}
use ff_test.TaskPool.Threads.Fair.{Fair}
use ff_test.TaskPool.Threads.{here, then_step, stops}
use ff_test.TaskPool.Binding.{has_one_below, HasProcessors, bound}
use ff_test.Config.Getopt.Words.{words_of}
use ff_test.Config.Getopt.Written.{Settings, options_of}
use ff_test.Main.Binding.{prepare_binds}
use ff_test.Main.{prepare}
use ff_test.Main.Whole.{Outside, main}
use ff_test.Main.Whole.Returns.{Ticks, main_returns}

abbrev stat : Text → Option Mode
stat path = some regular

abbrev readdir : Text → Option (List Text)
readdir path = none

abbrev binds : List ℕ → ℕ
binds cpus = 0

abbrev all_created : ℕ → Created
all_created i = record { ret = pos 0; leaves_tid = true }

-- -f v
abbrev line : List Text
line = (b'-' ∷ b'f' ∷ []) ∷ (b'v' ∷ []) ∷ []

-- The task of the core 1, which is the default.
abbrev pool : Pool
pool = record {
  tasks =
      record {
        has_thread = true;
        exit = false;
        core_id = 1;
        sem = 1;
        place = waiting;
        cpus = some (1 ∷ []);
      }
      ∷ [];
  sem = 0;
}

prepared : (prepare stat readdir binds all_created line).1 ≡ some pool
unfolding prepare parse_argv getopt letters requires_argument parse apply_option input_collect
    set_filter add init_pool init_tasks init set_affinity bind_thread util_cpu_bind cpus_of
    cpus_from start_pool start
prepared = refl

-- The only thread runs at every tick, and there is one tick each second.
abbrev outside : Outside
outside = record {
  stat = stat;
  readdir = readdir;
  setaffinity = binds;
  created = all_created;
  picks = λ k. 0;
  clock = λ s. s;
}

picks-Fair : Fair outside.picks 1
picks-Fair i j h = (j, omega arith, omega arith)

clock-Ticks : Ticks outside.clock
clock-Ticks k = (k, omega arith)

main_returns_example :
    (bound : ℕ) × ((more : ℕ)
      → (p' : Pool) × (main (bound + more) outside line ≡ some (pos 0, some p'))
        × NoThread p'.tasks)
unfolding prepare parse_argv getopt letters requires_argument parse apply_option
main_returns_example =
    main_returns outside line 0 pool refl prepared (λ j. refl) picks-Fair clock-Ticks

-- -f v -d '' -o '' -c 19 -s 0 -b 0 -l 0 -p 1, on a system of four processors.
abbrev settings : Settings
settings = record {
  file = b'v' ∷ [];
  dir = [];
  output = [];
  cores = 1 ∷ 9 ∷ [];
  skip_frame = 0;
  get_buffer = 0;
  seclive = 0;
  programme = 1;
}

abbrev of_four : List ℕ → ℕ
of_four cpus = if has_one_below 4 cpus then 0 else 22

of_four-HasProcessors : HasProcessors 4 of_four
of_four-HasProcessors cpus = elim (Bool-cases (has_one_below 4 cpus)) [
  | inl there ↦ rw there refl
  | inr missing ↦ rw missing refl
]

two_cores :
    (p : Pool) × ((prepare stat readdir of_four all_created (words_of (options_of settings))).1
      ≡ some p)
unfolding prepare parse_argv getopt letters requires_argument parse apply_option input_collect
    set_filter add init_pool init_tasks init set_affinity bind_thread util_cpu_bind cpus_of
    cpus_from start_pool start
two_cores = (_, refl)

prepare_binds_example : bound (stop_pool two_cores.0).tasks ≡ some (1 ∷ []) ∷ none ∷ []
prepare_binds_example =
    prepare_binds stat readdir of_four all_created settings 4 (pos 0) two_cores.0
      (stop_pool two_cores.0) (omega arith) (omega arith) (omega arith) (omega arith)
      (omega arith, (omega arith, tt)) (λ j. refl) of_four-HasProcessors two_cores.1
      (then_step here stops)
