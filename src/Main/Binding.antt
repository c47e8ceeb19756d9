-- ===== src/Main/Binding.antt =====
-- The processors that `main` of src/main.cpp has its threads run on.
use ff_test.Base.{
  ℕ, ◌+◌, ◌^◌, ◌<◌, ◌≡◌, refl, ◌∙◌, ap, sym, Option, some, List, [], ◌∷◌, All, map, arith, u16_mod,
}
use ff_test.Base.Int.{ℤ, pos}
use ff_test.Base.Text.{Text}
use ff_test.Config.{Config}
use ff_test.Config.Getopt.Words.{words_of}
use ff_test.Config.Getopt.Written.{Settings, options_of, AreChars, parse_argv-written}
use ff_test.FileList.{Mode}
use ff_test.TaskPool.{Created, Pool, new_pool, init_pool, start_pool, to_u8}
use ff_test.TaskPool.Threads.{Reach}
use ff_test.TaskPool.Binding.{
  HasProcessors, IsPlain, place_of, bound, bound-init_tasks, bound-start_pool, Reach-bound,
}
use ff_test.Main.{with_answers, prepare}
use ff_test.Main.Run.{prepare_pool}

-- The digits that are written are cores for which `1 << core` is defined.
abbrev pub AreShifts : List ℕ → Type 0
AreShifts = All (λ core. core < 32)

shifts-AreChars : (cores : List ℕ) → AreShifts cores → AreChars cores
shifts-AreChars [] small = tt
shifts-AreChars (core ∷ cores) (lt, small) = (omega arith, shifts-AreChars cores small)

with_answers-IsPlain :
    (created : ℕ → Created) (i : ℕ) (cores : List ℕ)
    → ((j : ℕ) → (created j).ret ≡ pos 0)
    → AreShifts cores
    → All IsPlain (with_answers created i (map pos cores))
with_answers-IsPlain created i [] made small = tt
with_answers-IsPlain created i (core ∷ cores) made (lt, small) =
    ((omega arith, made i), with_answers-IsPlain created (i + 1) cores made small)

with_answers_places :
    (n : ℕ) (created : ℕ → Created) (i : ℕ) (cores : List ℕ)
    → AreShifts cores
    → map (λ (x : ℤ × Created). place_of n (to_u8 x.0)) (with_answers created i (map pos cores))
      ≡ map (place_of n) cores
with_answers_places n created i [] small = refl
with_answers_places n created i (core ∷ cores) (lt, small) =
    let same : to_u8 (pos core) ≡ core = omega arith in
    ap
      (λ k.
        place_of n k
        ∷ map (λ (x : ℤ × Created). place_of n (to_u8 x.0))
            (with_answers created (i + 1) (map pos cores)))
      same
    ∙ ap (λ os. place_of n core ∷ os) (with_answers_places n created (i + 1) cores small)

-- When `main` gets the settings `s` as words and has come to start its tasks, with every thread
-- created, on a system with the processors 0 to `n - 1`, and with cores for which `1 << core` is
-- defined: whatever the threads and the main thread do then, the thread for a core below 8 that the
-- system has stays bound to that processor alone; the thread for any other core is bound to none.
pub prepare_binds :
    (stat : Text → Option Mode) (readdir : Text → Option (List Text)) (setaffinity : List ℕ → ℕ)
    (created : ℕ → Created) (s : Settings) (n : ℕ) (seclive : ℤ) (p q : Pool)
    → s.skip_frame < u16_mod
    → s.get_buffer < u16_mod
    → s.seclive < 2 ^ 31
    → s.programme < u16_mod
    → AreShifts s.cores
    → ((j : ℕ) → (created j).ret ≡ pos 0)
    → HasProcessors n setaffinity
    → (prepare stat readdir setaffinity created (words_of (options_of s))).1 ≡ some p
    → Reach seclive p q
    → bound q.tasks ≡ map (place_of n) s.cores
unfolding prepare init_pool
prepare_binds stat readdir setaffinity created s n seclive p q skip buf live prog small made system
      started r =
    let words = words_of (options_of s) in
    let cfg = (parse_argv-written s [] skip buf live prog (shifts-AreChars s.cores small)).0 in
    let cores = with_answers created 0 (map pos s.cores) in
    let pool_is : start_pool (init_pool setaffinity cores new_pool) ≡ p =
      ap
        (λ (c : Config).
          start_pool (init_pool setaffinity (with_answers created 0 c.vec_core) new_pool))
        (sym cfg)
      ∙ prepare_pool stat readdir setaffinity created words p started in
    Reach-bound seclive r
    ∙ ap (λ (p : Pool). bound p.tasks) (sym pool_is)
    ∙ bound-start_pool (init_pool setaffinity cores new_pool)
    ∙ bound-init_tasks n setaffinity cores system
        (with_answers-IsPlain created 0 s.cores made small)
    ∙ with_answers_places n created 0 s.cores small
