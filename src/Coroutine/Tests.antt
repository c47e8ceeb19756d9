-- ===== src/Coroutine/Tests.antt =====
-- Factories on which the theorems about src/Coroutine.cpp apply.
use ff_test.Base.{ℕ, ◌≡◌, refl, true, none, some, List, [], ◌∷◌, false}
use ff_test.Base.Int.{pos}
use ff_test.Base.Handles.{Same}
use ff_test.Coroutine.Keyed.{find, insert, has_key}
use ff_test.Coroutine.{
  Root, Coroutine, Factory, new_factory, destroy_factory, create, cr_create, resume, cr_resume,
  routine_returns,
}
use ff_test.Coroutine.Outcome.{created}
use ff_test.Coroutine.Run.{creates, resumes, returns, Reach, here, then_step, destroy_factory-Reach}
use ff_test.Coroutine.Registry.{
  Call, create_call, resume_call, yield_call, remove_call, is_quit_call, return_call, no_coroutine,
  serve_all, call_all, all_seen,
}
use ff_test.Coroutine.Registry.Refinement.{call_all-new_factory}

abbrev one : Coroutine
one = created 11 12 (some 8)

abbrev two : Coroutine
two = created 21 22 (some 9)

-- A factory with the main coroutine 6 and the shared stack 5, beside no other handle.
abbrev root : Root
root = record { hwnd = 6; sstk = 5 }

abbrev ended : Factory
ended = record {
  map = (pos 1, record one { is_stop = true }) ∷ (pos 2, two) ∷ [];
  running = none;
  live = 9 ∷ 8 ∷ 5 ∷ 6 ∷ [];
}

-- Two creations, a resume of the first, and the end of its routine.
first_run : Reach (new_factory root []) ended
unfolding cr_create create has_key find insert cr_resume resume routine_returns
first_run =
    then_step
      (then_step
        (then_step (then_step here (creates 11 12 (some 8) (pos 1)))
          (creates 21 22 (some 9) (pos 2)))
        (resumes (pos 1)
          {r = (
            true,
            record ended { map = (pos 1, one) ∷ (pos 2, two) ∷ []; running = some (pos 1) },
          )}
          refl))
      (returns refl)

destroy_factory-Reach_example :
    (live : List ℕ) × (destroy_factory root ended ≡ some live) × Same live []
destroy_factory-Reach_example = destroy_factory-Reach root [] ended first_run refl

-- A key with a coroutine, one whose creation failed, and one without.
abbrev calls : List Call
calls =
    create_call 11 12 (some 8) (pos 1)
    ∷ create_call 21 22 none (pos 2)
    ∷ resume_call (pos 1)
    ∷ yield_call (pos 2)
    ∷ resume_call (pos 1)
    ∷ return_call
    ∷ is_quit_call (pos 1)
    ∷ remove_call (pos 1)
    ∷ resume_call (pos 1)
    ∷ []

call_all-new_factory_example :
    all_seen (call_all calls (new_factory root (4 ∷ []))) ≡ serve_all calls no_coroutine
call_all-new_factory_example = call_all-new_factory calls root (4 ∷ [])

-- The answers to them.
calls_answers :
    elim (serve_all calls no_coroutine) [ none ↦ [] | some (bs, _) ↦ bs ]
    ≡ true ∷ true ∷ true ∷ true ∷ true ∷ true ∷ true ∷ true ∷ false ∷ []
calls_answers = refl
