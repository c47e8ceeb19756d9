-- ===== src/Coroutine/Registry/Refinement.antt =====
-- Runs of the `CoroutineFactory` of src/Coroutine.cpp are runs of the registry.
use ff_test.Base.{
  ℕ, ◌≡◌, refl, sym, Bool, Option, none, some, List, [], ◌∷◌, ◌>>=◌, some_snd, bind_some, subst,
}
use ff_test.Coroutine.{Root, Factory, new_factory, routine_returns}
use ff_test.Coroutine.Invariant.{
  IsValid, cr_create-IsValid, cr_resume-IsValid, cr_yield-IsValid, routine_returns-IsValid,
  cr_remove-IsValid,
}
use ff_test.Coroutine.Keyed.{find}
use ff_test.Coroutine.Registry.{
  Call, create_call, resume_call, yield_call, remove_call, is_quit_call, return_call, serve, call,
  view, seen, no_coroutine, serve_all, call_all, all_seen,
}
use ff_test.Coroutine.Registry.Simulation.{call-seen}

call-IsValid :
    (c : Call) (rest : List ℕ) (f : Factory) (r : Bool × Factory)
    → call c f ≡ some r
    → IsValid rest f
    → IsValid rest r.1
call-IsValid (create_call routine arg answer key) rest f r e v =
    subst (IsValid rest) (some_snd e) (cr_create-IsValid routine arg answer key rest f v)
call-IsValid (resume_call key) rest f r e v = cr_resume-IsValid key rest f r e v
call-IsValid (yield_call key) rest f r e v = cr_yield-IsValid key rest f r e v
call-IsValid (remove_call key) rest f r e v = cr_remove-IsValid key rest f r e v
call-IsValid (is_quit_call key) rest f r e v = subst (IsValid rest) (some_snd e) v
call-IsValid return_call rest f r e v =
    let (f', back, is_r) = bind_some (routine_returns f) (λ x. some (_, x)) r e in
    subst (IsValid rest) (some_snd is_r) (routine_returns-IsValid rest f f' back v)

call_all-seen :
    (cs : List Call) (rest : List ℕ) (f : Factory)
    → IsValid rest f
    → all_seen (call_all cs f) ≡ serve_all cs (view f)
call_all-seen [] rest f v = refl
call_all-seen (c ∷ cs) rest f v =
    called (call c f) refl (call-seen c rest f v) (λ f'. call_all-seen cs rest f')
  where
    called :
        (o : Option (Bool × Factory))
        → call c f ≡ o
        → seen o ≡ serve c (view f)
        → ((f' : Factory) → IsValid rest f' → all_seen (call_all cs f') ≡ serve_all cs (view f'))
        → all_seen (call_all (c ∷ cs) f) ≡ serve_all (c ∷ cs) (view f)
    called none e s others = rw (e, sym s) refl
    called (some (b, f')) e s others =
        rw (e, sym s, sym (others f' (call-IsValid c rest f (b, f') e v)))
          (answered (call_all cs f'))
      where
        answered :
            (o : Option (List Bool × Factory))
            → all_seen (o >>= (λ x. some (b ∷ x.0, x.1)))
              ≡ (all_seen o >>= (λ x. some (b ∷ x.0, x.1)))
        answered none = refl
        answered (some x) = refl

-- Any calls of a new factory (creations, whatever `aco_create` answers, resumes, yields, removals
-- and the test for the end, in any order, and ends of routines) answer what the same calls of a
-- plain table of keys answer, in which a key is missing, broken, ready or quit and at most one
-- runs: a call is one that libaco refuses for the one exactly when it is for the other, and
-- afterwards the factory shows the table.
pub call_all-new_factory :
    (cs : List Call) (root : Root) (rest : List ℕ)
    → all_seen (call_all cs (new_factory root rest)) ≡ serve_all cs no_coroutine
unfolding find
call_all-new_factory cs root rest =
    call_all-seen cs (root.sstk ∷ root.hwnd ∷ rest) (new_factory root rest)
      (record { distinct = tt; owned = λ n. refl; runs = tt })
