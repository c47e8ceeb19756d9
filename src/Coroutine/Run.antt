-- ===== src/Coroutine/Run.antt =====
-- Runs of the `CoroutineFactory` of src/Coroutine.cpp, from its constructor to its destructor.
use ff_test.Base.{ℕ, ◌≡◌, refl, Bool, Option, none, some, List, ◌∷◌}
use ff_test.Base.Int.{ℤ}
use ff_test.Base.Handles.{Same, free-Same}
use ff_test.Coroutine.{
  Root, Factory, new_factory, cr_create, cr_resume, cr_yield, routine_returns, cr_remove,
  destroy_factory,
}
use ff_test.Coroutine.Owned.{destroy_all-Same}
use ff_test.Coroutine.Invariant.{
  IsValid, cr_create-IsValid, cr_resume-IsValid, cr_yield-IsValid, routine_returns-IsValid,
  cr_remove-IsValid,
}

pub data Step (f : Factory) : Factory → Type 0 where
  creates :
      (routine arg : ℕ) (answer : Option ℕ) (key : ℤ)
      → Step f (cr_create routine arg answer key f).1
  resumes : (key : ℤ) {r : Bool × Factory} → cr_resume key f ≡ some r → Step f r.1
  yields : (key : ℤ) {r : Bool × Factory} → cr_yield key f ≡ some r → Step f r.1
  returns : {f' : Factory} → routine_returns f ≡ some f' → Step f f'
  removes : (key : ℤ) {r : Bool × Factory} → cr_remove key f ≡ some r → Step f r.1

-- Every operation of the factory that returns keeps it well formed (no key twice, the live
-- handles those of the coroutines and of others, what runs a coroutine of the map that exists and
-- has not ended): resuming, yielding and removing a key that is there or not, a routine that
-- ends, and a creation whatever `aco_create` answers.
pub Step-IsValid : (rest : List ℕ) {f f' : Factory} → Step f f' → IsValid rest f → IsValid rest f'
Step-IsValid rest {f} (creates routine arg answer key) v =
    cr_create-IsValid routine arg answer key rest f v
Step-IsValid rest {f} (resumes key {r} e) v = cr_resume-IsValid key rest f r e v
Step-IsValid rest {f} (yields key {r} e) v = cr_yield-IsValid key rest f r e v
Step-IsValid rest {f} (returns {f'} e) v = routine_returns-IsValid rest f f' e v
Step-IsValid rest {f} (removes key {r} e) v = cr_remove-IsValid key rest f r e v

pub data Reach (start : Factory) : Factory → Type 0 where
  here : Reach start start
  then_step : {f f' : Factory} → Reach start f → Step f f' → Reach start f'

Reach-IsValid :
    (root : Root) (rest : List ℕ) {f : Factory}
    → Reach (new_factory root rest) f
    → IsValid (root.sstk ∷ root.hwnd ∷ rest) f
Reach-IsValid root rest here = record { distinct = tt; owned = λ n. refl; runs = tt }
Reach-IsValid root rest (then_step r s) =
    Step-IsValid (root.sstk ∷ root.hwnd ∷ rest) s (Reach-IsValid root rest r)

-- After any run of the operations of a new factory, its destructor, called while no coroutine
-- runs, destroys every coroutine that is left, the shared stack and the main coroutine, none of
-- them twice, and leaves live exactly the handles that were live before the factory was.
pub destroy_factory-Reach :
    (root : Root) (rest : List ℕ) (f : Factory)
    → Reach (new_factory root rest) f
    → f.running ≡ none
    → (live : List ℕ) × (destroy_factory root f ≡ some live) × Same live rest
unfolding destroy_factory
destroy_factory-Reach root rest f r idle =
    let (l1, e1, s1) =
      destroy_all-Same f.map f.live (root.sstk ∷ root.hwnd ∷ rest)
        (Reach-IsValid root rest r).owned in
    let (l2, e2, s2) = free-Same root.sstk l1 (root.hwnd ∷ rest) s1 in
    let (l3, e3, s3) = free-Same root.hwnd l2 rest s2 in
    (l3, rw (destroy_factory, idle) (rw (e1, e2) e3), s3)
