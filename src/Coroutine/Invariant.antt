-- ===== src/Coroutine/Invariant.antt =====
-- What each operation of the `CoroutineFactory` of src/Coroutine.cpp keeps.
use ff_test.Base.{
  ℕ, ◌≡◌, ◌≢◌, refl, sym, ◌∙◌, inl, inr, Bool, true, false, Option, none, some, List, arith,
  Bool-cases, Option-cases, some_inj, some_snd, subst,
}
use ff_test.Base.Int.{ℤ, eqb_iff, eqb_refl}
use ff_test.Base.Handles.{Same, count-acquire}
use ff_test.Coroutine.Keyed.{
  Map, find, insert, erase, Distinct, find-insert, find-erase, insert-Distinct, erase-Distinct,
}
use ff_test.Coroutine.{
  Coroutine, Factory, cr_create, resume, cr_resume, yield_running, cr_yield, routine_returns,
  cr_remove, is_running,
}
use ff_test.Coroutine.Owned.{
  handles, handles-insert_new, handles-insert_same, handles-erase, destroy-Same,
}
use ff_test.Coroutine.Outcome.{created, cr_create_new, cr_create_old, resume-some}

-- The running coroutine is in the map, exists in libaco and has not ended.
abbrev pub Runs : Option ℤ → Map Coroutine → Type 0
Runs none m = Unit {0}
Runs (some k) m =
    (cr : Coroutine) × (h : ℕ) × (find k m ≡ some cr) × (cr.hwnd ≡ some h) × (cr.is_stop ≡ false)

-- No key is there twice, the live handles of libaco are those of the coroutines, and `rest`, and
-- what runs is one of them.
pub record IsValid (rest : List ℕ) (f : Factory) : Type 0 where
  pub distinct : Distinct f.map
  pub owned : Same f.live (handles f.map rest)
  pub runs : Runs f.running f.map

-- What runs goes on running beside a new key, and beside the loss of another.
Runs-insert :
    (running : Option ℤ) (key : ℤ) (cr : Coroutine) (m : Map Coroutine)
    → find key m ≡ none
    → Runs running m
    → Runs running (insert key cr m)
Runs-insert none key cr m absent r = tt
Runs-insert (some k) key cr m absent (c, h, there, handle, going) =
    (c, h, rw (find-insert k key cr m) (ground (arith, eqb_iff key k)), handle, going)

Runs-erase :
    (running : Option ℤ) (key : ℤ) (m : Map Coroutine)
    → Distinct m
    → running ≢ some key
    → Runs running m
    → Runs running (erase key m)
Runs-erase none key m d other r = tt
Runs-erase (some k) key m d other (c, h, there, handle, going) =
    (c, h, rw (find-erase k key m d) (ground (arith, eqb_iff key k)), handle, going)

pub cr_create-IsValid :
    (routine arg : ℕ) (answer : Option ℕ) (key : ℤ) (rest : List ℕ) (f : Factory)
    → IsValid rest f
    → IsValid rest (cr_create routine arg answer key f).1
cr_create-IsValid routine arg answer key rest f v = elim (Option-cases (find key f.map)) [
  | inr (cr, there) ↦ rw (cr_create_old routine arg answer key f cr there) v
  | inl absent ↦
      let cr : Coroutine = created routine arg answer in
      rw (cr_create_new routine arg answer key f absent) (record {
        distinct = insert-Distinct key cr f.map v.distinct;
        owned = λ n. omega (
          arith,
          v.owned n,
          handles-insert_new key cr f.map rest absent n,
          count-acquire n answer f.live,
          count-acquire n answer (handles f.map rest),
        );
        runs = Runs-insert f.running key cr f.map absent v.runs;
      })
]

pub cr_resume-IsValid :
    (key : ℤ) (rest : List ℕ) (f : Factory) (r : Bool × Factory)
    → cr_resume key f ≡ some r
    → IsValid rest f
    → IsValid rest r.1
unfolding cr_resume
cr_resume-IsValid key rest f r e v = elim (Option-cases (find key f.map)) [
  | inl absent ↦ subst (IsValid rest) (some_snd (rw (absent, cr_resume) at e)) v
  | inr (cr, there) ↦ elim (Option-cases (resume key cr f)) [
    | inl refused ↦ cc (rw (there, cr_resume, refused) at e)
    | inr (f', resumed) ↦
        let (h, handle, going, _, state) = resume-some key cr f f' resumed in
        subst (IsValid rest) (sym state ∙ some_snd (rw (there, cr_resume, resumed) at e))
          (record { distinct = v.distinct; owned = v.owned; runs = (cr, h, there, handle, going) })
  ]
]

yield_running-some : (f f' : Factory) → yield_running f ≡ some f' → f' ≡ record f { running = none }
unfolding yield_running
yield_running-some f f' e = ground arith

pub cr_yield-IsValid :
    (key : ℤ) (rest : List ℕ) (f : Factory) (r : Bool × Factory)
    → cr_yield key f ≡ some r
    → IsValid rest f
    → IsValid rest r.1
unfolding cr_yield
cr_yield-IsValid key rest f r e v = elim (Option-cases (find key f.map)) [
  | inl absent ↦ subst (IsValid rest) (some_snd (rw (absent, cr_yield) at e)) v
  | inr (cr, there) ↦ elim (Option-cases (yield_running f)) [
    | inl refused ↦ cc (rw (there, cr_yield, refused) at e)
    | inr (f', back) ↦
        subst (IsValid rest)
          (sym (yield_running-some f f' back) ∙ some_snd (rw (there, cr_yield, back) at e))
          (record { distinct = v.distinct; owned = v.owned; runs = tt })
  ]
]

pub routine_returns-IsValid :
    (rest : List ℕ) (f f' : Factory)
    → routine_returns f ≡ some f'
    → IsValid rest f
    → IsValid rest f'
unfolding routine_returns
routine_returns-IsValid rest f f' e v = elim (Option-cases f.running) [
  | inl main ↦ cc (rw main at e)
  | inr (key, now) ↦ elim (Option-cases (find key f.map)) [
    | inl absent ↦ cc (rw (now, absent) at e)
    | inr (cr, there) ↦
        let ended : Coroutine = record cr { is_stop = true } in
        subst (IsValid rest) (some_inj (rw (now, there) at e)) (record {
          distinct = insert-Distinct key ended f.map v.distinct;
          owned = rw (handles-insert_same key ended cr f.map rest there refl) v.owned;
          runs = tt;
        })
  ]
]

not_running : (key : ℤ) (f : Factory) → is_running key f ≡ false → f.running ≢ some key
unfolding is_running
not_running key f idle at_key = cc (rw (at_key, is_running, eqb_refl key) at idle)

pub cr_remove-IsValid :
    (key : ℤ) (rest : List ℕ) (f : Factory) (r : Bool × Factory)
    → cr_remove key f ≡ some r
    → IsValid rest f
    → IsValid rest r.1
unfolding cr_remove
cr_remove-IsValid key rest f r e v = elim (Option-cases (find key f.map)) [
  | inl absent ↦ subst (IsValid rest) (some_snd (rw (absent, cr_remove) at e)) v
  | inr (cr, there) ↦ elim (Bool-cases (is_running key f)) [
    | inl busy ↦ cc (rw (there, cr_remove, busy) at e)
    | inr free_now ↦
        let (live, gone, same) =
          destroy-Same cr f.live (handles (erase key f.map) rest)
            (λ n. v.owned n ∙ handles-erase key cr f.map rest there n) in
        subst (IsValid rest) (some_snd (rw (there, cr_remove, free_now, gone) at e)) (record {
          distinct = erase-Distinct key f.map v.distinct;
          owned = same;
          runs = Runs-erase f.running key f.map v.distinct (not_running key f free_now) v.runs;
        })
  ]
]
