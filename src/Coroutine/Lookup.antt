-- ===== src/Coroutine/Lookup.antt =====
-- What the operations of src/Coroutine.cpp do to the map of the factory.
use ff_test.Base.{
  ℕ, suc, ◌≡◌, refl, sym, ◌∙◌, inl, inr, true, if◌then◌else◌, Option, none, some, List, arith,
  Bool-cases, Option-cases, some_snd, ap,
}
use ff_test.Base.Int.{ℤ, eqb, eqb_refl}
use ff_test.Coroutine.Keyed.{
  find, insert, erase, find-insert, find-erase, length-insert_new, length-erase,
}
use ff_test.Coroutine.{
  Coroutine, destroy, Factory, cr_create, resume, cr_resume, yield_running, cr_yield,
  routine_returns, cr_remove, cr_get, cr_is_quit, size, is_running,
}
use ff_test.Coroutine.Outcome.{created, cr_create_new, cr_create_old, cr_resume-true}
use ff_test.Coroutine.Invariant.{IsValid}

-- What `cr_get` answers after a creation.
abbrev pub after_create : ℤ → ℤ → Coroutine → Factory → Option Coroutine
after_create key j cr f = elim (cr_get key f) [
  | none ↦ if eqb key j then some cr else cr_get j f
  | some _ ↦ cr_get j f
]

-- `cr_create` is a finite map's insertion of a new key: afterwards each key finds what it did, but
-- that the created key, when it was new, finds the new coroutine, which is not ended; and it
-- returns true exactly when the size grows by one, else the size stays.
pub cr_create_get :
    (routine arg : ℕ) (answer : Option ℕ) (key j : ℤ) (f : Factory)
    → (cr_get j (cr_create routine arg answer key f).1
        ≡ after_create key j (created routine arg answer) f)
      × (size (cr_create routine arg answer key f).1
          ≡ (if (cr_create routine arg answer key f).0 then suc (size f) else size f))
cr_create_get routine arg answer key j f = elim (Option-cases (find key f.map)) [
  | inl absent ↦
      let cr : Coroutine = created routine arg answer in
      rw (cr_create_new routine arg answer key f absent) (
        find-insert j key cr f.map ∙ sym (rw (after_create, absent) refl),
        length-insert_new key cr f.map absent,
      )
  | inr (cr, there) ↦
      rw (cr_create_old routine arg answer key f cr there)
        (sym (rw (after_create, there) refl), refl)
]

-- `cr_remove` of a well-formed factory, when it returns true, is a finite map's erasure: the
-- removed key finds nothing, each other key what it did, and the size falls by one.
pub cr_remove_get :
    (key j : ℤ) (rest : List ℕ) (f f' : Factory)
    → IsValid rest f
    → cr_remove key f ≡ some (true, f')
    → (cr_get j f' ≡ (if eqb key j then none else cr_get j f)) × (suc (size f') ≡ size f)
unfolding cr_remove
cr_remove_get key j rest f f' v e = elim (Option-cases (find key f.map)) [
  | inl absent ↦ cc (rw (absent, cr_remove) at e)
  | inr (cr, there) ↦ elim (Bool-cases (is_running key f)) [
    | inl busy ↦ cc (rw (there, cr_remove, busy) at e)
    | inr idle ↦ elim (Option-cases (destroy cr f.live)) [
      | inl stuck ↦ cc (rw (there, cr_remove, idle, stuck) at e)
      | inr (live, gone) ↦
          let map_is : f'.map ≡ erase key f.map = cc (rw (there, cr_remove, idle, gone) at e) in
          rw map_is (find-erase j key f.map v.distinct, length-erase key f.map cr there)
    ]
  ]
]

-- `cr_create` of a new key returns true also when `aco_create` fails, and the resume of that
-- coroutine is one libaco does not accept, whatever else the factory holds.
pub cr_create_null :
    (routine arg : ℕ) (key : ℤ) (f : Factory)
    → cr_get key f ≡ none
    → ((cr_create routine arg none key f).0 ≡ true)
      × (cr_resume key (cr_create routine arg none key f).1 ≡ none)
unfolding cr_resume resume
cr_create_null routine arg key f absent =
    let cr : Coroutine = created routine arg none in
    let there : find key (insert key cr f.map) ≡ some cr =
      find-insert key key cr f.map ∙ rw (eqb_refl key) refl in
    rw (cr_create_new routine arg none key f absent) (refl, rw (cr_resume, there) refl)

-- A `cr_yield` that returns true gives the same for every other key of the map: its key does not
-- choose which coroutine yields, and afterwards the main coroutine runs.
pub cr_yield_any :
    (j k : ℤ) (b : Coroutine) (f f' : Factory)
    → cr_get k f ≡ some b
    → cr_yield j f ≡ some (true, f')
    → (cr_yield k f ≡ some (true, f')) × (f'.running ≡ none)
unfolding cr_yield yield_running
cr_yield_any j k b f f' there e = elim (Option-cases (find j f.map)) [
  | inl absent ↦ cc (rw (absent, cr_yield) at e)
  | inr (a, at_j) ↦ elim (Option-cases (yield_running f)) [
    | inl refused ↦ cc (rw (at_j, cr_yield, refused) at e)
    | inr (g, back) ↦
        let same : g ≡ f' = some_snd (rw (at_j, cr_yield, back) at e) in
        (
          rw (there, cr_yield, back) (ap (λ (x : Factory). some (true, x)) same),
          ground (arith, yield_running),
        )
  ]
]

-- A coroutine that was resumed and whose routine then returns is quit, its handle is kept, the main
-- coroutine runs again, and to resume it once more is what libaco does not accept.
pub routine_returns_is_quit :
    (key : ℤ) (f f' : Factory)
    → cr_resume key f ≡ some (true, f')
    → (f'' : Factory) × (routine_returns f' ≡ some f'')
      × (cr_is_quit key f'' ≡ true)
      × (f''.running ≡ none)
      × (f''.live ≡ f.live)
      × (cr_resume key f'' ≡ none)
unfolding cr_is_quit cr_resume routine_returns resume
routine_returns_is_quit key f f' e =
    let (cr, h, there, handle, _, idle, left) = cr_resume-true key f f' e in
    let ended : Coroutine = record cr { is_stop = true } in
    let now : find key (insert key ended f.map) ≡ some ended =
      find-insert key key ended f.map ∙ rw (eqb_refl key) refl in
    rw left (
      record { map = insert key ended f.map; running = none; live = f.live },
      rw there refl,
      rw (cr_is_quit, now) refl,
      refl,
      refl,
      rw (cr_resume, now) (rw handle refl),
    )
