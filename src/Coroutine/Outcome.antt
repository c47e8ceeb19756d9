-- ===== src/Coroutine/Outcome.antt =====
-- What `cr_create` and `cr_resume` of src/Coroutine.cpp come to.
use ff_test.Base.{
  ℕ, ◌≡◌, sym, ◌∙◌, inl, inr, true, false, Option, none, some, arith, Option-cases, some_snd,
}
use ff_test.Base.Int.{ℤ}
use ff_test.Base.Handles.{acquire}
use ff_test.Coroutine.Keyed.{find, insert, has_key}
use ff_test.Coroutine.{Coroutine, create, Factory, cr_create, resume, cr_resume}

-- `cr_create` of a key that is not there, and of one that is.
abbrev pub created : ℕ → ℕ → Option ℕ → Coroutine
created routine arg answer = record { hwnd = answer; routine = routine; arg = arg; is_stop = false }

pub cr_create_new :
    (routine arg : ℕ) (answer : Option ℕ) (key : ℤ) (f : Factory)
    → find key f.map ≡ none
    → cr_create routine arg answer key f ≡ (
      true,
      record f {
        map = insert key (created routine arg answer) f.map;
        live = acquire answer f.live;
      },
    )
unfolding cr_create has_key create
cr_create_new routine arg answer key f absent = rw (absent, has_key)

pub cr_create_old :
    (routine arg : ℕ) (answer : Option ℕ) (key : ℤ) (f : Factory) (cr : Coroutine)
    → find key f.map ≡ some cr
    → cr_create routine arg answer key f ≡ (false, f)
unfolding cr_create has_key create
cr_create_old routine arg answer key f cr there = rw (there, has_key)

-- What a resume that libaco accepts needs, and does.
pub resume-some :
    (key : ℤ) (cr : Coroutine) (f f' : Factory)
    → resume key cr f ≡ some f'
    → (h : ℕ) × (cr.hwnd ≡ some h)
      × (cr.is_stop ≡ false)
      × (f.running ≡ none)
      × (f' ≡ record f { running = some key })
unfolding resume
resume-some key cr f f' e = elim (Option-cases cr.hwnd) [
  | inl null ↦ cc (rw null at e)
  | inr (h, handle) ↦ (h, handle, ground arith, ground arith, ground arith)
]

-- What a `cr_resume` that returns true needs, and does.
pub cr_resume-true :
    (key : ℤ) (f f' : Factory)
    → cr_resume key f ≡ some (true, f')
    → (cr : Coroutine) × (h : ℕ) × (find key f.map ≡ some cr)
      × (cr.hwnd ≡ some h)
      × (cr.is_stop ≡ false)
      × (f.running ≡ none)
      × (f' ≡ record f { running = some key })
unfolding cr_resume
cr_resume-true key f f' e = elim (Option-cases (find key f.map)) [
  | inl absent ↦ cc (rw (absent, cr_resume) at e)
  | inr (cr, there) ↦ elim (Option-cases (resume key cr f)) [
    | inl refused ↦ cc (rw (there, cr_resume, refused) at e)
    | inr (g, resumed) ↦
        let (h, handle, going, idle, state) = resume-some key cr f g resumed in
        (
          cr,
          h,
          there,
          handle,
          going,
          idle,
          sym (some_snd (rw (there, cr_resume, resumed) at e)) ∙ state,
        )
  ]
]
