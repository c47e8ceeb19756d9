-- ===== src/Coroutine/Registry/Simulation.antt =====
-- Each call of the `CoroutineFactory` of src/Coroutine.cpp is the call of the registry.
use ff_test.Base.{
  ℕ, ◌≡◌, refl, ◌∙◌, ap, inl, inr, true, Option, none, some, List, arith, Bool-cases, Option-cases,
}
use ff_test.Base.Int.{ℤ}
use ff_test.Coroutine.Keyed.{find, insert, erase, Distinct, find-insert, find-erase}
use ff_test.Coroutine.{
  Coroutine, Factory, resume, cr_resume, yield_running, cr_yield, routine_returns, cr_remove,
  cr_is_quit, is_running,
}
use std.Path.{fun_ext}
use ff_test.Coroutine.Owned.{handles, handles-erase, destroy-Same}
use ff_test.Coroutine.Outcome.{created, cr_create_new, cr_create_old}
use ff_test.Coroutine.Invariant.{IsValid, Runs}
use ff_test.Coroutine.Registry.{
  Call, create_call, resume_call, yield_call, remove_call, is_quit_call, return_call, put, serve,
  call, status, status_at, view, seen,
}

at_insert :
    (key j : ℤ) (cr : Coroutine) (f : Factory)
    → status_at (find j (insert key cr f.map)) ≡ put key (some (status cr)) (view f).at j
at_insert key j cr f = rw (find-insert j key cr f.map) (ground arith)

at_erase :
    (key j : ℤ) (f : Factory)
    → Distinct f.map
    → status_at (find j (erase key f.map)) ≡ put key none (view f).at j
at_erase key j f d = rw (find-erase j key f.map d) (ground arith)

create-seen :
    (routine arg : ℕ) (answer : Option ℕ) (key : ℤ) (f : Factory)
    → seen (call (create_call routine arg answer key) f)
      ≡ serve (create_call routine arg answer key) (view f)
create-seen routine arg answer key f = elim (Option-cases (find key f.map)) [
  | inl absent ↦
      rw (cr_create_new routine arg answer key f absent, absent)
        (ap (λ a. some (true, record (view f) { at = a }))
          (fun_ext (λ j. at_insert key j (created routine arg answer) f)))
  | inr (cr, there) ↦ rw (cr_create_old routine arg answer key f cr there, there) refl
]

resume-seen :
    (key : ℤ) (f : Factory) → seen (call (resume_call key) f) ≡ serve (resume_call key) (view f)
unfolding cr_resume resume
resume-seen key f = elim (Option-cases (find key f.map)) [
  | inl absent ↦ rw (cr_resume, absent, serve) refl
  | inr (cr, there) ↦
      rw (cr_resume, there, serve)
        (elim (Option-cases cr.hwnd) [
          | inl null ↦ elim (Bool-cases cr.is_stop) [
            | inl on ↦ rw (null, on, resume) refl
            | inr going ↦ rw (null, going, resume) refl
          ]
          | inr (h, handle) ↦ elim (Bool-cases cr.is_stop) [
            | inl on ↦ rw (handle, on, resume) refl
            | inr going ↦ elim (Option-cases f.running) [
              | inl idle ↦ rw (handle, going, idle, resume) refl
              | inr (k, busy) ↦ rw (handle, going, busy, resume) refl
            ]
          ]
        ])
]

yield-seen :
    (key : ℤ) (f : Factory) → seen (call (yield_call key) f) ≡ serve (yield_call key) (view f)
unfolding cr_yield yield_running
yield-seen key f = elim (Option-cases (find key f.map)) [
  | inl absent ↦ rw (cr_yield, absent, serve) refl
  | inr (cr, there) ↦
      rw (cr_yield, there, serve)
        (elim (Option-cases f.running) [
          | inl idle ↦ rw (idle, yield_running) refl
          | inr (k, busy) ↦ rw (busy, yield_running) refl
        ])
]

is_quit-seen :
    (key : ℤ) (f : Factory) → seen (call (is_quit_call key) f) ≡ serve (is_quit_call key) (view f)
unfolding cr_is_quit
is_quit-seen key f = elim (Option-cases (find key f.map)) [
  | inl absent ↦ rw (cr_is_quit, absent, serve) refl
  | inr (cr, there) ↦
      rw (cr_is_quit, there, serve)
        (elim (Bool-cases cr.is_stop) [
          | inl on ↦ rw on refl
          | inr going ↦ elim (Option-cases cr.hwnd) [
            | inl null ↦ rw (going, null) refl
            | inr (h, handle) ↦ rw (going, handle) refl
          ]
        ])
]

remove-seen :
    (key : ℤ) (rest : List ℕ) (f : Factory)
    → IsValid rest f
    → seen (call (remove_call key) f) ≡ serve (remove_call key) (view f)
unfolding cr_remove
remove-seen key rest f v = elim (Option-cases (find key f.map)) [
  | inl absent ↦ rw (cr_remove, absent, serve) refl
  | inr (cr, there) ↦ elim (Bool-cases (is_running key f)) [
    | inl busy ↦ rw (cr_remove, there, serve, busy) refl
    | inr idle ↦
        let (live, gone, _) =
          destroy-Same cr f.live (handles (erase key f.map) rest)
            (λ n. v.owned n ∙ handles-erase key cr f.map rest there n) in
        rw (cr_remove, there, serve, idle, gone)
          (ap (λ a. some (true, record (view f) { at = a }))
            (fun_ext (λ j. at_erase key j f v.distinct)))
  ]
]

return-seen :
    (rest : List ℕ) (f : Factory)
    → IsValid rest f
    → seen (call return_call f) ≡ serve return_call (view f)
unfolding routine_returns
return-seen rest f v = returned f.running refl v.runs
  where
    returned :
        (running : Option ℤ)
        → f.running ≡ running
        → Runs running f.map
        → seen (call return_call f) ≡ serve return_call (view f)
    returned none idle r = rw (idle, serve, routine_returns) refl
    returned (some key) now (cr, h, there, _, _) =
        rw (now, serve, routine_returns, there)
          (ap (λ a. some (true, record { at = a; running = none }))
            (fun_ext (λ j. at_insert key j (record cr { is_stop = true }) f)))

-- On a well-formed factory each call is the call of the registry, the refused calls too.
pub call-seen :
    (c : Call) (rest : List ℕ) (f : Factory) → IsValid rest f → seen (call c f) ≡ serve c (view f)
call-seen (create_call routine arg answer key) rest f v = create-seen routine arg answer key f
call-seen (resume_call key) rest f v = resume-seen key f
call-seen (yield_call key) rest f v = yield-seen key f
call-seen (remove_call key) rest f v = remove-seen key rest f v
call-seen (is_quit_call key) rest f v = is_quit-seen key f
call-seen return_call rest f v = return-seen rest f v
