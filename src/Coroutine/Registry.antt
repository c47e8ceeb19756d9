-- ===== src/Coroutine/Registry.antt =====
-- The `CoroutineFactory` of src/Coroutine.cpp as its callers see it: what each key stands for,
-- without an order of the keys, the handles of libaco, or the routines.
pub mod Simulation
pub mod Refinement
use ff_test.Base.{
  ℕ, ◌≡◌, refl, sym, ◌∙◌, ap, inl, inr, Bool, true, false, if◌then◌else◌, Option, none, some, List,
  [], ◌∷◌, arith, Bool-cases, Option-cases, ◌>>=◌, some_snd, some_inj,
}
use ff_test.Base.Int.{ℤ, eqb, eqb_iff, eqb_refl}
use ff_test.Coroutine.Keyed.{find, insert, erase, Distinct, find-insert, find-erase}
use ff_test.Coroutine.{
  Coroutine, Root, Factory, new_factory, cr_create, resume, cr_resume, yield_running, cr_yield,
  routine_returns, cr_remove, cr_is_quit, is_running, destroy,
}
use std.Path.{fun_ext}
use ff_test.Coroutine.Owned.{handles, handles-erase, destroy-Same}
use ff_test.Coroutine.Outcome.{created, cr_create_new, cr_create_old}
use ff_test.Coroutine.Invariant.{IsValid}

-- A coroutine that `aco_create` did not make is broken.
pub data Status : Type 0 where
  broken : Status
  ready : Status
  quit : Status

pub record Registry : Type 0 where
  pub at : ℤ → Option Status
  pub running : Option ℤ

-- The calls of a factory, and the end of the routine that runs.
pub data Call : Type 0 where
  create_call : (routine arg : ℕ) → Option ℕ → ℤ → Call
  resume_call : ℤ → Call
  yield_call : ℤ → Call
  remove_call : ℤ → Call
  is_quit_call : ℤ → Call
  return_call : Call

abbrev pub put : ℤ → Option Status → (ℤ → Option Status) → ℤ → Option Status
put key s at j = if eqb key j then s else at j

abbrev pub made : Option ℕ → Status
made none = broken
made (some _) = ready

abbrev pub runs_key : ℤ → Option ℤ → Bool
runs_key key none = false
runs_key key (some k) = eqb key k

-- What a call answers and leaves, and `none` where the program must not make it.
abbrev pub serve : Call → Registry → Option (Bool × Registry)
serve (create_call routine arg answer key) r = some (elim (r.at key) [
  | some _ ↦ (false, r)
  | none ↦ (true, record r { at = put key (some (made answer)) r.at })
])
serve (resume_call key) r = elim (r.at key) [
  | none ↦ some (false, r)
  | some broken ↦ none
  | some quit ↦ none
  | some ready ↦ elim r.running [
    | some _ ↦ none
    | none ↦ some (true, record r { running = some key })
  ]
]
serve (yield_call key) r = elim (r.at key) [
  | none ↦ some (false, r)
  | some _ ↦ elim r.running [ none ↦ none | some _ ↦ some (true, record r { running = none }) ]
]
serve (remove_call key) r = elim (r.at key) [
  | none ↦ some (false, r)
  | some _ ↦
      if runs_key key r.running then none else some (true, record r { at = put key none r.at })
]
serve (is_quit_call key) r = some (elim (r.at key) [
  | some quit ↦ (true, r)
  | some broken ↦ (false, r)
  | some ready ↦ (false, r)
  | none ↦ (false, r)
])
serve return_call r = elim r.running [
  | none ↦ none
  | some key ↦ some (true, record r { at = put key (some quit) r.at; running = none })
]

-- The same call of the factory.
abbrev pub call : Call → Factory → Option (Bool × Factory)
call (create_call routine arg answer key) f = some (cr_create routine arg answer key f)
call (resume_call key) f = cr_resume key f
call (yield_call key) f = cr_yield key f
call (remove_call key) f = cr_remove key f
call (is_quit_call key) f = some (cr_is_quit key f, f)
call return_call f = do f' ← routine_returns f; some (true, f')

abbrev pub status : Coroutine → Status
status cr = if cr.is_stop then quit else made cr.hwnd

abbrev pub status_at : Option Coroutine → Option Status
status_at none = none
status_at (some cr) = some (status cr)

abbrev pub view : Factory → Registry
view f = record { at = λ key. status_at (find key f.map); running = f.running }

-- The answer of a call, and what its callers see after it.
abbrev pub seen : Option (Bool × Factory) → Option (Bool × Registry)
seen none = none
seen (some (b, f)) = some (b, view f)

abbrev pub no_coroutine : Registry
no_coroutine = record { at = λ key. none; running = none }

-- Calls one after another, and their answers.
abbrev pub serve_all : List Call → Registry → Option (List Bool × Registry)
serve_all [] r = some ([], r)
serve_all (c ∷ cs) r = do (b, r') ← serve c r; (bs, r'') ← serve_all cs r'; some (b ∷ bs, r'')

abbrev pub call_all : List Call → Factory → Option (List Bool × Factory)
call_all [] f = some ([], f)
call_all (c ∷ cs) f = do (b, f') ← call c f; (bs, f'') ← call_all cs f'; some (b ∷ bs, f'')

abbrev pub all_seen : Option (List Bool × Factory) → Option (List Bool × Registry)
all_seen none = none
all_seen (some (bs, f)) = some (bs, view f)
