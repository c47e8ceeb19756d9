-- ===== src/Coroutine.antt =====
-- src/Coroutine.hpp and src/Coroutine.cpp: coroutines of libaco by their keys. A coroutine of
-- libaco is a handle, and `live` lists those that are not destroyed. What libaco asserts (a resume
-- of NULL or of an ended coroutine, a yield outside of any) and a free of what is in use are the
-- result `none`.
pub mod Keyed
pub mod Owned
pub mod Outcome
pub mod Invariant
pub mod Run
pub mod Lookup
pub mod Registry
mod Tests
use ff_test.Base.{
  ℕ, suc, Bool, true, false, not, if◌then◌else◌, Option, none, some, List, [], ◌∷◌, length, ◌>>=◌,
}
use ff_test.Base.Int.{ℤ, eqb}
use ff_test.Base.Handles.{acquire, free}
use Keyed.{Map, find, insert, erase, has_key}

-- `routine` and `arg` are the pointers `m_fp` and `m_arg`.
pub record Coroutine : Type 0 where
  pub hwnd : Option ℕ
  pub routine : ℕ
  pub arg : ℕ
  pub is_stop : Bool

-- `Coroutine::Coroutine`
abbrev pub new_coroutine : Coroutine
new_coroutine = record { hwnd = none; routine = 0; arg = 0; is_stop = false }

-- `Coroutine::create`; `answer` is what `aco_create` returns.
pub create : ℕ → ℕ → Option ℕ → Coroutine → List ℕ → Bool × Coroutine × List ℕ
create routine arg answer cr live = elim cr.hwnd [
  | some _ ↦ (false, cr, live)
  | none ↦ (
    elim answer [ none ↦ false | some _ ↦ true ],
    record cr { hwnd = answer; routine = routine; arg = arg },
    acquire answer live,
  )
]

-- `Coroutine::~Coroutine`
pub destroy : Coroutine → List ℕ → Option (List ℕ)
destroy cr live = elim cr.hwnd [ none ↦ some live | some h ↦ free h live ]

-- `CoroutineFactory<int>`. `running` is the key of the coroutine that runs, and `none` while the
-- main coroutine does.
pub record Factory : Type 0 where
  pub map : Map Coroutine
  pub running : Option ℤ
  pub live : List ℕ

pub cr_create : ℕ → ℕ → Option ℕ → ℤ → Factory → Bool × Factory
unfolding create
cr_create routine arg answer key f =
    if has_key key f.map
    then (false, f)
    else let (_, cr, live) = create routine arg answer new_coroutine f.live in
      (true, record f { map = insert key cr f.map; live = live })

-- `aco_resume`, from the main coroutine: it returns when the coroutine yields or ends.
pub resume : ℤ → Coroutine → Factory → Option Factory
resume key cr f = do
  h ← cr.hwnd
  if cr.is_stop
      then none
      else elim f.running [ some _ ↦ none | none ↦ some (record f { running = some key }) ]

pub cr_resume : ℤ → Factory → Option (Bool × Factory)
unfolding resume
cr_resume key f = elim (find key f.map) [
  | none ↦ some (false, f)
  | some cr ↦ do f' ← resume key cr f; some (true, f')
]

-- `aco_yield`: back to the main coroutine from whichever coroutine runs.
pub yield_running : Factory → Option Factory
yield_running f = elim f.running [ none ↦ none | some _ ↦ some (record f { running = none }) ]

pub cr_yield : ℤ → Factory → Option (Bool × Factory)
unfolding yield_running
cr_yield key f = elim (find key f.map) [
  | none ↦ some (false, f)
  | some _ ↦ do f' ← yield_running f; some (true, f')
]

-- The end of `routine_proxy`, when the routine of the running coroutine has returned.
pub routine_returns : Factory → Option Factory
routine_returns f = do
  key ← f.running
  cr ← find key f.map
  some (record f { map = insert key (record cr { is_stop = true }) f.map; running = none })

-- A key that is not there is not quit.
pub cr_is_quit : ℤ → Factory → Bool
cr_is_quit key f = elim (find key f.map) [ none ↦ false | some cr ↦ cr.is_stop ]

abbrev pub cr_get : ℤ → Factory → Option Coroutine
cr_get key f = find key f.map

is_running : ℤ → Factory → Bool
is_running key f = elim f.running [ none ↦ false | some k ↦ eqb key k ]

-- To destroy the coroutine that runs, from within it, frees the stack it runs on: undefined
-- behaviour.
pub cr_remove : ℤ → Factory → Option (Bool × Factory)
unfolding is_running destroy
cr_remove key f = elim (find key f.map) [
  | none ↦ some (false, f)
  | some cr ↦
      if is_running key f
      then none
      else do live ← destroy cr f.live; some (true, record f { map = erase key f.map; live = live })
]

pub empty : Factory → Bool
empty f = elim f.map [ [] ↦ true | _ ∷ _ ↦ false ]

abbrev pub size : Factory → ℕ
size f = length f.map

-- The loop of `~CoroutineFactory` over the map.
pub destroy_all : Map Coroutine → List ℕ → Option (List ℕ)
unfolding destroy
destroy_all [] live = some live
destroy_all ((_, cr) ∷ rest) live = do live' ← destroy cr live; destroy_all rest live'

-- `m_hwnd` and `m_sstk`: the main coroutine and the shared stack.
pub record Root : Type 0 where
  pub hwnd : ℕ
  pub sstk : ℕ

-- `CoroutineFactory::CoroutineFactory`, beside the live handles of others; libaco aborts when it
-- has no memory.
abbrev pub new_factory : Root → List ℕ → Factory
new_factory root live = record { map = []; running = none; live = root.sstk ∷ root.hwnd ∷ live }

-- `CoroutineFactory::~CoroutineFactory`; to run it from within a coroutine is undefined behaviour.
unfoldable pub destroy_factory : Root → Factory → Option (List ℕ)
unfolding destroy_all
destroy_factory root f = elim f.running [
  | some _ ↦ none
  | none ↦ do live ← destroy_all f.map f.live; live' ← free root.sstk live; free root.hwnd live'
]
