-- ===== src/Coroutine/Owned.antt =====
-- The libaco handles that the coroutines of the map of src/Coroutine.cpp own.
use ff_test.Base.{
  ℕ, ◌≡◌, refl, inl, inr, Option, none, some, List, [], ◌∷◌, arith, Bool-cases, some_inj,
}
use ff_test.Base.Int.{ℤ, eqb}
use ff_test.Base.Handles.{Same, acquire, count-acquire, free-Same}
use ff_test.Coroutine.Keyed.{Map, find, insert, erase}
use ff_test.Coroutine.{Coroutine, destroy, destroy_all}

-- The handles of the coroutines, and `rest`.
abbrev pub handles : Map Coroutine → List ℕ → List ℕ
handles [] rest = rest
handles ((_, cr) ∷ m) rest = acquire cr.hwnd (handles m rest)

pub handles-insert_new :
    (k : ℤ) (cr : Coroutine) (m : Map Coroutine) (rest : List ℕ)
    → find k m ≡ none
    → Same (handles (insert k cr m) rest) (acquire cr.hwnd (handles m rest))
unfolding find insert
handles-insert_new k cr [] rest h n = refl
handles-insert_new k cr ((i, w) ∷ m) rest h n = elim (Bool-cases (eqb i k)) [
  | inl hit ↦ cc (rw hit at h)
  | inr miss ↦ rw miss (
      omega (
        arith,
        handles-insert_new k cr m rest (rw miss at h) n,
        count-acquire n w.hwnd (handles (insert k cr m) rest),
        count-acquire n w.hwnd (handles m rest),
        count-acquire n cr.hwnd (handles m rest),
        count-acquire n cr.hwnd (acquire w.hwnd (handles m rest)),
      ))
]

pub handles-insert_same :
    (k : ℤ) (cr old : Coroutine) (m : Map Coroutine) (rest : List ℕ)
    → find k m ≡ some old
    → cr.hwnd ≡ old.hwnd
    → handles (insert k cr m) rest ≡ handles m rest
unfolding find insert
handles-insert_same k cr old [] rest h e = cc
handles-insert_same k cr old ((i, w) ∷ m) rest h e =
    ground (arith, handles-insert_same k cr old m rest)

pub handles-erase :
    (k : ℤ) (cr : Coroutine) (m : Map Coroutine) (rest : List ℕ)
    → find k m ≡ some cr
    → Same (handles m rest) (acquire cr.hwnd (handles (erase k m) rest))
unfolding find erase
handles-erase k cr [] rest h n = cc
handles-erase k cr ((i, w) ∷ m) rest h n = elim (Bool-cases (eqb i k)) [
  | inl hit ↦ let e : w ≡ cr = some_inj (rw hit at h) in rw hit (rw e)
  | inr miss ↦ rw miss (
      omega (
        arith,
        handles-erase k cr m rest (rw miss at h) n,
        count-acquire n w.hwnd (handles (erase k m) rest),
        count-acquire n w.hwnd (handles m rest),
        count-acquire n cr.hwnd (handles (erase k m) rest),
        count-acquire n cr.hwnd (acquire w.hwnd (handles (erase k m) rest)),
      ))
]

pub destroy-Same :
    (cr : Coroutine) (live rest : List ℕ)
    → Same live (acquire cr.hwnd rest)
    → (live' : List ℕ) × (destroy cr live ≡ some live') × Same live' rest
unfolding destroy
destroy-Same cr live rest s = go cr.hwnd refl s
  where
    go :
        (h : Option ℕ)
        → cr.hwnd ≡ h
        → Same live (acquire h rest)
        → (live' : List ℕ) × (destroy cr live ≡ some live') × Same live' rest
    go none e s = (live, rw (e, destroy), s)
    go (some h) e s =
        let (live', freed, same) = free-Same h live rest s in (live', rw (e, destroy) freed, same)

-- Destroying every coroutine of the map frees each handle once.
pub destroy_all-Same :
    (m : Map Coroutine) (live rest : List ℕ)
    → Same live (handles m rest)
    → (live' : List ℕ) × (destroy_all m live ≡ some live') × Same live' rest
unfolding destroy_all
destroy_all-Same [] live rest s = (live, refl, s)
destroy_all-Same ((k, cr) ∷ m) live rest s =
    let (live1, first, same1) = destroy-Same cr live (handles m rest) s in
    let (live2, others, same2) = destroy_all-Same m live1 rest same1 in
    (live2, rw first others, same2)
