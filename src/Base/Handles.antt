-- ===== src/Base/Handles.antt =====
-- The handles of a resource that are in use.
use ff_test.Base.{
  ℕ, ◌+◌, ◌<◌, Bool, true, false, ◌||◌, if◌then◌else◌, Option, none, some, List, [], ◌∷◌, ◌==◌, ◌≡◌,
  arith,
}

pub contains : ℕ → List ℕ → Bool
contains h [] = false
contains h (x ∷ xs) = x == h || contains h xs

pub remove : ℕ → List ℕ → List ℕ
remove h [] = []
remove h (x ∷ xs) = if x == h then xs else x ∷ remove h xs

-- A free of a handle that is not live is undefined behaviour.
unfoldable pub free : ℕ → List ℕ → Option (List ℕ)
unfolding contains remove
free h live = if contains h live then some (remove h live) else none

-- What an allocation adds.
abbrev pub acquire : Option ℕ → List ℕ → List ℕ
acquire none live = live
acquire (some h) live = h ∷ live

abbrev pub indicator : Bool → ℕ
indicator true = 1
indicator false = 0

abbrev pub count : ℕ → List ℕ → ℕ
count k [] = 0
count k (x ∷ xs) = indicator (x == k) + count k xs

-- The same handles, each as often.
abbrev pub Same : List ℕ → List ℕ → Type 0
Same xs ys = (k : ℕ) → count k xs ≡ count k ys

contains_of_count : (h : ℕ) (xs : List ℕ) → 0 < count h xs → contains h xs ≡ true
unfolding contains
contains_of_count h [] p = absurd (omega arith)
contains_of_count h (x ∷ xs) p = ground (arith, contains_of_count h xs)

count-remove :
    (h k : ℕ) (xs : List ℕ)
    → contains h xs ≡ true
    → indicator (h == k) + count k (remove h xs) ≡ count k xs
unfolding contains remove
count-remove h k [] p = cc
count-remove h k (x ∷ xs) p = ground (arith, count-remove h k xs)

indicator_self : (h : ℕ) → indicator (h == h) ≡ 1
indicator_self h = ground arith

-- A handle that is live can be freed, and the others stay live.
pub free-Same :
    (h : ℕ) (live rest : List ℕ)
    → Same live (h ∷ rest)
    → (live' : List ℕ) × (free h live ≡ some live') × Same live' rest
unfolding free
free-Same h live rest s =
    let found = contains_of_count h live (omega (arith, s h, indicator_self h)) in
    (remove h live, rw found, λ k. omega (arith, s k, count-remove h k live found))

pub count-acquire :
    (k : ℕ) (p : Option ℕ) (xs : List ℕ)
    → count k (acquire p xs) ≡ count k (acquire p []) + count k xs
count-acquire k none xs = omega arith
count-acquire k (some h) xs = omega arith
