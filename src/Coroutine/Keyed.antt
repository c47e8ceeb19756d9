-- ===== src/Coroutine/Keyed.antt =====
-- std::map with `int` keys, as src/Coroutine.cpp uses it: an association list; its order is of no
-- account there.
use ff_test.Base.{
  suc, ◌≡◌, refl, Bool, true, false, if◌then◌else◌, Option, none, some, List, [], ◌∷◌, arith,
  length,
}
use ff_test.Base.Int.{ℤ, eqb, eqb_iff}

abbrev pub Map {ℓ} : Type ℓ → Type ℓ
Map V = List (ℤ × V)

module _ {ℓ} {V : Type ℓ} where
  unfoldable pub find : ℤ → Map V → Option V
  find key [] = none
  find key ((k, v) ∷ m) = if eqb k key then some v else find key m

  unfoldable pub has_key : ℤ → Map V → Bool
  unfolding find
  has_key key m = elim (find key m) [ none ↦ false | some _ ↦ true ]

  -- A new key goes to the end; the value of an old one is replaced.
  unfoldable pub insert : ℤ → V → Map V → Map V
  insert key v [] = (key, v) ∷ []
  insert key v ((k, w) ∷ m) = if eqb k key then (k, v) ∷ m else (k, w) ∷ insert key v m

  unfoldable pub erase : ℤ → Map V → Map V
  erase key [] = []
  erase key ((k, w) ∷ m) = if eqb k key then m else (k, w) ∷ erase key m

  -- No key twice.
  abbrev pub Distinct : Map V → Type ℓ
  Distinct [] = Unit
  Distinct ((k, w) ∷ m) = (find k m ≡ none) × Distinct m

  pub find-insert :
      (j k : ℤ) (v : V) (m : Map V) → find j (insert k v m) ≡ (if eqb k j then some v else find j m)
  unfolding find insert
  find-insert j k v [] = refl
  find-insert j k v ((i, w) ∷ m) =
      ground (arith, eqb_iff i k, eqb_iff k j, eqb_iff i j, find-insert j k v m)

  pub find-erase :
      (j k : ℤ) (m : Map V) → Distinct m → find j (erase k m) ≡ (if eqb k j then none else find j m)
  unfolding find erase
  find-erase j k [] d = ground arith
  find-erase j k ((i, w) ∷ m) d =
      ground (arith, eqb_iff i k, eqb_iff k j, eqb_iff i j, find-erase j k m d.1)

  pub insert-Distinct : (k : ℤ) (v : V) (m : Map V) → Distinct m → Distinct (insert k v m)
  unfolding find insert
  insert-Distinct k v [] d = (refl, tt)
  insert-Distinct k v ((i, w) ∷ m) d =
      ground (arith, eqb_iff i k, eqb_iff k i, find-insert i k v m, insert-Distinct k v m d.1)

  pub erase-Distinct : (k : ℤ) (m : Map V) → Distinct m → Distinct (erase k m)
  unfolding find erase
  erase-Distinct k [] d = tt
  erase-Distinct k ((i, w) ∷ m) d =
      ground (arith, eqb_iff k i, find-erase i k m d.1, erase-Distinct k m d.1)

  pub length-insert_new :
      (k : ℤ) (v : V) (m : Map V) → find k m ≡ none → length (insert k v m) ≡ suc (length m)
  unfolding find insert
  length-insert_new k v [] h = refl
  length-insert_new k v ((i, w) ∷ m) h = ground (arith, length-insert_new k v m)

  pub length-erase :
      (k : ℤ) (m : Map V) (v : V) → find k m ≡ some v → suc (length (erase k m)) ≡ length m
  unfolding find erase
  length-erase k [] v h = cc
  length-erase k ((i, w) ∷ m) v h = ground (arith, length-erase k m v)
