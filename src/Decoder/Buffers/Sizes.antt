-- ===== src/Decoder/Buffers/Sizes.antt =====
-- The plane sizes of `update_frame_pool` of src/Decoder.cpp.
use ff_test.Base.{
  ℕ, suc, ◌+◌, ◌-◌, ◌≤◌, ◌<◌, ◌≡◌, refl, if◌then◌else◌, List, [], ◌∷◌, ◌==◌, map, length, arith,
  Bool-cases, inl, inr,
}
use ff_test.Base.Int.{pos, sub_ℕ}
use ff_test.Decoder.Buffers.{plane_sizes}

-- Addresses that ascend from `here` to `total`.
abbrev pub Ascend : ℕ → ℕ → List ℕ → Type 0
Ascend total here [] = here ≤ total
Ascend total here (next ∷ addresses) = (here < next) × Ascend total next addresses

-- Up to the first NULL.
abbrev pub before_null : List ℕ → List ℕ
before_null [] = []
before_null (a ∷ addresses) = let rest = before_null addresses in if a == 0 then [] else a ∷ rest

abbrev pub sum : List ℕ → ℕ
sum [] = 0
sum (x ∷ xs) = x + sum xs

sub_le : (a b : ℕ) → b ≤ a → sub_ℕ a b ≡ pos (a - b)
sub_le a b h = ground arith

-- For plane addresses that ascend within the picture, up to the first NULL, the sizes are those of
-- the planes: there is one more than such addresses, none is negative, and together they are as
-- large as the picture.
pub plane_sizes-sum :
    (total here : ℕ) (addresses : List ℕ)
    → Ascend total here (before_null addresses)
    → (sizes : List ℕ) × (plane_sizes total here addresses ≡ map pos sizes)
      × (length sizes ≡ suc (length (before_null addresses)))
      × (here + sum sizes ≡ total)
unfolding plane_sizes
plane_sizes-sum total here [] le =
    ((total - here) ∷ [], rw (sub_le total here le) refl, refl, omega arith)
plane_sizes-sum total here (a ∷ addresses) up = elim (Bool-cases (a == 0)) [
  | inl null ↦
      let le : here ≤ total = rw null at up in
      ((total - here) ∷ [], rw (null, sub_le total here le) refl, rw null refl, omega arith)
  | inr more ↦
      let up' : (here < a) × Ascend total a (before_null addresses) = rw more at up in
      let (sizes, e, l, s) = plane_sizes-sum total a addresses up'.1 in
      (
        (a - here) ∷ sizes,
        rw (more, sub_le a here (omega (arith, up'.0)), e) refl,
        rw more (omega (arith, l)),
        omega (arith, s, up'.0),
      )
]
