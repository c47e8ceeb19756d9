-- ===== src/Decoder/Buffers/Alignment.antt =====
-- Why the loop of `update_frame_pool` of src/Decoder.cpp ends.
use ff_test.Base.{
  ℕ, zero, suc, ◌+◌, ◌*◌, ◌%◌, ◌/◌, ◌^◌, ◌≤◌, ◌<◌, ◌≡◌, ◌⊎◌, refl, ◌∙◌, inl, inr, true, false,
  Option, some, List, ◌==◌, arith, Bool-cases, subst,
}
use native.Mathlib.Nat.{pow-suc}
use ff_test.Base.Int.{ℤ, pos, is_negative}
use ff_test.Decoder.Buffers.{lowest_bit_from, lowest_bit, aligned, line_sizes}

-- `w` is a multiple of 2^j.
abbrev pub IsMultiple : ℕ → ℕ → Type 0
IsMultiple j w = (c : ℕ) × (w ≡ 2 ^ j * c)

pow_double : (j c : ℕ) → 2 ^ suc j * c ≡ 2 * (2 ^ j * c)
pow_double j c = grind (arith, pow-suc 2 j)

le_pow : (n w : ℕ) → w ≤ 2 ^ n * w
le_pow zero w = omega arith
le_pow (suc n) w = omega (arith, le_pow n w, pow_double n w)

-- Twice the width at most.
le_pow_twice : (n w v : ℕ) → v ≤ 2 * w → 2 ^ n * v ≤ 2 ^ suc n * w
le_pow_twice zero w v h = omega arith
le_pow_twice (suc n) w v h =
    omega (arith, le_pow_twice n w v h, pow_double n v, pow_double (suc n) w)

-- Adding the lowest bit of a multiple of 2^j gives a multiple of 2^(j + 1).
lowest_bit_from_step :
    (fuel j w : ℕ) → w < 2 ^ fuel → IsMultiple j w → IsMultiple (suc j) (w + lowest_bit_from fuel w)
unfolding lowest_bit_from
lowest_bit_from_step zero j w lt m = (0, omega arith)
lowest_bit_from_step (suc fuel) zero w lt m = elim (Bool-cases (w % 2 == 1)) [
  | inl odd ↦ (w / 2 + 1, rw odd (ground arith))
  | inr even ↦ (w / 2 + lowest_bit_from fuel (w / 2), rw even (ground arith))
]
lowest_bit_from_step (suc fuel) (suc j) w lt (c, e) =
    let twice = pow_double j c in
    let half : w / 2 ≡ 2 ^ j * c = omega (arith, twice) in
    let even : (w % 2 == 1) ≡ false = ground (arith, twice) in
    let (d, q) = lowest_bit_from_step fuel j (w / 2) (omega (arith, pow-suc 2 fuel)) (c, half) in
    let twice' = pow_double (suc j) d in (d, rw even (omega (arith, twice, twice', half, q)))

lowest_bit_from_le : (fuel w : ℕ) → lowest_bit_from fuel w ≤ w
unfolding lowest_bit_from
lowest_bit_from_le zero w = omega arith
lowest_bit_from_le (suc fuel) w = ground (arith, lowest_bit_from_le fuel (w / 2))

-- The loop has ended: with an error of FFmpeg, or with aligned line sizes.
abbrev pub Ends : Option (ℤ × List ℕ) → List ℕ → Type 0
Ends o stride_align =
    (r : ℤ × List ℕ) × (o ≡ some r)
    × ((is_negative r.0 ≡ true) ⊎ ((r.0 ≡ pos 0) × (aligned r.1 stride_align ≡ true)))

one_round :
    (fuel w : ℕ) (fill : ℕ → ℤ × List ℕ) (stride_align : List ℕ)
    → Ends (line_sizes (suc fuel) fill stride_align w) stride_align
      ⊎ ((aligned (fill w).1 stride_align ≡ false)
          × (line_sizes (suc fuel) fill stride_align w
              ≡ line_sizes fuel fill stride_align (w + lowest_bit w)))
unfolding line_sizes
one_round fuel w fill stride_align = elim (Bool-cases (is_negative (fill w).0)) [
  | inl bad ↦ inl (((fill w).0, (fill w).1), rw bad refl, inl bad)
  | inr fine ↦ elim (Bool-cases (aligned (fill w).1 stride_align)) [
    | inl found ↦ inl ((pos 0, (fill w).1), rw (fine, found) refl, inr (refl, found))
    | inr other ↦ inr (other, rw (fine, other) refl)
  ]
]

-- A loop at a multiple of 2^j, with `n` doublings to go until 2^k.
line_sizes_from :
    (k n j w fuel : ℕ) (fill : ℕ → ℤ × List ℕ) (stride_align : List ℕ)
    → ((v : ℕ) → IsMultiple k v → aligned (fill v).1 stride_align ≡ true)
    → j + n ≡ k
    → IsMultiple j w
    → 2 ^ n * w < 2 ^ 31
    → n < fuel
    → Ends (line_sizes fuel fill stride_align w) stride_align
line_sizes_from k n j w zero fill stride_align good e m small lt = absurd (omega arith)
line_sizes_from k zero j w (suc fuel) fill stride_align good e m small lt =
    elim (one_round fuel w fill stride_align) [
      | inl over ↦ over
      | inr (other, _) ↦
          let j_is_k : j ≡ k = omega arith in
          let found = good w (subst (λ i. IsMultiple i w) j_is_k m) in cc
    ]
line_sizes_from k (suc n) j w (suc fuel) fill stride_align good e m small lt =
    elim (one_round fuel w fill stride_align) [
      | inl over ↦ over
      | inr (_, step) ↦
          let w' : ℕ = w + lowest_bit w in
          let le = lowest_bit_from_le 31 w in
          let fits = le_pow_twice n w w' (omega (arith, le)) in
          let next = lowest_bit_from_step 31 j w (omega (arith, le_pow (suc n) w)) m in
          let (r, run, result) =
            line_sizes_from k n (suc j) w' fuel fill stride_align good (omega arith) next
              (omega (arith, fits)) (omega arith) in
          (r, step ∙ run, result)
    ]

-- The loop ends after at most `k + 1` rounds, with an error of FFmpeg or with aligned line sizes,
-- when FFmpeg gives aligned line sizes for every width that is a multiple of 2^k, and the width is
-- so small that it can be doubled `k` times in an `int`.
pub line_sizes_end :
    (k w : ℕ) (fill : ℕ → ℤ × List ℕ) (stride_align : List ℕ)
    → ((v : ℕ) → IsMultiple k v → aligned (fill v).1 stride_align ≡ true)
    → 2 ^ k * w < 2 ^ 31
    → Ends (line_sizes (suc k) fill stride_align w) stride_align
line_sizes_end k w fill stride_align good small =
    line_sizes_from k k 0 w (suc k) fill stride_align good (omega arith) (w, omega arith) small
      (omega arith)
