-- ===== src/Task/OutputName.antt =====
-- The names of the output files of src/Task.cpp.
use ff_test.Base.{
  ℕ, zero, suc, ◌+◌, ◌-◌, ◌*◌, ◌/◌, ◌%◌, ◌^◌, ◌<◌, ◌≡◌, ◌≢◌, refl, ◌∙◌, ap, inl, inr, false, none,
  some, [], ◌∷◌, ◌++◌, arith, All, Bool-cases, ◌==◌,
}
use native.Mathlib.Nat.{pow-suc}
use ff_test.Base.Text.{Text}
use ff_test.Task.{after_last_slash, get_file_name, decimal_from, decimal}

-- A name without '/'.
abbrev pub IsName : Text → Type 0
IsName = All (λ c. c ≢ b'/')

name_has_no_slash : (name : Text) → IsName name → after_last_slash name ≡ none
unfolding after_last_slash
name_has_no_slash [] h = refl
name_has_no_slash (c ∷ s) h =
    let other : (c == b'/') ≡ false = ground (arith, h.0) in rw (name_has_no_slash s h.1, other)

after_last_slash_lem :
    (dir name : Text) → IsName name → after_last_slash (dir ++ (b'/' ∷ name)) ≡ some name
unfolding after_last_slash
after_last_slash_lem [] name h = rw (name_has_no_slash name h)
after_last_slash_lem (c ∷ dir) name h = rw (after_last_slash_lem dir name h)

-- `get_file_name` of a path is what follows its last '/'; a path without '/' is its own name.
pub get_file_name_lem :
    (dir name : Text)
    → IsName name
    → (get_file_name (dir ++ (b'/' ∷ name)) ≡ name) × (get_file_name name ≡ name)
unfolding get_file_name
get_file_name_lem dir name h = (
  rw (after_last_slash_lem dir name h, get_file_name),
  rw (name_has_no_slash name h, get_file_name),
)

-- The number that digits stand for, after those of `n`.
abbrev pub value_from : ℕ → Text → ℕ
value_from n [] = n
value_from n (c ∷ s) = value_from (n * 10 + (c - b'0')) s

value-decimal_from :
    (fuel n : ℕ) (acc : Text)
    → n < 10 ^ fuel
    → value_from 0 (decimal_from fuel n acc) ≡ value_from n acc
unfolding decimal_from
value-decimal_from zero n acc h = let z : 0 ≡ n = omega arith in ap (λ v. value_from v acc) z
value-decimal_from (suc fuel) n acc h = elim (Bool-cases (n / 10 == 0)) [
  | inl last ↦
      let digit : 0 * 10 + (b'0' + n % 10 - b'0') ≡ n = ground arith in
      rw last (ap (λ v. value_from v acc) digit)
  | inr more ↦
      let digit : n / 10 * 10 + (b'0' + n % 10 - b'0') ≡ n = omega arith in
      rw more (
        value-decimal_from fuel (n / 10) _ (omega (arith, pow-suc 10 fuel))
        ∙ ap (λ v. value_from v acc) digit)
]

-- The digits that `%d` writes for a number below 10^10, so for any `int` that is not negative,
-- stand for that number.
pub value-decimal : (n : ℕ) → n < 10 ^ 10 → value_from 0 (decimal n) ≡ n
unfolding decimal
value-decimal n h = value-decimal_from 10 n [] h
