-- ===== src/Config/Numbers.antt =====
-- `atoi`, as src/Config.cpp uses it, reads what `%d` writes (src/Task.cpp).
use ff_test.Base.{
  ℕ, zero, suc, ◌+◌, ◌-◌, ◌*◌, ◌/◌, ◌%◌, ◌^◌, ◌<◌, ◌≡◌, ◌∙◌, ap, inl, inr, true, false, [], ◌∷◌,
  ◌==◌, arith, Bool-cases,
}
use native.Mathlib.Nat.{pow-suc}
use ff_test.Base.Int.{pos}
use ff_test.Base.Text.{Text}
use ff_test.Task.{decimal, decimal_from}
use ff_test.Config.{atoi, read_digits, is_space, is_digit}

digit_char : (n : ℕ) → n < 10 → is_digit (b'0' + n) ≡ true
digit_char n h = ground arith

read_digits-digit :
    (n v : ℕ) (acc : Text)
    → n < 10
    → read_digits v ((b'0' + n) ∷ acc) ≡ read_digits (v * 10 + n) acc
unfolding read_digits
read_digits-digit n v acc h =
    let digit : is_digit (b'0' + n) ≡ true = digit_char n h in
    let value : v * 10 + (b'0' + n - b'0') ≡ v * 10 + n = omega arith in
    rw digit (ap (λ w. read_digits w acc) value)

read_digits-decimal_from :
    (fuel n : ℕ) (acc : Text)
    → n < 10 ^ fuel
    → read_digits 0 (decimal_from fuel n acc) ≡ read_digits n acc
unfolding decimal_from
read_digits-decimal_from zero n acc h = let z : 0 ≡ n = omega arith in ap (λ v. read_digits v acc) z
read_digits-decimal_from (suc fuel) n acc h = elim (Bool-cases (n / 10 == 0)) [
  | inl last ↦
      rw last (
        read_digits-digit (n % 10) 0 acc (omega arith) ∙ ap (λ v. read_digits v acc) (ground arith))
  | inr more ↦ rw more (
      read_digits-decimal_from fuel (n / 10) _ (omega (arith, pow-suc 10 fuel))
      ∙ read_digits-digit (n % 10) (n / 10) acc (omega arith)
      ∙ ap (λ v. read_digits v acc) (omega arith))
]

-- The number begins with a digit.
decimal_from_digit :
    (fuel n : ℕ) (acc : Text)
    → (c : ℕ) × (s : Text) × (decimal_from (suc fuel) n acc ≡ c ∷ s) × (is_digit c ≡ true)
unfolding decimal_from
decimal_from_digit zero n acc =
    (b'0' + n % 10, acc, ground arith, digit_char (n % 10) (omega arith))
decimal_from_digit (suc fuel) n acc = elim (Bool-cases (n / 10 == 0)) [
  | inl last ↦ (b'0' + n % 10, acc, rw last, digit_char (n % 10) (omega arith))
  | inr more ↦
      let (c, s, e, digit) = decimal_from_digit fuel (n / 10) ((b'0' + n % 10) ∷ acc) in
      (c, s, rw more e, digit)
]

-- A text that begins with a digit has no white space or sign to skip.
atoi_digit : (c : ℕ) (s : Text) → is_digit c ≡ true → atoi (c ∷ s) ≡ pos (read_digits 0 (c ∷ s))
unfolding atoi
atoi_digit c s h =
    let solid : is_space c ≡ false = ground arith in
    let not_minus : (c == b'-') ≡ false = ground arith in
    let not_plus : (c == b'+') ≡ false = ground arith in rw (solid, not_minus, not_plus)

-- `atoi` reads a number below 10^10 back from its decimal digits, as `%d` writes them.
pub atoi-decimal : (n : ℕ) → n < 10 ^ 10 → atoi (decimal n) ≡ pos n
atoi-decimal n h =
    let (c, s, e, digit) = decimal_from_digit 9 n [] in
    let text : decimal n ≡ c ∷ s = unfold decimal in e in
    let number : read_digits 0 (decimal_from 10 n []) ≡ n =
      unfold read_digits in read_digits-decimal_from 10 n [] h in
    rw text (atoi_digit c s digit ∙ ap pos (rw e at number))
