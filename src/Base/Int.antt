-- ===== src/Base/Int.antt =====
-- Signed integers over the native numbers, under the library's names, and the tests of C on them.
use ff_test.Base.{ℕ, ◌-◌, ◌≡◌, ◌↔◌, refl, Bool, true, false, arith, ◌==◌, leb, if◌then◌else◌}

-- `negsuc n` is -(n + 1).
pub data ℤ : Type 0 where
  pos : ℕ → ℤ
  negsuc : ℕ → ℤ

-- `a < 0`
abbrev pub is_negative : ℤ → Bool
is_negative (pos n) = false
is_negative (negsuc n) = true

-- `a == b`
abbrev pub eqb : ℤ → ℤ → Bool
eqb (pos a) (pos b) = a == b
eqb (negsuc a) (negsuc b) = a == b
eqb _ _ = false

-- `a == 0`
abbrev pub is_zero : ℤ → Bool
is_zero a = eqb a (pos 0)

pub eqb-eq : (a b : ℤ) → eqb a b ≡ true → a ≡ b
eqb-eq (pos a) (pos b) h = ground arith
eqb-eq (negsuc a) (negsuc b) h = ground arith
eqb-eq (pos a) (negsuc b) h = ground arith
eqb-eq (negsuc a) (pos b) h = ground arith

pub eqb_refl : (a : ℤ) → eqb a a ≡ true
eqb_refl (pos a) = ground arith
eqb_refl (negsuc a) = ground arith

-- A result of 0 is no error.
pub zero-ne-negative : (a b : ℤ) → is_zero a ≡ true → is_negative b ≡ true → eqb a b ≡ false
zero-ne-negative (pos a) (negsuc b) h n = refl
zero-ne-negative (pos a) (pos b) h n = cc
zero-ne-negative (negsuc a) b h n = cc

-- a - b, as an integer.
abbrev pub sub_ℕ : ℕ → ℕ → ℤ
sub_ℕ a b = if leb b a then pos (a - b) else negsuc (b - a - 1)

pub eqb_iff : (a b : ℤ) → (eqb a b ≡ true) ↔ (a ≡ b)
eqb_iff a b = (eqb-eq a b, λ e. rw e (eqb_refl b))
