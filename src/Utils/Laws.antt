-- ===== src/Utils/Laws.antt =====
-- What the helpers of src/Utils.hpp and src/Utils.cpp compute.
use ff_test.Base.{
  ℕ, zero, suc, ◌+◌, ◌*◌, ◌%◌, ◌^◌, ◌<◌, ◌≡◌, refl, [], ◌∷◌, arith, u8_mod, u32_mod, if◌then◌else◌,
  ltb,
}
use native.Mathlib.Numerals.{towards_suc}
use ff_test.Utils.{Timeval, micros, util_diff_time_us, cpus_of}

-- Between two readings less than 2^32 microseconds apart the difference is exact.
pub util_diff_time_us_exact :
    (t1 t2 : Timeval) (d : ℕ)
    → micros t2 ≡ micros t1 + d
    → d < u32_mod
    → util_diff_time_us t1 t2 ≡ d
unfolding util_diff_time_us
util_diff_time_us_exact t1 t2 d e h = omega arith

-- Differences add up, in 32 bits, whichever way the clock went.
pub util_diff_time_us_chain :
    (t1 t2 t3 : Timeval)
    → (util_diff_time_us t1 t2 + util_diff_time_us t2 t3) % u32_mod ≡ util_diff_time_us t1 t3
unfolding util_diff_time_us
util_diff_time_us_chain t1 t2 t3 = omega arith

-- `(uint8_t)(1 << core)`, where the shift of an `int` is defined: up to the core 31
abbrev pub core_mask : ℕ → ℕ
core_mask core = 2 ^ core % u8_mod

pow-add_eight : (k : ℕ) → 2 ^ (k + 8) ≡ 256 * 2 ^ k
pow-add_eight k = simp towards_suc (omega arith)

core_mask_zero : (k : ℕ) → core_mask (k + 8) ≡ 0
core_mask_zero k = rw (pow-add_eight k) (omega arith)

-- The mask of a core below 8 selects that core alone; that of any other core, cut to 8 bits,
-- selects none.
pub cpus_of-core_mask :
    (core : ℕ) → cpus_of (core_mask core) ≡ (if ltb core 8 then core ∷ [] else [])
unfolding cpus_of
cpus_of-core_mask zero = refl
cpus_of-core_mask (suc zero) = refl
cpus_of-core_mask (suc (suc zero)) = refl
cpus_of-core_mask (suc (suc (suc zero))) = refl
cpus_of-core_mask (suc (suc (suc (suc zero)))) = refl
cpus_of-core_mask (suc (suc (suc (suc (suc zero))))) = refl
cpus_of-core_mask (suc (suc (suc (suc (suc (suc zero)))))) = refl
cpus_of-core_mask (suc (suc (suc (suc (suc (suc (suc zero))))))) = refl
cpus_of-core_mask (suc (suc (suc (suc (suc (suc (suc (suc n)))))))) =
    let e : suc (suc (suc (suc (suc (suc (suc (suc n))))))) ≡ n + 8 = omega arith in
    rw (e, core_mask_zero n) (ground arith)
