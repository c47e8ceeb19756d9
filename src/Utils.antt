-- ===== src/Utils.antt =====
-- src/Utils.hpp and src/Utils.cpp: the time between two clock readings, and the binding of a thread
-- to processors.
pub mod Laws
mod Tests
use ff_test.Base.{
  ℕ, zero, suc, ◌+◌, ◌-◌, ◌*◌, ◌/◌, ◌%◌, ◌^◌, List, [], ◌∷◌, ◌==◌, if◌then◌else◌, u32_mod,
}
use ff_test.Base.Int.{ℤ, pos, negsuc}

-- `struct timeval`, of a time after the epoch
pub record Timeval : Type 0 where
  pub tv_sec : ℕ
  pub tv_usec : ℕ

-- The microseconds of a `timeval`, not in the source: the sum that `util_diff_time_us` takes apart.
abbrev pub micros : Timeval → ℕ
micros t = t.tv_sec * 1000000 + t.tv_usec

-- The difference of two signed 64-bit numbers, cast to uint32_t.
unfoldable pub util_diff_time_us : Timeval → Timeval → ℕ
util_diff_time_us t1 t2 = (micros t2 + (u32_mod - micros t1 % u32_mod)) % u32_mod

-- `mask & (1 << i)`, as 0 or 1
abbrev pub bit : ℕ → ℕ → ℕ
bit mask i = (mask / 2 ^ i) % 2

-- The loop over `i`, `n` rounds before its end; the set is the list of its members.
unfoldable pub cpus_from : ℕ → ℕ → ℕ → List ℕ
cpus_from zero i mask = []
cpus_from (suc n) i mask =
    let rest = cpus_from n (i + 1) mask in if bit mask i == 0 then rest else i ∷ rest

-- `cpuset`, after the loop of `util_cpu_bind`
unfoldable pub cpus_of : ℕ → List ℕ
unfolding cpus_from
cpus_of mask = cpus_from 8 0 mask

-- `setaffinity` is `pthread_setaffinity_np` for the thread: 0, or an error number.
unfoldable pub util_cpu_bind : (List ℕ → ℕ) → ℕ → ℤ
unfolding cpus_of
util_cpu_bind setaffinity mask = if setaffinity (cpus_of mask) == 0 then pos 0 else negsuc 0
