-- ===== src/Main/Wait.antt =====
-- How long `wait_job_done` of src/main.cpp waits.
use ff_test.Base.{ℕ, zero, suc, ◌+◌, ◌<◌, ◌≡◌, refl, Bool, true, false, none, some, arith}
use ff_test.Base.Int.{pos, negsuc}
use ff_test.Main.{poll, count_down, wait_job_done}

poll_first :
    (n fuel i : ℕ) (is_stop : ℕ → Bool)
    → n < fuel
    → is_stop (i + n) ≡ true
    → ((j : ℕ) → j < n → is_stop (i + j) ≡ false)
    → poll fuel is_stop i ≡ some (i + n)
unfolding poll
poll_first n zero i is_stop lt now before = absurd (omega arith)
poll_first zero (suc fuel) i is_stop lt now before =
    let e : i + zero ≡ i = omega arith in rw (rw e at now) (rw e refl)
poll_first (suc n) (suc fuel) i is_stop lt now before =
    let e : i + suc n ≡ i + 1 + n = omega arith in
    let start : i + zero ≡ i = omega arith in
    let not_yet : is_stop i ≡ false = rw start at (before zero (omega arith)) in
    let later : (j : ℕ) → j < n → is_stop (i + 1 + j) ≡ false = λ j h.
      (let q : i + suc j ≡ i + 1 + j = omega arith in rw q at (before (suc j) (omega arith))) in
    rw (not_yet, e) (poll_first n fuel (i + 1) is_stop (omega arith) (rw e at now) later)

pub count_down_lem : (n fuel i : ℕ) → n < fuel → count_down fuel n i ≡ some (i + n)
unfolding count_down
count_down_lem n zero i lt = absurd (omega arith)
count_down_lem zero (suc fuel) i lt = let e : i + zero ≡ i = omega arith in rw e refl
count_down_lem (suc n) (suc fuel) i lt =
    let e : i + suc n ≡ i + 1 + n = omega arith in
    rw e (count_down_lem n fuel (i + 1) (omega arith))

-- In one-loop mode `wait_job_done` ends at the first second at which `is_stop` answers `true`;
-- with a positive number it ends after so many seconds, whatever the tasks do; one round more
-- than those seconds is enough. With a negative number it does not end.
pub wait_job_done_lem :
    (n m k fuel : ℕ) (is_stop : ℕ → Bool)
    → n < fuel
    → suc m < fuel
    → is_stop n ≡ true
    → ((j : ℕ) → j < n → is_stop j ≡ false)
    → (wait_job_done fuel (pos 0) is_stop ≡ some n)
      × (wait_job_done fuel (pos (suc m)) is_stop ≡ some (suc m))
      × (wait_job_done fuel (negsuc k) is_stop ≡ none)
unfolding wait_job_done
wait_job_done_lem n m k fuel is_stop lt lt' now before =
    let e : 0 + n ≡ n = omega arith in
    let e' : 0 + suc m ≡ suc m = omega arith in
    let at_n : is_stop (0 + n) ≡ true = rw e now in
    let not_yet : (j : ℕ) → j < n → is_stop (0 + j) ≡ false =
      λ j h. (let q : 0 + j ≡ j = omega arith in rw q (before j h)) in
    (
      rw e at (poll_first n fuel 0 is_stop lt at_n not_yet),
      rw e' at (count_down_lem (suc m) fuel 0 lt'),
      refl,
    )
