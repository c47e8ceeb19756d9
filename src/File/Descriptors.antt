-- ===== src/File/Descriptors.antt =====
-- The descriptors that an `MFile` of src/File.cpp opens and closes.
use ff_test.Base.{
  ℕ, zero, suc, ◌%◌, ◌<◌, ◌≡◌, ◌≢◌, ◌⊎◌, refl, true, false, none, some, List, ◌∷◌, arith, u32_mod,
}
use ff_test.Base.Int.{pos, negsuc}
use ff_test.Base.Handles.{Same, free-Same}
use ff_test.File.{MFile, is_open, open_file, create, close}

-- `open` succeeds exactly when the descriptor was opened and its length, cast to `int`, is not -1.
-- Then the file is open with that descriptor, and `m_size` is its length in 32 bits; otherwise the
-- `MFile` is as it was.
pub open_file_lem :
    (fd : ℕ) (length : ℕ) (f : MFile) (open_fds : List ℕ)
    → let (opened, f', _) = open_file (some fd) (some length) f open_fds in
      ((opened ≡ true)
        × (length % u32_mod ≢ 4294967295)
        × (f' ≡ record f { fd = pos fd; size = length % u32_mod })
        × (is_open f' ≡ true))
      ⊎ ((opened ≡ false) × (length % u32_mod ≡ 4294967295) × (f' ≡ f))
unfolding open_file
open_file_lem fd length f open_fds = ground arith

-- When the length of the file cannot be had, `open` of an `MFile` that is not open fails and
-- leaves the new descriptor open, and a later `close` of that `MFile` leaves it open too.
pub open_file_leak :
    (fd : ℕ) (f : MFile) (open_fds : List ℕ)
    → is_open f ≡ false
    → let (opened, f', open_fds') = open_file (some fd) none f open_fds in
      (opened ≡ false) × (close f' open_fds' ≡ some (pos 0, f', fd ∷ open_fds))
unfolding open_file close
open_file_leak fd f open_fds shut = ground arith

-- A created file is open, and closing it closes its descriptor, if that is not 0.
pub create-close :
    (fd : ℕ) (f : MFile) (open_fds : List ℕ)
    → 0 < fd
    → let (r, f', open_fds') = create (some fd) f open_fds in
      (r ≡ pos 0)
      × (is_open f' ≡ true)
      × (rest : List ℕ) × (close f' open_fds' ≡ some (pos 0, record f { fd = negsuc 0 }, rest))
      × Same rest open_fds
unfolding create close
create-close (suc n) f open_fds h =
    let (rest, freed, same) = free-Same (suc n) (suc n ∷ open_fds) open_fds (λ k. refl) in
    (refl, refl, rest, rw freed, same)
create-close zero f open_fds h = absurd (omega arith)

-- A file that was given the descriptor 0 counts as open, and `close` leaves it open.
pub create-close_zero :
    (f : MFile) (open_fds : List ℕ)
    → let (r, f', open_fds') = create (some 0) f open_fds in
      (is_open f' ≡ true) × (close f' open_fds' ≡ some (pos 0, f', open_fds'))
unfolding create close
create-close_zero f open_fds = (refl, refl)
