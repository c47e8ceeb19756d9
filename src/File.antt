-- ===== src/File.antt =====
-- src/File.hpp and src/File.cpp: a file by its descriptor. `open_fds` are the descriptors that the
-- process has open; what the system calls answer is given to each operation.
pub mod Descriptors
pub mod History
mod Tests
use ff_test.Base.{
  ℕ, zero, suc, ◌+◌, ◌%◌, Bool, true, false, not, if◌then◌else◌, Option, none, some, List, [], ◌∷◌,
  ◌==◌, u32_mod, ◌>>=◌, ◌++◌, take, drop, length,
}
use ff_test.Base.Int.{ℤ, pos, negsuc, is_negative}
use ff_test.Base.Handles.{acquire, free}
use ff_test.Base.Text.{Text}

pub record MFile : Type 0 where
  pub fd : ℤ
  pub name : Text
  pub size : ℕ

-- `MFile::MFile()`
unfoldable pub unnamed : MFile
unnamed = record { fd = negsuc 0; name = []; size = 0 }

abbrev pub is_open : MFile → Bool
is_open f = not (is_negative f.fd)

-- The cast of the size to an `int` that is compared with -1.
abbrev pub is_minus_one : ℕ → Bool
is_minus_one n = n % u32_mod == 4294967295

-- `MFile::open`: `fd` is what `::open` answers, `end` what the first `lseek` answers (`none` is
-- -1).
open_fd : Option ℕ → ℕ → MFile → Bool × MFile
open_fd none fd f = (false, f)
open_fd (some n) fd f =
    if is_minus_one n then (false, f) else (true, record f { fd = pos fd; size = n % u32_mod })

pub open_file : Option ℕ → Option ℕ → MFile → List ℕ → Bool × MFile × List ℕ
unfolding open_fd
open_file none end f open_fds = (false, f, open_fds)
open_file (some fd) end f open_fds =
    let (opened, f') = open_fd end fd f in (opened, f', fd ∷ open_fds)

-- `MFile::create`
unfoldable pub create : Option ℕ → MFile → List ℕ → ℤ × MFile × List ℕ
create none f open_fds = (negsuc 0, f, open_fds)
create (some fd) f open_fds = (pos 0, record f { fd = pos fd }, fd ∷ open_fds)

-- `MFile::close`, which does nothing for the descriptor 0; to close a descriptor that is not open
-- is an error of the caller (`none`).
close_fd : ℤ → MFile → List ℕ → Option (ℤ × MFile × List ℕ)
close_fd (pos (suc n)) f open_fds = do
  rest ← free (suc n) open_fds
  some (pos 0, record f { fd = negsuc 0 }, rest)
close_fd _ f open_fds = some (pos 0, f, open_fds)

pub close : MFile → List ℕ → Option (ℤ × MFile × List ℕ)
unfolding close_fd
close f open_fds = close_fd f.fd f open_fds

-- `MFile::~MFile`
pub destroy : MFile → List ℕ → Option (List ℕ)
unfolding close
destroy f open_fds = do r ← close f open_fds; some r.2

-- The bytes that a result of `::read` or `::write` stands for: none at an error.
abbrev pub count_of : ℤ → ℕ
count_of (pos n) = n
count_of (negsuc _) = 0

-- `MFile::write`: `written` is what `::write` answers for `count` bytes and the number of bytes
-- that the file has. So many of them are appended to the file; the caller has to look at the
-- result.
unfoldable pub write : (ℕ → ℕ → ℤ) → Text → ℕ → List ℕ → ℤ × List ℕ
write written src count output =
    let ret = written count (length output) in (ret, output ++ take (count_of ret) src)

-- `MFile::read`: `answer` is what `::read` answers for `count` bytes and the number of bytes from
-- the file's position to its end; `rest` are those bytes. Beside the result stand the bytes that
-- are put into the buffer, and what is left.
unfoldable pub read : (ℕ → ℕ → ℤ) → ℕ → List ℕ → ℤ × List ℕ × List ℕ
read answer count rest =
    let ret = answer count (length rest) in
    (ret, take (count_of ret) rest, drop (count_of ret) rest)
