-- ===== src/Task.antt =====
-- src/Task.hpp and src/Task.cpp: the callbacks of a decoding task and the names of its output
-- files. The task's thread is in the module `TaskPool`.
pub mod Output
pub mod OutputName
pub mod Recording
pub mod Full
pub mod Pixels
pub mod Reading
pub mod Routine
mod Tests
use ff_test.Base.{
  ℕ, zero, suc, ◌+◌, ◌*◌, ◌%◌, ◌/◌, not, ◌||◌, if◌then◌else◌, Option, none, some, List, [], ◌∷◌,
  ◌++◌, ◌==◌, ltb, leb, ◌&&◌, Bool, int_bound, length, take, drop, u16_mod, u32_mod, ◌>>=◌,
}
use ff_test.Base.Int.{ℤ, pos, negsuc}
use ff_test.Base.Text.{Text, is_empty}
use ff_test.Av.{Frame}
use ff_test.File.{MFile, is_open, read, write, create}

-- `read_pkt_file`: `m_fdin`, what `::read` answers, the bytes asked for, and the bytes of that file
-- from its position on. The result of `read`, or -1 with nothing read.
unfoldable pub read_pkt_file : Option MFile → (ℕ → ℕ → ℤ) → ℕ → List ℕ → ℤ × List ℕ × List ℕ
unfolding read
read_pkt_file none answer size rest = (negsuc 0, [], rest)
read_pkt_file (some f) answer size rest =
    if not (is_open f) then (negsuc 0, [], rest) else read answer (size % u32_mod) rest

-- An offset in the picture is an `int`, and `n` bytes from there on are in the buffer.
abbrev pub has_bytes : Frame → ℕ → ℕ → Bool
has_bytes frame offset n = ltb offset int_bound && leb (offset + n) (length frame.plane)

-- The bytes from `frame->data[0] + i * frame->linesize[0]` on, of which a row is read; undefined
-- when the product overflows or the row is not in the buffer.
abbrev pub row_start : Frame → ℕ → Option (List ℕ)
row_start frame i =
    let offset = i * frame.linesize in
    if has_bytes frame offset frame.width then some (drop offset frame.plane) else none

-- How far the loop of `on_recv_frame` comes: it goes on, it has met undefined behaviour, or it has
-- ended with what is in the file then.
pub data Rows : Type 0 where
  unended undefined : Rows
  wrote : List ℕ → Rows

-- That loop from the row `i` on, a uint16_t, over at most `fuel` rounds. It appends to the output.
pub write_rows : ℕ → (ℕ → ℕ → ℤ) → Frame → ℕ → List ℕ → Rows
unfolding write
write_rows zero written frame i output = unended
write_rows (suc fuel) written frame i output =
    if ltb i frame.height
    then elim (row_start frame i) [
      | none ↦ undefined
      | some src ↦
          write_rows fuel written frame ((i + 1) % u16_mod)
            (write written src (frame.width % u32_mod) output).1
    ]
    else wrote output

abbrev pub returned : Rows → Option (ℤ × List ℕ)
returned unended = none
returned undefined = none
returned (wrote output) = some (pos 0, output)

-- `on_recv_frame` for `m_fdout`; `output` is the content of that file. The product of width and
-- height is an `int`.
pub on_recv_frame : ℕ → Option MFile → (ℕ → ℕ → ℤ) → Frame → List ℕ → Option (ℤ × List ℕ)
unfolding write_rows write
on_recv_frame fuel none written frame output = some (pos 0, output)
on_recv_frame fuel (some f) written frame output =
    let size = frame.width * frame.height in
    if not (is_open f)
    then some (pos 0, output)
    else if frame.width == frame.linesize
    then (if ltb size int_bound && has_bytes frame 0 size
        then some (pos 0, (write written frame.plane (size % u32_mod) output).1)
        else none)
    else returned (write_rows fuel written frame 0 output)

-- What stands after the last '/', if there is one: `strrchr`.
pub after_last_slash : Text → Option Text
after_last_slash [] = none
after_last_slash (c ∷ s) =
    let rest = after_last_slash s in
    elim rest [ some t ↦ some t | none ↦ if c == b'/' then some s else none ]

-- `get_file_name`
pub get_file_name : Text → Text
unfolding after_last_slash
get_file_name path = elim (after_last_slash path) [ none ↦ path | some t ↦ t ]

-- `%d` of a number that is not negative, least digit last.
unfoldable pub decimal_from : ℕ → ℕ → Text → Text
decimal_from zero n acc = acc
decimal_from (suc fuel) n acc =
    let acc' = (b'0' + n % 10) ∷ acc in
    let rest = decimal_from fuel (n / 10) acc' in if n / 10 == 0 then acc' else rest

-- The fuel is enough for any `int`: ten digits.
unfoldable pub decimal : ℕ → Text
unfolding decimal_from
decimal n = decimal_from 10 n []

-- The text that `snprintf` formats: "%s/%d_%s_%dx%d.yuv".
pub full_name : Text → ℕ → Text → ℕ → ℕ → Text
unfolding decimal
full_name dir core name w h =
    dir
    ++ (b'/'
        ∷ (decimal core
            ++ (b'_'
                ∷ (name
                    ++ (b'_'
                        ∷ (decimal w
                            ++ (b'x' ∷ (decimal h ++ (b'.' ∷ b'y' ∷ b'u' ∷ b'v' ∷ [])))))))))

-- `output_file_create`: the path, at most 255 characters of it, and the new file. `opened` is what
-- the system answers when that path is created.
pub output_file_create :
    (Text → Option ℕ) → Text → ℕ → MFile → Text → ℕ → ℕ → List ℕ → ℤ × MFile × List ℕ
unfolding get_file_name full_name create
output_file_create opened output_path core f path w h open_fds =
    let name = get_file_name path in
    if is_empty name || is_empty output_path
    then (negsuc 0, f, open_fds)
    else create (opened (take 255 (full_name output_path core name w h))) f open_fds
