-- ===== src/Task/Reading.antt =====
-- The input of a decoder of src/Decoder.cpp through the callback `read_pkt_file` of src/Task.cpp.
use ff_test.Base.{
  ℕ, zero, suc, ◌%◌, ◌≤◌, ◌<◌, ◌≡◌, ◌==◌, refl, ap, true, false, if◌then◌else◌, ◌||◌, Option, none,
  some, List, [], ◌∷◌, ◌++◌, arith, length, take, drop, take-drop, length-drop, u32_mod, ◌>>=◌,
}
use ff_test.Base.Int.{ℤ, pos, is_negative, is_zero}
use ff_test.File.{MFile, is_open}
use ff_test.Task.{read_pkt_file}
use ff_test.Decoder.Callbacks.{Callbacks, set_cb_read_pkt, set_cb_recv_frame, read_pkt}
use ff_test.Task.Recording.{Files, Contents, task_callbacks}

-- What POSIX says of `::read` on a file: as many bytes as asked for or fewer, and none only at the
-- end of the file.
abbrev pub IsRead : (ℕ → ℕ → ℤ) → Type 0
IsRead answer =
    (n left : ℕ)
    → 0 < n
    → (k : ℕ) × (answer n left ≡ pos k) × (k ≤ n) × (k ≤ left) × (k ≡ 0 → left ≡ 0)

-- Calls of the callback as FFmpeg makes them, `size` bytes each, until it answers 0 or an error:
-- the bytes that they bring.
pub pull : ℕ → Callbacks Files Contents → ℕ → Contents → Option (List ℕ × Contents)
pull zero c size s = none
pull (suc fuel) c size s = do
  (ret, bytes, s') ← read_pkt c size s
  let rest = pull fuel c size s' in
      if is_zero ret || is_negative ret
      then some ([], s')
      else (do (more, last) ← rest; some (bytes ++ more, last))

no_bytes : (xs : List ℕ) → length xs ≡ 0 → xs ≡ []
no_bytes [] h = refl
no_bytes (x ∷ xs) h = absurd (omega arith)

-- One call with an open input file.
read_chunk :
    (answer : ℕ → ℕ → ℤ) (fuel : ℕ) (written : ℕ → ℕ → ℤ) (task : Files) (file : MFile) (size : ℕ)
    (s : Contents) (k : ℕ)
    → task.fdin ≡ some file
    → is_open file ≡ true
    → size < u32_mod
    → answer size (length s.input) ≡ pos k
    → read_pkt (task_callbacks answer fuel written task) size s
      ≡ some (pos k, take k s.input, record s { input = drop k s.input })
unfolding read_pkt set_cb_recv_frame set_cb_read_pkt read_pkt_file
read_chunk answer fuel written task file size s k input opened fits got =
    let e : size % u32_mod ≡ size = omega arith in rw (input, opened, e, got)

-- FFmpeg gets the bytes of the input file through the decoder, all of them, in order and once each,
-- and then its end, however many bytes each `::read` has brought, when it asks for at least one
-- and fewer than 2^32 at a time; one call more than the file has bytes is enough.
pub pull_all :
    (answer : ℕ → ℕ → ℤ) (rows : ℕ) (written : ℕ → ℕ → ℤ) (task : Files) (file : MFile) (size : ℕ)
    (fuel : ℕ) (s : Contents)
    → IsRead answer
    → task.fdin ≡ some file
    → is_open file ≡ true
    → 0 < size
    → size < u32_mod
    → length s.input < fuel
    → pull fuel (task_callbacks answer rows written task) size s
      ≡ some (s.input, record s { input = [] })
unfolding pull
pull_all answer rows written task file size zero s is_read input opened some_size fits lt =
    absurd (omega arith)
pull_all answer rows written task file size (suc fuel) s is_read input opened some_size fits lt =
    let (k, got, le, le', at_end) = is_read size (length s.input) some_size in
    let chunk = read_chunk answer rows written task file size s k input opened fits got in
    go k at_end chunk (λ more.
      pull_all answer rows written task file size fuel (record s { input = drop k s.input }) is_read
        input opened some_size fits (omega (arith, length-drop k s.input)))
  where
    c : Callbacks Files Contents
    c = task_callbacks answer rows written task

    go :
        (k : ℕ)
        → (k ≡ 0 → length s.input ≡ 0)
        → read_pkt c size s ≡ some (pos k, take k s.input, record s { input = drop k s.input })
        → (0 < k
            → pull fuel c size (record s { input = drop k s.input })
              ≡ some (drop k s.input, record s { input = [] }))
        → pull (suc fuel) c size s ≡ some (s.input, record s { input = [] })
    go zero at_end chunk later = let e = no_bytes s.input (at_end refl) in rw (chunk, e) refl
    go (suc k) at_end chunk later =
        let some_bytes : (suc k == 0) ≡ false = ground arith in
        let last : Contents = record s { input = [] } in
        rw (chunk, some_bytes, later (omega arith))
          (ap {B = Option (List ℕ × Contents)} (λ xs. some (xs, last)) (take-drop (suc k) s.input))
