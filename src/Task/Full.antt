-- ===== src/Task/Full.antt =====
-- What src/Task.cpp writes when the disk is full: it does not look at the result of `write`.
use ff_test.Base.{
  ℕ, ◌-◌, ◌≤◌, ◌≡◌, sym, ◌∙◌, ap, true, some, List, ◌++◌, All, length, take, take_all, take-append,
  take-take, take_again, length-take_le, ltb, if◌then◌else◌,
}
use ff_test.Base.Int.{ℤ, pos}
use ff_test.Av.{ErrorCodes, Frame}
use ff_test.File.{MFile, is_open, count_of, write}
use ff_test.Task.{on_recv_frame}
use ff_test.Task.Output.{IsSmall, picture, Keeps, on_recv_frame_kept}
use ff_test.Task.Recording.{Files, Contents, task_callbacks, pictures, record_stream_kept}
use ff_test.Decoder.State.{Decoder}
use ff_test.Decoder.Callbacks.{play}
use ff_test.Decoder.Session.{opened}
use ff_test.Decoder.Session.Stream.{Round, IsAnswered, frames_of, feed}

-- A file that cannot grow beyond `limit` bytes: `::write` writes as many as there is room for,
-- where there is none it writes none, or reports an error.
abbrev pub IsLimited : ℕ → (ℕ → ℕ → ℤ) → Type 0
IsLimited limit written =
    (k have : ℕ) → count_of (written k have) ≡ (if ltb k (limit - have) then k else limit - have)

limited-Keeps :
    (limit : ℕ) (written : ℕ → ℕ → ℤ) → IsLimited limit written → Keeps written (take limit)
unfolding write
limited-Keeps limit written limited = record {
  writes = λ src n output same.
      let short : length output ≤ limit = rw same at (length-take_le limit output) in
      rw (limited n (length output)) (
        ap (λ bs. output ++ bs) (sym (take-take (limit - length output) n src))
        ∙ sym (take-append limit output (take n src) short));
  again = take_again limit;
}

-- On a disk that has room for `limit` bytes in the output file, where the file is open and no
-- longer than that, and for a frame of fewer than 2^16 rows, whose lines hold fewer than 2^31 bytes
-- together, are all in its buffer and at least as long as the width: `on_recv_frame` still returns
-- 0, and the file has what was there and the picture, cut to `limit` bytes.
pub on_recv_frame_full :
    (limit fuel : ℕ) (f : MFile) (written : ℕ → ℕ → ℤ) (frame : Frame) (output : List ℕ)
    → is_open f ≡ true
    → IsLimited limit written
    → length output ≤ limit
    → IsSmall fuel frame
    → on_recv_frame fuel (some f) written frame output
      ≡ some (pos 0, take limit (output ++ picture frame))
on_recv_frame_full limit fuel f written frame output opened limited short small =
    on_recv_frame_kept fuel f written (take limit) frame output opened
      (limited-Keeps limit written limited) (take_all limit output short) small

-- A stream through a decoder after `init` and `open`, with the callbacks of a task whose output
-- file is open, on a disk that has room for `limit` bytes in that file, over rounds in which the
-- codec takes what it is sent and answers until no frame is ready, where each frame that it makes
-- ready has fewer than 2^16 rows and fewer than the rounds that its loop is given, and lines that
-- hold fewer than 2^31 bytes together, are all in its buffer and at least as long as the width, and
-- the file is no longer than `limit` at the start: the decoder returns, no write that falls short
-- is noticed, and the file has what was there and the pictures of the frames, in order and without
-- padding, cut to `limit` bytes.
pub record_stream_full :
    (e : ErrorCodes) (i : ℤ) (mem : ℕ) (rounds : List Round) (answer : ℕ → ℕ → ℤ) (limit fuel : ℕ)
    (written : ℕ → ℕ → ℤ) (task : Files) (file : MFile) (s : Contents)
    → All IsAnswered rounds
    → task.fdout ≡ some file
    → is_open file ≡ true
    → IsLimited limit written
    → length s.output ≤ limit
    → All (IsSmall fuel) (frames_of e i rounds)
    → (d : Decoder) × (feed e rounds (opened i mem) ≡ some d)
      × (play (task_callbacks answer fuel written task) d.calls s
          ≡ some (record s { output = take limit (s.output ++ pictures (frames_of e i rounds)) }))
record_stream_full e i mem rounds answer limit fuel written task file s answered out open_file
      limited short small =
    record_stream_kept e i mem rounds answer fuel written (take limit) task file s answered out
      open_file (limited-Keeps limit written limited) (take_all limit s.output short) small
