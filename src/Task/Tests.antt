-- ===== src/Task/Tests.antt =====
-- Frames and paths on which the theorems about src/Task.cpp apply.
use ff_test.Task.Full.{record_stream_full}
use ff_test.Base.{
  ◌⊎◌, ◌<◌, u16_mod, ltb, ◌-◌, ℕ, ◌≡◌, refl, none, some, List, [], ◌∷◌, arith, leb, if◌then◌else◌,
}
use ff_test.Base.Int.{ℤ, pos, negsuc}
use ff_test.Av.{Frame}
use ff_test.File.{MFile}
use ff_test.Task.{on_recv_frame, write_rows, unended, row_start}
use ff_test.Task.Recording.{Files, task_callbacks, record_stream}
use ff_test.Task.Reading.{IsRead, pull, pull_all}
use ff_test.Decoder.State.{Decoder}
use ff_test.Decoder.Callbacks.{play}
use ff_test.Decoder.Session.{opened}
use ff_test.Decoder.Session.Stream.{Round, feed}
use ff_test.Decoder.Samples.{codes, now, read, receives}
use ff_test.Task.Output.{on_recv_frame-picture, on_recv_frame_endless}

-- Two rows of three pixels, in lines of four bytes.
abbrev padded_frame : Frame
padded_frame = record {
  width = 3;
  height = 2;
  linesize = 4;
  plane = 1 ∷ 2 ∷ 3 ∷ 0 ∷ 4 ∷ 5 ∷ 6 ∷ 0 ∷ [];
}

-- Every row is the same one.
abbrev tall_frame : Frame
tall_frame = record { width = 3; height = 70000; linesize = 0; plane = 1 ∷ 2 ∷ 3 ∷ [] }

abbrev out_file : MFile
out_file = record { fd = pos 5; name = []; size = 0 }

abbrev writes_all : ℕ → ℕ → ℤ
writes_all k have = pos k

on_recv_frame-picture_example :
    on_recv_frame 3 (some out_file) writes_all padded_frame (9 ∷ [])
    ≡ some (pos 0, 9 ∷ 1 ∷ 2 ∷ 3 ∷ 4 ∷ 5 ∷ 6 ∷ [])
on_recv_frame-picture_example =
    on_recv_frame-picture 3 out_file writes_all padded_frame (9 ∷ []) refl (λ k have. refl)
      (omega arith, omega arith, omega arith, omega arith, omega arith)

on_recv_frame_endless_example :
    (on_recv_frame 100 (some out_file) writes_all tall_frame [] ≡ none)
    × ((write_rows 100 writes_all tall_frame 0 [] ≡ unended)
        ⊎ ((i : ℕ) × (i < u16_mod) × (row_start tall_frame i ≡ none)))
on_recv_frame_endless_example =
    on_recv_frame_endless 100 out_file writes_all tall_frame [] refl (omega arith) (omega arith)

abbrev task : Files
task = record { fdin = some out_file; fdout = some out_file }

-- A system that reads at most two bytes at once.
abbrev reads_two : ℕ → ℕ → ℤ
reads_two n left =
    pos (if leb n left then (if leb n 2 then n else 2) else (if leb left 2 then left else 2))

reads_two-IsRead : IsRead reads_two
reads_two-IsRead n left some_size = (_, refl, ground arith, ground arith, λ e. ground arith)

pull_all_example :
    pull 9
      (task_callbacks reads_two 3 writes_all task)
      4096
      (record { input = 1 ∷ 2 ∷ 3 ∷ []; output = [] })
    ≡ some (1 ∷ 2 ∷ 3 ∷ [], record { input = []; output = [] })
pull_all_example =
    pull_all reads_two 3 writes_all task out_file 4096 9
      (record { input = 1 ∷ 2 ∷ 3 ∷ []; output = [] }) reads_two-IsRead refl refl (omega arith)
      (omega arith) (omega arith)

-- A packet of which the codec makes the frame of two rows.
abbrev rounds : List Round
rounds =
    record {
      read = read;
      sent = pos 0;
      answers = record (receives (pos 0)) { frame = padded_frame } ∷ receives (negsuc 10) ∷ [];
      end_time = now;
    }
    ∷ []

record_stream_example :
    (d : Decoder) × (feed codes rounds (opened (pos 0) 100) ≡ some d)
    × (play
          (task_callbacks reads_two 3 writes_all task)
          d.calls
          (record { input = []; output = 9 ∷ [] })
        ≡ some (record { input = []; output = 9 ∷ 1 ∷ 2 ∷ 3 ∷ 4 ∷ 5 ∷ 6 ∷ [] }))
record_stream_example =
    record_stream codes (pos 0) 100 rounds reads_two 3 writes_all task out_file
      (record { input = []; output = 9 ∷ [] }) ((refl, receives (negsuc 10), refl), tt) refl refl
      (λ k have. refl) ((omega arith, omega arith, omega arith, omega arith, omega arith), tt)

-- A disk with room for four bytes.
abbrev writes_four : ℕ → ℕ → ℤ
writes_four k have = pos (if ltb k (4 - have) then k else 4 - have)

record_stream_full_example :
    (d : Decoder) × (feed codes rounds (opened (pos 0) 100) ≡ some d)
    × (play
          (task_callbacks reads_two 3 writes_four task)
          d.calls
          (record { input = []; output = 9 ∷ [] })
        ≡ some (record { input = []; output = 9 ∷ 1 ∷ 2 ∷ 3 ∷ [] }))
record_stream_full_example =
    record_stream_full codes (pos 0) 100 rounds reads_two 4 3 writes_four task out_file
      (record { input = []; output = 9 ∷ [] }) ((refl, receives (negsuc 10), refl), tt) refl refl
      (λ k have. refl) (omega arith)
      ((omega arith, omega arith, omega arith, omega arith, omega arith), tt)
