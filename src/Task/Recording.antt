-- ===== src/Task/Recording.antt =====
-- The callbacks of src/Task.cpp at work in a decoder of src/Decoder.cpp: what a stream leaves in
-- the output file.
use ff_test.Base.{
  refl, ℕ, ◌≡◌, sym, ◌∙◌, ap, true, Option, some, List, [], ◌∷◌, ◌++◌, All, append-nil,
  append_assoc, ◌>>=◌,
}
use ff_test.Base.Int.{ℤ, pos}
use ff_test.Av.{ErrorCodes, Frame}
use ff_test.File.{MFile, is_open}
use ff_test.Task.{read_pkt_file, on_recv_frame}
use ff_test.Task.Output.{picture, IsSmall, Keeps, cut_twice, all-Keeps, on_recv_frame_kept}
use ff_test.Decoder.State.{Decoder, Call, delivers}
use ff_test.Decoder.Callbacks.{
  CbReadPkt, CbRecvFrame, Callbacks, no_callbacks, set_cb_read_pkt, set_cb_recv_frame, play,
}
use ff_test.Decoder.Session.{here, delivered, opened}
use ff_test.Decoder.Session.Stream.{Round, feed, frames_of, IsAnswered, feed_frames}

-- `m_fdin` and `m_fdout` of a task, and the contents of those files: what is left to read of the
-- one, and what was written to the other.
pub record Files : Type 0 where
  pub fdin : Option MFile
  pub fdout : Option MFile

pub record Contents : Type 0 where
  pub input : List ℕ
  pub output : List ℕ

-- The callbacks as the decoder calls them, with the task as their parameter: what `::read` and
-- `::write` answer, and the rounds for the rows of a frame.
abbrev pub read_pkt_cb : (ℕ → ℕ → ℤ) → CbReadPkt Files Contents
read_pkt_cb answer param size s = do
  task ← param
  let (ret, bytes, rest) = read_pkt_file task.fdin answer size s.input
  some (ret, bytes, record s { input = rest })

abbrev pub recv_frame_cb : ℕ → (ℕ → ℕ → ℤ) → CbRecvFrame Files Contents
recv_frame_cb fuel written param frame s = do
  task ← param
  (ret, output) ← on_recv_frame fuel task.fdout written frame s.output
  some (ret, record s { output = output })

-- The callbacks of a decoder after `set_cb_read_pkt(read_pkt_file, p)` and
-- `set_cb_recv_frame(on_recv_frame, p)`.
abbrev pub task_callbacks : (ℕ → ℕ → ℤ) → ℕ → (ℕ → ℕ → ℤ) → Files → Callbacks Files Contents
task_callbacks answer fuel written task =
    (set_cb_recv_frame (recv_frame_cb fuel written) task
      (set_cb_read_pkt (read_pkt_cb answer) task no_callbacks).1).1

abbrev pub pictures : List Frame → List ℕ
pictures [] = []
pictures (f ∷ fs) = picture f ++ pictures fs

pub play-pictures :
    (answer : ℕ → ℕ → ℤ) (fuel : ℕ) (written : ℕ → ℕ → ℤ) (cut : List ℕ → List ℕ) (task : Files)
    (file : MFile) (calls : List Call) (s : Contents)
    → task.fdout ≡ some file
    → is_open file ≡ true
    → Keeps written cut
    → cut s.output ≡ s.output
    → All (IsSmall fuel) (delivered calls)
    → play (task_callbacks answer fuel written task) calls s
      ≡ some (record s { output = cut (s.output ++ pictures (delivered calls)) })
unfolding play set_cb_recv_frame set_cb_read_pkt
play-pictures answer fuel written cut task file [] s out opened v same small =
    ap (λ o. some (record s { output = o })) (sym same ∙ ap cut (sym (append-nil s.output)))
play-pictures answer fuel written cut task file (delivers f ∷ cs) s out opened v same (one, small) =
    let s' : Contents = record s { output = cut (s.output ++ picture f) } in
    rw (out, on_recv_frame_kept fuel file written cut f s.output opened v same one)
      (play-pictures answer fuel written cut task file cs s' out opened v
          (cut_twice written cut (s.output ++ picture f) v) small
        ∙ ap (λ o. some (record s { output = o }))
            (v.again (s.output ++ picture f) (pictures (delivered cs))
              ∙ ap cut (append_assoc s.output (picture f) (pictures (delivered cs)))))
play-pictures answer fuel written cut task file (_ ∷ cs) s out opened v same small =
    play-pictures answer fuel written cut task file cs s out opened v same small

-- A stream through a decoder, on a system on which `cut` is kept of what is written.
pub record_stream_kept :
    (e : ErrorCodes) (i : ℤ) (mem : ℕ) (rounds : List Round) (answer : ℕ → ℕ → ℤ) (fuel : ℕ)
    (written : ℕ → ℕ → ℤ) (cut : List ℕ → List ℕ) (task : Files) (file : MFile) (s : Contents)
    → All IsAnswered rounds
    → task.fdout ≡ some file
    → is_open file ≡ true
    → Keeps written cut
    → cut s.output ≡ s.output
    → All (IsSmall fuel) (frames_of e i rounds)
    → (d : Decoder) × (feed e rounds (opened i mem) ≡ some d)
      × (play (task_callbacks answer fuel written task) d.calls s
          ≡ some (record s { output = cut (s.output ++ pictures (frames_of e i rounds)) }))
record_stream_kept e i mem rounds answer fuel written cut task file s answered out open_file v same
      small =
    let (d, run, _, frames) = feed_frames e i mem rounds (opened i mem) here answered in
    (
      d,
      run,
      rw (← frames) (
          play-pictures answer fuel written cut task file d.calls s out open_file v same
            (rw frames small)),
    )

-- A stream through a decoder after `init` and `open`, with the callbacks of a task whose output
-- file is open, and a system that writes all that it is asked to, over rounds in which the codec
-- takes what it is sent and answers until no frame is ready, where each frame that it makes ready
-- has fewer than 2^16 rows and fewer than the rounds that its loop is given, and lines that hold
-- fewer than 2^31 bytes together, are all in its buffer and at least as long as the width: the
-- decoder returns, and its calls of the frame callback append to the file the pictures of those
-- frames, in order and without padding.
pub record_stream :
    (e : ErrorCodes) (i : ℤ) (mem : ℕ) (rounds : List Round) (answer : ℕ → ℕ → ℤ) (fuel : ℕ)
    (written : ℕ → ℕ → ℤ) (task : Files) (file : MFile) (s : Contents)
    → All IsAnswered rounds
    → task.fdout ≡ some file
    → is_open file ≡ true
    → ((k have : ℕ) → written k have ≡ pos k)
    → All (IsSmall fuel) (frames_of e i rounds)
    → (d : Decoder) × (feed e rounds (opened i mem) ≡ some d)
      × (play (task_callbacks answer fuel written task) d.calls s
          ≡ some (record s { output = s.output ++ pictures (frames_of e i rounds) }))
record_stream e i mem rounds answer fuel written task file s answered out open_file all small =
    record_stream_kept e i mem rounds answer fuel written (λ xs. xs) task file s answered out
      open_file (all-Keeps written all) refl small
