-- ===== src/Task/Routine/Played.antt =====
-- What the two callbacks do to the task in `decode_routine` of src/Task.cpp.
use ff_test.Base.{
  ℕ, ◌≡◌, refl, sym, ◌∙◌, ap, true, Option, none, some, List, [], ◌∷◌, ◌++◌, All, append_assoc,
  append-nil,
}
use ff_test.Base.Int.{pos}
use ff_test.Av.{Frame}
use ff_test.File.{MFile, is_open}
use ff_test.Task.{read_pkt_file, on_recv_frame}
use ff_test.Task.Output.{IsSmall, picture, on_recv_frame-picture}
use ff_test.Task.Recording.{pictures}
use ff_test.Decoder.State.{Call, delivers}
use ff_test.Decoder.Callbacks.{Callbacks, play, read_for, read_pkt}
use ff_test.Decoder.Session.{delivered}
use ff_test.Task.Routine.{Shared, Pointer, System, read_pkt_cb, recv_frame_cb}

-- A system that writes all that it is asked to.
abbrev pub WritesAll : System → Type 0
WritesAll sys = (k have : ℕ) → sys.written k have ≡ pos k

-- The output file, if there is one, is open.
abbrev pub IsWritable : Option MFile → Type 0
IsWritable none = Unit {0}
IsWritable (some f) = is_open f ≡ true

abbrev pub recorded : Option MFile → List Frame → List ℕ
recorded none fs = []
recorded (some _) fs = pictures fs

-- The task after some frames.
abbrev pub with_frames : List Frame → Shared → Shared
with_frames fs s = record s { output = s.output ++ recorded s.fdout fs }

recorded_one :
    (sys : System) (frame : Frame) (fdout : Option MFile) (output : List ℕ)
    → WritesAll sys
    → IsWritable fdout
    → IsSmall sys.fuel frame
    → on_recv_frame sys.fuel fdout sys.written frame output
      ≡ some (pos 0, output ++ recorded fdout (frame ∷ []))
unfolding on_recv_frame
recorded_one sys frame none output all out small =
    ap (λ o. some (pos 0, o)) (sym (append-nil output))
recorded_one sys frame (some f) output all out small =
    on_recv_frame-picture sys.fuel f sys.written frame output out all small
    ∙ ap (λ o. some (pos 0, output ++ o)) (sym (append-nil (picture frame)))

pictures-append : (fs gs : List Frame) → pictures (fs ++ gs) ≡ pictures fs ++ pictures gs
pictures-append [] gs = refl
pictures-append (f ∷ fs) gs =
    ap (◌++◌ (picture f)) (pictures-append fs gs)
    ∙ sym (append_assoc (picture f) (pictures fs) (pictures gs))

recorded-append :
    (fdout : Option MFile) (fs gs : List Frame)
    → recorded fdout (fs ++ gs) ≡ recorded fdout fs ++ recorded fdout gs
recorded-append none fs gs = refl
recorded-append (some f) fs gs = pictures-append fs gs

pub with_frames-append :
    (fs gs : List Frame) (s : Shared) → with_frames gs (with_frames fs s) ≡ with_frames (fs ++ gs) s
with_frames-append fs gs s =
    ap (λ o. record s { output = o })
      (append_assoc s.output (recorded s.fdout fs) (recorded s.fdout gs)
        ∙ ap (◌++◌ s.output) (sym (recorded-append s.fdout fs gs)))

-- What the calls of the callback do to the task.
pub with_none : (s : Shared) → s.output ≡ s.output ++ recorded s.fdout []
with_none s = none_recorded s.fdout
  where
    none_recorded : (fdout : Option MFile) → s.output ≡ s.output ++ recorded fdout []
    none_recorded none = sym (append-nil s.output)
    none_recorded (some f) = sym (append-nil s.output)

pub play-with_frames :
    (sys : System) (cb : Callbacks Pointer Shared) (calls : List Call) (s : Shared)
    → cb.cb_recv_frame ≡ some (recv_frame_cb sys)
    → cb.recv_frame_param ≡ some tt
    → WritesAll sys
    → IsWritable s.fdout
    → All (IsSmall sys.fuel) (delivered calls)
    → play cb calls s ≡ some (with_frames (delivered calls) s)
unfolding play
play-with_frames sys cb [] s is_cb is_param all out small =
    ap (λ o. some (record s { output = o })) (with_none s)
play-with_frames sys cb (delivers f ∷ cs) s is_cb is_param all out (one, small) =
    rw (is_cb, is_param, recorded_one sys f s.fdout s.output all out one)
      (play-with_frames sys cb cs (with_frames (f ∷ []) s) is_cb is_param all out small
        ∙ ap some (with_frames-append (f ∷ []) (delivered cs) s))
play-with_frames sys cb (_ ∷ cs) s is_cb is_param all out small =
    play-with_frames sys cb cs s is_cb is_param all out small

pub with_none_shared : (s : Shared) → s ≡ with_frames [] s
with_none_shared s = ap (λ o. record s { output = o }) (with_none s)

-- What is left of the input when FFmpeg has asked for some bytes, call by call.
abbrev pub left : System → Option MFile → List ℕ → List ℕ → List ℕ
left sys fdin [] input = input
left sys fdin (size ∷ sizes) input =
    left sys fdin sizes (read_pkt_file fdin sys.answer size input).2

pub left-append :
    (sys : System) (fdin : Option MFile) (xs ys input : List ℕ)
    → left sys fdin ys (left sys fdin xs input) ≡ left sys fdin (xs ++ ys) input
left-append sys fdin [] ys input = refl
left-append sys fdin (size ∷ xs) ys input =
    left-append sys fdin xs ys (read_pkt_file fdin sys.answer size input).2

abbrev pub with_reads : System → List ℕ → Shared → Shared
with_reads sys sizes s = record s { input = left sys s.fdin sizes s.input }

-- The task after some reads and some frames.
abbrev pub after : System → List ℕ → List Frame → Shared → Shared
after sys sizes fs s = with_frames fs (with_reads sys sizes s)

pub after_none : (sys : System) (s : Shared) → s ≡ after sys [] [] s
after_none sys s = with_none_shared s

pub after-append :
    (sys : System) (xs ys : List ℕ) (fs gs : List Frame) (s : Shared)
    → after sys ys gs (after sys xs fs s) ≡ after sys (xs ++ ys) (fs ++ gs) s
after-append sys xs ys fs gs s =
    let reads : with_reads sys ys (with_reads sys xs s) ≡ with_reads sys (xs ++ ys) s =
      ap (λ i. record s { input = i }) (left-append sys s.fdin xs ys s.input) in
    with_frames-append fs gs (with_reads sys ys (with_reads sys xs s))
    ∙ ap (with_frames (fs ++ gs)) reads

-- What FFmpeg's calls of the other callback do to the task.
pub read_for-with_reads :
    (sys : System) (cb : Callbacks Pointer Shared) (sizes : List ℕ) (s : Shared)
    → cb.cb_read_pkt ≡ some (read_pkt_cb sys)
    → cb.read_pkt_param ≡ some tt
    → read_for cb sizes s ≡ some (with_reads sys sizes s)
unfolding read_for read_pkt
read_for-with_reads sys cb [] s is_cb is_param = refl
read_for-with_reads sys cb (size ∷ sizes) s is_cb is_param =
    rw (is_cb, is_param)
      (read_for-with_reads sys cb sizes
        (record s { input = (read_pkt_file s.fdin sys.answer size s.input).2 }) is_cb is_param)
