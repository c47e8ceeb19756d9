-- ===== src/Task/Routine/Whole.antt =====
-- `decode_routine` of src/Task.cpp when all goes well: it returns, and the output file has the
-- pictures.
use ff_test.Base.{
  ◌%◌, ◌∷◌, length, u32_mod, ℕ, ◌≡◌, refl, ap, inl, inr, true, false, Option, none, some, List, [],
  All, Bool-cases, subst, ◌∙◌, ◌++◌, ◌||◌, ◌==◌,
}
use ff_test.Base.Int.{pos}
use ff_test.Base.Text.{is_empty}
use ff_test.Av.{ErrorCodes, Frame}
use ff_test.Utils.{util_diff_time_us}
use ff_test.File.{MFile, unnamed, create, is_open}
use ff_test.File.History
use ff_test.File.History.{kept_open}
use ff_test.Decoder.Lifecycle.Life.{lost_buffer}
use ff_test.Decoder.Lifecycle.Lifetime
use ff_test.Decoder.State.{Decoder}
use ff_test.Decoder.Device.{Device, new_device, init, open_device, get_width, get_height}
use ff_test.Task.{output_file_create, get_file_name}
use ff_test.Task.Recording.{pictures}
use ff_test.Task.Output.{IsSmall}
use ff_test.Task.Routine.{
  Shared, Pointer, System, with_callbacks, Playing, decode_loop, Script, create_output,
  open_and_decode, report, World, leave, decode_routine,
}
use ff_test.Task.Routine.Expected.{IsStopped, ends, frames_until, packets_until, reads_until}
use ff_test.Task.Routine.Played.{WritesAll, with_reads, left, left-append, after}
use ff_test.Task.Routine.Turns.{with_counters, playing}
use ff_test.Task.Routine.Loop.{decode_loop_lem}
use ff_test.Task.Routine.Closing.{closing_lem, init-Life, open_device-Life}
use ff_test.Task.Routine.Opened.{opened-IsPlaying, opened_reads, printed_lem}
use ff_test.Task.Routine.Frees.{NotZero, IsFreed, create_output-IsOutput, decode_routine_frees}

new_is_open :
    (o : Option ℕ) (fds fds' : List ℕ) (f : MFile)
    → create o unnamed fds ≡ (pos 0, f, fds')
    → is_open f ≡ true
unfolding create
new_is_open none fds fds' f made = cc
new_is_open (some n) fds fds' f made =
    subst (λ (g : MFile). is_open g ≡ true) (ap (λ r. r.1) made) refl

-- An output file that could be created is open.
pub created_is_open :
    (x : Script) (width height : ℕ) (fds fds' : List ℕ) (f : MFile)
    → output_file_create x.opened x.output_path x.core_id unnamed x.path width height fds
      ≡ (pos 0, f, fds')
    → is_open f ≡ true
unfolding output_file_create
created_is_open x width height fds fds' f made =
    elim (Bool-cases (is_empty (get_file_name x.path) || is_empty x.output_path)) [
      | inl bare ↦ cc (rw bare at made)
      | inr named ↦ new_is_open _ fds fds' f (rw named at made)
    ]

pub create_output_lem :
    (x : Script) (p : Playing) (fds fds' : List ℕ) (f : MFile)
    → is_empty x.output_path ≡ false
    → output_file_create x.opened x.output_path x.core_id unnamed x.path
        (get_width p.dc)
        (get_height p.dc)
        fds
      ≡ (pos 0, f, fds')
    → create_output x p unnamed fds
      ≡ (record p { shared = record p.shared { fdout = some f; output = [] } }, f, fds')
unfolding create_output
create_output_lem x p fds fds' f wanted made = rw (wanted, made) refl

-- The block `do ... while (0)`.
open_and_decode_lem :
    (e : ErrorCodes) (x : Script) (dc v : Device Pointer Shared) (s0 s : Shared) (fds fds' : List ℕ)
    (f : MFile) (done : Playing)
    → open_device e x.cfg x.open_answers x.open_reads x.open_mem dc s0 ≡ some (pos 0, v, s)
    → create_output x (playing v s) unnamed fds
      ≡ (playing v (record s { fdout = some f; output = [] }), f, fds')
    → decode_loop e x.turns (playing v (record s { fdout = some f; output = [] })) ≡ some done
    → open_and_decode e x (playing dc s0) unnamed fds ≡ some (done, f, fds')
unfolding open_and_decode
open_and_decode_lem e x dc v s0 s fds fds' f done op made loop = rw (op, made, loop) refl

-- The parts of a run, put together.
routine_lem :
    (e : ErrorCodes) (x : Script) (w w' : World) (numbers : List ℕ) (done : Playing) (f : MFile)
    (fds : List ℕ)
    → let r = init {P = Pointer} {S = Shared} x.init x.init_mem (new_device w.live) in
      r.0 ≡ pos 0
      → open_and_decode e x (playing (with_callbacks x.sys r.1) w.shared) unnamed w.open_fds
        ≡ some (done, f, fds)
      → report x done.dc ≡ some numbers
      → leave numbers done f fds ≡ some (some numbers, w')
      → decode_routine e x w ≡ some (some numbers, w')
unfolding decode_routine
routine_lem e x w w' numbers done f fds made played printed left = rw (made, played, printed) left

leave_lem :
    (e : ErrorCodes) (x : Script) (w : World) (dc v : Device Pointer Shared) (d : Decoder)
    (s s0 s1 : Shared) (f : MFile) (fds numbers : List ℕ)
    → Lifetime.Life (lost_buffer x.init w.live) dc.impl
    → dc.impl.codec_ctx ≡ none
    → open_device e x.cfg x.open_answers x.open_reads x.open_mem dc s0 ≡ some (pos 0, v, s1)
    → History.Life w.open_fds f fds
    → (w' : World) × (leave numbers (playing (with_counters v d) s) f fds ≡ some (some numbers, w'))
      × (w'.shared ≡ s)
unfolding leave
leave_lem e x w dc v d s s0 s1 f fds numbers life no_codec op flife =
    let lost = lost_buffer x.init w.live in
    let (life', unplugged) =
      open_device-Life e x.cfg x.open_answers x.open_reads x.open_mem lost dc s0 (pos 0, v, s1) op
        life no_codec in
    let (dc', fds', live, released, closed, destroyed, _, _) =
      closing_lem (with_counters v d) lost f fds w.open_fds life' unplugged flife in
    (
      record { live = live; open_fds = fds'; shared = s },
      rw (released, closed, destroyed) refl,
      refl,
    )

-- The task at the end, with what `open` and then the loop have read.
after_open :
    (sys : System) (xs ys : List ℕ) (fs : List Frame) (f : MFile) (s s1 : Shared)
    → s1 ≡ with_reads sys xs s
    → after sys ys fs (record s1 { fdout = some f; output = [] }) ≡ record s {
      fdout = some f;
      input = left sys s.fdin (xs ++ ys) s.input;
      output = pictures fs;
    }
after_open sys xs ys fs f s s1 opened =
    ap (λ (t : Shared). after sys ys fs (record t { fdout = some f; output = [] })) opened
    ∙ ap (λ i. record s { fdout = some f; input = i; output = pictures fs })
        (left-append sys s.fdin xs ys s.input)

-- When `init` and `open` have succeeded, the output file can be created, the codec answers each
-- `decode` until no frame is ready, some turn ends the loop, the system writes all that it is asked
-- to and never gives out the descriptor 0, each frame until then has fewer than 2^16 rows and fewer
-- than the rounds that its loop is given, and lines that hold fewer than 2^31 bytes together, are
-- all in its buffer and at least as long as the width, and some microseconds have passed: the
-- routine returns. It prints the core, the number of the packets of the stream that were read and
-- the number of the frames, both in 32 bits, and more numbers. The output file has the pictures of
-- exactly the frames that the codec made ready by then, in order and without padding; of the input
-- is left what `read_pkt_file` has not read, call by call of those that FFmpeg makes in `open` and
-- in the turns until then; FFmpeg's objects and the descriptors are freed.
pub decode_routine_records :
    (e : ErrorCodes) (x : Script) (w : World) (v : Device Pointer Shared) (s1 : Shared) (f : MFile)
    (fds : List ℕ)
    → let r = init {P = Pointer} {S = Shared} x.init x.init_mem (new_device w.live) in
      let frames = frames_until e v.counters.stream_idx x.turns in
      let sizes = x.open_reads ++ reads_until e v.counters.stream_idx x.turns in
      r.0 ≡ pos 0
      → open_device e x.cfg x.open_answers x.open_reads x.open_mem
          (with_callbacks x.sys r.1)
          w.shared
        ≡ some (pos 0, v, s1)
      → is_empty x.output_path ≡ false
      → output_file_create x.opened x.output_path x.core_id unnamed x.path
          (get_width v)
          (get_height v)
          w.open_fds
        ≡ (pos 0, f, fds)
      → All IsStopped x.turns
      → ends e v.counters.stream_idx x.turns ≡ true
      → WritesAll x.sys
      → NotZero x
      → All (IsSmall x.sys.fuel) frames
      → (util_diff_time_us x.t1 x.t2 == 0) ≡ false
      → (more : List ℕ) × (w' : World) × (decode_routine e x w
          ≡ some (
            some (
                x.core_id
                ∷ packets_until e v.counters.stream_idx x.turns % u32_mod
                ∷ length frames % u32_mod
                ∷ more),
            w',
          ))
        × (w'.shared ≡ record w.shared {
          fdout = some f;
          input = left x.sys w.shared.fdin sizes w.shared.input;
          output = pictures frames;
        })
        × IsFreed x w w'
unfolding with_callbacks
decode_routine_records e x w v s1 f fds made op wanted file_made stops over all used small passed =
    let r = init {P = Pointer} {S = Shared} x.init x.init_mem (new_device w.live) in
    let dc = with_callbacks x.sys r.1 in
    let s : Shared = record s1 { fdout = some f; output = [] } in
    let i = v.counters.stream_idx in
    let output = create_output_lem x (playing v s1) w.open_fds fds f wanted file_made in
    let writable = created_is_open x (get_width v) (get_height v) w.open_fds fds f file_made in
    let (d, loop, v', grown) =
      decode_loop_lem e x.sys i x.open_mem x.turns v s
        (opened-IsPlaying e x w.live w.shared s1 v made op) stops all writable small over in
    let reads = reads_until e i x.turns in
    let done : Playing =
      playing (with_counters v d) (after x.sys reads (frames_until e i x.turns) s) in
    let played = open_and_decode_lem e x dc v w.shared s1 w.open_fds fds f done op output loop in
    let n = packets_until e i x.turns in
    let frames = frames_until e i x.turns in
    let printed = printed_lem e x w.live w.shared s1 v d n frames op v' grown passed in
    let numbers : List ℕ = x.core_id ∷ n % u32_mod ∷ length frames % u32_mod ∷ printed.0 in
    let (life, no_codec) = init-Life x.init x.init_mem w.live in
    let (made_file, _) = create_output-IsOutput x (playing v s1) w.open_fds used in
    let flife = subst (λ o. History.Life w.open_fds o.1 o.2) output made_file.0 in
    let (w', left, same) =
      leave_lem e x w dc v d done.shared w.shared s1 f fds numbers life no_codec op flife in
    let run = routine_lem e x w w' numbers done f fds made played printed.1 left in
    let read =
      after_open x.sys x.open_reads reads (frames_until e i x.turns) f w.shared s1
        (opened_reads e x w.live w.shared s1 v op) in
    (printed.0, w', run, same ∙ read, decode_routine_frees e x w w' (some numbers) run used)
