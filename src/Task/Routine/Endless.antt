-- ===== src/Task/Routine/Endless.antt =====
-- `decode_routine` of src/Task.cpp when the codec never takes the packet that ends the stream.
use ff_test.Base.{
  ℕ, ◌≡◌, refl, sym, inl, inr, Bool-cases, ◌∙◌, ap, true, false, none, some, List, [], ◌∷◌, All,
  subst,
}
use ff_test.Base.Int.{ℤ, pos, is_negative, eqb, eqb_refl}
use ff_test.Base.Text.{is_empty}
use ff_test.Av.{ErrorCodes}
use ff_test.File.{MFile, unnamed}
use ff_test.Decoder.Device.{Device, new_device, init, open_device, get_width, get_height}
use ff_test.Task.{output_file_create}
use ff_test.Task.Output.{IsSmall}
use ff_test.Task.Routine.{
  Shared, Pointer, with_callbacks, Turn, decode_loop, Script, create_output, open_and_decode, World,
  decode_routine,
}
use ff_test.Task.Routine.Expected.{IsStopped, ends, frames_until, turn_ends, turn_frames}
use ff_test.Task.Routine.Played.{WritesAll}
use ff_test.Task.Routine.Turns.{playing}
use ff_test.Task.Routine.Loop.{decode_loop_endless}
use ff_test.Task.Routine.Whole.{created_is_open, create_output_lem}
use ff_test.Task.Routine.Opened.{opened-IsPlaying}

-- A turn at the end of the input in which the codec refuses the empty packet, not because it is at
-- its end. Nothing asks the task to stop.
abbrev pub IsRefused : ErrorCodes → Turn → Type 0
IsRefused e t =
    (t.exit ≡ false)
    × (t.read.ret ≡ e.eof)
    × (is_negative t.sent ≡ true)
    × (eqb t.sent e.eof ≡ false)

refused_turn :
    (e : ErrorCodes) (i : ℤ) (t : Turn)
    → IsRefused e t
    → (turn_ends e i t ≡ false) × (turn_frames e i t ≡ [])
refused_turn e i t (on, at_end, refused, other) =
    let negative : is_negative t.read.ret ≡ true = ap is_negative at_end ∙ e.eof_negative in
    let fed : eqb t.read.ret e.eof ≡ true = ap (λ r. eqb r e.eof) at_end ∙ eqb_refl e.eof in
    elim (Bool-cases (eqb t.sent e.eagain)) [
      | inl again ↦ rw (turn_ends, turn_frames, negative, fed, refused, other, again) (refl, refl)
      | inr broken ↦ rw (turn_ends, turn_frames, negative, fed, refused, other, broken) (refl, refl)
    ]

refused_turns :
    (e : ErrorCodes) (i : ℤ) (turns : List Turn)
    → All (IsRefused e) turns
    → (ends e i turns ≡ false) × (frames_until e i turns ≡ [])
refused_turns e i [] a = (refl, refl)
refused_turns e i (t ∷ later) (h, a) =
    let (goes_on, no_frames) = refused_turn e i t h in
    let (rest, none_later) = refused_turns e i later a in
    rw (h.0, goes_on, no_frames, rest, none_later) (refl, refl)

-- The loop that does not end is not left by the parts around it.
endless_lem :
    (e : ErrorCodes) (x : Script) (w : World) (v : Device Pointer Shared) (s1 s : Shared)
    (f : MFile) (fds : List ℕ)
    → let r = init {P = Pointer} {S = Shared} x.init x.init_mem (new_device w.live) in
      r.0 ≡ pos 0
      → open_device e x.cfg x.open_answers x.open_reads x.open_mem
          (with_callbacks x.sys r.1)
          w.shared
        ≡ some (pos 0, v, s1)
      → create_output x (playing v s1) unnamed w.open_fds ≡ (playing v s, f, fds)
      → decode_loop e x.turns (playing v s) ≡ none
      → decode_routine e x w ≡ none
unfolding decode_routine open_and_decode
endless_lem e x w v s1 s f fds made op output loop = rw (made, op, output, loop) refl

-- When `init` and `open` have succeeded and the output file can be created, the system writes all
-- that it is asked to, and the codec, if asked for frames, answers until none is ready: however
-- often the codec refuses the packet that ends the stream, with any error but that of its own end,
-- `decode_routine` does not return, as long as nothing asks the task to stop. The result of
-- `decode` that stands for an error does not end the loop.
pub decode_routine_refused :
    (e : ErrorCodes) (x : Script) (w : World) (v : Device Pointer Shared) (s1 : Shared) (f : MFile)
    (fds : List ℕ)
    → let r = init {P = Pointer} {S = Shared} x.init x.init_mem (new_device w.live) in
      r.0 ≡ pos 0
      → open_device e x.cfg x.open_answers x.open_reads x.open_mem
          (with_callbacks x.sys r.1)
          w.shared
        ≡ some (pos 0, v, s1)
      → is_empty x.output_path ≡ false
      → output_file_create x.opened x.output_path x.core_id unnamed x.path
          (get_width v)
          (get_height v)
          w.open_fds
        ≡ (pos 0, f, fds)
      → All (IsRefused e) x.turns
      → All IsStopped x.turns
      → WritesAll x.sys
      → decode_routine e x w ≡ none
decode_routine_refused e x w v s1 f fds made op wanted file_made refused stops all =
    let s : Shared = record s1 { fdout = some f; output = [] } in
    let i = v.counters.stream_idx in
    let (on, no_frames) = refused_turns e i x.turns refused in
    endless_lem e x w v s1 s f fds made op
      (create_output_lem x (playing v s1) w.open_fds fds f wanted file_made)
      (decode_loop_endless e x.sys i x.open_mem x.turns v s
        (opened-IsPlaying e x w.live w.shared s1 v made op) stops all
        (created_is_open x (get_width v) (get_height v) w.open_fds fds f file_made)
        (subst (All (IsSmall x.sys.fuel)) (sym no_frames) tt) on)
