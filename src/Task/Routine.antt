-- ===== src/Task/Routine.antt =====
-- `decode_routine` of src/Task.cpp, which `#if 0` disables there: one input through a decoder into
-- an output file. Names that it uses without declaring them (the task `obj`, which is also `p`, the
-- settings, the input `*iter` and its size, the times) are arguments. `tls_ctx` tells the allocator
-- in which decoder to count; what it has counted is an argument too.
pub mod Expected
pub mod Played
pub mod Turns
pub mod Loop
pub mod Closing
pub mod Frees
pub mod Opened
pub mod Whole
pub mod Endless
mod Tests
use ff_test.Base.{
  ℕ, ◌+◌, ◌-◌, ◌*◌, ◌/◌, ◌%◌, ◌^◌, Bool, not, ◌||◌, if◌then◌else◌, Option, none, some, List, [],
  ◌∷◌, ◌==◌, u32_mod, ◌>>=◌,
}
use ff_test.Base.Int.{ℤ, is_negative, is_zero, eqb}
use ff_test.Base.Text.{Text, is_empty}
use ff_test.Utils.{Timeval, util_diff_time_us}
use ff_test.Av.{ErrorCodes}
use ff_test.File.{MFile, unnamed}
use ff_test.Task.{read_pkt_file, on_recv_frame, output_file_create}
use ff_test.Decoder.State.{dec_ok, dec_again, dec_eof}
use ff_test.Decoder.Demux.{ReadAnswer}
use ff_test.Decoder.Decode.{Received}
use ff_test.Decoder.Lifecycle.{InitAnswers, Settings, OpenAnswers}
use ff_test.Decoder.Callbacks.{
  CbReadPkt, CbRecvFrame, Callbacks, set_cb_read_pkt, set_cb_recv_frame,
}
use ff_test.Decoder.Device.{
  Device, new_device, init, open_device, demux_device, decode_device, release_device, get_width,
  get_height, get_decoded_frame_cnt,
}
use ff_test.Decoder.Lifecycle
use ff_test.File

-- The task, which the callbacks reach through the pointer that is their parameter, with the bytes
-- that are left of the file `m_fdin` and those in the file `m_fdout`.
pub record Shared : Type 0 where
  pub fdin : Option MFile
  pub fdout : Option MFile
  pub input : List ℕ
  pub output : List ℕ

abbrev pub Pointer : Type 0
Pointer = Unit {0}

-- What `::read` and `::write` answer, and the rounds for the rows of a frame.
pub record System : Type 0 where
  pub answer : ℕ → ℕ → ℤ
  pub written : ℕ → ℕ → ℤ
  pub fuel : ℕ

abbrev pub read_pkt_cb : System → CbReadPkt Pointer Shared
read_pkt_cb sys param size s = do
  _ ← param
  let (ret, bytes, rest) = read_pkt_file s.fdin sys.answer size s.input
  some (ret, bytes, record s { input = rest })

abbrev pub recv_frame_cb : System → CbRecvFrame Pointer Shared
recv_frame_cb sys param frame s = do
  _ ← param
  (ret, output) ← on_recv_frame sys.fuel s.fdout sys.written frame s.output
  some (ret, record s { output = output })

-- The two calls of the setters.
unfoldable pub with_callbacks : System → Device Pointer Shared → Device Pointer Shared
with_callbacks sys dc = record dc {
  callbacks =
      (set_cb_recv_frame (recv_frame_cb sys) tt
        (set_cb_read_pkt (read_pkt_cb sys) tt dc.callbacks).1).1;
}

-- One turn of the loop: `m_bExit` at its test, and what FFmpeg and the clock answer in `demux` and,
-- where it is called, in `decode`; `reads` are the bytes that FFmpeg asks `read_pkt_file` for.
pub record Turn : Type 0 where
  pub exit : Bool
  pub read : ReadAnswer
  pub reads : List ℕ
  pub sent : ℤ
  pub has_frame : Bool
  pub answers : List Received
  pub end_time : Timeval

pub record Playing : Type 0 where
  pub dc : Device Pointer Shared
  pub shared : Shared

-- `dc.decode()`
unfoldable pub decode_turn : ErrorCodes → Turn → Playing → Option (ℤ × Playing)
decode_turn e t p = do
  (ret, dc, shared) ← decode_device e t.sent t.has_frame t.answers t.end_time p.dc p.shared
  some (ret, record { dc = dc; shared = shared })

-- The body of the loop: whether the loop goes on, rather than leaving by `break`.
unfoldable pub play_turn : ErrorCodes → Turn → Playing → Option (Bool × Playing)
unfolding decode_turn
play_turn e t p = do
  (ret, dc, shared) ← demux_device e t.read t.reads p.dc p.shared
  let p' : Playing = record { dc = dc; shared = shared }
  if eqb ret dec_ok || eqb ret dec_eof
      then (do (ret', p'') ← decode_turn e t p'; some (not (eqb ret' dec_eof), p''))
      else some (eqb ret dec_again, p')

-- The loop; `none` means that it has not ended with the turns, or undefined behaviour.
unfoldable pub decode_loop : ErrorCodes → List Turn → Playing → Option Playing
unfolding play_turn
decode_loop e [] p = none
decode_loop e (t ∷ later) p =
    if t.exit
    then some p
    else (do (goes_on, p') ← play_turn e t p; if goes_on then decode_loop e later p' else some p')

-- What a run of the routine meets. `opened` is what the system answers when a path is created,
-- `open_reads` the bytes that FFmpeg asks for in `open`, `memused_max` that counter at the end,
-- `size` the field `m_size` of the input.
pub record Script : Type 0 where
  pub sys : System
  pub init : InitAnswers
  pub init_mem : ℕ
  pub cfg : Settings
  pub open_answers : OpenAnswers
  pub open_reads : List ℕ
  pub open_mem : ℕ
  pub output_path : Text
  pub core_id : ℕ
  pub path : Text
  pub opened : Text → Option ℕ
  pub turns : List Turn
  pub t1 : Timeval
  pub t2 : Timeval
  pub size : ℕ
  pub memused_max : ℕ

-- The output file, a new one that is empty; `m_fdout` points to it then.
unfoldable pub create_output : Script → Playing → MFile → List ℕ → Playing × MFile × List ℕ
create_output x p fout open_fds =
    if is_empty x.output_path
    then (p, fout, open_fds)
    else let (ret, f, fds) =
        output_file_create x.opened x.output_path x.core_id fout x.path (get_width p.dc)
          (get_height p.dc) open_fds in
      (
        if is_zero ret
            then record p { shared = record p.shared { fdout = some f; output = [] } }
            else p,
        f,
        fds,
      )

-- The block `do ... while (0)`.
unfoldable pub open_and_decode :
    ErrorCodes → Script → Playing → MFile → List ℕ → Option (Playing × MFile × List ℕ)
unfolding create_output decode_loop
open_and_decode e x p fout open_fds = do
  (ret, dc, shared) ← open_device e x.cfg x.open_answers x.open_reads x.open_mem p.dc p.shared
  let p' : Playing = record { dc = dc; shared = shared }
  if not (is_zero ret)
      then some (p', fout, open_fds)
      else let (p'', fout', fds) = create_output x p' fout open_fds in
        (do done ← decode_loop e x.turns p''; some (done, fout', fds))

-- `a - b` of two uint32_t
abbrev pub minus_u32 : ℕ → ℕ → ℕ
minus_u32 a b = (a + u32_mod - b) % u32_mod

-- The numbers that are printed; a division by 0, when no microsecond has passed, is undefined.
unfoldable pub report : Script → Device Pointer Shared → Option (List ℕ)
report x dc =
    let us = util_diff_time_us x.t1 x.t2 in
    if us == 0
    then none
    else some (
        x.core_id
        ∷ get_decoded_frame_cnt dc
        ∷ dc.counters.decode_cnt
        ∷ us / 1000
        ∷ x.size / 2 ^ 20
        ∷ x.size * 8 * 1000000 / us / 2 ^ 20
        ∷ 0
        ∷ get_width dc
        ∷ get_height dc
        ∷ dc.memused_before_open / 2 ^ 10
        ∷ minus_u32 dc.memused_before_dec dc.memused_before_open / 2 ^ 10
        ∷ minus_u32 x.memused_max dc.memused_before_dec / 2 ^ 10
        ∷ x.memused_max / 2 ^ 10
        ∷ [])

-- What is live of FFmpeg, the open descriptors, and the task with its files.
pub record World : Type 0 where
  pub live : List ℕ
  pub open_fds : List ℕ
  pub shared : Shared

-- From `dc.release()` on, with the destructors of `fout` and `dc`.
unfoldable pub leave : List ℕ → Playing → MFile → List ℕ → Option (Option (List ℕ) × World)
leave printed done fout fds = do
  dc ← release_device done.dc
  fds' ← File.destroy fout fds
  live ← Lifecycle.destroy dc.impl
  some (some printed, record { live = live; open_fds = fds'; shared = done.shared })

-- `decode_routine`: the numbers that it prints, if it comes to that, and the world after it.
unfoldable pub decode_routine : ErrorCodes → Script → World → Option (Option (List ℕ) × World)
unfolding open_and_decode report with_callbacks leave
decode_routine e x w =
    let (ret, dc) = init x.init x.init_mem (new_device w.live) in
    if is_negative ret
    then (do
      fds ← File.destroy unnamed w.open_fds
      live ← Lifecycle.destroy dc.impl
      some (none, record w { live = live; open_fds = fds }))
    else (do
      let p : Playing = record { dc = with_callbacks x.sys dc; shared = w.shared }
      (done, fout, fds) ← open_and_decode e x p unnamed w.open_fds
      printed ← report x done.dc
      leave printed done fout fds)
