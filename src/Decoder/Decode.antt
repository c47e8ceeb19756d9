-- ===== src/Decoder/Decode.antt =====
-- `DecoderImpl::decode` of src/Decoder.cpp: one packet into the codec, every ready frame out of it.
pub mod Frames
pub mod Results
use ff_test.Base.{
  ℕ, ◌+◌, ◌%◌, Bool, true, false, not, ◌&&◌, if◌then◌else◌, Option, none, some, List, [], ◌∷◌, ◌++◌,
  ◌==◌, u32_mod, ◌>>=◌,
}
use ff_test.Base.Int.{ℤ, negsuc, is_negative, is_zero, eqb}
use ff_test.Utils.{Timeval, util_diff_time_us}
use ff_test.Av.{ErrorCodes, Packet, Frame, blank}
use ff_test.Decoder.State.{
  Decoder, sends, unrefs_packet, allocs_frame, unrefs_frame, frees_frame, delivers, flushes, dec_ok,
  dec_again, dec_eof, dec_error, log, grow, bump,
}

-- What one `avcodec_receive_frame` answers, the clock reading before it, and `m_mem_used` before
-- and after it.
pub record Received : Type 0 where
  pub at : Timeval
  pub mem_before : ℕ
  pub mem_after : ℕ
  pub ret : ℤ
  pub frame : Frame

-- How the loop ends: nothing is ready any more (at the last clock reading), the codec is drained,
-- or it failed.
pub data Exit : Type 0 where
  idle : Timeval → Exit
  drained : Exit
  failed : Exit

-- `mem_frm` after the answer
abbrev pub measure : Received → Decoder → Decoder
measure a d = record d { mem_used = a.mem_after; mem_frm = grow d.mem_frm a.mem_before a.mem_after }

-- From `m_decoder->decode_cnt++` to the end of the loop's body.
abbrev pub deliver : Frame → Decoder → Decoder
deliver f d = record d {
  decode_cnt = (d.decode_cnt + 1) % u32_mod;
  calls = d.calls ++ delivers f ∷ unrefs_frame ∷ [];
}

-- The `do` loop, over the answers of the codec; at the end of its body `ret` is 0, so that the loop
-- goes on. `none` means that the answers ran out before it ended.
unfoldable pub receive_loop : ErrorCodes → List Received → Decoder → Option (Exit × Decoder)
receive_loop e [] d = none
receive_loop e (a ∷ later) d =
    let d' = measure a d in
    let rest = receive_loop e later (deliver a.frame d') in
    if not (is_zero a.ret) && not (eqb a.ret e.eagain)
    then some (if eqb a.ret e.eof then drained else failed, d')
    else if eqb a.ret e.eagain
    then some (idle a.at, d')
    else rest

-- What follows the loop, or the `return`s inside it.
unfoldable pub finish : Bool → Timeval → Exit → Decoder → ℤ × Decoder
unfolding util_diff_time_us
finish eof t2 (idle t1) d = (
  if eof then dec_eof else dec_ok,
  log (frees_frame ∷ []) (record d { time_usage = bump 2 (util_diff_time_us t1 t2) d.time_usage }),
)
finish eof t2 drained d = (dec_eof, log (frees_frame ∷ flushes ∷ []) d)
finish eof t2 failed d = (dec_error, log (frees_frame ∷ []) d)

-- `m_pkt->data == NULL && m_pkt->size == 0`
abbrev pub is_eof : Packet → Bool
is_eof p = not p.has_data && p.size == 0

-- `sent` is what `avcodec_send_packet` answers, `has_frame` whether `av_frame_alloc` has memory,
-- `t2` the last clock reading.
unfoldable pub decode :
    ErrorCodes → ℤ → Bool → List Received → Timeval → Decoder → Option (ℤ × Decoder)
unfolding receive_loop finish
decode e sent has_frame answers t2 d =
    let eof = is_eof d.pkt in
    let d' = log (sends (if eof then none else some d.pkt) ∷ []) d in
    if is_negative sent
    then (if eqb sent e.eof
        then some (dec_eof, d')
        else if eqb sent e.eagain
        then some (dec_again, log (unrefs_packet ∷ []) (record d' { pkt = blank }))
        else some (dec_error, d'))
    else if not has_frame
    then some (negsuc 0, d')
    else do
      (exit, d'') ← receive_loop e answers (log (allocs_frame ∷ []) d')
      some (finish eof t2 exit d'')

-- `DecoderImpl::flush`; `is_open` is what `avcodec_is_open` answers.
abbrev pub flush : Bool → Decoder → Decoder
flush is_open d = if is_open then log (flushes ∷ []) d else d
