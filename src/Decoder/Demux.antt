-- ===== src/Decoder/Demux.antt =====
-- `DecoderImpl::demux` of src/Decoder.cpp: the next packet of the video stream.
pub mod Outcome
use ff_test.Base.{ℕ, ◌+◌, ◌%◌, not, if◌then◌else◌, [], ◌∷◌, ◌++◌, false, u32_mod}
use ff_test.Base.Int.{ℤ, is_negative, eqb}
use ff_test.Utils.{Timeval, util_diff_time_us}
use ff_test.Av.{ErrorCodes, Packet, blank}
use ff_test.Decoder.State.{
  Decoder, unrefs_packet, dec_ok, dec_again, dec_eof, dec_error, log, grow, bump,
}

-- What `av_read_frame` answers, the two clock readings round it, and `m_mem_used` before it (when
-- the old packet is gone) and after it.
pub record ReadAnswer : Type 0 where
  pub started : Timeval
  pub finished : Timeval
  pub mem_before : ℕ
  pub mem_after : ℕ
  pub ret : ℤ
  pub packet : Packet

-- Up to the test of `ret`: the old packet is dropped, the new one read, the counters updated.
read_packet : ReadAnswer → Decoder → Decoder
unfolding util_diff_time_us
read_packet a d = record d {
  pkt = a.packet;
  mem_used = a.mem_after;
  mem_demux = grow d.mem_demux a.mem_before a.mem_after;
  time_usage = bump 0 (util_diff_time_us a.started a.finished) d.time_usage;
  calls = d.calls ++ unrefs_packet ∷ [];
}

unfoldable pub demux : ErrorCodes → ReadAnswer → Decoder → ℤ × Decoder
unfolding read_packet
demux e a d =
    let r = read_packet a d in
    if is_negative a.ret
    then (if eqb a.ret e.eagain
        then (dec_again, r)
        else if eqb a.ret e.eof
        then (dec_eof, record r { pkt = record a.packet { has_data = false; size = 0 } })
        else (dec_error, r))
    else if not (eqb a.packet.stream_index d.stream_idx)
    then (dec_again, log (unrefs_packet ∷ []) (record r { pkt = blank }))
    else (dec_ok, record r { decoded_frame_cnt = (r.decoded_frame_cnt + 1) % u32_mod })
