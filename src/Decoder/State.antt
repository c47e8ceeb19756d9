-- ===== src/Decoder/State.antt =====
-- The state of a `Decoder` with its `DecoderImpl` (src/Decoder.hpp, src/DecoderImpl.hpp).
use ff_test.Base.{ℕ, zero, suc, ◌+◌, ◌-◌, ◌%◌, ◌/◌, map, Option, List, [], ◌∷◌, ◌++◌, u32_mod}
use ff_test.Base.Int.{ℤ, pos, negsuc}
use ff_test.Av.{Packet, Frame, blank}

-- The calls of FFmpeg and of the frame callback that change more than the fields below, in the
-- order in which they are made. `sends none` is `avcodec_send_packet` with NULL, which drains the
-- codec.
pub data Call : Type 0 where
  sends : Option Packet → Call
  unrefs_packet : Call
  allocs_frame unrefs_frame frees_frame : Call
  delivers : Frame → Call
  flushes : Call

pub record Decoder : Type 0 where
  pub pkt : Packet
  pub stream_idx : ℤ
  pub decoded_frame_cnt : ℕ
  pub time_usage : List ℕ
  pub mem_used : ℕ
  pub mem_demux : ℕ
  pub mem_frm : ℕ
  pub decode_cnt : ℕ
  pub calls : List Call

-- The results of `demux` and `decode`: the unnamed enum of src/Decoder.hpp.
abbrev pub dec_ok : ℤ
dec_ok = pos 0

abbrev pub dec_again : ℤ
dec_again = pos 1

abbrev pub dec_eof : ℤ
dec_eof = pos 2

abbrev pub dec_error : ℤ
dec_error = pos 3

abbrev pub log : List Call → Decoder → Decoder
log cs d = record d { calls = d.calls ++ cs }

-- `counter += after - before` in a uint32_t
abbrev pub grow : ℕ → ℕ → ℕ → ℕ
grow counter before after = (counter + (after + u32_mod - before)) % u32_mod

-- `m_time_usage[i] += t`
abbrev pub bump : ℕ → ℕ → List ℕ → List ℕ
bump i t [] = []
bump zero t (x ∷ xs) = (x + t) % u32_mod ∷ xs
bump (suc i) t (x ∷ xs) = x ∷ bump i t xs

-- The counters that `Decoder::Decoder` and `DecoderImpl::DecoderImpl` set, the stream that they do
-- not name yet, and a blank packet, which `init` allocates later.
abbrev pub new_decoder : Decoder
new_decoder = record {
  pkt = blank;
  stream_idx = negsuc 0;
  decoded_frame_cnt = 0;
  time_usage = 0 ∷ 0 ∷ 0 ∷ 0 ∷ 0 ∷ 0 ∷ 0 ∷ 0 ∷ 0 ∷ 0 ∷ [];
  mem_used = 0;
  mem_demux = 0;
  mem_frm = 0;
  decode_cnt = 0;
  calls = [];
}

-- The numbers that `time_usage_show` prints: ten times, in milliseconds.
abbrev pub time_usage_show : Decoder → List ℕ
time_usage_show d = map (λ t. t / 1000) d.time_usage
