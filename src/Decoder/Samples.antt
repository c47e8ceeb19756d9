-- ===== src/Decoder/Samples.antt =====
-- Packets, answers of FFmpeg and a decoder that the tests share.
use ff_test.Base.{true, List, [], ◌∷◌, refl}
use ff_test.Base.Int.{ℤ, pos, negsuc}
use ff_test.Utils.{Timeval}
use ff_test.Av.{ErrorCodes, Packet, Frame, blank}
use ff_test.Decoder.State.{Decoder}
use ff_test.Decoder.Demux.{ReadAnswer}
use ff_test.Decoder.Decode.{Received}

abbrev pub codes : ErrorCodes
codes = record {
  eagain = negsuc 10;
  eof = negsuc 541478724;
  einval = negsuc 21;
  enomem = negsuc 11;
  eagain_negative = refl;
  eof_negative = refl;
  einval_negative = refl;
  enomem_negative = refl;
  distinct = refl;
}

abbrev pub now : Timeval
now = record { tv_sec = 0; tv_usec = 0 }

-- A packet of stream 0, and the answer with it.
abbrev pub packet : Packet
packet = record { has_data = true; size = 10; stream_index = pos 0 }

abbrev pub read : ReadAnswer
read = record {
  started = now;
  finished = now;
  mem_before = 0;
  mem_after = 0;
  ret = pos 0;
  packet = packet;
}

abbrev pub end_of_stream : ReadAnswer
end_of_stream = record read { ret = negsuc 541478724; packet = blank }

abbrev pub decoder : Decoder
decoder = record {
  pkt = packet;
  stream_idx = pos 0;
  decoded_frame_cnt = 4;
  time_usage = 0 ∷ 0 ∷ 0 ∷ [];
  mem_used = 0;
  mem_demux = 0;
  mem_frm = 0;
  decode_cnt = 3;
  calls = [];
}

abbrev pub frame : Frame
frame = record { width = 1; height = 1; linesize = 1; plane = 7 ∷ [] }

abbrev pub receives : ℤ → Received
receives ret = record { at = now; mem_before = 0; mem_after = 0; ret = ret; frame = frame }

-- One frame, then nothing more.
abbrev pub one_frame : List Received
one_frame = receives (pos 0) ∷ receives (negsuc 10) ∷ []
