-- ===== src/Av.antt =====
-- The values of FFmpeg that src/Decoder.cpp and src/Task.cpp read. FFmpeg is not part of the
-- repository: what its calls answer is an argument of each operation of the model.
use ff_test.Base.{ℕ, Bool, true, false, List, ◌≡◌}
use ff_test.Base.Int.{ℤ, pos, is_negative, eqb}

-- AVERROR(EAGAIN), AVERROR_EOF, AVERROR(EINVAL) and AVERROR(ENOMEM). As FFmpeg documents, errors
-- are negative, and the first two differ.
pub record ErrorCodes : Type 0 where
  pub eagain : ℤ
  pub eof : ℤ
  pub einval : ℤ
  pub enomem : ℤ
  pub eagain_negative : is_negative eagain ≡ true
  pub eof_negative : is_negative eof ≡ true
  pub einval_negative : is_negative einval ≡ true
  pub enomem_negative : is_negative enomem ≡ true
  pub distinct : eqb eof eagain ≡ false

-- The fields of an AVPacket that the program tests: whether `data` is not NULL, `size` and
-- `stream_index`.
pub record Packet : Type 0 where
  pub has_data : Bool
  pub size : ℕ
  pub stream_index : ℤ

-- A packet as `av_packet_alloc` and `av_packet_unref` leave it.
abbrev pub blank : Packet
blank = record { has_data = false; size = 0; stream_index = pos 0 }

-- An AVFrame: `width`, `height`, `linesize[0]`, and the bytes from `data[0]` on. The width, the
-- height and the line size of a decoded frame are not negative.
pub record Frame : Type 0 where
  pub width : ℕ
  pub height : ℕ
  pub linesize : ℕ
  pub plane : List ℕ
