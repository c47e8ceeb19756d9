-- ===== src/Decoder/Impl.antt =====
-- The objects that a `DecoderImpl` of src/DecoderImpl.hpp holds, and its constructor in
-- src/Decoder.cpp.
use ff_test.Base.{ℕ, Bool, Option, none, List}
use ff_test.Base.Int.{ℤ, negsuc}

-- An AVIOContext and its buffer.
pub record Io : Type 0 where
  pub handle : ℕ
  pub buffer : Option ℕ

-- AVDISCARD_DEFAULT, AVDISCARD_NONREF and AVDISCARD_NONKEY
pub data Discard : Type 0 where
  default nonref nonkey : Discard

-- An AVCodecContext with the fields that `open_codec_ctx` sets: whether `get_buffer2` is
-- `lavc_GetFrame`, and `skip_frame` where it is set.
pub record Codec : Type 0 where
  pub handle : ℕ
  pub custom_buffer : Bool
  pub skip_frame : Option Discard

-- The field `pb` is that of the format context, as long as `avformat_close_input` would close it:
-- `avformat_open_input` marks a `pb` that is there as the caller's own.
pub record Impl : Type 0 where
  pub pkt : Option ℕ
  pub io_ctx : Option Io
  pub codec_ctx : Option Codec
  pub fmt_ctx : Option ℕ
  pub pb : Option ℕ
  pub sws_ctx : Option ℕ
  pub stream_idx : ℤ
  pub decoded_frame_cnt : ℕ
  pub width : ℕ
  pub height : ℕ
  pub live : List ℕ

-- The constructor `DecoderImpl::DecoderImpl`, where `live` is what FFmpeg holds elsewhere.
unfoldable pub created : List ℕ → Impl
created live = record {
  pkt = none;
  io_ctx = none;
  codec_ctx = none;
  fmt_ctx = none;
  pb = none;
  sws_ctx = none;
  stream_idx = negsuc 0;
  decoded_frame_cnt = 0;
  width = 0;
  height = 0;
  live = live;
}
