-- ===== src/Decoder/Device.antt =====
-- The class `Decoder` of src/Decoder.hpp and src/Decoder.cpp as its owner sees it: the objects of
-- FFmpeg, the counters and the callbacks together.
pub mod Ready
mod Tests
use ff_test.Base.{
  ℕ, ◌%◌, Bool, if◌then◌else◌, Option, none, some, List, [], ◌∷◌, ◌>>=◌, drop, length,
}
use ff_test.Base.Int.{ℤ, pos, is_negative}
use ff_test.Utils.{Timeval}
use ff_test.Av.{ErrorCodes, blank}
use ff_test.Decoder.Impl.{Impl, created}
use ff_test.Decoder.Lifecycle.{InitAnswers, Settings, OpenAnswers}
use ff_test.Decoder.State.{Decoder, new_decoder}
use ff_test.Decoder.Demux.{ReadAnswer}
use ff_test.Decoder.Decode.{Received}
use ff_test.Decoder.Callbacks.{Callbacks, no_callbacks, read_for, play}
use ff_test.Decoder.Lifecycle
use ff_test.Decoder.Demux
use ff_test.Decoder.Decode

pub record Device (P S : Type 0) : Type 0 where
  pub impl : Impl
  pub counters : Decoder
  pub callbacks : Callbacks P S
  pub memused_before_open : ℕ
  pub memused_before_dec : ℕ

module _ {P S : Type 0} where
  -- `Decoder::Decoder`, beside the live objects of others.
  unfoldable pub new_device : List ℕ → Device P S
  new_device live = record {
    impl = created live;
    counters = new_decoder;
    callbacks = no_callbacks;
    memused_before_open = 0;
    memused_before_dec = 0;
  }

  -- `Decoder::init`; `mem` is `m_mem_used` at its end.
  unfoldable pub init : InitAnswers → ℕ → Device P S → ℤ × Device P S
  init a mem v =
      let (ret, impl) = Lifecycle.init a v.impl in
      let v' = record v { impl = impl; counters = record v.counters { mem_used = mem } } in
      (
        ret,
        if is_negative ret then v' else record v' {
          counters = record v.counters { mem_used = mem; pkt = blank };
          memused_before_open = mem;
        },
      )

  -- `Decoder::open`; `mem` is `m_mem_used` after `stream_open`, and `sizes` are the bytes that
  -- FFmpeg asks `__read_pkt` for in it. The last argument is the state of the callbacks' owner.
  unfoldable pub open_device :
      ErrorCodes
      → Settings
      → OpenAnswers
      → List ℕ
      → ℕ
      → Device P S
      → S
      → Option (ℤ × Device P S × S)
  open_device e cfg a sizes mem v s = do
    (ret, impl) ← Lifecycle.stream_open e cfg a v.impl
    s' ← read_for v.callbacks sizes s
    some (
      ret,
      record v {
        impl = impl;
        counters = record v.counters { mem_used = mem; stream_idx = impl.stream_idx };
        memused_before_dec = mem;
      },
      s',
    )

  -- `Decoder::demux`, with what FFmpeg asks `__read_pkt` for; without an input or a packet FFmpeg
  -- is given NULL (`none`).
  unfoldable pub demux_device :
      ErrorCodes → ReadAnswer → List ℕ → Device P S → S → Option (ℤ × Device P S × S)
  demux_device e a sizes v s = do
    _ ← v.impl.fmt_ctx
    _ ← v.impl.pkt
    s' ← read_for v.callbacks sizes s
    let (ret, counters) = Demux.demux e a v.counters
    some (ret, record v { counters = counters }, s')

  -- `Decoder::decode`, with the calls of `m_cb_recv_frame`; without a codec or a packet NULL is
  -- read (`none`).
  unfoldable pub decode_device :
      ErrorCodes → ℤ → Bool → List Received → Timeval → Device P S → S → Option (ℤ × Device P S × S)
  decode_device e sent has_frame answers t2 v s = do
    _ ← v.impl.codec_ctx
    _ ← v.impl.pkt
    (ret, counters) ← Decode.decode e sent has_frame answers t2 v.counters
    s' ← play v.callbacks (drop (length v.counters.calls) counters.calls) s
    some (ret, record v { counters = counters }, s')

  -- `Decoder::release`
  unfoldable pub release_device : Device P S → Option (Device P S)
  release_device v = do
    impl ← Lifecycle.release v.impl
    some (record v { impl = impl; counters = record v.counters { decoded_frame_cnt = 0 } })

  -- `Decoder::poll`
  abbrev pub poll : Device P S → ℤ
  poll v = pos 1

  abbrev pub get_width : Device P S → ℕ
  get_width v = v.impl.width

  abbrev pub get_height : Device P S → ℕ
  get_height v = v.impl.height

  abbrev pub get_decoded_frame_cnt : Device P S → ℕ
  get_decoded_frame_cnt v = v.counters.decoded_frame_cnt
