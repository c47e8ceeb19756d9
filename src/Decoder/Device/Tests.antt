-- ===== src/Decoder/Device/Tests.antt =====
-- A decoder that was opened for the second of two streams, on which the theorem about opened
-- decoders of src/Decoder.cpp applies.
use ff_test.Base.{ℕ, ◌+◌, ◌≡◌, refl, true, some, [], ◌∷◌}
use ff_test.Base.Int.{ℤ, pos, negsuc}
use ff_test.Decoder.Impl.{created}
use ff_test.Decoder.Lifecycle
use ff_test.Decoder.Lifecycle.{InitAnswers, OpenAnswers, Settings, video, other}
use ff_test.Decoder.Lifecycle.Streams.{IsFirstVideo}
use ff_test.Decoder.Samples.{codes, now, read, one_frame, receives}
use ff_test.Decoder.Device.{
  Device, new_device, init, open_device, demux_device, decode_device, get_width, get_height,
}
use ff_test.Decoder.Device.Ready.{here, Return, calling, opened_returns}
use ff_test.Decoder.Callbacks.{
  CbReadPkt, CbRecvFrame, set_cb_read_pkt, set_cb_recv_frame, read_pkt, read_for,
}

abbrev answers : OpenAnswers
answers = record {
  input = pos 0;
  info = pos 0;
  best = pos 0;
  has_decoder = true;
  streams = other ∷ video ∷ [];
  codec = some 7;
  parameters = pos 0;
  opened = pos 0;
  width = 65556;
  height = 1080;
}

abbrev settings : Settings
settings = record { skip_frame = 1; get_buffer = 0 }

abbrev all_there : InitAnswers
all_there = record { fmt = some 1; buffer = some 2; io = some 3; pkt = some 4 }

-- Callbacks that count the bytes that were asked for and the frames.
abbrev reads : CbReadPkt (Unit {0}) (ℕ × ℕ)
reads param size (bytes, frames) = some (pos 0, [], (bytes + size, frames))

abbrev gets : CbRecvFrame (Unit {0}) (ℕ × ℕ)
gets param frame (bytes, frames) = some (pos 0, (bytes, frames + 1))

returns : Return reads gets
returns = ((λ param size s. (_, refl)), (λ param frame s. (_, refl)))

abbrev initialised : Device (Unit {0}) (ℕ × ℕ)
initialised = calling reads gets tt (init all_there 50 (new_device (9 ∷ []))).1

made : (init {P = Unit {0}} {S = ℕ × ℕ} all_there 50 (new_device (9 ∷ []))).0 ≡ pos 0
unfolding init Lifecycle.init
made = refl

opens :
    (v : Device (Unit {0}) (ℕ × ℕ)) × (open_device codes settings answers
        (4096 ∷ [])
        80
        initialised
        (0, 0)
      ≡ some (pos 0, v, (4096, 0)))
unfolding open_device init Lifecycle.init Lifecycle.stream_open Lifecycle.open_codec_ctx created
    new_device Lifecycle.first_video read_for read_pkt set_cb_recv_frame set_cb_read_pkt
opens = (_, refl)

opened_returns_example :
    let v = opens.0 in
    ((out : ℤ × Device (Unit {0}) (ℕ × ℕ) × (ℕ × ℕ)) × (demux_device codes read
          (4096 ∷ [])
          v
          (4096, 0)
        ≡ some out))
    × ((out : ℤ × Device (Unit {0}) (ℕ × ℕ) × (ℕ × ℕ)) × (decode_device codes
            (pos 0)
            true
            one_frame
            now
            v
            (4096, 0)
          ≡ some out))
    × (get_width v ≡ 20)
    × (get_height v ≡ 1080)
    × ((i : ℕ) × (v.counters.stream_idx ≡ pos i) × IsFirstVideo i (other ∷ video ∷ []))
    × (v.memused_before_open ≡ 50)
    × (v.memused_before_dec ≡ 80)
opened_returns_example =
    opened_returns (9 ∷ []) all_there 50 80 codes settings answers reads gets tt (4096 ∷ [])
      (4096 ∷ []) (0, 0) (4096, 0) (4096, 0) opens.0 opens.0 read (pos 0) true one_frame
      (receives (negsuc 10)) now made opens.1 here returns refl
