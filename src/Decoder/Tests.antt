-- ===== src/Decoder/Tests.antt =====
-- Packets, answers of FFmpeg and decoders on which the theorems about `demux` and `decode` apply.
use ff_test.Base.{◌≡◌, ◌↔◌, ◌⊎◌, refl, true, some, List, [], ◌∷◌, arith}
use ff_test.Base.Int.{pos, negsuc, is_negative}
use ff_test.Decoder.State.{
  Decoder, Call, sends, allocs_frame, unrefs_frame, frees_frame, delivers, dec_ok,
}
use ff_test.Decoder.Decode.{decode, receive_loop, finish}
use ff_test.Decoder.Decode.Frames.{decode_frames}
use ff_test.Decoder.Decode.Results.{IsCode, decode-IsCode}
use ff_test.Decoder.Samples.{codes, now, packet, decoder, frame, receives, one_frame}

abbrev after_one : List Call
after_one = sends (some packet) ∷ allocs_frame ∷ delivers frame ∷ unrefs_frame ∷ frees_frame ∷ []

abbrev decoded : Decoder
decoded = record decoder { decode_cnt = 4; calls = after_one }

decode_frames_example :
    (d' : Decoder) × (decode codes (pos 0) true one_frame now decoder ≡ some (dec_ok, d'))
    × (d'.calls ≡ after_one)
    × (d'.decode_cnt ≡ 4)
decode_frames_example =
    decode_frames codes (pos 0) one_frame (receives (negsuc 10)) now decoder refl refl (omega arith)

decode-IsCode_example : IsCode dec_ok ↔ ((is_negative (pos 0) ≡ true) ⊎ (true ≡ true))
unfolding decode receive_loop finish
decode-IsCode_example = decode-IsCode codes (pos 0) true one_frame now decoder decoded dec_ok refl
