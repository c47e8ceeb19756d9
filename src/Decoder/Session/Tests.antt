-- ===== src/Decoder/Session/Tests.antt =====
-- A session of one packet and the end of the stream, on which the theorems about sessions with a
-- decoder of src/Decoder.cpp apply.
use ff_test.Base.{ℕ, ◌%◌, ◌≡◌, refl, true, some, List, [], ◌∷◌, length, u32_mod}
use ff_test.Base.Int.{ℤ, pos, negsuc}
use ff_test.Decoder.State.{Decoder}
use ff_test.Utils.{Timeval, util_diff_time_us}
use ff_test.Decoder.Session.Times.{Run-times}
use ff_test.Decoder.Demux.{ReadAnswer, demux}
use ff_test.Decoder.Decode.{Received, decode, receive_loop, finish}
use ff_test.Decoder.Decode.Results.{allocs, frees}
use ff_test.Decoder.Samples.{codes, now, read, end_of_stream, frame, receives, one_frame}
use ff_test.Decoder.Session.{Run, here, then_step, demuxes, decodes, delivered, opened}
use ff_test.Decoder.Session.Packets.{Run-counted}
use ff_test.Decoder.Session.Stream.{Round, feed, feed_frames}

abbrev start : Decoder
start = opened (pos 0) 100

abbrev demuxed : Decoder
demuxed = (demux codes read start).1

-- What `decode` makes of that packet.
decoding : (r : ℤ × Decoder) × (decode codes (pos 0) true one_frame now demuxed ≡ some r)
unfolding decode receive_loop finish
decoding = (_, refl)

one_packet : Run codes start decoding.0.1
one_packet =
    then_step (then_step here (demuxes read)) (decodes (pos 0) true one_frame now decoding.1)

Run-counted_example :
    (decoding.0.1.decoded_frame_cnt ≡ 1)
    × (decoding.0.1.decode_cnt ≡ length (delivered decoding.0.1.calls) % u32_mod)
    × (allocs decoding.0.1.calls ≡ frees decoding.0.1.calls)
unfolding one_packet
Run-counted_example = Run-counted codes (pos 0) 100 one_packet

abbrev at_us : ℕ → Timeval
at_us us = record { tv_sec = 0; tv_usec = us }

-- 7 microseconds for the packet, a frame at 10, nothing more at 20, the end at 25.
abbrev timed_read : ReadAnswer
timed_read = record read { finished = at_us 7 }

abbrev timed_answers : List Received
timed_answers =
    record (receives (pos 0)) { at = at_us 10 }
    ∷ record (receives (negsuc 10)) { at = at_us 20 }
    ∷ []

timed_decoding :
    (r : ℤ × Decoder) × (decode codes
        (pos 0)
        true
        timed_answers
        (at_us 25)
        (demux codes timed_read start).1
      ≡ some r)
unfolding decode receive_loop finish
timed_decoding = (_, refl)

timed_run : Run codes start timed_decoding.0.1
timed_run =
    then_step (then_step here (demuxes timed_read))
      (decodes (pos 0) true timed_answers (at_us 25) timed_decoding.1)

Run-times_example : timed_decoding.0.1.time_usage ≡ 7 ∷ 0 ∷ 5 ∷ 0 ∷ 0 ∷ 0 ∷ 0 ∷ 0 ∷ 0 ∷ 0 ∷ []
unfolding util_diff_time_us timed_run
Run-times_example = Run-times codes (pos 0) 100 timed_run

-- One frame for the packet, and one more when the codec is drained.
abbrev rounds : List Round
rounds =
    record { read = read; sent = pos 0; answers = one_frame; end_time = now }
    ∷ record { read = end_of_stream; sent = pos 0; answers = one_frame; end_time = now }
    ∷ []

feed_frames_example :
    (d' : Decoder) × (feed codes rounds start ≡ some d')
    × Run codes start d'
    × (delivered d'.calls ≡ frame ∷ frame ∷ [])
feed_frames_example =
    feed_frames codes (pos 0) 100 rounds start here
      ((refl, receives (negsuc 10), refl), ((refl, receives (negsuc 10), refl), tt))
