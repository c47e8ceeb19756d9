-- ===== src/Decoder/Session/Packets.antt =====
-- What the two frame counters of src/Decoder.hpp count over a session.
use ff_test.Base.{
  Bool, some, List, ℕ, ◌+◌, ◌%◌, ◌≡◌, refl, ◌∙◌, ap, if◌then◌else◌, length, arith, u32_mod,
}
use ff_test.Base.Int.{ℤ, is_negative, eqb}
use ff_test.Av.{ErrorCodes}
use ff_test.Decoder.State.{Decoder}
use ff_test.Decoder.Demux.{ReadAnswer, demux}
use ff_test.Utils.{Timeval}
use ff_test.Decoder.Decode.{Received, decode}
use ff_test.Decoder.Decode.Results.{allocs, frees}
use ff_test.Decoder.Session.{demuxes, decodes, Run, here, then_step, delivered, opened}
use ff_test.Decoder.Session.Stream.{Run-stream_idx}
use ff_test.Decoder.Session.Keeps.{decode-keeps}
use ff_test.Decoder.Session.Counters.{Run-counts}

-- 1 for an answer that is a packet of the stream.
abbrev pub count_packet : ℤ → ReadAnswer → ℕ
count_packet i a = if is_negative a.ret then 0 else if eqb a.packet.stream_index i then 1 else 0

-- The packets of the stream that FFmpeg has read in a session.
abbrev pub packets : {e : ErrorCodes} {d d' : Decoder} → ℤ → Run e d d' → ℕ
packets i here = 0
packets i (then_step r (demuxes a)) = packets i r + count_packet i a
packets i (then_step r (decodes sent has_frame answers t2 run)) = packets i r

pub demux_packets :
    (e : ErrorCodes) (a : ReadAnswer) (d : Decoder) (k : ℕ)
    → d.decoded_frame_cnt ≡ k % u32_mod
    → (demux e a d).1.decoded_frame_cnt ≡ (k + count_packet d.stream_idx a) % u32_mod
unfolding demux
demux_packets e a d k same = ground (arith, same)

pub decode_packets :
    (e : ErrorCodes) (sent : ℤ) (has_frame : Bool) (answers : List Received) (t2 : Timeval) (k : ℕ)
    (d : Decoder) (r : ℤ × Decoder)
    → decode e sent has_frame answers t2 d ≡ some r
    → d.decoded_frame_cnt ≡ k
    → r.1.decoded_frame_cnt ≡ k
decode_packets e sent has_frame answers t2 k =
    decode-keeps (λ x. x.decoded_frame_cnt ≡ k) (λ cs x s p. p) (λ a x p. p) (λ f x p. p)
      (λ q x p. p) (λ j t x p. p) e sent has_frame answers t2

Run-packets :
    (e : ErrorCodes) (i : ℤ) (mem : ℕ) {d : Decoder} (r : Run e (opened i mem) d)
    → d.decoded_frame_cnt ≡ packets i r % u32_mod
Run-packets e i mem here = refl
Run-packets e i mem (then_step {d' = d} r (demuxes a)) =
    demux_packets e a d (packets i r) (Run-packets e i mem r)
    ∙ ap (λ j. (packets i r + count_packet j a) % u32_mod) (Run-stream_idx e i mem r)
Run-packets e i mem (then_step {d' = d} r (decodes sent has_frame answers t2 {r = out} run)) =
    decode_packets e sent has_frame answers t2 (packets i r % u32_mod) d out run
      (Run-packets e i mem r)

-- From `init` and `open` on, whatever calls of `demux` and `decode` are made and whatever FFmpeg
-- answers: `decoded_frame_cnt` is the number of the packets of the stream that `demux` has read,
-- decoded or not; `decode_cnt` is the number of the frames that the callback was given, both in 32
-- bits; and as many frames are freed as were allocated.
pub Run-counted :
    (e : ErrorCodes) (i : ℤ) (mem : ℕ) {d : Decoder} (r : Run e (opened i mem) d)
    → (d.decoded_frame_cnt ≡ packets i r % u32_mod)
      × (d.decode_cnt ≡ length (delivered d.calls) % u32_mod)
      × (allocs d.calls ≡ frees d.calls)
Run-counted e i mem r =
    let (count, even) = Run-counts e i mem r in (Run-packets e i mem r, count, even)
