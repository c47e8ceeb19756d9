-- ===== src/Decoder/Demux/Outcome.antt =====
-- When `demux` has a packet for the codec, and what it counts.
use ff_test.Base.{
  ◌+◌, ◌%◌, ◌<◌, ◌≡◌, ◌↔◌, inl, inr, Bool, true, not, ◌&&◌, if◌then◌else◌, List, [], ◌∷◌, arith,
  u32_mod, Bool-cases, length,
}
use ff_test.Base.Int.{ℤ, is_negative, eqb}
use ff_test.Av.{ErrorCodes, Packet, blank}
use ff_test.Decoder.State.{Decoder, dec_ok}
use ff_test.Decoder.Demux.{ReadAnswer, demux}

-- An answer that is a packet of the stream `idx`.
abbrev pub is_video : ℤ → ReadAnswer → Bool
is_video idx a = not (is_negative a.ret) && eqb a.packet.stream_index idx

-- `demux` answers `DEC_OK` exactly when FFmpeg has read a packet of the chosen stream. Then that
-- is the current packet, and `m_decoded_frame_cnt` has grown by one, in 32 bits. Otherwise the
-- counter is the same and the current packet is blank, given that FFmpeg leaves a blank one on an
-- error.
pub demux_ok :
    (e : ErrorCodes) (a : ReadAnswer) (d : Decoder)
    → (is_negative a.ret ≡ true → a.packet ≡ blank)
    → ((demux e a d).0 ≡ dec_ok ↔ (is_video d.stream_idx a ≡ true))
      × ((demux e a d).1.decoded_frame_cnt ≡ (
          if is_video d.stream_idx a
          then (d.decoded_frame_cnt + 1) % u32_mod
          else d.decoded_frame_cnt))
      × ((demux e a d).1.pkt ≡ (if is_video d.stream_idx a then a.packet else blank))
unfolding demux
demux_ok e a d on_error = elim (Bool-cases (is_negative a.ret)) [
  | inl bad ↦ ground (arith, on_error bad)
  | inr good ↦ ground arith
]

-- A client's calls of `demux`, one for each answer of FFmpeg.
abbrev pub demux_all : ErrorCodes → List ReadAnswer → Decoder → Decoder
demux_all e [] d = d
demux_all e (a ∷ answers) d = demux_all e answers (demux e a d).1

abbrev pub videos : ℤ → List ReadAnswer → List Packet
videos idx [] = []
videos idx (a ∷ answers) =
    let rest = videos idx answers in if is_video idx a then a.packet ∷ rest else rest

pub demux-stream_idx :
    (e : ErrorCodes) (a : ReadAnswer) (d : Decoder) → (demux e a d).1.stream_idx ≡ d.stream_idx
unfolding demux
demux-stream_idx e a d = ground arith

demux_count :
    (e : ErrorCodes) (a : ReadAnswer) (d : Decoder)
    → (demux e a d).1.decoded_frame_cnt ≡ (
        if is_video d.stream_idx a
        then (d.decoded_frame_cnt + 1) % u32_mod
        else d.decoded_frame_cnt)
unfolding demux
demux_count e a d = ground arith

-- Over any calls of `demux`, from a count below 2^32, `get_decoded_frame_cnt` counts, in 32 bits,
-- the packets of the chosen stream that were read.
pub demux_all_count :
    (e : ErrorCodes) (answers : List ReadAnswer) (d : Decoder)
    → d.decoded_frame_cnt < u32_mod
    → (demux_all e answers d).decoded_frame_cnt
      ≡ (d.decoded_frame_cnt + length (videos d.stream_idx answers)) % u32_mod
demux_all_count e [] d w = omega arith
demux_all_count e (a ∷ answers) d w = elim (Bool-cases (is_video d.stream_idx a)) [
  | inl video ↦
      let one = rw video at (demux_count e a d) in
      let rest =
        rw (demux-stream_idx e a d) at
          (demux_all_count e answers (demux e a d).1 (omega (arith, one))) in
      rw video (omega (arith, one, rest))
  | inr other ↦
      let same = rw other at (demux_count e a d) in
      let rest =
        rw (demux-stream_idx e a d) at
          (demux_all_count e answers (demux e a d).1 (omega (arith, same))) in
      rw other (omega (arith, same, rest))
]
