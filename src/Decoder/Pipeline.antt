-- ===== src/Decoder/Pipeline.antt =====
-- `demux` followed by `decode`, the way src/Decoder.hpp means them to be called.
use ff_test.Base.{
  ◌<◌, ◌≡◌, ◌⊎◌, refl, inl, inr, true, false, none, some, List, [], ◌∷◌, ◌++◌, ◌∙◌, append_assoc,
  u32_mod,
}
use ff_test.Base.Int.{ℤ, is_negative, eqb_refl}
use ff_test.Utils.{Timeval}
use ff_test.Av.{ErrorCodes}
use ff_test.Decoder.State.{Decoder, sends, unrefs_packet, allocs_frame, dec_eof, dec_error}
use ff_test.Decoder.Demux.{ReadAnswer, demux}
use ff_test.Decoder.Decode.{Received, Exit, idle, drained, failed, decode, is_eof}
use ff_test.Decoder.Decode.Frames.{
  ready, stop, deliveries, exit_of, closing, outcome, decode_frames,
}

demux_eof_state :
    (e : ErrorCodes) (a : ReadAnswer) (d : Decoder)
    → a.ret ≡ e.eof
    → ((demux e a d).0 ≡ dec_eof)
      × (is_eof (demux e a d).1.pkt ≡ true)
      × ((demux e a d).1.decode_cnt ≡ d.decode_cnt)
      × ((demux e a d).1.calls ≡ d.calls ++ unrefs_packet ∷ [])
unfolding demux
demux_eof_state e a d h =
    rw (h, e.eof_negative, e.distinct, eqb_refl e.eof) (refl, refl, refl, refl)

outcome_eof :
    (x : Exit) → (outcome true x ≡ dec_eof) ⊎ ((x ≡ failed) × (outcome true x ≡ dec_error))
outcome_eof (idle t) = inl refl
outcome_eof drained = inl refl
outcome_eof failed = inr (refl, refl)

-- When `av_read_frame` answers the end of the stream, `demux` answers `DEC_EOF`, and a `decode`
-- that follows, where the codec takes the packet, there is a frame, one of the codec's answers is
-- not 0, and `decode_cnt` is below 2^32, returns: it has sent NULL to drain the codec and handed
-- out every frame that was ready, and it answers `DEC_EOF`, or `DEC_ERROR` when the codec has
-- failed.
pub demux_eof_decode :
    (e : ErrorCodes) (a : ReadAnswer) (d : Decoder) (sent : ℤ) (answers : List Received)
    (last : Received) (t2 : Timeval)
    → a.ret ≡ e.eof
    → is_negative sent ≡ false
    → stop answers ≡ some last
    → d.decode_cnt < u32_mod
    → ((demux e a d).0 ≡ dec_eof)
      × (r : ℤ) × (d' : Decoder) × (decode e sent true answers t2 (demux e a d).1 ≡ some (r, d'))
      × ((r ≡ dec_eof) ⊎ ((exit_of e last ≡ failed) × (r ≡ dec_error)))
      × (d'.calls
          ≡ d.calls
            ++ (unrefs_packet
                ∷ sends none
                ∷ allocs_frame
                ∷ (deliveries (ready answers) ++ closing (exit_of e last))))
demux_eof_decode e a d sent answers last t2 h taken s w =
    let (result, eof, count, calls) = demux_eof_state e a d h in
    let (d', run, calls', _) =
      decode_frames e sent answers last t2 (demux e a d).1 taken s (rw count w) in
    (
      result,
      outcome true (exit_of e last),
      d',
      rw eof at run,
      outcome_eof (exit_of e last),
      rw eof at calls' ∙ rw calls (append_assoc d.calls (unrefs_packet ∷ []) _),
    )
