-- ===== src/Decoder/Decode/Frames.antt =====
-- What one call of `decode` hands to the frame callback, and what it does with its AVFrame.
use ff_test.Base.{
  ◌+◌, ◌%◌, ◌<◌, ◌≡◌, refl, sym, ◌∙◌, ap, inl, inr, Bool, true, false, if◌then◌else◌, Option, none,
  some, List, [], ◌∷◌, ◌++◌, append-nil, append_assoc, arith, length, u32_mod, Bool-cases,
}
use ff_test.Base.Int.{ℤ, is_negative, is_zero, eqb, zero-ne-negative}
use ff_test.Utils.{Timeval}
use ff_test.Av.{ErrorCodes, Packet, Frame}
use ff_test.Decoder.State.{
  Decoder, Call, sends, allocs_frame, unrefs_frame, frees_frame, delivers, flushes, dec_ok, dec_eof,
  dec_error, log,
}
use ff_test.Decoder.Decode.{
  Received, Exit, idle, drained, failed, measure, deliver, receive_loop, finish, is_eof, decode,
}

-- The answers up to the first that is not 0: the frames that are ready, and that first answer.
abbrev pub ready : List Received → List Frame
ready [] = []
ready (a ∷ later) = let rest = ready later in if is_zero a.ret then a.frame ∷ rest else []

abbrev pub stop : List Received → Option Received
stop [] = none
stop (a ∷ later) = let rest = stop later in if is_zero a.ret then rest else some a

-- The calls that hand out frames, each dropped after the callback.
abbrev pub deliveries : List Frame → List Call
deliveries [] = []
deliveries (f ∷ fs) = delivers f ∷ unrefs_frame ∷ deliveries fs

abbrev pub exit_of : ErrorCodes → Received → Exit
exit_of e a = if eqb a.ret e.eagain then idle a.at else if eqb a.ret e.eof then drained else failed

-- A loop whose answers hold one that is not 0 ends there, after the frames before it.
pub receive_loop_lem :
    (e : ErrorCodes) (answers : List Received) (last : Received) (d : Decoder)
    → stop answers ≡ some last
    → d.decode_cnt < u32_mod
    → (d' : Decoder) × (receive_loop e answers d ≡ some (exit_of e last, d'))
      × (d'.calls ≡ d.calls ++ deliveries (ready answers))
      × (d'.decode_cnt ≡ (d.decode_cnt + length (ready answers)) % u32_mod)
unfolding receive_loop
receive_loop_lem e [] last d s w = cc
receive_loop_lem e (a ∷ later) last d s w = elim (Bool-cases (is_zero a.ret)) [
  | inl good ↦
      let (d', run, calls, count) =
        receive_loop_lem e later last (deliver a.frame (measure a d)) (rw good at s)
          (omega arith) in
      (
        d',
        rw (good, zero-ne-negative a.ret e.eagain good e.eagain_negative) run,
        rw good (calls ∙ append_assoc d.calls (delivers a.frame ∷ unrefs_frame ∷ []) _),
        rw good (omega (arith, count)),
      )
  | inr other ↦ (
    measure a d,
    rw other (ground arith),
    rw other (sym (append-nil d.calls)),
    rw other (omega arith),
  )
]

-- A loop whose answers are all 0 does not end on them.
pub receive_loop-none :
    (e : ErrorCodes) (answers : List Received) (d : Decoder)
    → stop answers ≡ none
    → receive_loop e answers d ≡ none
unfolding receive_loop
receive_loop-none e [] d s = refl
receive_loop-none e (a ∷ later) d s = elim (Bool-cases (is_zero a.ret)) [
  | inl good ↦
      rw (good, zero-ne-negative a.ret e.eagain good e.eagain_negative)
        (receive_loop-none e later (deliver a.frame (measure a d)) (rw good at s))
  | inr other ↦ ground arith
]

-- The calls after the loop.
abbrev pub closing : Exit → List Call
closing (idle _) = frees_frame ∷ []
closing drained = frees_frame ∷ flushes ∷ []
closing failed = frees_frame ∷ []

-- The result of a `decode` whose loop is over: at the end of the stream it is never `DEC_OK`.
abbrev pub outcome : Bool → Exit → ℤ
outcome eof (idle _) = if eof then dec_eof else dec_ok
outcome eof drained = dec_eof
outcome eof failed = dec_error

abbrev pub sent_packet : Packet → Option Packet
sent_packet p = if is_eof p then none else some p

finish_lem :
    (eof : Bool) (t2 : Timeval) (x : Exit) (d : Decoder)
    → ((finish eof t2 x d).0 ≡ outcome eof x)
      × ((finish eof t2 x d).1.calls ≡ d.calls ++ closing x)
      × ((finish eof t2 x d).1.decode_cnt ≡ d.decode_cnt)
unfolding finish
finish_lem eof t2 (idle t1) d = (refl, refl, refl)
finish_lem eof t2 drained d = (refl, refl, refl)
finish_lem eof t2 failed d = (refl, refl, refl)

-- Once the codec has taken the packet and there is a frame, and one of the codec's answers is not
-- 0, `decode` returns at the first such answer. It has sent the packet (NULL when that is empty),
-- allocated one frame, handed each frame that was ready to the callback, in order, and dropped
-- it, and freed the frame; it has flushed the codec exactly if that was drained; its result is
-- the one for that end of the loop, and `DEC_OK` never for an empty packet; and `decode_cnt`,
-- which was below 2^32, has grown by the number of frames, in 32 bits.
pub decode_frames :
    (e : ErrorCodes) (sent : ℤ) (answers : List Received) (last : Received) (t2 : Timeval)
    (d : Decoder)
    → is_negative sent ≡ false
    → stop answers ≡ some last
    → d.decode_cnt < u32_mod
    → (d' : Decoder) × (decode e sent true answers t2 d
        ≡ some (outcome (is_eof d.pkt) (exit_of e last), d'))
      × (d'.calls
          ≡ d.calls
            ++ (sends (sent_packet d.pkt)
                ∷ allocs_frame
                ∷ (deliveries (ready answers) ++ closing (exit_of e last))))
      × (d'.decode_cnt ≡ (d.decode_cnt + length (ready answers)) % u32_mod)
unfolding decode
decode_frames e sent answers last t2 d taken s w =
    let start : Decoder = log (allocs_frame ∷ []) (log (sends (sent_packet d.pkt) ∷ []) d) in
    let (d1, run, calls, count) = receive_loop_lem e answers last start s w in
    let (result, closed, same) = finish_lem (is_eof d.pkt) t2 (exit_of e last) d1 in
    (
      (finish (is_eof d.pkt) t2 (exit_of e last) d1).1,
      rw (taken, run) (ap (λ r. some (r, (finish (is_eof d.pkt) t2 (exit_of e last) d1).1)) result),
      closed ∙ rw calls (simp append_assoc),
      omega (arith, count, same),
    )
