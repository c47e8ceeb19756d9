-- ===== src/Decoder/Session/Keeps.antt =====
-- What `decode` of src/Decoder.cpp keeps, when its parts keep it.
use ff_test.Base.{
  ℕ, ◌≡◌, inl, inr, Bool, true, false, some, List, [], ◌∷◌, All, Bool-cases, Option-cases, some_snd,
  subst,
}
use ff_test.Base.Int.{ℤ, is_negative, is_zero, eqb, zero-ne-negative}
use ff_test.Utils.{Timeval}
use ff_test.Av.{ErrorCodes, Packet, Frame, blank}
use ff_test.Decoder.State.{
  Decoder, Call, sends, unrefs_packet, allocs_frame, frees_frame, delivers, flushes, log, bump,
}
use ff_test.Decoder.Decode.{
  Received, Exit, idle, drained, failed, measure, deliver, receive_loop, finish, is_eof, decode,
}
use ff_test.Decoder.Decode.Frames.{sent_packet}

-- A call that hands out no frame.
abbrev pub IsSilent : Call → Type 0
IsSilent (delivers f) = ⊥
IsSilent _ = Unit {0}

-- What the parts of `decode` keep, `decode` keeps.
module _ (P : Decoder → Type 0)
    (logs : (cs : List Call) (d : Decoder) → All IsSilent cs → P d → P (log cs d))
    (measures : (a : Received) (d : Decoder) → P d → P (measure a d))
    (hands_out : (f : Frame) (d : Decoder) → P d → P (deliver f d))
    (sets_packet : (p : Packet) (d : Decoder) → P d → P (record d { pkt = p }))
    (bumps : (i t : ℕ) (d : Decoder)
      → P d
      → P (record d { time_usage = bump i t d.time_usage })) where
  receive_loop-keeps :
      (e : ErrorCodes) (answers : List Received) (d : Decoder) (r : Exit × Decoder)
      → receive_loop e answers d ≡ some r
      → P d
      → P r.1
  unfolding receive_loop
  receive_loop-keeps e [] d r run p = cc
  receive_loop-keeps e (a ∷ later) d r run p = elim (Bool-cases (is_zero a.ret)) [
    | inl good ↦
        receive_loop-keeps e later (deliver a.frame (measure a d)) r
          (rw (good, zero-ne-negative a.ret e.eagain good e.eagain_negative) at run)
          (hands_out a.frame (measure a d) (measures a d p))
    | inr other ↦ elim (Bool-cases (eqb a.ret e.eagain)) [
      | inl empty ↦ subst P (some_snd (rw (other, empty) at run)) (measures a d p)
      | inr over ↦ subst P (some_snd (rw (other, over) at run)) (measures a d p)
    ]
  ]

  finish-keeps :
      (eof : Bool) (t2 : Timeval) (x : Exit) (d : Decoder) → P d → P (finish eof t2 x d).1
  unfolding finish
  finish-keeps eof t2 (idle t1) d p = logs (frees_frame ∷ []) _ (tt, tt) (bumps 2 _ d p)
  finish-keeps eof t2 drained d p = logs (frees_frame ∷ flushes ∷ []) d (tt, (tt, tt)) p
  finish-keeps eof t2 failed d p = logs (frees_frame ∷ []) d (tt, tt) p

  refused-keeps :
      (e : ErrorCodes) (sent : ℤ) (has_frame : Bool) (answers : List Received) (t2 : Timeval)
      (d : Decoder) (r : ℤ × Decoder)
      → is_negative sent ≡ true
      → decode e sent has_frame answers t2 d ≡ some r
      → P d
      → P r.1
  unfolding decode
  refused-keeps e sent has_frame answers t2 d r bad run p =
      let sent_it = logs (sends (sent_packet d.pkt) ∷ []) d (tt, tt) p in
      elim (Bool-cases (eqb sent e.eof)) [
        | inl at_eof ↦ subst P (some_snd (rw (bad, at_eof) at run)) sent_it
        | inr other ↦ elim (Bool-cases (eqb sent e.eagain)) [
          | inl again ↦
              subst P (some_snd (rw (bad, other, again) at run))
                (logs (unrefs_packet ∷ []) _ (tt, tt) (sets_packet blank _ sent_it))
          | inr broken ↦ subst P (some_snd (rw (bad, other, broken) at run)) sent_it
        ]
      ]

  taken-keeps :
      (e : ErrorCodes) (sent : ℤ) (has_frame : Bool) (answers : List Received) (t2 : Timeval)
      (d : Decoder) (r : ℤ × Decoder)
      → is_negative sent ≡ false
      → decode e sent has_frame answers t2 d ≡ some r
      → P d
      → P r.1
  unfolding decode
  taken-keeps e sent false answers t2 d r taken run p =
      subst P (some_snd (rw taken at run)) (logs (sends (sent_packet d.pkt) ∷ []) d (tt, tt) p)
  taken-keeps e sent true answers t2 d r taken run p =
      let sent_it = logs (sends (sent_packet d.pkt) ∷ []) d (tt, tt) p in
      let start : Decoder = log (allocs_frame ∷ []) (log (sends (sent_packet d.pkt) ∷ []) d) in
      elim (Option-cases (receive_loop e answers start)) [
        | inl endless ↦ cc (rw (taken, endless) at run)
        | inr (out, ended) ↦ subst P (some_snd (rw (taken, ended) at run)) (
            finish-keeps (is_eof d.pkt) t2 out.0 out.1 (
              receive_loop-keeps e answers start out ended
                (logs (allocs_frame ∷ []) _ (tt, tt) sent_it)))
      ]

  pub decode-keeps :
      (e : ErrorCodes) (sent : ℤ) (has_frame : Bool) (answers : List Received) (t2 : Timeval)
      (d : Decoder) (r : ℤ × Decoder)
      → decode e sent has_frame answers t2 d ≡ some r
      → P d
      → P r.1
  decode-keeps e sent has_frame answers t2 d r run p = elim (Bool-cases (is_negative sent)) [
    | inl bad ↦ refused-keeps e sent has_frame answers t2 d r bad run p
    | inr taken ↦ taken-keeps e sent has_frame answers t2 d r taken run p
  ]
