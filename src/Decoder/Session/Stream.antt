-- ===== src/Decoder/Session/Stream.antt =====
-- A whole stream through a decoder of src/Decoder.cpp: rounds of `demux` and, for a packet of the
-- stream or its end, `decode`.
use ff_test.Base.{
  ℕ, ◌<◌, ◌≡◌, refl, sym, ◌∙◌, ap, inl, inr, Bool, true, false, if◌then◌else◌, ◌||◌, Option, some,
  List, [], ◌∷◌, ◌++◌, All, append-nil, append_assoc, arith, u32_mod, Bool-cases, ◌>>=◌,
}
use ff_test.Base.Int.{ℤ, is_negative, eqb}
use ff_test.Utils.{Timeval}
use ff_test.Av.{ErrorCodes, Frame}
use ff_test.Decoder.State.{Decoder, dec_ok, dec_eof}
use ff_test.Decoder.Demux.{ReadAnswer, demux}
use ff_test.Decoder.Decode.{Received, Exit, idle, drained, failed, decode}
use ff_test.Decoder.Decode.Frames.{ready, stop, deliveries, exit_of, closing, decode_frames}
use ff_test.Decoder.Session.{Run, here, then_step, demuxes, decodes, delivered, opened}
use ff_test.Decoder.Session.Keeps.{decode-keeps}
use ff_test.Decoder.Session.Counters.{Run-IsTyped, delivered-append, silent-delivered, demux-calls}
use ff_test.Decoder.Demux.Outcome.{demux-stream_idx}

-- What FFmpeg and the clock answer in one round; there is memory for a frame.
pub record Round : Type 0 where
  pub read : ReadAnswer
  pub sent : ℤ
  pub answers : List Received
  pub end_time : Timeval

-- The owner's loop: each packet that `demux` has, or the end of the stream, goes to `decode`.
pub feed : ErrorCodes → List Round → Decoder → Option Decoder
feed e [] d = some d
feed e (r ∷ rounds) d =
    let (ret, d1) = demux e r.read d in
    let skipped = feed e rounds d1 in
    if eqb ret dec_ok || eqb ret dec_eof
    then (do out ← decode e r.sent true r.answers r.end_time d1; feed e rounds out.1)
    else skipped

-- FFmpeg has a packet of the stream, or is at its end.
abbrev pub is_fed : ErrorCodes → ℤ → ReadAnswer → Bool
is_fed e stream_idx a =
    if is_negative a.ret then eqb a.ret e.eof else eqb a.packet.stream_index stream_idx

-- The frames that the codec makes ready, round by round.
abbrev pub frames_of : ErrorCodes → ℤ → List Round → List Frame
frames_of e stream_idx [] = []
frames_of e stream_idx (r ∷ rounds) =
    let rest = frames_of e stream_idx rounds in
    if is_fed e stream_idx r.read then ready r.answers ++ rest else rest

-- The codec takes what it is sent, and answers until no frame is ready.
abbrev pub IsAnswered : Round → Type 0
IsAnswered r = (is_negative r.sent ≡ false) × (last : Received) × (stop r.answers ≡ some last)

pub demux-fed :
    (e : ErrorCodes) (a : ReadAnswer) (d : Decoder)
    → (let ret = (demux e a d).0 in eqb ret dec_ok || eqb ret dec_eof) ≡ is_fed e d.stream_idx a
unfolding demux
demux-fed e a d = ground (arith, e.distinct)

pub Run-stream_idx :
    (e : ErrorCodes) (i : ℤ) (mem : ℕ) {d : Decoder} → Run e (opened i mem) d → d.stream_idx ≡ i
Run-stream_idx e i mem here = refl
Run-stream_idx e i mem (then_step {d' = d} r (demuxes a)) =
    demux-stream_idx e a d ∙ Run-stream_idx e i mem r
Run-stream_idx e i mem (then_step {d' = d} r (decodes sent has_frame answers t2 {r = out} run)) =
    decode-keeps (λ x. x.stream_idx ≡ i) (λ cs x s p. p) (λ a x p. p) (λ f x p. p) (λ q x p. p)
      (λ j t x p. p) e sent has_frame answers t2 d out run (Run-stream_idx e i mem r)

pub deliveries-delivered :
    (fs : List Frame) (x : Exit) → delivered (deliveries fs ++ closing x) ≡ fs
deliveries-delivered [] (idle t) = refl
deliveries-delivered [] drained = refl
deliveries-delivered [] failed = refl
deliveries-delivered (f ∷ fs) x = ap (◌∷◌ f) (deliveries-delivered fs x)

pub demux-delivered :
    (e : ErrorCodes) (a : ReadAnswer) (d : Decoder)
    → delivered (demux e a d).1.calls ≡ delivered d.calls
demux-delivered e a d =
    let (cs, silent, calls, _, _) = demux-calls e a d in
    rw (calls, delivered-append d.calls cs, silent-delivered cs silent)
      (append-nil (delivered d.calls))

decode-delivered :
    (e : ErrorCodes) (r : Round) (d : Decoder)
    → IsAnswered r
    → d.decode_cnt < u32_mod
    → (out : ℤ × Decoder) × (decode e r.sent true r.answers r.end_time d ≡ some out)
      × (delivered out.1.calls ≡ delivered d.calls ++ ready r.answers)
decode-delivered e r d (taken, last, stops) w =
    let (d', run, calls, _) = decode_frames e r.sent r.answers last r.end_time d taken stops w in
    (
      (_, d'),
      run,
      rw (calls, delivered-append d.calls _)
          (ap (◌++◌ (delivered d.calls)) (deliveries-delivered (ready r.answers) (exit_of e last))),
    )

-- From a session after `init` and `open`, over rounds in which the codec takes what it is sent and
-- answers until no frame is ready: the loop returns, and the callback has been given the frames
-- that the codec made ready for the packets of the stream and at its end, in order, each once.
pub feed_frames :
    (e : ErrorCodes) (i : ℤ) (mem : ℕ) (rounds : List Round) (d : Decoder)
    → Run e (opened i mem) d
    → All IsAnswered rounds
    → (d' : Decoder) × (feed e rounds d ≡ some d')
      × Run e (opened i mem) d'
      × (delivered d'.calls ≡ delivered d.calls ++ frames_of e i rounds)
unfolding feed
feed_frames e i mem [] d run a = (d, refl, run, sym (append-nil (delivered d.calls)))
feed_frames e i mem (r ∷ rounds) d run (a, as') =
    let d1 : Decoder = (demux e r.read d).1 in
    let run1 : Run e (opened i mem) d1 = then_step run (demuxes r.read) in
    let at_demux = demux-delivered e r.read d in
    let test = demux-fed e r.read d ∙ ap (λ j. is_fed e j r.read) (Run-stream_idx e i mem run) in
    elim (Bool-cases (is_fed e i r.read)) [
      | inl fed ↦
          let (out, decoded, at_decode) =
            decode-delivered e r d1 a (Run-IsTyped e i mem run1).frames in
          let (d', rest, run', all) =
            feed_frames e i mem rounds out.1
              (then_step run1 (decodes r.sent true r.answers r.end_time decoded)) as' in
          (
            d',
            rw (test ∙ fed, decoded) rest,
            run',
            rw fed (
                all
                ∙ rw (at_decode, at_demux) (append_assoc (delivered d.calls) (ready r.answers) _)),
          )
      | inr skipped ↦
          let (d', rest, run', all) = feed_frames e i mem rounds d1 run1 as' in
          (d', rw (test ∙ skipped) rest, run', rw skipped (all ∙ rw at_demux))
    ]
