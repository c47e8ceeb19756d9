-- ===== src/Decoder/Session/Times.antt =====
-- The times that src/Decoder.cpp takes of a session, in `m_time_usage`.
use ff_test.Base.{
  ℕ, ◌+◌, ◌%◌, ◌≡◌, refl, sym, ◌∙◌, ap, inl, inr, Bool, true, false, if◌then◌else◌, none, some,
  List, [], ◌∷◌, arith, u32_mod, Bool-cases, Option-cases, some_inj, some_snd,
}
use ff_test.Base.Int.{ℤ, is_negative, is_zero, eqb, zero-ne-negative}
use ff_test.Utils.{Timeval, util_diff_time_us}
use ff_test.Av.{ErrorCodes}
use ff_test.Decoder.State.{Decoder, sends, allocs_frame, log, bump}
use ff_test.Decoder.Decode.{
  Received, Exit, idle, drained, failed, measure, deliver, receive_loop, finish, is_eof, decode,
}
use ff_test.Decoder.Decode.Frames.{stop, sent_packet}
use ff_test.Decoder.Session.{demuxes, decodes, Run, here, then_step, opened}
use ff_test.Decoder.Session.Counters.{demux_times}

-- From the last reading of the clock in the loop to the end, when the loop ends because no frame is
-- ready.
abbrev pub last_wait : ErrorCodes → List Received → Timeval → ℕ
last_wait e answers t2 = elim (stop answers) [
  | none ↦ 0
  | some last ↦ if eqb last.ret e.eagain then util_diff_time_us last.at t2 else 0
]

-- What one `decode` adds.
abbrev pub decode_time : ErrorCodes → ℤ → Bool → List Received → Timeval → ℕ
decode_time e sent has_frame answers t2 =
    if is_negative sent then 0 else if has_frame then last_wait e answers t2 else 0

-- The time in `av_read_frame`, and in the last round of each `decode`.
abbrev pub reading : {e : ErrorCodes} {d d' : Decoder} → Run e d d' → ℕ
reading here = 0
reading (then_step r (demuxes a)) = reading r + util_diff_time_us a.started a.finished
reading (then_step r (decodes sent has_frame answers t2 run)) = reading r

abbrev pub waiting : {e : ErrorCodes} {d d' : Decoder} → Run e d d' → ℕ
waiting here = 0
waiting (then_step r (demuxes a)) = waiting r
waiting {e} (then_step r (decodes sent has_frame answers t2 run)) =
    waiting r + decode_time e sent has_frame answers t2

-- Ten times, of which the first and the third are taken.
abbrev pub times : ℕ → ℕ → List ℕ
times a b = a % u32_mod ∷ 0 ∷ b % u32_mod ∷ 0 ∷ 0 ∷ 0 ∷ 0 ∷ 0 ∷ 0 ∷ 0 ∷ []

bump_first : (a b t : ℕ) → bump 0 t (times a b) ≡ times (a + t) b
bump_first a b t =
    let e : (a % u32_mod + t) % u32_mod ≡ (a + t) % u32_mod = omega arith in
    ap (λ k. k ∷ 0 ∷ b % u32_mod ∷ 0 ∷ 0 ∷ 0 ∷ 0 ∷ 0 ∷ 0 ∷ 0 ∷ []) e

bump_third : (a b t : ℕ) → bump 2 t (times a b) ≡ times a (b + t)
bump_third a b t =
    let e : (b % u32_mod + t) % u32_mod ≡ (b + t) % u32_mod = omega arith in
    ap (λ k. a % u32_mod ∷ 0 ∷ k ∷ 0 ∷ 0 ∷ 0 ∷ 0 ∷ 0 ∷ 0 ∷ 0 ∷ []) e

times_zero : (a b : ℕ) → times a b ≡ times a (b + 0)
times_zero a b = let e : b + 0 ≡ b = omega arith in ap (times a) (sym e)

abbrev exit_time : Timeval → Exit → ℕ
exit_time t2 (idle t1) = util_diff_time_us t1 t2
exit_time t2 drained = 0
exit_time t2 failed = 0

-- The loop takes no time itself; the time from its last round on is that of the way in which it
-- ends.
receive_loop_times :
    (e : ErrorCodes) (answers : List Received) (t2 : Timeval) (d : Decoder) (r : Exit × Decoder)
    → receive_loop e answers d ≡ some r
    → (r.1.time_usage ≡ d.time_usage) × (exit_time t2 r.0 ≡ last_wait e answers t2)
unfolding receive_loop
receive_loop_times e [] t2 d r run = cc
receive_loop_times e (a ∷ later) t2 d r run = elim (Bool-cases (is_zero a.ret)) [
  | inl good ↦
      let (same, time) =
        receive_loop_times e later t2 (deliver a.frame (measure a d)) r
          (rw (good, zero-ne-negative a.ret e.eagain good e.eagain_negative) at run) in
      (same, time ∙ rw (last_wait, good) refl)
  | inr other ↦ elim (Bool-cases (eqb a.ret e.eagain)) [
    | inl empty ↦
        let done : (idle a.at, measure a d) ≡ r = some_inj (rw (other, empty) at run) in
        (
          sym (ap (λ x. x.1.time_usage) done),
          sym (ap (λ x. exit_time t2 x.0) done) ∙ rw (last_wait, other, empty) refl,
        )
    | inr over ↦
        let done : ((if eqb a.ret e.eof then drained else failed), measure a d) ≡ r =
          some_inj (rw (other, over) at run) in
        (
          sym (ap (λ x. x.1.time_usage) done),
          sym (ap (λ x. exit_time t2 x.0) done)
              ∙ left (eqb a.ret e.eof)
              ∙ rw (last_wait, other, over) refl,
        )
  ]
]
  where
    left : (b : Bool) → exit_time t2 (if b then drained else failed) ≡ 0
    left true = refl
    left false = refl

finish_times :
    (eof : Bool) (t2 : Timeval) (x : Exit) (a b : ℕ) (d : Decoder)
    → d.time_usage ≡ times a b
    → (finish eof t2 x d).1.time_usage ≡ times a (b + exit_time t2 x)
unfolding finish
finish_times eof t2 (idle t1) a b d same =
    ap (bump 2 (util_diff_time_us t1 t2)) same ∙ bump_third a b (util_diff_time_us t1 t2)
finish_times eof t2 drained a b d same = same ∙ times_zero a b
finish_times eof t2 failed a b d same = same ∙ times_zero a b

-- The codec has taken the packet.
taken_times :
    (e : ErrorCodes) (sent : ℤ) (has_frame : Bool) (answers : List Received) (t2 : Timeval)
    (a b : ℕ) (d : Decoder) (r : ℤ × Decoder)
    → is_negative sent ≡ false
    → decode e sent has_frame answers t2 d ≡ some r
    → d.time_usage ≡ times a b
    → r.1.time_usage ≡ times a (b + (if has_frame then last_wait e answers t2 else 0))
unfolding decode
taken_times e sent false answers t2 a b d r taken run same =
    sym (ap (λ (x : Decoder). x.time_usage) (some_snd (rw taken at run))) ∙ same ∙ times_zero a b
taken_times e sent true answers t2 a b d r taken run same =
    let start : Decoder = log (allocs_frame ∷ []) (log (sends (sent_packet d.pkt) ∷ []) d) in
    elim (Option-cases (receive_loop e answers start)) [
      | inl endless ↦ cc (rw (taken, endless) at run)
      | inr (out, ended) ↦
          let (kept, time) = receive_loop_times e answers t2 start out ended in
          sym (ap (λ (x : Decoder). x.time_usage) (some_snd (rw (taken, ended) at run)))
          ∙ finish_times (is_eof d.pkt) t2 out.0 a b out.1 (kept ∙ same)
          ∙ ap (λ k. times a (b + k)) time
    ]

refused_times :
    (e : ErrorCodes) (sent : ℤ) (has_frame : Bool) (answers : List Received) (t2 : Timeval)
    (d : Decoder) (r : ℤ × Decoder)
    → is_negative sent ≡ true
    → decode e sent has_frame answers t2 d ≡ some r
    → r.1.time_usage ≡ d.time_usage
unfolding decode
refused_times e sent has_frame answers t2 d r refused run = elim (Bool-cases (eqb sent e.eof)) [
  | inl at_eof ↦ sym (ap (λ (x : Decoder). x.time_usage) (some_snd (rw (refused, at_eof) at run)))
  | inr other ↦ elim (Bool-cases (eqb sent e.eagain)) [
    | inl again ↦
        sym (ap (λ (x : Decoder). x.time_usage) (some_snd (rw (refused, other, again) at run)))
    | inr broken ↦
        sym (ap (λ (x : Decoder). x.time_usage) (some_snd (rw (refused, other, broken) at run)))
  ]
]

decode_times :
    (e : ErrorCodes) (sent : ℤ) (has_frame : Bool) (answers : List Received) (t2 : Timeval)
    (a b : ℕ) (d : Decoder) (r : ℤ × Decoder)
    → decode e sent has_frame answers t2 d ≡ some r
    → d.time_usage ≡ times a b
    → r.1.time_usage ≡ times a (b + decode_time e sent has_frame answers t2)
decode_times e sent has_frame answers t2 a b d r run same = elim (Bool-cases (is_negative sent)) [
  | inl refused ↦
      refused_times e sent has_frame answers t2 d r refused run
      ∙ same
      ∙ times_zero a b
      ∙ ap (λ k. times a (b + k)) (rw (decode_time, refused) refl)
  | inr taken ↦
      taken_times e sent has_frame answers t2 a b d r taken run same
      ∙ ap (λ k. times a (b + k)) (rw (decode_time, taken) refl)
]

-- From `init` and `open` on, whatever calls of `demux` and `decode` are made and whatever FFmpeg
-- and the clock answer: the first of the ten times is the time that all calls of `av_read_frame`
-- took, the third is the time from the clock reading of the last round to the end in each `decode`
-- that has ended because no frame was ready, both in microseconds and in 32 bits, and the others
-- are 0. What the rounds before the last took, the callback's time with it, is in none of them.
pub Run-times :
    (e : ErrorCodes) (i : ℤ) (mem : ℕ) {d : Decoder} (r : Run e (opened i mem) d)
    → d.time_usage ≡ reading r % u32_mod ∷ 0 ∷ waiting r % u32_mod ∷ 0 ∷ 0 ∷ 0 ∷ 0 ∷ 0 ∷ 0 ∷ 0 ∷ []
Run-times e i mem here = refl
Run-times e i mem (then_step {d' = d} r (demuxes a)) =
    let t = util_diff_time_us a.started a.finished in
    demux_times e a d ∙ ap (bump 0 t) (Run-times e i mem r) ∙ bump_first (reading r) (waiting r) t
Run-times e i mem (then_step {d' = d} r (decodes sent has_frame answers t2 {r = out} run)) =
    decode_times e sent has_frame answers t2 (reading r) (waiting r) d out run (Run-times e i mem r)
