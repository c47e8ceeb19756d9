-- ===== src/Task/Routine/Loop.antt =====
-- The loop of `decode_routine` in src/Task.cpp.
use ff_test.Base.{
  ◌+◌, none, ℕ, ◌≡◌, refl, sym, ◌∙◌, ap, inl, inr, Bool, true, false, not, ◌||◌, if◌then◌else◌,
  some, List, [], ◌∷◌, ◌++◌, All, Bool-cases, subst, ◌>>=◌,
}
use ff_test.Base.Int.{ℤ}
use ff_test.Av.{ErrorCodes, Frame}
use ff_test.Task.Output.{IsSmall}
use ff_test.Decoder.State.{Decoder}
use ff_test.Decoder.Device.{Device}
use ff_test.Task.Routine.{Shared, Pointer, System, Turn, Playing, play_turn, decode_loop}
use ff_test.Task.Routine.Played.{WritesAll, IsWritable, after, after-append, after_none}
use ff_test.Task.Routine.Turns.{
  IsPlaying, HasGrown, HasGrown-trans, HasGrown-nil, with_counters, playing, turn_playing,
}
use ff_test.Task.Routine.Expected.{
  IsStopped, turn_ends, turn_frames, ends, frames_until, packets_until, reads_until,
}
use ff_test.Decoder.Session.Packets.{count_packet}

-- With `m_bExit` set the loop ends at once.
exit_lem :
    (e : ErrorCodes) (i : ℤ) (t : Turn) (later : List Turn) (p : Playing)
    → t.exit ≡ true
    → (decode_loop e (t ∷ later) p ≡ some p)
      × (frames_until e i (t ∷ later) ≡ [])
      × (reads_until e i (t ∷ later) ≡ [])
      × (packets_until e i (t ∷ later) ≡ 0)
unfolding decode_loop
exit_lem e i t later p exit = rw exit (refl, refl, refl, refl)

-- The loop and what is expected of it, past the test of `m_bExit`.
loop_on :
    (e : ErrorCodes) (t : Turn) (later : List Turn) (p p' : Playing) (leaves b : Bool)
    → t.exit ≡ false
    → play_turn e t p ≡ some (not leaves, p')
    → leaves ≡ b
    → decode_loop e (t ∷ later) p ≡ (if not b then decode_loop e later p' else some p')
unfolding decode_loop
loop_on e t later p p' leaves b on run is_b =
    ap
      (λ b. if b then some p else (do
        (goes_on, p') ← play_turn e t p
        if goes_on then decode_loop e later p' else some p'))
      on
    ∙ rw run (ap (λ b. if not b then decode_loop e later p' else some p') is_b)

expected_on :
    (e : ErrorCodes) (i : ℤ) (t : Turn) (later : List Turn)
    → t.exit ≡ false
    → (ends e i (t ∷ later) ≡ (turn_ends e i t || ends e i later))
      × (frames_until e i (t ∷ later) ≡ (
          if turn_ends e i t
          then turn_frames e i t
          else turn_frames e i t ++ frames_until e i later))
      × (reads_until e i (t ∷ later)
          ≡ (if turn_ends e i t then t.reads else t.reads ++ reads_until e i later))
      × (packets_until e i (t ∷ later) ≡ (
          if turn_ends e i t
          then count_packet i t.read
          else count_packet i t.read + packets_until e i later))
expected_on e i t later on = (
  ap (λ b. b || turn_ends e i t || ends e i later) on,
  ap
      (λ b.
        if b
        then []
        else if turn_ends e i t
        then turn_frames e i t
        else turn_frames e i t ++ frames_until e i later)
      on,
  ap (λ b. if b then [] else if turn_ends e i t then t.reads else t.reads ++ reads_until e i later)
      on,
  ap
      (λ b.
        if b
        then 0
        else if turn_ends e i t
        then count_packet i t.read
        else count_packet i t.read + packets_until e i later)
      on,
)

All-append : (P : Frame → Type 0) (xs ys : List Frame) → All P (xs ++ ys) → All P xs × All P ys
All-append P [] ys a = (tt, a)
All-append P (x ∷ xs) ys (h, a) = let (b, c) = All-append P xs ys a in ((h, b), c)

-- The whole loop, when the turns end it.
pub decode_loop_lem :
    (e : ErrorCodes) (sys : System) (i : ℤ) (mem : ℕ) (turns : List Turn)
    (dc : Device Pointer Shared) (s : Shared)
    → IsPlaying e sys i mem dc
    → All IsStopped turns
    → WritesAll sys
    → IsWritable s.fdout
    → All (IsSmall sys.fuel) (frames_until e i turns)
    → ends e i turns ≡ true
    → (d : Decoder) × (decode_loop e turns (record { dc = dc; shared = s })
        ≡ some (record {
          dc = with_counters dc d;
          shared = after sys (reads_until e i turns) (frames_until e i turns) s;
        }))
      × IsPlaying e sys i mem (with_counters dc d)
      × HasGrown dc.counters d (packets_until e i turns) (frames_until e i turns)
unfolding decode_loop
decode_loop_lem e sys i mem [] dc s v stops all out small over = cc
decode_loop_lem e sys i mem (t ∷ later) dc s v (stop_t, stops) all out small over =
    elim (Bool-cases t.exit) [
      | inl exit ↦
          let (left, no_frames, no_reads, no_packets) = exit_lem e i t later (playing dc s) exit in
          (
            dc.counters,
            left
                ∙ ap (λ x. some (playing dc x))
                    (after_none sys s
                      ∙ ap (λ fs. after sys [] fs s) (sym no_frames)
                      ∙ ap (λ rs. after sys rs (frames_until e i (t ∷ later)) s) (sym no_reads)),
            v,
            rw (no_frames, no_packets) (HasGrown-nil e sys i mem dc v),
          )
      | inr on ↦
          let (over_is, frames_is, reads_is, packets_is) = expected_on e i t later on in
          elim (Bool-cases (turn_ends e i t)) [
            | inl last ↦
                let frames = frames_is ∙ rw last refl in
                let reads : reads_until e i (t ∷ later) ≡ t.reads = reads_is ∙ rw last refl in
                let packets : packets_until e i (t ∷ later) ≡ count_packet i t.read =
                  packets_is ∙ rw last refl in
                let (d, run, v', grown) =
                  turn_playing e sys i mem t dc s v stop_t all out
                    (subst (All (IsSmall sys.fuel)) frames small) in
                (
                  d,
                  loop_on e t later _ _ _ true on run last
                      ∙ ap (λ fs. some (playing (with_counters dc d) (after sys t.reads fs s)))
                          (sym frames)
                      ∙ ap
                          (λ rs. some (
                            playing (with_counters dc d)
                              (after sys rs (frames_until e i (t ∷ later)) s)))
                          (sym reads),
                  v',
                  rw (frames, packets) grown,
                )
            | inr more ↦
                let frames : frames_until e i (t ∷ later)
                    ≡ turn_frames e i t ++ frames_until e i later =
                  frames_is ∙ rw more refl in
                let reads : reads_until e i (t ∷ later) ≡ t.reads ++ reads_until e i later =
                  reads_is ∙ rw more refl in
                let packets : packets_until e i (t ∷ later)
                    ≡ count_packet i t.read + packets_until e i later =
                  packets_is ∙ rw more refl in
                let (here_small, later_small) =
                  All-append (IsSmall sys.fuel) (turn_frames e i t) (frames_until e i later)
                    (subst (All (IsSmall sys.fuel)) frames small) in
                let (d, run, v', grown) =
                  turn_playing e sys i mem t dc s v stop_t all out here_small in
                let (d', rest, v'', grown') =
                  decode_loop_lem e sys i mem later (with_counters dc d)
                    (after sys t.reads (turn_frames e i t) s) v' stops all out later_small
                    (ap (λ b. b || ends e i later) (sym more) ∙ sym over_is ∙ over) in
                (
                  d',
                  loop_on e t later _ _ _ false on run more
                      ∙ (rest
                          ∙ ap (λ x. some (playing (with_counters dc d') x))
                              (after-append sys t.reads (reads_until e i later) (turn_frames e i t)
                                  (frames_until e i later) s
                                ∙ ap (λ fs. after sys (t.reads ++ reads_until e i later) fs s)
                                    (sym frames)
                                ∙ ap (λ rs. after sys rs (frames_until e i (t ∷ later)) s)
                                    (sym reads))),
                  v'',
                  rw (frames, packets)
                      (HasGrown-trans dc.counters d d' (count_packet i t.read)
                        (packets_until e i later) (turn_frames e i t) (frames_until e i later) grown
                        grown'),
                )
          ]
    ]

||-false : (a b : Bool) → (a || b) ≡ false → (a ≡ false) × (b ≡ false)
||-false false b h = (refl, h)
||-false true b h = cc

ends_later :
    (e : ErrorCodes) (i : ℤ) (t : Turn) (later : List Turn)
    → ends e i (t ∷ later) ≡ false
    → (t.exit ≡ false) × (turn_ends e i t ≡ false) × (ends e i later ≡ false)
ends_later e i t later on =
    let (here, rest) = ||-false (t.exit || turn_ends e i t) (ends e i later) on in
    let (exit, more) = ||-false t.exit (turn_ends e i t) here in (exit, more, rest)

-- Turns that do not end the loop leave it running.
pub decode_loop_endless :
    (e : ErrorCodes) (sys : System) (i : ℤ) (mem : ℕ) (turns : List Turn)
    (dc : Device Pointer Shared) (s : Shared)
    → IsPlaying e sys i mem dc
    → All IsStopped turns
    → WritesAll sys
    → IsWritable s.fdout
    → All (IsSmall sys.fuel) (frames_until e i turns)
    → ends e i turns ≡ false
    → decode_loop e turns (playing dc s) ≡ none
unfolding decode_loop
decode_loop_endless e sys i mem [] dc s v stops all out small on = refl
decode_loop_endless e sys i mem (t ∷ later) dc s v (stop_t, stops) all out small on =
    let (exit, more, rest) = ends_later e i t later on in
    let frames = (expected_on e i t later exit).1 ∙ rw more refl in
    let (here_small, later_small) =
      All-append (IsSmall sys.fuel) (turn_frames e i t) (frames_until e i later)
        (subst (All (IsSmall sys.fuel)) frames small) in
    let (d, run, v', _) = turn_playing e sys i mem t dc s v stop_t all out here_small in
    loop_on e t later _ _ _ false exit run more
    ∙ decode_loop_endless e sys i mem later (with_counters dc d)
        (after sys t.reads (turn_frames e i t) s) v' stops all out later_small rest
