-- ===== src/Decoder/Session/Memory/Measured.antt =====
-- What the counters of memory of src/Decoder.hpp have measured after a session.
use ff_test.Base.{
  ℕ, ◌+◌, ◌%◌, ◌≡◌, refl, ◌∙◌, inl, inr, Bool, true, false, some, List, [], ◌∷◌, Bool-cases,
  Option-cases, some_snd, subst, arith, u32_mod, ◌⊎◌,
}
use ff_test.Base.Int.{ℤ, is_negative, eqb, zero-ne-negative}
use ff_test.Utils.{Timeval}
use ff_test.Av.{ErrorCodes}
use ff_test.Decoder.State.{Decoder, grow, log, sends, allocs_frame}
use ff_test.Decoder.Decode.Frames.{sent_packet}
use ff_test.Decoder.Demux.{ReadAnswer, demux}
use ff_test.Decoder.Decode.{
  Received, Exit, idle, drained, failed, measure, deliver, receive_loop, finish, decode, is_eof,
}
use ff_test.Mem.{Memory}
use ff_test.Mem.Tracked.{used, IsTracked, Reach-IsTracked, initial-IsTracked, used-total}
use ff_test.Mem.Blocks.{Granted, total}
use ff_test.Decoder.Session.Memory.{
  Sums, Receives, stops, goes_on, Session, opens, allocates, demuxes, refuses, decodes,
}

-- The count is that of the allocator, and the two counters have grown by what the measured calls
-- have added.
pub record IsMeasured (m : Memory) (s : Sums) (d : Decoder) : Type 0 where
  pub count : d.mem_used ≡ used m
  pub reads : (d.mem_demux + s.before_reads) % u32_mod ≡ s.after_reads % u32_mod
  pub receives : (d.mem_frm + s.before_receives) % u32_mod ≡ s.after_receives % u32_mod

-- The heaps of a session stay tracked.
Receives-IsTracked :
    {g g' : Granted} {m m' : Memory} {answers : List Received} {before after : ℕ}
    → Receives g m answers before after g' m'
    → IsTracked g m
    → IsTracked g' m'
Receives-IsTracked (stops a r1 r2 b c ret) v = Reach-IsTracked r2 (Reach-IsTracked r1 v)
Receives-IsTracked (goes_on a r1 r2 b c ret later) v =
    Receives-IsTracked later (Reach-IsTracked r2 (Reach-IsTracked r1 v))

Session-IsTracked :
    (e : ErrorCodes) {g : Granted} {m : Memory} {d : Decoder} {s : Sums}
    → Session e g m d s
    → IsTracked g m
Session-IsTracked e (opens stream_idx r) = Reach-IsTracked r initial-IsTracked
Session-IsTracked e (allocates s r) = Reach-IsTracked r (Session-IsTracked e s)
Session-IsTracked e (demuxes a s r1 r2 b c) =
    Reach-IsTracked r2 (Reach-IsTracked r1 (Session-IsTracked e s))
Session-IsTracked e (refuses sent has_frame t2 s why run) = Session-IsTracked e s
Session-IsTracked e (decodes sent t2 s r later taken run) =
    Receives-IsTracked later (Reach-IsTracked r (Session-IsTracked e s))

-- A measured call adds the difference of the live sizes.
grow_lem :
    (counter before after : ℕ) (g1 g2 : Granted) (m1 m2 : Memory)
    → IsTracked g1 m1
    → IsTracked g2 m2
    → before ≡ used m1
    → after ≡ used m2
    → (grow counter before after + total g1) % u32_mod ≡ (counter + total g2) % u32_mod
grow_lem counter before after g1 g2 m1 m2 v1 v2 b c =
    omega (arith, b, c, used-total m1 v1, used-total m2 v2)

-- What `demux` does to the fields that are about memory.
demux_marks :
    (e : ErrorCodes) (a : ReadAnswer) (d : Decoder)
    → ((demux e a d).1.mem_used ≡ a.mem_after)
      × ((demux e a d).1.mem_demux ≡ grow d.mem_demux a.mem_before a.mem_after)
      × ((demux e a d).1.mem_frm ≡ d.mem_frm)
unfolding demux
demux_marks e a d = (ground arith, ground arith, ground arith)

-- The fields that are about memory are the same.
abbrev SameMarks : Decoder → Decoder → Type 0
SameMarks d d' =
    (d.mem_used ≡ d'.mem_used) × (d.mem_demux ≡ d'.mem_demux) × (d.mem_frm ≡ d'.mem_frm)

finish_marks :
    (eof : Bool) (t2 : Timeval) (x : Exit) (d : Decoder) → SameMarks (finish eof t2 x d).1 d
unfolding finish
finish_marks eof t2 (idle t1) d = (refl, refl, refl)
finish_marks eof t2 drained d = (refl, refl, refl)
finish_marks eof t2 failed d = (refl, refl, refl)

-- What calls have added to `mem_frm`.
abbrev Marked : Decoder → Memory → ℕ → ℕ → Decoder → Type 0
Marked d m before after d' =
    (d'.mem_used ≡ used m)
    × (d'.mem_demux ≡ d.mem_demux)
    × ((d'.mem_frm + before) % u32_mod ≡ (d.mem_frm + after) % u32_mod)

-- What the loop of `decode` has added to `mem_frm`.
receive_loop_marks :
    (e : ErrorCodes) {g g' : Granted} {m m' : Memory} {answers : List Received} {before after : ℕ}
    (d : Decoder) (r : Exit × Decoder)
    → IsTracked g m
    → Receives g m answers before after g' m'
    → receive_loop e answers d ≡ some r
    → Marked d m' before after r.1
unfolding receive_loop
receive_loop_marks e d r v (stops {g} {g1} {g2} {m} {m1} {m2} a r1 r2 b c other) run =
    let v1 = Reach-IsTracked r1 v in
    let added =
      grow_lem d.mem_frm a.mem_before a.mem_after g1 g2 m1 m2 v1 (Reach-IsTracked r2 v1) b c in
    elim (Bool-cases (eqb a.ret e.eagain)) [
      | inl empty ↦
          subst (Marked d m2 (total g1) (total g2)) (some_snd (rw (other, empty) at run))
            (c, refl, added)
      | inr over ↦
          subst (Marked d m2 (total g1) (total g2)) (some_snd (rw (other, over) at run))
            (c, refl, added)
    ]
receive_loop_marks e d r v
      (goes_on {g} {g1} {g2} {g'} {m} {m1} {m2} {m'} {later} {before} {after} a r1 r2 b c good rest)
      run =
    let v1 = Reach-IsTracked r1 v in
    let v2 = Reach-IsTracked r2 v1 in
    let added = grow_lem d.mem_frm a.mem_before a.mem_after g1 g2 m1 m2 v1 v2 b c in
    let (count, reads, receives) =
      receive_loop_marks e (deliver a.frame (measure a d)) r v2 rest
        (rw (good, zero-ne-negative a.ret e.eagain good e.eagain_negative) at run) in
    (count, reads, omega (arith, added, receives))

decode_marks :
    (e : ErrorCodes) (sent : ℤ) {g g' : Granted} {m m' : Memory} {answers : List Received}
    {before after : ℕ} (t2 : Timeval) (d : Decoder) (r : ℤ × Decoder)
    → IsTracked g m
    → Receives g m answers before after g' m'
    → is_negative sent ≡ false
    → decode e sent true answers t2 d ≡ some r
    → Marked d m' before after r.1
unfolding decode
decode_marks e sent {m = m} {m' = m'} {answers} {before} {after} t2 d r v received taken run =
    let start : Decoder = log (allocs_frame ∷ []) (log (sends (sent_packet d.pkt) ∷ []) d) in
    elim (Option-cases (receive_loop e answers start)) [
      | inl endless ↦ cc (rw (taken, endless) at run)
      | inr (out, ended) ↦
          let (count, reads, receives) = receive_loop_marks e start out v received ended in
          let (u, dm, fr) = finish_marks (is_eof d.pkt) t2 out.0 out.1 in
          subst (Marked d m' before after) (some_snd (rw (taken, ended) at run))
            (u ∙ count, dm ∙ reads, rw fr receives)
    ]

-- Without a frame the codec is not asked.
refused_marks :
    (e : ErrorCodes) (sent : ℤ) (has_frame : Bool) (t2 : Timeval) (d : Decoder) (r : ℤ × Decoder)
    → (is_negative sent ≡ true) ⊎ (has_frame ≡ false)
    → decode e sent has_frame [] t2 d ≡ some r
    → SameMarks r.1 d
unfolding decode
refused_marks e sent has_frame t2 d r why run = elim (Bool-cases (is_negative sent)) [
  | inl bad ↦ elim (Bool-cases (eqb sent e.eof)) [
    | inl at_eof ↦
        subst (λ x. SameMarks x d) (some_snd (rw (bad, at_eof) at run)) (refl, refl, refl)
    | inr other ↦ elim (Bool-cases (eqb sent e.eagain)) [
      | inl again ↦
          subst (λ x. SameMarks x d) (some_snd (rw (bad, other, again) at run)) (refl, refl, refl)
      | inr broken ↦
          subst (λ x. SameMarks x d) (some_snd (rw (bad, other, broken) at run)) (refl, refl, refl)
    ]
  ]
  | inr good ↦ elim why [
    | inl bad ↦ cc
    | inr no_frame ↦
        subst (λ x. SameMarks x d) (some_snd (rw (good, no_frame) at run)) (refl, refl, refl)
  ]
]

Session-IsMeasured :
    (e : ErrorCodes) {g : Granted} {m : Memory} {d : Decoder} {s : Sums}
    → Session e g m d s
    → IsMeasured m s d
Session-IsMeasured e (opens stream_idx r) = record {
  count = refl;
  reads = omega arith;
  receives = omega arith;
}
Session-IsMeasured e (allocates s r) =
    let v = Session-IsMeasured e s in
    record { count = refl; reads = v.reads; receives = v.receives }
Session-IsMeasured e (demuxes {g} {g1} {g2} {m} {m1} {m2} {d} {s} a before r1 r2 b c) =
    let v = Session-IsMeasured e before in
    let v1 = Reach-IsTracked r1 (Session-IsTracked e before) in
    let added =
      grow_lem d.mem_demux a.mem_before a.mem_after g1 g2 m1 m2 v1 (Reach-IsTracked r2 v1) b c in
    let (u, dm, fr) = demux_marks e a d in
    record {
      count = u ∙ c;
      reads = rw dm (omega (arith, added, v.reads));
      receives = rw fr v.receives;
    }
Session-IsMeasured e (refuses {m = m} {d = d} {s = s} {r = r} sent has_frame t2 before why run) =
    let v = Session-IsMeasured e before in
    let (u, dm, fr) = refused_marks e sent has_frame t2 d r why run in
    record { count = u ∙ v.count; reads = rw dm v.reads; receives = rw fr v.receives }
Session-IsMeasured e
      (decodes {m = m} {m1 = m1} {m' = m'} {d = d} {s = s} {answers = answers} {before = before}
        {after = after} {r = r} sent t2 first r1 received taken run) =
    let v = Session-IsMeasured e first in
    let (u, dm, fr) =
      decode_marks e sent t2 d r (Reach-IsTracked r1 (Session-IsTracked e first)) received taken
        run in
    record { count = u; reads = rw dm v.reads; receives = omega (arith, fr, v.receives) }

-- Over a session of a decoder from an empty heap, under policy 4, with FFmpeg's calls of the
-- allocator (none of them a resize that is refused) in and between the calls of `demux` and
-- `decode`, where a `decode` that is not refused is answered 0 for each ready frame and then
-- something else: `m_mem_used` is the sum of the sizes that were asked for, of the live blocks, and
-- `mem_demux` and `mem_frm` are what that sum has grown by in all calls of `av_read_frame` and of
-- `avcodec_receive_frame`, each in 32 bits.
pub Session-counts :
    (e : ErrorCodes) (g : Granted) (m : Memory) (d : Decoder) (s : Sums)
    → Session e g m d s
    → (d.mem_used ≡ total g % u32_mod)
      × ((d.mem_demux + s.before_reads) % u32_mod ≡ s.after_reads % u32_mod)
      × ((d.mem_frm + s.before_receives) % u32_mod ≡ s.after_receives % u32_mod)
Session-counts e g m d s run =
    let v = Session-IsMeasured e run in
    (v.count ∙ used-total m (Session-IsTracked e run), v.reads, v.receives)
