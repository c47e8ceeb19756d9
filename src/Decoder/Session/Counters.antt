-- ===== src/Decoder/Session/Counters.antt =====
-- The counters of src/Decoder.hpp over a session: they stay within their C types, and `decode_cnt`
-- is the number of the frames that were delivered.
use ff_test.Base.{
  ℕ, zero, suc, ◌%◌, ◌<◌, ◌≡◌, refl, ◌∙◌, ap, List, [], ◌∷◌, ◌++◌, All, arith, length,
  length-append, u32_mod, append-nil, append_assoc, inl, inr, Bool-cases,
}
use ff_test.Base.Int.{ℤ, is_negative, eqb}
use ff_test.Utils.{util_diff_time_us}
use ff_test.Av.{ErrorCodes, Frame}
use ff_test.Decoder.State.{Decoder, Call, unrefs_packet, unrefs_frame, delivers, log, bump}
use ff_test.Decoder.Demux.{ReadAnswer, demux}
use ff_test.Decoder.Decode.{deliver}
use ff_test.Decoder.Decode.Results.{allocs, frees, allocs-append, frees-append, decode-Even}
use ff_test.Decoder.Session.{Step, demuxes, decodes, Run, here, then_step, delivered, opened}
use ff_test.Decoder.Session.Keeps.{IsSilent, decode-keeps}

-- Each counter fits its uint32_t, and there are ten of times.
pub record IsTyped (d : Decoder) : Type 0 where
  pub packets : d.decoded_frame_cnt < u32_mod
  pub frames : d.decode_cnt < u32_mod
  pub demuxing : d.mem_demux < u32_mod
  pub receiving : d.mem_frm < u32_mod
  pub times : All (λ t. t < u32_mod) d.time_usage
  pub slots : length d.time_usage ≡ 10

bump-times :
    (i t : ℕ) (xs : List ℕ) → All (λ x. x < u32_mod) xs → All (λ x. x < u32_mod) (bump i t xs)
bump-times i t [] a = tt
bump-times zero t (x ∷ xs) (h, a) = (omega arith, a)
bump-times (suc i) t (x ∷ xs) (h, a) = (h, bump-times i t xs a)

length-bump : (i t : ℕ) (xs : List ℕ) → length (bump i t xs) ≡ length xs
length-bump i t [] = refl
length-bump zero t (x ∷ xs) = refl
length-bump (suc i) t (x ∷ xs) = ap suc (length-bump i t xs)

bumped-IsTyped :
    (i t : ℕ) (d : Decoder) → IsTyped d → IsTyped (record d { time_usage = bump i t d.time_usage })
bumped-IsTyped i t d v = record {
  packets = v.packets;
  frames = v.frames;
  demuxing = v.demuxing;
  receiving = v.receiving;
  times = bump-times i t d.time_usage v.times;
  slots = length-bump i t d.time_usage ∙ v.slots;
}

pub demux_times :
    (e : ErrorCodes) (a : ReadAnswer) (d : Decoder)
    → (demux e a d).1.time_usage ≡ bump 0 (util_diff_time_us a.started a.finished) d.time_usage
unfolding demux util_diff_time_us
demux_times e a d = ground arith

demux-IsTyped :
    (e : ErrorCodes) (a : ReadAnswer) (d : Decoder) → IsTyped d → IsTyped (demux e a d).1
unfolding demux
demux-IsTyped e a d v =
    let same = demux_times e a d in
    let t = util_diff_time_us a.started a.finished in
    record {
      packets = ground arith;
      frames = ground arith;
      demuxing = ground arith;
      receiving = ground arith;
      times = rw same (bump-times 0 t d.time_usage v.times);
      slots = rw same (length-bump 0 t d.time_usage ∙ v.slots);
    }

Step-IsTyped : (e : ErrorCodes) {d d' : Decoder} → Step e d d' → IsTyped d → IsTyped d'
Step-IsTyped e {d} (demuxes a) v = demux-IsTyped e a d v
Step-IsTyped e {d} (decodes sent has_frame answers t2 {r} run) v =
    decode-keeps IsTyped
      (λ cs d silent v. record {
        packets = v.packets;
        frames = v.frames;
        demuxing = v.demuxing;
        receiving = v.receiving;
        times = v.times;
        slots = v.slots;
      })
      (λ a d v. record {
        packets = v.packets;
        frames = v.frames;
        demuxing = v.demuxing;
        receiving = omega arith;
        times = v.times;
        slots = v.slots;
      })
      (λ f d v. record {
        packets = v.packets;
        frames = omega arith;
        demuxing = v.demuxing;
        receiving = v.receiving;
        times = v.times;
        slots = v.slots;
      })
      (λ p d v. record {
        packets = v.packets;
        frames = v.frames;
        demuxing = v.demuxing;
        receiving = v.receiving;
        times = v.times;
        slots = v.slots;
      })
      bumped-IsTyped e sent has_frame answers t2 d r run v

-- From `init` and `open` on, whatever calls of `demux` and `decode` are made and whatever FFmpeg
-- answers, each counter of the decoder fits its uint32_t, and there are ten times.
pub Run-IsTyped :
    (e : ErrorCodes) (stream_idx : ℤ) (mem : ℕ) {d : Decoder}
    → Run e (opened stream_idx mem) d
    → IsTyped d
Run-IsTyped e stream_idx mem here =
    let h : 0 < u32_mod = omega arith in
    record {
      packets = omega arith;
      frames = omega arith;
      demuxing = omega arith;
      receiving = omega arith;
      times = (h, (h, (h, (h, (h, (h, (h, (h, (h, (h, tt))))))))));
      slots = refl;
    }
Run-IsTyped e stream_idx mem (then_step r s) = Step-IsTyped e s (Run-IsTyped e stream_idx mem r)

pub delivered-append : (cs ds : List Call) → delivered (cs ++ ds) ≡ delivered cs ++ delivered ds
delivered-append [] ds = refl
delivered-append (delivers f ∷ cs) ds = ap (◌∷◌ f) (delivered-append cs ds)
delivered-append (_ ∷ cs) ds = delivered-append cs ds

pub silent-delivered : (cs : List Call) → All IsSilent cs → delivered cs ≡ []
silent-delivered [] s = refl
silent-delivered (delivers f ∷ cs) (h, s) = absurd h
silent-delivered (_ ∷ cs) (h, s) = silent-delivered cs s

-- `decode_cnt` is the number of the frames delivered, in 32 bits.
abbrev Counts : Decoder → Type 0
Counts d = d.decode_cnt ≡ length (delivered d.calls) % u32_mod

log-Counts : (cs : List Call) (d : Decoder) → All IsSilent cs → Counts d → Counts (log cs d)
log-Counts cs d silent c =
    rw (delivered-append d.calls cs, silent-delivered cs silent, append-nil (delivered d.calls)) c

deliver-Counts : (f : Frame) (d : Decoder) → Counts d → Counts (deliver f d)
deliver-Counts f d c =
    rw (delivered-append d.calls (delivers f ∷ unrefs_frame ∷ []))
      (omega (arith, c, length-append (delivered d.calls) (f ∷ [])))

-- `demux` only drops packets.
pub demux-calls :
    (e : ErrorCodes) (a : ReadAnswer) (d : Decoder)
    → (cs : List Call) × All IsSilent cs
      × ((demux e a d).1.calls ≡ d.calls ++ cs)
      × ((demux e a d).1.decode_cnt ≡ d.decode_cnt)
      × (allocs cs ≡ frees cs)
unfolding demux
demux-calls e a d =
    let one : List Call = unrefs_packet ∷ [] in
    let two : List Call = unrefs_packet ∷ unrefs_packet ∷ [] in
    elim (Bool-cases (is_negative a.ret)) [
      | inl bad ↦ (one, (tt, tt), ground arith, ground arith, refl)
      | inr good ↦ elim (Bool-cases (eqb a.packet.stream_index d.stream_idx)) [
        | inl video ↦ (one, (tt, tt), ground arith, ground arith, refl)
        | inr other ↦ (
          two,
          (tt, (tt, tt)),
          rw (good, other, append_assoc d.calls one one),
          ground arith,
          refl,
        )
      ]
    ]

Step-Counts :
    (e : ErrorCodes) {d d' : Decoder}
    → Step e d d'
    → d.decode_cnt < u32_mod
    → Counts d × (allocs d.calls ≡ frees d.calls)
    → Counts d' × (allocs d'.calls ≡ frees d'.calls)
Step-Counts e {d} (demuxes a) w (c, even) =
    let (cs, silent, calls, count, paired) = demux-calls e a d in
    (
      rw (calls, count) (log-Counts cs d silent c),
      rw calls (omega (arith, even, paired, allocs-append d.calls cs, frees-append d.calls cs)),
    )
Step-Counts e {d} (decodes sent has_frame answers t2 {r} run) w (c, even) = (
  decode-keeps Counts log-Counts (λ a d c. c) deliver-Counts (λ p d c. c) (λ i t d c. c) e sent
      has_frame answers t2 d r run c,
  omega (arith, even, decode-Even e sent has_frame answers t2 d r.1 r.0 w run),
)

-- From `init` and `open` on, whatever calls of `demux` and `decode` are made and whatever FFmpeg
-- answers: `decode_cnt` is the number of the frames that the callback was given, in 32 bits, and
-- as many frames are freed as were allocated.
pub Run-counts :
    (e : ErrorCodes) (stream_idx : ℤ) (mem : ℕ) {d : Decoder}
    → Run e (opened stream_idx mem) d
    → (d.decode_cnt ≡ length (delivered d.calls) % u32_mod) × (allocs d.calls ≡ frees d.calls)
Run-counts e stream_idx mem here = (omega arith, refl)
Run-counts e stream_idx mem (then_step r s) =
    Step-Counts e s (Run-IsTyped e stream_idx mem r).frames (Run-counts e stream_idx mem r)
