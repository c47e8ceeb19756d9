-- ===== src/Task/Routine/Turns.antt =====
-- One turn of the loop of `decode_routine` in src/Task.cpp.
use ff_test.Base.{
  subst, sym, append-nil, append_assoc, arith, u32_mod, ◌+◌, ◌%◌, ℕ, ◌≡◌, refl, ◌∙◌, ap, inl, inr,
  not, ◌&&◌, some, List, [], ◌∷◌, ◌++◌, All, Bool-cases, bind_of, length, drop,
}
use ff_test.Base.Int.{ℤ, is_negative, eqb}
use ff_test.Av.{ErrorCodes, Frame}
use ff_test.Task.Output.{IsSmall}
use ff_test.Decoder.State.{Decoder}
use ff_test.Decoder.Impl.{Codec}
use ff_test.Decoder.Callbacks.{play}
use ff_test.Decoder.Demux.{ReadAnswer, demux}
use ff_test.Decoder.Decode.{is_eof}
use ff_test.Decoder.Device.{Device, demux_device, decode_device}
use ff_test.Decoder.Session.{Run, demuxes, decodes, then_step, opened, delivered}
use ff_test.Decoder.Session.Stream.{is_fed, demux-fed, demux-delivered, Run-stream_idx}
use ff_test.Decoder.Session.Packets.{count_packet, demux_packets, decode_packets}
use ff_test.Decoder.Session.Counters.{Run-IsTyped, delivered-append}
use ff_test.Task.Routine.{
  Shared, Pointer, System, read_pkt_cb, recv_frame_cb, Turn, Playing, decode_turn, play_turn,
}
use ff_test.Task.Routine.Played.{
  WritesAll, IsWritable, with_frames, with_none_shared, play-with_frames, with_reads, after,
  read_for-with_reads,
}
use ff_test.Task.Routine.Expected.{
  result_of, decoded_frames, IsStopped, decode_turn_lem, turn_ends, turn_frames, demux-is_last,
  demux_unfed,
}

-- A decoder that is open, with the two callbacks set, after some calls of `demux` and `decode`.
pub record IsPlaying (e : ErrorCodes) (sys : System) (i : ℤ) (mem : ℕ) (dc : Device Pointer Shared)
    : Type 0 where
  pub fmt : ℕ
  pub pkt : ℕ
  pub codec : Codec
  pub fmt_is : dc.impl.fmt_ctx ≡ some fmt
  pub pkt_is : dc.impl.pkt ≡ some pkt
  pub codec_is : dc.impl.codec_ctx ≡ some codec
  pub reads_is : dc.callbacks.cb_read_pkt ≡ some (read_pkt_cb sys)
  pub reads_param : dc.callbacks.read_pkt_param ≡ some tt
  pub cb_is : dc.callbacks.cb_recv_frame ≡ some (recv_frame_cb sys)
  pub param_is : dc.callbacks.recv_frame_param ≡ some tt
  pub run : Run e (opened i mem) dc.counters

abbrev pub with_counters : Device Pointer Shared → Decoder → Device Pointer Shared
with_counters dc d = record dc { counters = d }

step-IsPlaying :
    (e : ErrorCodes) (sys : System) (i : ℤ) (mem : ℕ) (dc : Device Pointer Shared) (d : Decoder)
    → IsPlaying e sys i mem dc
    → Run e (opened i mem) d
    → IsPlaying e sys i mem (with_counters dc d)
step-IsPlaying e sys i mem dc d v run = record {
  fmt = v.fmt;
  pkt = v.pkt;
  codec = v.codec;
  fmt_is = v.fmt_is;
  pkt_is = v.pkt_is;
  codec_is = v.codec_is;
  reads_is = v.reads_is;
  reads_param = v.reads_param;
  cb_is = v.cb_is;
  param_is = v.param_is;
  run = run;
}

-- What has come to the counters and the log of the decoder: `n` packets of the stream and some
-- frames.
abbrev pub HasGrown : Decoder → Decoder → ℕ → List Frame → Type 0
HasGrown d d' n frames =
    (d'.decoded_frame_cnt ≡ (d.decoded_frame_cnt + n) % u32_mod)
    × (delivered d'.calls ≡ delivered d.calls ++ frames)

pub HasGrown-trans :
    (d d' d'' : Decoder) (n m : ℕ) (fs gs : List Frame)
    → HasGrown d d' n fs
    → HasGrown d' d'' m gs
    → HasGrown d d'' (n + m) (fs ++ gs)
HasGrown-trans d d' d'' n m fs gs (count, calls) (count', calls') = (
  omega (arith, count, count'),
  calls' ∙ ap (λ xs. xs ++ gs) calls ∙ append_assoc (delivered d.calls) fs gs,
)

-- Nothing has come to them.
pub HasGrown-nil :
    (e : ErrorCodes) (sys : System) (i : ℤ) (mem : ℕ) (dc : Device Pointer Shared)
    → IsPlaying e sys i mem dc
    → HasGrown dc.counters dc.counters 0 []
HasGrown-nil e sys i mem dc v =
    let small = (Run-IsTyped e i mem v.run).packets in
    (omega (arith, small), sym (append-nil (delivered dc.counters.calls)))

demux-IsPlaying :
    (e : ErrorCodes) (sys : System) (i : ℤ) (mem : ℕ) (a : ReadAnswer) (sizes : List ℕ)
    (dc : Device Pointer Shared) (s : Shared)
    → IsPlaying e sys i mem dc
    → let r = demux e a dc.counters in
      (demux_device e a sizes dc s ≡ some (r.0, with_counters dc r.1, with_reads sys sizes s))
      × IsPlaying e sys i mem (with_counters dc r.1)
      × HasGrown dc.counters r.1 (count_packet i a) []
unfolding demux_device
demux-IsPlaying e sys i mem a sizes dc s v =
    let d = dc.counters in
    let small = (Run-IsTyped e i mem v.run).packets in
    (
      bind_of dc.impl.fmt_ctx _ v.fmt _ v.fmt_is (
          bind_of dc.impl.pkt _ v.pkt _ v.pkt_is (
            bind_of _ _ _ _ (read_for-with_reads sys dc.callbacks sizes s v.reads_is v.reads_param)
              refl)),
      step-IsPlaying e sys i mem dc (demux e a d).1 v (then_step v.run (demuxes a)),
      (
        demux_packets e a d d.decoded_frame_cnt (omega (arith, small))
            ∙ ap (λ j. (d.decoded_frame_cnt + count_packet j a) % u32_mod)
                (Run-stream_idx e i mem v.run),
        demux-delivered e a d ∙ sym (append-nil (delivered d.calls)),
      ),
    )

drop-length-append : {A : Type 0} (xs ys : List A) → drop (length xs) (xs ++ ys) ≡ ys
drop-length-append [] ys = refl
drop-length-append (x ∷ xs) ys = drop-length-append xs ys

decode-IsPlaying :
    (e : ErrorCodes) (sys : System) (i : ℤ) (mem : ℕ) (t : Turn) (dc : Device Pointer Shared)
    (s : Shared)
    → IsPlaying e sys i mem dc
    → IsStopped t
    → WritesAll sys
    → IsWritable s.fdout
    → All (IsSmall sys.fuel) (decoded_frames t)
    → (d : Decoder) × (decode_turn e t (record { dc = dc; shared = s })
        ≡ some (
          result_of e (is_eof dc.counters.pkt) t,
          record { dc = with_counters dc d; shared = with_frames (decoded_frames t) s },
        ))
      × IsPlaying e sys i mem (with_counters dc d)
      × HasGrown dc.counters d 0 (decoded_frames t)
unfolding decode_turn decode_device
decode-IsPlaying e sys i mem t dc s v stops all out small =
    let (d, cs, run, calls, frames) =
      decode_turn_lem e t dc.counters stops (Run-IsTyped e i mem v.run).frames in
    let new : drop (length dc.counters.calls) d.calls ≡ cs =
      rw calls (drop-length-append dc.counters.calls cs) in
    let played : play dc.callbacks (drop (length dc.counters.calls) d.calls) s
        ≡ some (with_frames (decoded_frames t) s) =
      ap (λ x. play dc.callbacks x s) new
      ∙ play-with_frames sys dc.callbacks cs s v.cb_is v.param_is all out (rw frames small)
      ∙ ap (λ fs. some (with_frames fs s)) frames in
    let decoded : decode_device e t.sent t.has_frame t.answers t.end_time dc s
        ≡ some (
          result_of e (is_eof dc.counters.pkt) t,
          with_counters dc d,
          with_frames (decoded_frames t) s,
        ) =
      bind_of dc.impl.codec_ctx _ v.codec _ v.codec_is (
        bind_of dc.impl.pkt _ v.pkt _ v.pkt_is
          (bind_of _ _ _ _ run (bind_of _ _ _ _ played refl))) in
    (
      d,
      bind_of _ _ _ _ decoded refl,
      step-IsPlaying e sys i mem dc d v
          (then_step v.run (decodes t.sent t.has_frame t.answers t.end_time run)),
      (
        decode_packets e t.sent t.has_frame t.answers t.end_time dc.counters.decoded_frame_cnt
              dc.counters _ run refl
            ∙ (HasGrown-nil e sys i mem dc v).0,
        ap delivered calls
            ∙ delivered-append dc.counters.calls cs
            ∙ ap (◌++◌ (delivered dc.counters.calls)) frames,
      ),
    )

abbrev pub playing : Device Pointer Shared → Shared → Playing
playing dc s = record { dc = dc; shared = s }

-- One turn, once it has passed the test of `m_bExit`.
pub turn_playing :
    (e : ErrorCodes) (sys : System) (i : ℤ) (mem : ℕ) (t : Turn) (dc : Device Pointer Shared)
    (s : Shared)
    → IsPlaying e sys i mem dc
    → IsStopped t
    → WritesAll sys
    → IsWritable s.fdout
    → All (IsSmall sys.fuel) (turn_frames e i t)
    → (d : Decoder) × (play_turn e t (playing dc s)
        ≡ some (
          not (turn_ends e i t),
          playing (with_counters dc d) (after sys t.reads (turn_frames e i t) s),
        ))
      × IsPlaying e sys i mem (with_counters dc d)
      × HasGrown dc.counters d (count_packet i t.read) (turn_frames e i t)
unfolding play_turn
turn_playing e sys i mem t dc s v stop_t all out small =
    let r = demux e t.read dc.counters in
    let (demuxed, v1, grown1) = demux-IsPlaying e sys i mem t.read t.reads dc s v in
    let idx = Run-stream_idx e i mem v.run in
    let test = demux-fed e t.read dc.counters ∙ ap (λ j. is_fed e j t.read) idx in
    elim (Bool-cases (is_fed e i t.read)) [
      | inl fed ↦
          let (d, decoded, v2, grown2) =
            decode-IsPlaying e sys i mem t (with_counters dc r.1) (with_reads sys t.reads s) v1
              stop_t all out (rw fed at small) in
          let last = demux-is_last e t.read dc.counters (ap (λ j. is_fed e j t.read) idx ∙ fed) in
          let none_more : count_packet i t.read + 0 ≡ count_packet i t.read = omega arith in
          let grown =
            HasGrown-trans dc.counters r.1 d (count_packet i t.read) 0 [] (decoded_frames t) grown1
              grown2 in
          (
            d,
            rw (demuxed, test ∙ fed, decoded, last, fed) refl,
            v2,
            rw (turn_frames, fed)
                (subst (λ n. HasGrown dc.counters d n (decoded_frames t)) none_more grown),
          )
      | inr unfed ↦
          let again = demux_unfed e t.read dc.counters (ap (λ j. is_fed e j t.read) idx ∙ unfed) in
          (
            r.1,
            rw (demuxed, test ∙ unfed, again, unfed)
                (ap
                  (λ x. some (
                    not (is_negative t.read.ret && not (eqb t.read.ret e.eagain)),
                    playing (with_counters dc r.1) x,
                  ))
                  (with_none_shared (with_reads sys t.reads s))),
            v1,
            rw (turn_frames, unfed) grown1,
          )
    ]
