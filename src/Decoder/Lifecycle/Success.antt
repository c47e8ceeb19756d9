-- ===== src/Decoder/Lifecycle/Success.antt =====
-- What a decoder of src/Decoder.cpp holds when `init` or `open` has succeeded.
use ff_test.Base.{
  ℕ, ◌%◌, ◌≡◌, refl, ◌∙◌, ap, inl, inr, Option, none, some, Bool-cases, Option-cases, some_snd,
  u16_mod, subst, false,
}
use ff_test.Base.Int.{ℤ, pos, is_negative}
use ff_test.Av.{ErrorCodes}
use ff_test.Base.Handles.{free}
use ff_test.Decoder.Impl.{Codec, Impl}
use ff_test.Decoder.Lifecycle.Streams.{IsFirstVideo, open_codec_ctx_stream}
use ff_test.Decoder.Lifecycle.{
  init, Settings, OpenAnswers, stream_open, open_codec_ctx, open_codec, first_video,
}

-- A successful `init` leaves a format context and a packet.
pub init_success :
    (fmt buffer io pkt : Option ℕ) (d : Impl)
    → let out = init (record { fmt = fmt; buffer = buffer; io = io; pkt = pkt }) d in
      out.0 ≡ pos 0 → (f : ℕ) × (p : ℕ) × (out.1.fmt_ctx ≡ some f) × (out.1.pkt ≡ some p)
unfolding init
init_success none buffer io pkt d good = cc
init_success (some f) none io pkt d good = cc
init_success (some f) (some b) none pkt d good = cc
init_success (some f) (some b) (some i) none d good = cc
init_success (some f) (some b) (some i) (some p) d good = (f, p, refl, refl)

-- What `open_codec_ctx` leaves when it succeeds: a codec context, and the input and packet there
-- were.
abbrev HasCodec : Impl → ℤ × Impl → Type 0
HasCodec d out =
    (out.0 ≡ pos 0)
    × (c : Codec) × (out.1.codec_ctx ≡ some c)
    × (out.1.fmt_ctx ≡ d.fmt_ctx)
    × (out.1.pkt ≡ d.pkt)

open_codec-HasCodec :
    (e : ErrorCodes) (cfg : Settings) (a : OpenAnswers) (index : ℕ) (h : Option ℕ) (d : Impl)
    → is_negative (open_codec e cfg a index h d).0 ≡ false
    → HasCodec d (open_codec e cfg a index h d)
unfolding open_codec
open_codec-HasCodec e cfg a index none d good = cc (good, e.enomem_negative)
open_codec-HasCodec e cfg a index (some h) d good = elim (Bool-cases (is_negative a.parameters)) [
  | inl bad ↦ cc
  | inr fine ↦ elim (Bool-cases (is_negative a.opened)) [
    | inl bad ↦ cc (rw (fine, bad) at good)
    | inr opened ↦ rw (fine, opened) (refl, _, refl, refl, refl)
  ]
]

open_codec_ctx-HasCodec :
    (e : ErrorCodes) (cfg : Settings) (a : OpenAnswers) (d : Impl)
    → is_negative (open_codec_ctx e cfg a d).0 ≡ false
    → HasCodec d (open_codec_ctx e cfg a d)
unfolding open_codec_ctx
open_codec_ctx-HasCodec e cfg a d good = elim (Bool-cases (is_negative a.best)) [
  | inl bad ↦ cc
  | inr found ↦ elim (Option-cases (first_video 0 a.streams)) [
    | inl missing ↦ cc (rw (found, missing) at good)
    | inr (i, first) ↦ elim (Bool-cases a.has_decoder) [
      | inr lacking ↦ cc (rw (found, first, lacking) at good, e.einval_negative)
      | inl known ↦
          rw (found, first, known)
            (open_codec-HasCodec e cfg a i a.codec d (rw (found, first, known) at good))
    ]
  ]
]

-- What `open` leaves when it succeeds, with the input `f` and the packet `p` from `init`: these, a
-- codec context for the first video stream, and the size of the video, cut to 16 bits.
abbrev pub IsOpened : OpenAnswers → ℕ → Option ℕ → Impl → Type 0
IsOpened a f p d =
    (c : Codec) × (i : ℕ) × (d.codec_ctx ≡ some c)
    × (d.fmt_ctx ≡ some f)
    × (d.pkt ≡ p)
    × (d.stream_idx ≡ pos i)
    × IsFirstVideo i a.streams
    × (d.width ≡ a.width % u16_mod)
    × (d.height ≡ a.height % u16_mod)

stream_open-IsOpened :
    (e : ErrorCodes) (cfg : Settings) (a : OpenAnswers) (f : ℕ) (d d' : Impl)
    → stream_open e cfg a (record d { fmt_ctx = some f }) ≡ some (pos 0, d')
    → IsOpened a f d.pkt d'
unfolding stream_open
stream_open-IsOpened e cfg a f d d' run = elim (Bool-cases (is_negative a.input)) [
  | inl bad ↦ elim (Option-cases (free f d.live)) [
    | inl lost ↦ cc (rw (bad, lost) at run)
    | inr (live, freed) ↦ cc (rw (bad, freed) at run)
  ]
  | inr input ↦ elim (Bool-cases (is_negative a.info)) [
    | inl bad ↦ cc (rw (input, bad) at run)
    | inr info ↦
        let d0 : Impl = record d { fmt_ctx = some f; pb = none } in
        elim (Bool-cases (is_negative (open_codec_ctx e cfg a d0).0)) [
          | inl bad ↦ cc (rw (input, info, bad) at run)
          | inr good ↦
              let (zero_ret, c, codec, fmt, pkt) = open_codec_ctx-HasCodec e cfg a d0 good in
              let (i, idx, first) = open_codec_ctx_stream e cfg a d0 zero_ret in
              subst (IsOpened a f d.pkt) (some_snd (rw (input, info, good) at run))
                (c, i, codec, fmt, pkt, idx, first, refl, refl)
        ]
  ]
]

pub stream_open_success :
    (e : ErrorCodes) (cfg : Settings) (a : OpenAnswers) (f : ℕ) (d d' : Impl)
    → d.fmt_ctx ≡ some f
    → stream_open e cfg a d ≡ some (pos 0, d')
    → IsOpened a f d.pkt d'
stream_open_success e cfg a f d d' held run =
    let same : record d { fmt_ctx = some f } ≡ d = rw (← held) refl in
    stream_open-IsOpened e cfg a f d d' (ap (stream_open e cfg a) same ∙ run)
