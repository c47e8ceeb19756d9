-- ===== src/Decoder/Lifecycle/Streams.antt =====
-- Which stream `open_codec_ctx` of src/Decoder.cpp chooses.
use ff_test.Base.{
  ℕ, zero, suc, ◌+◌, ◌≡◌, ◌≢◌, refl, inl, inr, false, Option, none, some, List, [], ◌∷◌, arith,
  Option-cases, Bool-cases, ap, ◌∙◌,
}
use ff_test.Base.Int.{ℤ, pos, is_negative}
use ff_test.Av.{ErrorCodes}
use ff_test.Decoder.Impl.{Impl}
use ff_test.Decoder.Lifecycle.{
  Settings, OpenAnswers, Stream, no_codecpar, video, other, open_codec_ctx, open_codec, first_video,
}

-- Stream `i` is a video stream, and none before it is.
abbrev pub IsFirstVideo : ℕ → List Stream → Type 0
IsFirstVideo i [] = ⊥
IsFirstVideo zero (s ∷ ss) = s ≡ video
IsFirstVideo (suc i) (s ∷ ss) = (s ≢ video) × IsFirstVideo i ss

first_video-IsFirstVideo :
    (n : ℕ) (ss : List Stream) (i : ℕ)
    → first_video n ss ≡ some i
    → (k : ℕ) × (i ≡ n + k) × IsFirstVideo k ss
unfolding first_video
first_video-IsFirstVideo n [] i e = cc
first_video-IsFirstVideo n (video ∷ ss) i e = (0, ground arith, refl)
first_video-IsFirstVideo n (no_codecpar ∷ ss) i e =
    let (k, q, first) = first_video-IsFirstVideo (n + 1) ss i e in
    (suc k, omega arith, ((λ h. cc), first))
first_video-IsFirstVideo n (other ∷ ss) i e =
    let (k, q, first) = first_video-IsFirstVideo (n + 1) ss i e in
    (suc k, omega arith, ((λ h. cc), first))

open_codec_zero :
    (e : ErrorCodes) (cfg : Settings) (a : OpenAnswers) (i : ℕ) (c : Option ℕ) (d : Impl)
    → (open_codec e cfg a i c d).0 ≡ pos 0
    → ((open_codec e cfg a i c d).1.stream_idx ≡ pos i) × (h : ℕ) × (c ≡ some h)
unfolding open_codec
open_codec_zero e cfg a i none d z = absurd (ground (arith, e.enomem_negative))
open_codec_zero e cfg a i (some h) d z = (ground arith, h, refl)

-- When `open_codec_ctx` succeeds the chosen stream is the first video stream of the input,
-- whichever stream `av_find_best_stream` has named.
pub open_codec_ctx_stream :
    (e : ErrorCodes) (cfg : Settings) (a : OpenAnswers) (d : Impl)
    → (open_codec_ctx e cfg a d).0 ≡ pos 0
    → (i : ℕ) × ((open_codec_ctx e cfg a d).1.stream_idx ≡ pos i) × IsFirstVideo i a.streams
unfolding open_codec_ctx
open_codec_ctx_stream e cfg a d z = elim (Bool-cases (is_negative a.best)) [
  | inl bad ↦ absurd (ground arith)
  | inr found ↦ elim (Option-cases (first_video 0 a.streams)) [
    | inl missing ↦ absurd (ground arith)
    | inr (i, first) ↦ elim (Bool-cases a.has_decoder) [
      | inr empty ↦ absurd (ground (arith, e.einval_negative))
      | inl full ↦
          let (k, at_k, is_first) = first_video-IsFirstVideo 0 a.streams i first in
          let e_k : i ≡ k = omega arith in
          let chosen = open_codec_zero e cfg a i a.codec d (rw (found, first, full) at z) in
          (k, rw (found, first, full) (chosen.0 ∙ ap pos e_k), is_first)
    ]
  ]
]

-- The stream that `av_find_best_stream` names makes no difference: only its decoder is used.
pub open_codec_ctx_any_best :
    (e : ErrorCodes) (cfg : Settings) (a : OpenAnswers) (d : Impl) (best : ℤ)
    → is_negative a.best ≡ false
    → is_negative best ≡ false
    → open_codec_ctx e cfg (record a { best = best }) d ≡ open_codec_ctx e cfg a d
unfolding open_codec_ctx open_codec
open_codec_ctx_any_best e cfg a d best h h' = rw (h, h')
