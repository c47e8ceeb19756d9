-- ===== src/Decoder/Lifecycle/Lifetime.antt =====
-- Any life of a decoder of src/Decoder.cpp, up to its destructor.
use ff_test.Base.{
  ℕ, ◌≡◌, refl, sym, ◌∙◌, ap, inl, inr, Option, none, some, List, arith, some_inj, Option-cases,
  ◌⊎◌, subst,
}
use ff_test.Base.Int.{ℤ}
use ff_test.Av.{ErrorCodes}
use ff_test.Base.Handles.{Same, acquire}
use ff_test.Decoder.Impl.{Impl, created}
use ff_test.Decoder.Lifecycle.{
  InitAnswers, init, Settings, OpenAnswers, stream_open, open_codec_ctx, open_codec, release,
  destroy,
}
use ff_test.Decoder.Lifecycle.Release.{Owns, cleared, release_frees, release_dangles}
use ff_test.Decoder.Lifecycle.Life.{
  lost_buffer, init_answers-Owns, unopened, stream_open-Owns, stream_open-pb,
}

-- A decoder after some calls of its owner that have returned, beside the live objects `rest` of
-- others: `init` of a decoder that holds nothing, which may lose its input buffer, `open` of one
-- that has no codec context, and `release`.
pub data Life : List ℕ → Impl → Type 0 where
  news : (rest : List ℕ) → Life rest (created rest)
  inits :
      {rest : List ℕ} {d : Impl} (a : InitAnswers)
      → Life rest d
      → d ≡ cleared d d.live
      → Life (lost_buffer a rest) (init a d).1
  opens :
      {rest : List ℕ} {d : Impl} (e : ErrorCodes) (cfg : Settings) (a : OpenAnswers)
      {out : ℤ × Impl}
      → Life rest d
      → d.codec_ctx ≡ none
      → stream_open e cfg a d ≡ some out
      → Life rest out.1
  releases : {rest : List ℕ} {d d' : Impl} → Life rest d → release d ≡ some d' → Life rest d'

-- A `pb` that `avformat_close_input` would close is that of a format context.
abbrev IsPlugged : Impl → Type 0
IsPlugged d = (d.pb ≡ none) ⊎ ((f : ℕ) × (b : ℕ) × (d.fmt_ctx ≡ some f) × (d.pb ≡ some b))

-- What the decoder holds is live, and it has no scaler.
abbrev IsOwner : Impl → List ℕ → Type 0
IsOwner d rest = Owns d rest × (d.sws_ctx ≡ none) × IsPlugged d

init-IsPlugged :
    (fmt buffer io pkt : Option ℕ) (d : Impl)
    → IsPlugged (init (record { fmt = fmt; buffer = buffer; io = io; pkt = pkt }) d).1
unfolding init
init-IsPlugged none buffer io pkt d = inl refl
init-IsPlugged (some f) none io pkt d = inl refl
init-IsPlugged (some f) (some b) none pkt d = inl refl
init-IsPlugged (some f) (some b) (some i) none d = inr (f, i, refl, refl)
init-IsPlugged (some f) (some b) (some i) (some p) d = inr (f, i, refl, refl)

init-sws :
    (fmt buffer io pkt : Option ℕ) (d : Impl)
    → (init (record { fmt = fmt; buffer = buffer; io = io; pkt = pkt }) d).1.sws_ctx ≡ d.sws_ctx
unfolding init
init-sws none buffer io pkt d = refl
init-sws (some f) none io pkt d = refl
init-sws (some f) (some b) none pkt d = refl
init-sws (some f) (some b) (some i) none d = refl
init-sws (some f) (some b) (some i) (some p) d = refl

open_codec_ctx-sws :
    (e : ErrorCodes) (cfg : Settings) (a : OpenAnswers) (d : Impl)
    → (open_codec_ctx e cfg a d).1.sws_ctx ≡ d.sws_ctx
unfolding open_codec_ctx open_codec
open_codec_ctx-sws e cfg a d = ground arith

stream_open-sws :
    (e : ErrorCodes) (cfg : Settings) (a : OpenAnswers) (d : Impl) (out : ℤ × Impl)
    → stream_open e cfg a d ≡ some out
    → out.1.sws_ctx ≡ d.sws_ctx
unfolding stream_open
stream_open-sws e cfg a d out run =
    ground (arith, open_codec_ctx-sws e cfg a (record d { pb = none }))

opened-Owns :
    (e : ErrorCodes) (cfg : Settings) (a : OpenAnswers) (d : Impl) (out : ℤ × Impl) (rest : List ℕ)
    → Owns d rest
    → d.codec_ctx ≡ none
    → stream_open e cfg a d ≡ some out
    → Owns out.1 rest
opened-Owns e cfg a d out rest owns shut run = elim (Option-cases d.fmt_ctx) [
  | inl missing ↦ unfold stream_open in cc (rw missing at run)
  | inr (f, held) ↦
      let same : d ≡ unopened f d d.live = rw (← shut, ← held) refl in
      let (out', run', owns') =
        stream_open-Owns e cfg a f d d.live rest (subst (λ x. Owns x rest) same owns) in
      let again : stream_open e cfg a d ≡ some out' = ap (stream_open e cfg a) same ∙ run' in
      subst (λ x. Owns x.1 rest) (some_inj (sym again ∙ run)) owns'
]

Life-IsOwner : {rest : List ℕ} {d : Impl} → Life rest d → IsOwner d rest
Life-IsOwner (news rest) = unfold created in ((λ k. refl), refl, inl refl)
Life-IsOwner (inits {rest} {d} a l held) =
    let (owns, no_sws, plugged) = Life-IsOwner l in
    let owned : Owns (cleared d d.live) rest = subst (λ x. Owns x rest) held owns in
    (
      subst (λ x. Owns (init a x).1 (lost_buffer a rest)) (sym held)
          (init_answers-Owns a.fmt a.buffer a.io a.pkt d d.live rest owned),
      init-sws a.fmt a.buffer a.io a.pkt d ∙ no_sws,
      init-IsPlugged a.fmt a.buffer a.io a.pkt d,
    )
Life-IsOwner (opens {rest} {d} e cfg a {out} l shut run) =
    let (owns, no_sws, plugged) = Life-IsOwner l in
    (
      opened-Owns e cfg a d out rest owns shut run,
      stream_open-sws e cfg a d out run ∙ no_sws,
      inl (stream_open-pb e cfg a d out run),
    )
Life-IsOwner (releases {rest} {d} {d'} l run) =
    let (owns, no_sws, plugged) = Life-IsOwner l in
    elim plugged [
      | inr (f, b, fmt, pb) ↦
          let lost = release_dangles d rest f b owns fmt pb in cc (sym lost ∙ run)
      | inl unplugged ↦
          let (live, run', same) = release_frees d rest owns unplugged in
          let e : cleared d live ≡ d' = some_inj (sym run' ∙ run) in
          subst (λ x. IsOwner x rest) e
            (subst (λ w. Same live (acquire w rest)) (sym no_sws) same, no_sws, inl unplugged)
    ]

-- The destructor returns and leaves live only `rest`, and so it does after a `release`.
abbrev pub IsReleased : Impl → List ℕ → Type 0
IsReleased d rest =
    (live : List ℕ) × (d' : Impl) × (live' : List ℕ) × (destroy d ≡ some live)
    × (release d ≡ some d')
    × (destroy d' ≡ some live')
    × Same live rest
    × Same live' rest

-- Whatever the owner of a decoder has called, `init` only when the decoder held nothing and `open`
-- only without a codec context, and whatever FFmpeg has answered: unless an `init` that came as far
-- as to set the `pb` of the format context was the last call, with no `open` after it, the
-- destructor returns and frees what the decoder holds and nothing else, so that live are the
-- objects of others and the input buffers that an `init` has lost when `avio_alloc_context` failed;
-- and with one more `release` before it, it comes to the same. After such an `init` alone the
-- destructor and `release` are undefined.
pub destroy-Life :
    (rest : List ℕ) (d : Impl)
    → Life rest d
    → ((d.pb ≡ none) × IsReleased d rest)
      ⊎ ((b : ℕ) × (d.pb ≡ some b) × (release d ≡ none) × (destroy d ≡ none))
unfolding destroy
destroy-Life rest d l =
    let (owns, no_sws, plugged) = Life-IsOwner l in
    elim plugged [
      | inr (f, b, fmt, pb) ↦
          let lost = release_dangles d rest f b owns fmt pb in inr (b, pb, lost, rw lost refl)
      | inl unplugged ↦
          let (live, run, same) = release_frees d rest owns unplugged in
          let (owns', _, _) = Life-IsOwner (releases l run) in
          let (live', run', same') = release_frees (cleared d live) rest owns' unplugged in
          inl
            (unplugged, (live, cleared d live, live', rw run refl, run, rw run' refl, same, same'))
    ]
