-- ===== src/Decoder/Lifecycle/Life.antt =====
-- A decoder of src/Decoder.cpp from `init` over `open` to `release`.
use ff_test.Base.{
  ℕ, ◌+◌, ◌≡◌, refl, inl, inr, Option, none, some, List, [], ◌∷◌, arith, Option-cases, Bool-cases,
  if◌then◌else◌, u16_mod, ◌%◌,
}
use ff_test.Base.Int.{ℤ, pos, negsuc, is_negative}
use ff_test.Av.{ErrorCodes}
use ff_test.Base.Handles.{acquire, count, count-acquire, Same, free-Same}
use ff_test.Decoder.Lifecycle.Release.{Owns, io_handles, cleared, release_frees}
use ff_test.Decoder.Impl.{Io, Impl, created}
use ff_test.Decoder.Lifecycle.{
  InitAnswers, init, Settings, OpenAnswers, stream_open, open_codec_ctx, open_codec, first_video,
  release,
}

-- The buffer that `init` loses when `avio_alloc_context` fails after `av_malloc`.
abbrev pub lost_buffer : InitAnswers → List ℕ → List ℕ
lost_buffer a rest = elim a.fmt [
  | none ↦ rest
  | some _ ↦ elim a.buffer [ none ↦ rest | some b ↦ elim a.io [ none ↦ b ∷ rest | some _ ↦ rest ] ]
]

pub init_answers-Owns :
    (fmt buffer io pkt : Option ℕ) (d : Impl) (live rest : List ℕ)
    → Same live (acquire d.sws_ctx rest)
    → let a : InitAnswers = record { fmt = fmt; buffer = buffer; io = io; pkt = pkt } in
      Owns (init a (cleared d live)).1 (lost_buffer a rest)
unfolding init
init_answers-Owns none buffer io pkt d live rest s = s
init_answers-Owns (some f) none io pkt d live rest s = λ k. omega (arith, s k)
init_answers-Owns (some f) (some b) none pkt d live rest s =
    λ k. omega (arith, s k, count-acquire k d.sws_ctx rest, count-acquire k d.sws_ctx (b ∷ rest))
init_answers-Owns (some f) (some b) (some i) none d live rest s = λ k. omega (arith, s k)
init_answers-Owns (some f) (some b) (some i) (some p) d live rest s = λ k. omega (arith, s k)

count-io_handles :
    (k : ℕ) (io : Option Io) (xs : List ℕ)
    → count k (io_handles io xs) ≡ count k (io_handles io []) + count k xs
count-io_handles k none xs = omega arith
count-io_handles k (some io) xs =
    omega (
      arith,
      count-acquire k io.buffer (io.handle ∷ xs),
      count-acquire k io.buffer (io.handle ∷ []),
    )

-- A handle may stand anywhere among those of a decoder with no codec context.
count-held :
    (k : ℕ) (p : Option ℕ) (io : Option Io) (xs : List ℕ)
    → count k (acquire p (io_handles io xs)) ≡ count k (acquire p (io_handles io [])) + count k xs
count-held k p io xs = omega (
  arith,
  count-acquire k p (io_handles io xs),
  count-acquire k p (io_handles io []),
  count-io_handles k io xs,
)

add-held :
    (h : ℕ) (p : Option ℕ) (io : Option Io) (live xs : List ℕ)
    → Same live (acquire p (io_handles io xs))
    → Same (h ∷ live) (acquire p (io_handles io (h ∷ xs)))
add-held h p io live xs s =
    λ k. omega (arith, s k, count-held k p io xs, count-held k p io (h ∷ xs))

drop-held :
    (h : ℕ) (p : Option ℕ) (io : Option Io) (live xs : List ℕ)
    → Same live (acquire p (io_handles io (h ∷ xs)))
    → Same live (h ∷ acquire p (io_handles io xs))
drop-held h p io live xs s =
    λ k. omega (arith, s k, count-held k p io xs, count-held k p io (h ∷ xs))

-- A decoder after `init`: with a format context and without a codec context.
abbrev pub unopened : ℕ → Impl → List ℕ → Impl
unopened f d live = record d { codec_ctx = none; fmt_ctx = some f; live = live }

open_codec-Owns :
    (e : ErrorCodes) (cfg : Settings) (a : OpenAnswers) (index : ℕ) (c : Option ℕ) (f : ℕ)
    (d : Impl) (live rest : List ℕ)
    → Owns (unopened f d live) rest
    → Owns (open_codec e cfg a index c (unopened f d live)).1 rest
unfolding open_codec
open_codec-Owns e cfg a index none f d live rest s = s
open_codec-Owns e cfg a index (some h) f d live rest s =
    let added = add-held h d.pkt d.io_ctx live _ s in
    elim (Bool-cases (is_negative a.parameters)) [
      | inl bad ↦ rw bad added
      | inr good ↦ rw good (elim (Bool-cases (is_negative a.opened)) [
        | inl bad ↦ rw bad added
        | inr opened ↦ rw opened added
      ])
    ]

open_codec_ctx-Owns :
    (e : ErrorCodes) (cfg : Settings) (a : OpenAnswers) (f : ℕ) (d : Impl) (live rest : List ℕ)
    → Owns (unopened f d live) rest
    → Owns (open_codec_ctx e cfg a (unopened f d live)).1 rest
unfolding open_codec_ctx
open_codec_ctx-Owns e cfg a f d live rest s = elim (Bool-cases (is_negative a.best)) [
  | inl bad ↦ rw bad s
  | inr good ↦ rw good (elim (Option-cases (first_video 0 a.streams)) [
    | inl missing ↦ rw missing s
    | inr (i, found) ↦ rw found (elim (Bool-cases a.has_decoder) [
      | inl full ↦ rw full (open_codec-Owns e cfg a i a.codec f d live rest s)
      | inr empty ↦ rw empty s
    ])
  ])
]

opened-Owns :
    (a : OpenAnswers) (r : ℤ) (d : Impl) (rest : List ℕ)
    → Owns d rest
    → let out : ℤ × Impl =
        if is_negative r
        then (negsuc 0, d)
        else (pos 0, record d { width = a.width % u16_mod; height = a.height % u16_mod }) in
      Owns out.1 rest
opened-Owns a (pos n) d rest s = s
opened-Owns a (negsuc n) d rest s = s

open_codec_ctx-pb :
    (e : ErrorCodes) (cfg : Settings) (a : OpenAnswers) (d : Impl)
    → (open_codec_ctx e cfg a d).1.pb ≡ d.pb
unfolding open_codec_ctx open_codec
open_codec_ctx-pb e cfg a d = ground arith

-- After `open` the `pb` is the caller's own.
pub stream_open-pb :
    (e : ErrorCodes) (cfg : Settings) (a : OpenAnswers) (d : Impl) (out : ℤ × Impl)
    → stream_open e cfg a d ≡ some out
    → out.1.pb ≡ none
unfolding stream_open
stream_open-pb e cfg a d out run =
    ground (arith, open_codec_ctx-pb e cfg a (record d { pb = none }))

pub stream_open-Owns :
    (e : ErrorCodes) (cfg : Settings) (a : OpenAnswers) (f : ℕ) (d : Impl) (live rest : List ℕ)
    → Owns (unopened f d live) rest
    → (out : ℤ × Impl) × (stream_open e cfg a (unopened f d live) ≡ some out) × Owns out.1 rest
unfolding stream_open
stream_open-Owns e cfg a f d live rest s = elim (Bool-cases (is_negative a.input)) [
  | inl bad ↦
      let (live', freed, same) =
        free-Same f live _ (drop-held f d.pkt d.io_ctx live (acquire d.sws_ctx rest) s) in
      (
        (negsuc 0, record d { codec_ctx = none; fmt_ctx = none; pb = none; live = live' }),
        rw bad (rw freed),
        same,
      )
  | inr good ↦ elim (Bool-cases (is_negative a.info)) [
    | inl bad ↦ ((negsuc 0, unopened f (record d { pb = none }) live), rw (good, bad), s)
    | inr known ↦
        let d' : Impl = record d { pb = none } in
        let out = open_codec_ctx e cfg a (unopened f d' live) in
        (
          if is_negative out.0
              then (negsuc 0, out.1)
              else (pos 0, record out.1 { width = a.width % u16_mod; height = a.height % u16_mod }),
          rw (good, known),
          opened-Owns a out.0 out.1 rest (open_codec_ctx-Owns e cfg a f d' live rest s),
        )
  ]
]

init-unopened :
    (f b i p : ℕ) (live : List ℕ)
    → (init (record { fmt = some f; buffer = some b; io = some i; pkt = some p }) (created live)).1
      ≡ unopened f
          (record (created live) {
            pkt = some p;
            io_ctx = some (record { handle = i; buffer = some b });
            pb = some i;
          })
          (p ∷ i ∷ b ∷ f ∷ live)
unfolding init created
init-unopened f b i p live = refl

-- A new decoder for which every allocation of `init` has succeeded can be opened, whatever FFmpeg
-- answers, and then released: neither frees anything that is not live, and after that the live
-- objects are those from before `init`.
pub init-open-release :
    (f b i p : ℕ) (live : List ℕ) (e : ErrorCodes) (cfg : Settings) (a : OpenAnswers)
    → let d =
        (init
          (record { fmt = some f; buffer = some b; io = some i; pkt = some p })
          (created live)).1 in
      (out : ℤ × Impl) × (d' : Impl) × (stream_open e cfg a d ≡ some out)
      × (release out.1 ≡ some d')
      × Same d'.live live
unfolding created
init-open-release f b i p live e cfg a =
    let ready : Impl = record (created live) {
      pkt = some p;
      io_ctx = some (record { handle = i; buffer = some b });
      pb = some i;
    } in
    let (out, opened, owned) =
      stream_open-Owns e cfg a f ready (p ∷ i ∷ b ∷ f ∷ live) live (λ k. omega arith) in
    let (live', run, same) =
      release_frees out.1 live owned
        (stream_open-pb e cfg a (unopened f ready (p ∷ i ∷ b ∷ f ∷ live)) out opened) in
    (out, cleared out.1 live', rw (init-unopened f b i p live) opened, run, same)
