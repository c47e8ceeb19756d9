-- ===== src/Decoder/Lifecycle.antt =====
-- The life of a `DecoderImpl` in src/Decoder.cpp: `init`, `open` with `stream_open` and
-- `open_codec_ctx`, and `release`. Objects of FFmpeg are handles; `live` lists those that are not
-- yet freed, and a free of any other is undefined behaviour (`none`). Each operation is given what
-- the calls of FFmpeg answer, NULL as `none`.
pub mod Streams
pub mod Release
pub mod Life
pub mod Lifetime
pub mod Success
mod Tests
use ff_test.Base.{
  ℕ, suc, ◌+◌, ◌%◌, Bool, true, false, not, if◌then◌else◌, Option, none, some, List, [], ◌∷◌, ◌==◌,
  u16_mod, ◌>>=◌,
}
use ff_test.Base.Int.{ℤ, pos, negsuc, is_negative}
use ff_test.Av.{ErrorCodes}
use ff_test.Decoder.Impl.{Io, Discard, default, nonref, nonkey, Codec, Impl}
use ff_test.Base.Handles.{contains, remove, free, acquire}

-- What `avformat_alloc_context`, `av_malloc`, `avio_alloc_context` and `av_packet_alloc` answer.
pub record InitAnswers : Type 0 where
  pub fmt : Option ℕ
  pub buffer : Option ℕ
  pub io : Option ℕ
  pub pkt : Option ℕ

-- The steps of `Decoder::init`, each up to its `goto end`.
init_pkt : InitAnswers → Impl → ℤ × Impl
init_pkt a d =
    let d' = record d { pkt = a.pkt; live = acquire a.pkt d.live } in
    elim a.pkt [ none ↦ (negsuc 0, d') | some _ ↦ (pos 0, d') ]

init_io : InitAnswers → ℕ → Impl → ℤ × Impl
unfolding init_pkt
init_io a buffer d = elim a.io [
  | none ↦ (negsuc 0, record d { io_ctx = none })
  | some h ↦ init_pkt a (record d {
    io_ctx = some (record { handle = h; buffer = some buffer });
    pb = some h;
    live = h ∷ d.live;
  })
]

init_buffer : InitAnswers → Impl → ℤ × Impl
unfolding init_io
init_buffer a d = elim a.buffer [
  | none ↦ (negsuc 0, d)
  | some b ↦ init_io a b (record d { live = b ∷ d.live })
]

unfoldable pub init : InitAnswers → Impl → ℤ × Impl
unfolding init_buffer
init a d = elim a.fmt [
  | none ↦ (negsuc 0, record d { fmt_ctx = none; pb = none })
  | some h ↦ init_buffer a (record d { fmt_ctx = some h; pb = none; live = h ∷ d.live })
]

-- A stream of the input: without `codecpar`, or with its `codec_type`.
pub data Stream : Type 0 where
  no_codecpar video other : Stream

-- The loop of `open_codec_ctx` over the streams from `i` on: the first of type video.
unfoldable pub first_video : ℕ → List Stream → Option ℕ
first_video i [] = none
first_video i (video ∷ ss) = some i
first_video i (_ ∷ ss) = first_video (i + 1) ss

-- The two settings of the program's `Config` that `open_codec_ctx` reads.
pub record Settings : Type 0 where
  pub skip_frame : ℕ
  pub get_buffer : ℕ

-- `switch(cfg.m_skip_frame)`
pub discard_of : ℕ → Option Discard
discard_of n =
    if n == 0
    then some default
    else if n == 1
    then some nonref
    else if n == 2
    then some nonkey
    else none

-- What the calls of FFmpeg in `stream_open` answer: the results of `avformat_open_input`,
-- `avformat_find_stream_info`, `av_find_best_stream` (with whether it found a decoder),
-- `avcodec_alloc_context3`, `avcodec_parameters_to_context` and `avcodec_open2`, the streams, and
-- the size of the video.
pub record OpenAnswers : Type 0 where
  pub input : ℤ
  pub info : ℤ
  pub best : ℤ
  pub has_decoder : Bool
  pub streams : List Stream
  pub codec : Option ℕ
  pub parameters : ℤ
  pub opened : ℤ
  pub width : ℕ
  pub height : ℕ

-- From `if (!m_codec_ctx)` on, where the argument `Option ℕ` is the new codec context.
open_codec : ErrorCodes → Settings → OpenAnswers → ℕ → Option ℕ → Impl → ℤ × Impl
unfolding discard_of
open_codec e cfg a index none d = (e.enomem, record d { codec_ctx = none })
open_codec e cfg a index (some h) d =
    let d' = record d {
      codec_ctx = some (record {
        handle = h;
        custom_buffer = not (cfg.get_buffer == 0);
        skip_frame = discard_of cfg.skip_frame;
      });
      live = h ∷ d.live;
    } in
    if is_negative a.parameters
    then (a.parameters, d')
    else if is_negative a.opened
    then (a.opened, d')
    else (pos 0, record d' { stream_idx = pos index })

unfoldable pub open_codec_ctx : ErrorCodes → Settings → OpenAnswers → Impl → ℤ × Impl
unfolding open_codec
open_codec_ctx e cfg a d =
    if is_negative a.best then (a.best, d) else elim (first_video 0 a.streams) [
      | none ↦ (negsuc 0, d)
      | some index ↦ if not a.has_decoder then (e.einval, d) else open_codec e cfg a index a.codec d
    ]

-- After `init`, so that there is a format context; when `avformat_open_input` fails it has freed
-- that context and set the pointer to NULL. It has marked the `pb` of the context as the caller's
-- own.
unfoldable pub stream_open : ErrorCodes → Settings → OpenAnswers → Impl → Option (ℤ × Impl)
unfolding open_codec_ctx
stream_open e cfg a d = do
  fmt ← d.fmt_ctx
  if is_negative a.input
      then (do
        live ← free fmt d.live
        some (negsuc 0, record d { fmt_ctx = none; pb = none; live = live }))
      else if is_negative a.info
      then some (negsuc 0, record d { pb = none })
      else let (r, d') = open_codec_ctx e cfg a (record d { pb = none }) in
        some (
          if is_negative r
          then (negsuc 0, d')
          else (pos 0, record d' { width = a.width % u16_mod; height = a.height % u16_mod }))

-- The steps of `Decoder::release`, one for each pointer.
release_pkt : Impl → Option Impl
release_pkt d = elim d.pkt [
  | none ↦ some d
  | some h ↦ do live ← free h d.live; some (record d { pkt = none; live = live })
]

release_io : Impl → Option Impl
release_io d = elim d.io_ctx [
  | none ↦ some d
  | some io ↦ do
    live ← elim io.buffer [ none ↦ some d.live | some b ↦ free b d.live ]
    live' ← free io.handle live
    some (record d { io_ctx = none; live = live' })
]

release_codec : Impl → Option Impl
release_codec d = elim d.codec_ctx [
  | none ↦ some d
  | some c ↦ do live ← free c.handle d.live; some (record d { codec_ctx = none; live = live })
]

-- `avformat_close_input` gives the `pb` of a context that was never opened to `avio_close`, which
-- is undefined: `release` has freed it just before, and it is none that `avio_open` has made.
release_fmt : Impl → Option Impl
release_fmt d = elim d.fmt_ctx [
  | none ↦ some d
  | some h ↦ elim d.pb [
    | some _ ↦ none
    | none ↦ do live ← free h d.live; some (record d { fmt_ctx = none; live = live })
  ]
]

-- The scaler is freed, and its pointer is left as it is.
release_sws : Impl → Option Impl
release_sws d = elim d.sws_ctx [
  | none ↦ some d
  | some h ↦ do live ← free h d.live; some (record d { live = live })
]

pub release : Impl → Option Impl
unfolding release_pkt release_io release_codec release_fmt release_sws
release d = do
  d1 ← release_pkt d
  d2 ← release_io d1
  d3 ← release_codec d2
  d4 ← release_fmt d3
  d5 ← release_sws d4
  some (record d5 { decoded_frame_cnt = 0 })

-- `Decoder::~Decoder`: what is live after it.
pub destroy : Impl → Option (List ℕ)
unfolding release
destroy d = do d' ← release d; some d'.live
