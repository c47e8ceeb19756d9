-- ===== src/Decoder/Lifecycle/Tests.antt =====
-- Decoders and answers of FFmpeg on which the theorems about the life of a decoder apply.
use ff_test.Base.{ℕ, ◌≡◌, ◌⊎◌, refl, true, none, some, [], ◌∷◌}
use ff_test.Base.Int.{ℤ, pos, negsuc}
use ff_test.Base.Handles.{Same, free}
use ff_test.Av.{ErrorCodes}
use ff_test.Decoder.Impl.{Impl, created}
use ff_test.Decoder.Lifecycle.{
  InitAnswers, init, video, other, Settings, OpenAnswers, stream_open, open_codec_ctx, first_video,
  release, destroy,
}
use ff_test.Decoder.Lifecycle.Streams.{IsFirstVideo, open_codec_ctx_stream}
use ff_test.Decoder.Lifecycle.Life.{init-open-release}
use ff_test.Decoder.Lifecycle.Lifetime.{
  Life, news, inits, opens, releases, IsReleased, destroy-Life,
}

abbrev codes : ErrorCodes
codes = record {
  eagain = negsuc 10;
  eof = negsuc 541478724;
  einval = negsuc 21;
  enomem = negsuc 11;
  eagain_negative = refl;
  eof_negative = refl;
  einval_negative = refl;
  enomem_negative = refl;
  distinct = refl;
}

-- An audio and a video stream; the codec context is the handle 7.
abbrev answers : OpenAnswers
answers = record {
  input = pos 0;
  info = pos 0;
  best = pos 0;
  has_decoder = true;
  streams = other ∷ video ∷ [];
  codec = some 7;
  parameters = pos 0;
  opened = pos 0;
  width = 1920;
  height = 1080;
}

abbrev settings : Settings
settings = record { skip_frame = 1; get_buffer = 0 }

init-open-release_example :
    let d =
      (init
        (record { fmt = some 1; buffer = some 2; io = some 3; pkt = some 4 })
        (created (9 ∷ []))).1 in
    (out : ℤ × Impl) × (d' : Impl) × (stream_open codes settings answers d ≡ some out)
    × (release out.1 ≡ some d')
    × Same d'.live (9 ∷ [])
init-open-release_example = init-open-release 1 2 3 4 (9 ∷ []) codes settings answers

-- `avio_alloc_context` fails in the first `init`, and after a `release` the second succeeds.
abbrev no_io : InitAnswers
no_io = record { fmt = some 1; buffer = some 2; io = none; pkt = none }

abbrev all_there : InitAnswers
all_there = record { fmt = some 1; buffer = some 5; io = some 3; pkt = some 4 }

abbrev failed : Impl
failed = record (created (9 ∷ [])) { fmt_ctx = some 1; live = 2 ∷ 1 ∷ 9 ∷ [] }

abbrev released : Impl
released = record (created (9 ∷ [])) { live = 2 ∷ 9 ∷ [] }

lives : Life (2 ∷ 9 ∷ []) (init all_there released).1
unfolding init release created free
lives = inits all_there (releases {d' = released} (inits no_io (news (9 ∷ [])) refl) refl) refl

abbrev opened :
    (out : ℤ × Impl) × (stream_open codes settings answers (init all_there released).1 ≡ some out)
unfolding stream_open init created
opened = (_, refl)

destroy-Life_example :
    let d = opened.0.1 in
    ((d.pb ≡ none) × IsReleased d (2 ∷ 9 ∷ []))
    ⊎ ((b : ℕ) × (d.pb ≡ some b) × (release d ≡ none) × (destroy d ≡ none))
unfolding init created
destroy-Life_example =
    destroy-Life (2 ∷ 9 ∷ []) opened.0.1 (opens codes settings answers lives refl opened.1)

-- `av_find_best_stream` has named the stream 0, which is audio.
open_codec_ctx_stream_example :
    (i : ℕ) × ((open_codec_ctx codes settings answers (created [])).1.stream_idx ≡ pos i)
    × IsFirstVideo i (other ∷ video ∷ [])
unfolding open_codec_ctx first_video
open_codec_ctx_stream_example = open_codec_ctx_stream codes settings answers (created []) refl
