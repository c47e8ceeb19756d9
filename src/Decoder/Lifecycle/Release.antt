-- ===== src/Decoder/Lifecycle/Release.antt =====
-- What `init`, `open` and `release` of src/Decoder.cpp allocate and free.
use ff_test.Base.{ℕ, ◌≡◌, refl, ◌∙◌, ap, ◌>>=◌, bind_of, Option, none, some, List, ◌∷◌}
use ff_test.Base.Handles.{acquire, Same, free, free-Same}
use ff_test.Decoder.Impl.{Io, Codec, Impl}
use ff_test.Decoder.Lifecycle.{
  release_pkt, release_io, release_codec, release_fmt, release_sws, release,
}

abbrev pub io_handles : Option Io → List ℕ → List ℕ
io_handles none rest = rest
io_handles (some io) rest = acquire io.buffer (io.handle ∷ rest)

abbrev pub codec_handles : Option Codec → List ℕ → List ℕ
codec_handles none rest = rest
codec_handles (some c) rest = c.handle ∷ rest

-- The live handles are those that the pointers of the decoder hold, and `rest`.
abbrev pub Owns : Impl → List ℕ → Type 0
Owns d rest = Same d.live (
    acquire d.pkt (
      io_handles d.io_ctx (codec_handles d.codec_ctx (acquire d.fmt_ctx (acquire d.sws_ctx rest)))))

-- No pointer is set but perhaps that of the scaler.
abbrev pub cleared : Impl → List ℕ → Impl
cleared d live = record d {
  pkt = none;
  io_ctx = none;
  codec_ctx = none;
  fmt_ctx = none;
  live = live;
  decoded_frame_cnt = 0;
}

release_pkt_lem :
    (d : Impl) (p : Option ℕ) (live rest : List ℕ)
    → Same live (acquire p rest)
    → (live' : List ℕ) × (release_pkt (record d { pkt = p; live = live })
        ≡ some (record d { pkt = none; live = live' }))
      × Same live' rest
unfolding release_pkt
release_pkt_lem d none live rest s = (live, refl, s)
release_pkt_lem d (some h) live rest s =
    let (live', freed, same) = free-Same h live rest s in (live', rw freed, same)

release_io_lem :
    (d : Impl) (io : Option Io) (live rest : List ℕ)
    → Same live (io_handles io rest)
    → (live' : List ℕ) × (release_io (record d { io_ctx = io; live = live })
        ≡ some (record d { io_ctx = none; live = live' }))
      × Same live' rest
unfolding release_io
release_io_lem d none live rest s = (live, refl, s)
release_io_lem d (some io) live rest s = go io.buffer refl s
  where
    go :
        (b : Option ℕ)
        → io.buffer ≡ b
        → Same live (acquire b (io.handle ∷ rest))
        → (live' : List ℕ) × (release_io (record d { io_ctx = some io; live = live })
            ≡ some (record d { io_ctx = none; live = live' }))
          × Same live' rest
    go none e s =
        let (live', freed, same) = free-Same io.handle live rest s in
        (live', rw (e, release_io) (rw freed), same)
    go (some b) e s =
        let (live1, freed1, same1) = free-Same b live (io.handle ∷ rest) s in
        let (live2, freed2, same2) = free-Same io.handle live1 rest same1 in
        (live2, rw (e, release_io) (rw (freed1, freed2)), same2)

release_codec_lem :
    (d : Impl) (c : Option Codec) (live rest : List ℕ)
    → Same live (codec_handles c rest)
    → (live' : List ℕ) × (release_codec (record d { codec_ctx = c; live = live })
        ≡ some (record d { codec_ctx = none; live = live' }))
      × Same live' rest
unfolding release_codec
release_codec_lem d none live rest s = (live, refl, s)
release_codec_lem d (some c) live rest s =
    let (live', freed, same) = free-Same c.handle live rest s in (live', rw freed, same)

release_fmt_lem :
    (d : Impl) (f : Option ℕ) (live rest : List ℕ)
    → d.pb ≡ none
    → Same live (acquire f rest)
    → (live' : List ℕ) × (release_fmt (record d { fmt_ctx = f; live = live })
        ≡ some (record d { fmt_ctx = none; live = live' }))
      × Same live' rest
unfolding release_fmt
release_fmt_lem d none live rest unplugged s = (live, refl, s)
release_fmt_lem d (some h) live rest unplugged s =
    let (live', freed, same) = free-Same h live rest s in
    (
      live',
      ap
            (λ b. elim b as (λ _. Option Impl) [
              | some _ ↦ none
              | none ↦ do l ← free h live; some (record d { fmt_ctx = none; live = l })
            ])
            unplugged
          ∙ bind_of (free h live) _ live' _ freed refl,
      same,
    )

release_sws_lem :
    (d : Impl) (w : Option ℕ) (live rest : List ℕ)
    → Same live (acquire w rest)
    → (live' : List ℕ) × (release_sws (record d { sws_ctx = w; live = live })
        ≡ some (record d { sws_ctx = w; live = live' }))
      × Same live' rest
unfolding release_sws
release_sws_lem d none live rest s = (live, refl, s)
release_sws_lem d (some h) live rest s =
    let (live', freed, same) = free-Same h live rest s in (live', rw freed, same)

-- When the live objects are those that the pointers of the decoder hold, and others, and a `pb`
-- that `init` has set was marked by `avformat_open_input`, `release` frees every object that the
-- decoder holds, once each and nothing else, and clears every pointer but that of the scaler.
pub release_frees :
    (d : Impl) (rest : List ℕ)
    → Owns d rest
    → d.pb ≡ none
    → (live : List ℕ) × (release d ≡ some (cleared d live)) × Same live rest
unfolding release
release_frees d rest s unplugged =
    let (l1, e1, s1) = release_pkt_lem d d.pkt d.live _ s in
    let (l2, e2, s2) = release_io_lem (record d { pkt = none }) d.io_ctx l1 _ s1 in
    let (l3, e3, s3) =
      release_codec_lem (record d { pkt = none; io_ctx = none }) d.codec_ctx l2 _ s2 in
    let (l4, e4, s4) =
      release_fmt_lem (record d { pkt = none; io_ctx = none; codec_ctx = none }) d.fmt_ctx l3 _
        unplugged s3 in
    let (l5, e5, s5) =
      release_sws_lem (record d { pkt = none; io_ctx = none; codec_ctx = none; fmt_ctx = none })
        d.sws_ctx l4 _ s4 in
    (l5, rw e1 (rw e2 (rw e3 (rw e4 (rw e5)))), s5)

closed_lem : (d : Impl) (f b : ℕ) → d.fmt_ctx ≡ some f → d.pb ≡ some b → release_fmt d ≡ none
unfolding release_fmt
closed_lem d f b fmt pb = rw fmt (rw pb)

-- An input that was never opened cannot be closed when its `pb` is set.
pub release_dangles :
    (d : Impl) (rest : List ℕ) (f b : ℕ)
    → Owns d rest
    → d.fmt_ctx ≡ some f
    → d.pb ≡ some b
    → release d ≡ none
unfolding release
release_dangles d rest f b s fmt pb =
    let (l1, e1, s1) = release_pkt_lem d d.pkt d.live _ s in
    let (l2, e2, s2) = release_io_lem (record d { pkt = none }) d.io_ctx l1 _ s1 in
    let (l3, e3, s3) =
      release_codec_lem (record d { pkt = none; io_ctx = none }) d.codec_ctx l2 _ s2 in
    let lost =
      closed_lem (record d { pkt = none; io_ctx = none; codec_ctx = none; live = l3 }) f b fmt pb in
    rw e1 (rw e2 (rw e3 (rw lost)))
