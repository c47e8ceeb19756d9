-- ===== src/Task/Routine/Closing.antt =====
-- The end of `decode_routine` in src/Task.cpp: `release` and the two destructors.
use ff_test.Base.{
  ℕ, ◌≡◌, refl, ◌∙◌, inl, inr, Option, none, some, List, Bool-cases, bind_some, bind_of, some_inj,
  subst,
}
use ff_test.Base.Int.{ℤ, is_negative}
use ff_test.Base.Handles.{Same}
use ff_test.Av.{ErrorCodes}
use ff_test.File.{MFile, unnamed, create}
use ff_test.File
use ff_test.File.History
use ff_test.File.History.{kept_open, lost_by_create, Life-destroy}
use ff_test.Decoder.Impl.{Impl, created}
use ff_test.Decoder.Lifecycle
use ff_test.Decoder.Lifecycle.Life.{lost_buffer, stream_open-pb}
use ff_test.Decoder.Lifecycle.Lifetime
use ff_test.Decoder.Lifecycle.Lifetime.{IsReleased, destroy-Life}
use ff_test.Decoder.Callbacks.{read_for}
use ff_test.Decoder.Lifecycle.{InitAnswers, Settings, OpenAnswers}
use ff_test.Decoder.Device.{Device, new_device, init, open_device, release_device}
use ff_test.Task.Routine.{Shared, Pointer}

unplugged_lem : (d : Impl) (rest : List ℕ) → Lifetime.Life rest d → d.pb ≡ none → IsReleased d rest
unplugged_lem d rest life unplugged = elim (destroy-Life rest d life) [
  | inl (_, released) ↦ released
  | inr (b, pb, _, _) ↦ cc
]

-- Both destructors return, after `release`.
pub closing_lem :
    (dc : Device Pointer Shared) (rest : List ℕ) (fout : MFile) (fds lost : List ℕ)
    → Lifetime.Life rest dc.impl
    → dc.impl.pb ≡ none
    → History.Life lost fout fds
    → (dc' : Device Pointer Shared) × (fds' : List ℕ) × (live : List ℕ) × (release_device dc
        ≡ some dc')
      × (File.destroy fout fds ≡ some fds')
      × (Lifecycle.destroy dc'.impl ≡ some live)
      × Same live rest
      × Same fds' (kept_open fout.fd lost)
unfolding release_device
closing_lem dc rest fout fds lost life unplugged flife =
    let (_, d', live', _, released, destroyed, _, same) =
      unplugged_lem dc.impl rest life unplugged in
    let (fds', closed, same') = Life-destroy lost fout fds flife in
    (_, fds', live', bind_of _ _ d' _ released refl, closed, destroyed, same, same')

init_codec :
    (fmt buffer io pkt : Option ℕ) (d : Impl)
    → (Lifecycle.init (record { fmt = fmt; buffer = buffer; io = io; pkt = pkt }) d).1.codec_ctx
      ≡ d.codec_ctx
unfolding Lifecycle.init
init_codec none buffer io pkt d = refl
init_codec (some f) none io pkt d = refl
init_codec (some f) (some b) none pkt d = refl
init_codec (some f) (some b) (some i) none d = refl
init_codec (some f) (some b) (some i) (some p) d = refl

-- The objects of a new decoder after `init`.
pub init-Life :
    (a : InitAnswers) (mem : ℕ) (live : List ℕ)
    → let dc = (init {P = Pointer} {S = Shared} a mem (new_device live)).1 in
      Lifetime.Life (lost_buffer a live) dc.impl × (dc.impl.codec_ctx ≡ none)
unfolding init new_device
init-Life a mem live =
    let born : Lifetime.Life (lost_buffer a live) (Lifecycle.init a (created live)).1 =
      Lifetime.inits a (Lifetime.news live) (unfold created in refl) in
    let no_codec : (Lifecycle.init a (created live)).1.codec_ctx ≡ none =
      init_codec a.fmt a.buffer a.io a.pkt (created live) ∙ unfold created in refl in
    elim (Bool-cases (is_negative (Lifecycle.init a (created live)).0)) [
      | inl bad ↦ rw bad (born, no_codec)
      | inr good ↦ rw good (born, no_codec)
    ]

-- The objects after `open`, whatever it answers, and the `pb` of the input.
pub open_device-Life :
    (e : ErrorCodes) (cfg : Settings) (b : OpenAnswers) (sizes : List ℕ) (mem : ℕ) (rest : List ℕ)
    (dc : Device Pointer Shared) (s : Shared) (out : ℤ × Device Pointer Shared × Shared)
    → open_device e cfg b sizes mem dc s ≡ some out
    → Lifetime.Life rest dc.impl
    → dc.impl.codec_ctx ≡ none
    → Lifetime.Life rest out.1.impl × (out.1.impl.pb ≡ none)
unfolding open_device
open_device-Life e cfg b sizes mem rest dc s out run life no_codec =
    let (r, opened, run1) = bind_some (Lifecycle.stream_open e cfg b dc.impl) _ out run in
    let (_, _, done) = bind_some (read_for dc.callbacks sizes s) _ out run1 in
    subst (λ x. Lifetime.Life rest x.1.impl × (x.1.impl.pb ≡ none)) (some_inj done)
      (Lifetime.opens e cfg b life no_codec opened, stream_open-pb e cfg b dc.impl r opened)
