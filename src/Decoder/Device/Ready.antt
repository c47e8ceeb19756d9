-- ===== src/Decoder/Device/Ready.antt =====
-- A decoder of src/Decoder.cpp that was opened, and what its owner can call then.
use ff_test.Base.{
  ℕ, ◌%◌, ◌≡◌, refl, ◌∙◌, ap, inl, inr, Bool, Option, some, List, [], ◌∷◌, Bool-cases, some_inj,
  subst, u16_mod, bind_some, bind_of, drop, length,
}
use ff_test.Base.Int.{ℤ, pos, is_negative, is_zero, eqb, zero-ne-negative}
use ff_test.Utils.{Timeval}
use ff_test.Av.{ErrorCodes, Frame}
use ff_test.Decoder.Callbacks.{
  CbReadPkt, CbRecvFrame, Callbacks, set_cb_read_pkt, set_cb_recv_frame, read_pkt, read_for, play,
}
use ff_test.Decoder.Impl.{Codec}
use ff_test.Decoder.Lifecycle.{InitAnswers, Settings, OpenAnswers, stream_open}
use ff_test.Decoder.Lifecycle.Streams.{IsFirstVideo}
use ff_test.Decoder.Lifecycle.Success.{init_success, IsOpened, stream_open_success}
use ff_test.Decoder.State.{Decoder, Call, log, allocs_frame, sends, delivers}
use ff_test.Decoder.Demux.{ReadAnswer}
use ff_test.Decoder.Decode.{Received, Exit, measure, deliver, receive_loop, decode}
use ff_test.Decoder.Decode.Frames.{stop, sent_packet}
use ff_test.Decoder.Device.{
  Device, new_device, init, open_device, demux_device, decode_device, get_width, get_height,
}

receive_loop_returns :
    (e : ErrorCodes) (answers : List Received) (last : Received) (d : Decoder)
    → stop answers ≡ some last
    → (out : Exit × Decoder) × (receive_loop e answers d ≡ some out)
unfolding receive_loop
receive_loop_returns e [] last d s = cc
receive_loop_returns e (a ∷ later) last d s = elim (Bool-cases (is_zero a.ret)) [
  | inl good ↦
      let (out, run) =
        receive_loop_returns e later last (deliver a.frame (measure a d)) (rw good at s) in
      (out, rw (good, zero-ne-negative a.ret e.eagain good e.eagain_negative) run)
  | inr other ↦ elim (Bool-cases (eqb a.ret e.eagain)) [
    | inl empty ↦ rw (other, empty) (_, refl)
    | inr over ↦ rw (other, over) (_, refl)
  ]
]

-- `decode` returns whenever the codec's answers come to one that is not 0.
decode_returns :
    (e : ErrorCodes) (sent : ℤ) (has_frame : Bool) (answers : List Received) (last : Received)
    (t2 : Timeval) (d : Decoder)
    → stop answers ≡ some last
    → (out : ℤ × Decoder) × (decode e sent has_frame answers t2 d ≡ some out)
unfolding decode
decode_returns e sent has_frame answers last t2 d s = elim (Bool-cases (is_negative sent)) [
  | inl bad ↦ elim (Bool-cases (eqb sent e.eof)) [
    | inl at_eof ↦ rw (bad, at_eof) (_, refl)
    | inr other ↦ elim (Bool-cases (eqb sent e.eagain)) [
      | inl again ↦ rw (bad, other, again) (_, refl)
      | inr broken ↦ rw (bad, other, broken) (_, refl)
    ]
  ]
  | inr taken ↦ elim (Bool-cases has_frame) [
    | inr full ↦ rw (taken, full) (_, refl)
    | inl room ↦
        let start : Decoder = log (allocs_frame ∷ []) (log (sends (sent_packet d.pkt) ∷ []) d) in
        let (out, run) = receive_loop_returns e answers last start s in
        rw (taken, room, run) (_, refl)
  ]
]

module _ {P S : Type 0} where
  -- What `demux` and `decode` need: an input, a packet and a codec context.
  abbrev pub IsReady : Device P S → Type 0
  IsReady v =
      (f : ℕ) × (p : ℕ) × (c : Codec) × (v.impl.fmt_ctx ≡ some f)
      × (v.impl.pkt ≡ some p)
      × (v.impl.codec_ctx ≡ some c)

  -- Calls of `demux` and `decode` that return, and what the callbacks have done to their owner by
  -- then.
  pub data Uses (e : ErrorCodes) (v : Device P S) (s : S) : Device P S → S → Type 0 where
    here : Uses e v s v s
    demuxes :
        {v' : Device P S} {s' : S} {out : ℤ × Device P S × S} (a : ReadAnswer) (sizes : List ℕ)
        → Uses e v s v' s'
        → demux_device e a sizes v' s' ≡ some out
        → Uses e v s out.1 out.2
    decodes :
        {v' : Device P S} {s' : S} {out : ℤ × Device P S × S} (sent : ℤ) (has_frame : Bool)
        (answers : List Received) (t2 : Timeval)
        → Uses e v s v' s'
        → decode_device e sent has_frame answers t2 v' s' ≡ some out
        → Uses e v s out.1 out.2

  -- The objects of FFmpeg and the callbacks are the same.
  abbrev pub SameParts : Device P S → Device P S → Type 0
  SameParts v' v = (v'.impl ≡ v.impl) × (v'.callbacks ≡ v.callbacks)

  pub demux_device-SameParts :
      (e : ErrorCodes) (a : ReadAnswer) (sizes : List ℕ) (v : Device P S) (s : S)
      (out : ℤ × Device P S × S)
      → demux_device e a sizes v s ≡ some out
      → SameParts out.1 v
  unfolding demux_device
  demux_device-SameParts e a sizes v s out run =
      let (_, _, run1) = bind_some v.impl.fmt_ctx _ out run in
      let (_, _, run2) = bind_some v.impl.pkt _ out run1 in
      let (_, _, done) = bind_some (read_for v.callbacks sizes s) _ out run2 in
      subst (λ x. SameParts x.1 v) (some_inj done) (refl, refl)

  pub decode_device-SameParts :
      (e : ErrorCodes) (sent : ℤ) (has_frame : Bool) (answers : List Received) (t2 : Timeval)
      (v : Device P S) (s : S) (out : ℤ × Device P S × S)
      → decode_device e sent has_frame answers t2 v s ≡ some out
      → SameParts out.1 v
  unfolding decode_device
  decode_device-SameParts e sent has_frame answers t2 v s out run =
      let (_, _, run1) = bind_some v.impl.codec_ctx _ out run in
      let (_, _, run2) = bind_some v.impl.pkt _ out run1 in
      let (r, _, run3) = bind_some (decode e sent has_frame answers t2 v.counters) _ out run2 in
      let new = drop (length v.counters.calls) r.1.calls in
      let (_, _, done) = bind_some (play v.callbacks new s) _ out run3 in
      subst (λ x. SameParts x.1 v) (some_inj done) (refl, refl)

  Uses-SameParts :
      {e : ErrorCodes} {v : Device P S} {s : S} {v' : Device P S} {s' : S}
      → Uses e v s v' s'
      → SameParts v' v
  Uses-SameParts here = (refl, refl)
  Uses-SameParts {e} (demuxes {v'} {s'} {out} a sizes u run) =
      let (impl, callbacks) = demux_device-SameParts e a sizes v' s' out run in
      let (impl', callbacks') = Uses-SameParts u in (impl ∙ impl', callbacks ∙ callbacks')
  Uses-SameParts {e} (decodes {v'} {s'} {out} sent has_frame answers t2 u run) =
      let (impl, callbacks) = decode_device-SameParts e sent has_frame answers t2 v' s' out run in
      let (impl', callbacks') = Uses-SameParts u in (impl ∙ impl', callbacks ∙ callbacks')

  -- Callbacks that return whatever they are called with.
  abbrev pub Return : CbReadPkt P S → CbRecvFrame P S → Type 0
  Return reads gets =
      ((param : Option P) (size : ℕ) (s : S)
        → (out : ℤ × List ℕ × S) × (reads param size s ≡ some out))
      × ((param : Option P) (frame : Frame) (s : S)
          → (out : ℤ × S) × (gets param frame s ≡ some out))

  read_for_returns :
      (reads : CbReadPkt P S) (gets : CbRecvFrame P S) (c : Callbacks P S) (sizes : List ℕ) (s : S)
      → c.cb_read_pkt ≡ some reads
      → Return reads gets
      → (s' : S) × (read_for c sizes s ≡ some s')
  unfolding read_for read_pkt
  read_for_returns reads gets c [] s is_set total = (s, refl)
  read_for_returns reads gets c (size ∷ sizes) s is_set total =
      let (out, called) = total.0 c.read_pkt_param size s in
      let (s', run) = read_for_returns reads gets c sizes out.2 is_set total in
      (s', rw (is_set, called) run)

  play_returns :
      (reads : CbReadPkt P S) (gets : CbRecvFrame P S) (c : Callbacks P S) (calls : List Call)
      (s : S)
      → c.cb_recv_frame ≡ some gets
      → Return reads gets
      → (s' : S) × (play c calls s ≡ some s')
  unfolding play
  play_returns reads gets c [] s is_set total = (s, refl)
  play_returns reads gets c (delivers f ∷ calls) s is_set total =
      let (out, called) = total.1 c.recv_frame_param f s in
      let (s', run) = play_returns reads gets c calls out.1 is_set total in
      (s', rw (is_set, called) run)
  play_returns reads gets c (_ ∷ calls) s is_set total =
      play_returns reads gets c calls s is_set total

  ready_returns :
      (e : ErrorCodes) (v : Device P S) (s : S) (reads : CbReadPkt P S) (gets : CbRecvFrame P S)
      (a : ReadAnswer) (sizes : List ℕ) (sent : ℤ) (has_frame : Bool) (answers : List Received)
      (last : Received) (t2 : Timeval)
      → IsReady v
      → v.callbacks.cb_read_pkt ≡ some reads
      → v.callbacks.cb_recv_frame ≡ some gets
      → Return reads gets
      → stop answers ≡ some last
      → ((out : ℤ × Device P S × S) × (demux_device e a sizes v s ≡ some out))
        × ((out : ℤ × Device P S × S) × (decode_device e sent has_frame answers t2 v s ≡ some out))
  unfolding demux_device decode_device
  ready_returns e v s reads gets a sizes sent has_frame answers last t2 (f, p, c, fmt, pkt, codec)
        reads_is gets_is total stops =
      let (r, run) = decode_returns e sent has_frame answers last t2 v.counters stops in
      let (s1, read) = read_for_returns reads gets v.callbacks sizes s reads_is total in
      let new = drop (length v.counters.calls) r.1.calls in
      let (s2, played) = play_returns reads gets v.callbacks new s gets_is total in
      (
        (
          _,
          bind_of v.impl.fmt_ctx _ f _ fmt (
              bind_of v.impl.pkt _ p _ pkt
                (bind_of (read_for v.callbacks sizes s) _ s1 _ read refl)),
        ),
        (
          _,
          bind_of v.impl.codec_ctx _ c _ codec (
              bind_of v.impl.pkt _ p _ pkt (
                bind_of (decode e sent has_frame answers t2 v.counters) _ r _ run
                  (bind_of (play v.callbacks new s) _ s2 _ played refl))),
        ),
      )

  pub init_device_success :
      (a : InitAnswers) (mem : ℕ) (v : Device P S)
      → (init a mem v).0 ≡ pos 0
      → (f : ℕ) × (p : ℕ) × ((init a mem v).1.impl.fmt_ctx ≡ some f)
        × ((init a mem v).1.impl.pkt ≡ some p)
        × ((init a mem v).1.memused_before_open ≡ mem)
  unfolding init
  init_device_success a mem v good =
      let (f, p, fmt, pkt) = init_success a.fmt a.buffer a.io a.pkt v.impl good in
      rw good (f, p, fmt, pkt, refl)

  -- What a successful `open` leaves of the class.
  abbrev pub IsOpenedDevice : OpenAnswers → ℕ → ℕ → Device P S → Device P S → Type 0
  IsOpenedDevice b mem f v v' =
      IsOpened b f v.impl.pkt v'.impl
      × (v'.counters.stream_idx ≡ v'.impl.stream_idx)
      × (v'.memused_before_open ≡ v.memused_before_open)
      × (v'.memused_before_dec ≡ mem)
      × (v'.callbacks ≡ v.callbacks)

  pub open_device-IsOpenedDevice :
      (e : ErrorCodes) (cfg : Settings) (b : OpenAnswers) (sizes : List ℕ) (mem f : ℕ)
      (v v' : Device P S) (s s' : S)
      → v.impl.fmt_ctx ≡ some f
      → open_device e cfg b sizes mem v s ≡ some (pos 0, v', s')
      → IsOpenedDevice b mem f v v'
  unfolding open_device
  open_device-IsOpenedDevice e cfg b sizes mem f v v' s s' fmt run =
      let (r, opened, run1) = bind_some (stream_open e cfg b v.impl) _ (pos 0, v', s') run in
      let (s1, _, done) = bind_some (read_for v.callbacks sizes s) _ (pos 0, v', s') run1 in
      let same = some_inj done in
      let success : stream_open e cfg b v.impl ≡ some (pos 0, r.1) =
        opened ∙ ap (λ (o : ℤ × Device P S × S). some (o.0, r.1)) same in
      subst (λ (o : ℤ × Device P S × S). IsOpenedDevice b mem f v o.1) same
        (stream_open_success e cfg b f v.impl r.1 fmt success, refl, refl, refl, refl)

  -- The two setters.
  abbrev pub calling : CbReadPkt P S → CbRecvFrame P S → P → Device P S → Device P S
  calling reads gets param v = record v {
    callbacks = (set_cb_recv_frame gets param (set_cb_read_pkt reads param v.callbacks).1).1;
  }

-- After `init` of a new decoder has succeeded, both callbacks were set, `open` has succeeded, and
-- any calls of `demux` and `decode` have returned, where the callbacks return whatever they are
-- called with: `demux` returns, `decode` returns where one of the codec's answers is not 0, and
-- neither meets a NULL input, packet or codec or a callback without a value; the width and the
-- height are those of the video in 16 bits. `open` has chosen the first video stream, and the two
-- marks were the memory in use at the end of `init` and of `open`.
pub opened_returns :
    {P S : Type 0} (live : List ℕ) (a : InitAnswers) (mem mem' : ℕ) (e : ErrorCodes)
    (cfg : Settings) (b : OpenAnswers) (reads : CbReadPkt P S) (gets : CbRecvFrame P S) (param : P)
    (sizes sizes' : List ℕ) (s s1 s' : S) (v v' : Device P S) (r : ReadAnswer) (sent : ℤ)
    (has_frame : Bool) (answers : List Received) (last : Received) (t2 : Timeval)
    → let dc = (init {P = P} {S = S} a mem (new_device live)).1 in
      (init {P = P} {S = S} a mem (new_device live)).0 ≡ pos 0
      → open_device e cfg b sizes mem' (calling reads gets param dc) s ≡ some (pos 0, v, s1)
      → Uses e v s1 v' s'
      → Return reads gets
      → stop answers ≡ some last
      → ((out : ℤ × Device P S × S) × (demux_device e r sizes' v' s' ≡ some out))
        × ((out : ℤ × Device P S × S) × (decode_device e sent has_frame answers t2 v' s'
              ≡ some out))
        × (get_width v' ≡ b.width % u16_mod)
        × (get_height v' ≡ b.height % u16_mod)
        × ((i : ℕ) × (v.counters.stream_idx ≡ pos i) × IsFirstVideo i b.streams)
        × (v.memused_before_open ≡ mem)
        × (v.memused_before_dec ≡ mem')
unfolding set_cb_recv_frame set_cb_read_pkt
opened_returns {P} {S} live a mem mem' e cfg b reads gets param sizes sizes' s s1 s' v v' r sent
      has_frame answers last t2 made opened uses total stops =
    let dc = (init {P = P} {S = S} a mem (new_device live)).1 in
    let (f, p, fmt, pkt, mark) = init_device_success a mem (new_device live) made in
    let ((c, i, codec, fmt', pkt', idx, first, w, h), same, before, dec, cbs) =
      open_device-IsOpenedDevice e cfg b sizes mem' f (calling reads gets param dc) v s s1 fmt
        opened in
    let (kept, kept_cbs) = Uses-SameParts uses in
    let callbacks = kept_cbs ∙ cbs in
    let ready : IsReady v' = (
      f,
      p,
      c,
      ap (λ x. x.fmt_ctx) kept ∙ fmt',
      ap (λ x. x.pkt) kept ∙ pkt' ∙ pkt,
      ap (λ x. x.codec_ctx) kept ∙ codec,
    ) in
    let (demuxed, decoded) =
      ready_returns e v' s' reads gets r sizes' sent has_frame answers last t2 ready
        (ap (λ x. x.cb_read_pkt) callbacks) (ap (λ x. x.cb_recv_frame) callbacks) total stops in
    (
      demuxed,
      decoded,
      ap (λ x. x.width) kept ∙ w,
      ap (λ x. x.height) kept ∙ h,
      (i, same ∙ idx, first),
      before ∙ mark,
      dec,
    )
