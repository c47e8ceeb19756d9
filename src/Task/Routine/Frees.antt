-- ===== src/Task/Routine/Frees.antt =====
-- What `decode_routine` of src/Task.cpp leaves behind, whatever it meets.
use ff_test.Base.{
  ℕ, suc, zero, ◌≡◌, ◌≢◌, refl, sym, ◌∙◌, ap, inl, inr, Bool, if◌then◌else◌, Option, none, some,
  List, [], ◌∷◌, Bool-cases, bind_some, some_inj, some_snd, subst, ◌||◌, ◌>>=◌,
}
use ff_test.Base.Int.{ℤ, is_negative, is_zero, eqb}
use ff_test.Base.Handles.{Same, count}
use ff_test.Base.Text.{Text, is_empty}
use ff_test.Av.{ErrorCodes}
use ff_test.File.{MFile, unnamed, create}
use ff_test.File.History
use ff_test.File.History.{kept_open, Life-destroy}
use ff_test.Decoder.Lifecycle.Life.{lost_buffer}
use ff_test.Decoder.Lifecycle.Lifetime
use ff_test.Decoder.Lifecycle.Lifetime.{destroy-Life}
use ff_test.Decoder.State.{dec_ok, dec_eof}
use ff_test.Decoder.Device.{new_device, init, open_device, demux_device, decode_device}
use ff_test.Decoder.Device.Ready.{demux_device-SameParts, decode_device-SameParts}
use ff_test.Task.{output_file_create, get_file_name}
use ff_test.Task.Routine.{
  Shared, Pointer, with_callbacks, Turn, Playing, decode_turn, play_turn, decode_loop, Script,
  create_output, open_and_decode, report, World, leave, decode_routine,
}
use ff_test.Task.Routine.Closing.{closing_lem, init-Life, open_device-Life}

decode_turn-impl :
    (e : ErrorCodes) (t : Turn) (p : Playing) (out : ℤ × Playing)
    → decode_turn e t p ≡ some out
    → out.1.dc.impl ≡ p.dc.impl
unfolding decode_turn
decode_turn-impl e t p out run =
    let (r, decoded, done) =
      bind_some (decode_device e t.sent t.has_frame t.answers t.end_time p.dc p.shared) _ out run in
    ap (λ x. x.1.dc.impl) (sym (some_inj done))
    ∙ (decode_device-SameParts e t.sent t.has_frame t.answers t.end_time p.dc p.shared r decoded).0

play_turn-impl :
    (e : ErrorCodes) (t : Turn) (p : Playing) (out : Bool × Playing)
    → play_turn e t p ≡ some out
    → out.1.dc.impl ≡ p.dc.impl
unfolding play_turn
play_turn-impl e t p out run =
    let (r, demuxed, run') = bind_some (demux_device e t.read t.reads p.dc p.shared) _ out run in
    let at_demux = (demux_device-SameParts e t.read t.reads p.dc p.shared r demuxed).0 in
    let p' : Playing = record { dc = r.1; shared = r.2 } in
    elim (Bool-cases (eqb r.0 dec_ok || eqb r.0 dec_eof)) [
      | inl fed ↦
          let (q, decoded, done) = bind_some (decode_turn e t p') _ out (rw fed at run') in
          ap (λ x. x.1.dc.impl) (sym (some_inj done)) ∙ decode_turn-impl e t p' q decoded ∙ at_demux
      | inr unfed ↦ ap (λ x. x.1.dc.impl) (sym (some_inj (rw unfed at run'))) ∙ at_demux
    ]

decode_loop-impl :
    (e : ErrorCodes) (turns : List Turn) (p p' : Playing)
    → decode_loop e turns p ≡ some p'
    → p'.dc.impl ≡ p.dc.impl
unfolding decode_loop
decode_loop-impl e [] p p' run = cc
decode_loop-impl e (t ∷ later) p p' run = elim (Bool-cases t.exit) [
  | inl exit ↦ ap (λ x. x.dc.impl) (sym (some_inj (rw exit at run)))
  | inr on ↦
      let rest : Bool × Playing → Option Playing =
        λ x. if x.0 then decode_loop e later x.1 else some x.1 in
      let run' : (play_turn e t p >>= rest) ≡ some p' =
        sym (ap (λ b. if b then some p else (play_turn e t p >>= rest)) on) ∙ run in
      let (r, played, run'') = bind_some (play_turn e t p) rest p' run' in
      let at_turn = play_turn-impl e t p r played in
      elim (Bool-cases r.0) [
        | inl goes_on ↦ decode_loop-impl e later r.1 p' (rw goes_on at run'') ∙ at_turn
        | inr leaves ↦ ap (λ x. x.dc.impl) (sym (some_inj (rw leaves at run''))) ∙ at_turn
      ]
]

-- The output file, created or not; it is not the descriptor 0.
abbrev IsOutput : List ℕ → MFile → List ℕ → Type 0
IsOutput fds f fds' = History.Life fds f fds' × (kept_open f.fd fds ≡ fds)

-- The descriptor 0 is taken.
abbrev pub NotZero : Script → Type 0
NotZero x = (path : Text) → x.opened path ≢ some 0

unnamed-IsOutput : (fds : List ℕ) → IsOutput fds unnamed fds
unfolding unnamed
unnamed-IsOutput fds = (History.news fds, refl)

create-IsOutput :
    (o : Option ℕ) (fds : List ℕ)
    → o ≢ some 0
    → IsOutput fds (create o unnamed fds).1 (create o unnamed fds).2
unfolding unnamed create
create-IsOutput none fds used = (History.creates none (History.news fds), refl)
create-IsOutput (some zero) fds used = absurd (used refl)
create-IsOutput (some (suc n)) fds used = (History.creates (some (suc n)) (History.news fds), refl)

output_file_create-IsOutput :
    (x : Script) (w h : ℕ) (fds : List ℕ)
    → NotZero x
    → let r = output_file_create x.opened x.output_path x.core_id unnamed x.path w h fds in
      IsOutput fds r.1 r.2
unfolding output_file_create
output_file_create-IsOutput x w h fds used =
    elim (Bool-cases (is_empty (get_file_name x.path) || is_empty x.output_path)) [
      | inl bare ↦ rw bare (unnamed-IsOutput fds)
      | inr named ↦ rw named (create-IsOutput _ fds (used _))
    ]

pub create_output-IsOutput :
    (x : Script) (p : Playing) (fds : List ℕ)
    → NotZero x
    → let (p', fout, fds') = create_output x p unnamed fds in
      IsOutput fds fout fds' × (p'.dc ≡ p.dc)
unfolding create_output
create_output-IsOutput x p fds used =
    let made = output_file_create-IsOutput x p.dc.impl.width p.dc.impl.height fds used in
    let r =
      output_file_create x.opened x.output_path x.core_id unnamed x.path p.dc.impl.width
        p.dc.impl.height fds in
    elim (Bool-cases (is_empty x.output_path)) [
      | inl none_wanted ↦ rw none_wanted (unnamed-IsOutput fds, refl)
      | inr wanted ↦ elim (Bool-cases (is_zero r.0)) [
        | inl good ↦ rw (wanted, good) (made, refl)
        | inr bad ↦ rw (wanted, bad) (made, refl)
      ]
    ]

-- The block `do ... while (0)` from a decoder after `init`.
open_and_decode-Life :
    (e : ErrorCodes) (x : Script) (p : Playing) (rest fds : List ℕ) (out : Playing × MFile × List ℕ)
    → open_and_decode e x p unnamed fds ≡ some out
    → Lifetime.Life rest p.dc.impl
    → p.dc.impl.codec_ctx ≡ none
    → NotZero x
    → Lifetime.Life rest out.0.dc.impl × (out.0.dc.impl.pb ≡ none) × IsOutput fds out.1 out.2
unfolding open_and_decode
open_and_decode-Life e x p rest fds out run life no_codec used =
    let (r, opened, run') =
      bind_some (open_device e x.cfg x.open_answers x.open_reads x.open_mem p.dc p.shared) _ out
        run in
    let p' : Playing = record { dc = r.1; shared = r.2 } in
    let (life', unplugged) =
      open_device-Life e x.cfg x.open_answers x.open_reads x.open_mem rest p.dc p.shared r opened
        life no_codec in
    elim (Bool-cases (is_zero r.0)) [
      | inr bad ↦
          subst
            (λ o. Lifetime.Life rest o.0.dc.impl × (o.0.dc.impl.pb ≡ none) × IsOutput fds o.1 o.2)
            (some_inj (rw bad at run')) (life', unplugged, unnamed-IsOutput fds)
      | inl good ↦
          let (flife, same) = create_output-IsOutput x p' fds used in
          let c = create_output x p' unnamed fds in
          let (q, played, done) = bind_some (decode_loop e x.turns c.0) _ out (rw good at run') in
          let kept = decode_loop-impl e x.turns c.0 q played ∙ ap (λ d. d.impl) same in
          subst
            (λ o. Lifetime.Life rest o.0.dc.impl × (o.0.dc.impl.pb ≡ none) × IsOutput fds o.1 o.2)
            (some_inj done)
            (subst (Lifetime.Life rest) (sym kept) life', ap (λ d. d.pb) kept ∙ unplugged, flife)
    ]

abbrev pub IsFreed : Script → World → World → Type 0
IsFreed x w w' = Same w'.live (lost_buffer x.init w.live) × Same w'.open_fds w.open_fds

leave-IsFreed :
    (x : Script) (w w' : World) (numbers : List ℕ) (printed : Option (List ℕ)) (done : Playing)
    (fout : MFile) (fds : List ℕ)
    → Lifetime.Life (lost_buffer x.init w.live) done.dc.impl
    → done.dc.impl.pb ≡ none
    → IsOutput w.open_fds fout fds
    → leave numbers done fout fds ≡ some (printed, w')
    → IsFreed x w w'
unfolding leave
leave-IsFreed x w w' numbers printed done fout fds life unplugged (flife, kept) run =
    let (dc', fds', live, released, closed, destroyed, same, same_fds) =
      closing_lem done.dc (lost_buffer x.init w.live) fout fds w.open_fds life unplugged flife in
    subst (IsFreed x w) (some_snd (rw (released, closed, destroyed) at run))
      (same, λ k. same_fds k ∙ ap (count k) kept)

-- Whatever FFmpeg and the system answer, where the system never gives out the descriptor 0, and
-- wherever the routine leaves its loop: once it has returned, which it does not when
-- `av_packet_alloc` fails (what `release` does then is undefined), live of FFmpeg are the objects
-- of others, and the input buffer that `init` loses when `avio_alloc_context` fails; and the
-- process has the same descriptors open as before.
pub decode_routine_frees :
    (e : ErrorCodes) (x : Script) (w w' : World) (printed : Option (List ℕ))
    → decode_routine e x w ≡ some (printed, w')
    → NotZero x
    → Same w'.live (lost_buffer x.init w.live) × Same w'.open_fds w.open_fds
unfolding decode_routine with_callbacks
decode_routine_frees e x w w' printed run used =
    let r = init {P = Pointer} {S = Shared} x.init x.init_mem (new_device w.live) in
    let (life, no_codec) = init-Life x.init x.init_mem w.live in
    elim (Bool-cases (is_negative r.0)) [
      | inl bad ↦
          let (fds, closed, same_fds) =
            Life-destroy w.open_fds unnamed w.open_fds (History.news w.open_fds) in
          elim (destroy-Life (lost_buffer x.init w.live) r.1.impl life) [
            | inr (b, _, _, lost) ↦ cc (rw (bad, closed, lost) at run)
            | inl (_, (live, _, _, destroyed, _, _, same, _)) ↦
                subst (IsFreed x w) (some_snd (rw (bad, closed, destroyed) at run))
                  (same, λ k. same_fds k ∙ ap (count k) ((unnamed-IsOutput w.open_fds).1))
          ]
      | inr good ↦
          let p : Playing = record { dc = with_callbacks x.sys r.1; shared = w.shared } in
          let (out, played, run1) =
            bind_some (open_and_decode e x p unnamed w.open_fds) _ _ (rw good at run) in
          let (numbers, _, run2) = bind_some (report x out.0.dc) _ _ run1 in
          let (life', unplugged, (flife, kept)) =
            open_and_decode-Life e x p (lost_buffer x.init w.live) w.open_fds out played life
              no_codec used in
          leave-IsFreed x w w' numbers printed out.0 out.1 out.2 life' unplugged (flife, kept) run2
    ]
