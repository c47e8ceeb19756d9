-- ===== src/Task/Routine/Opened.antt =====
-- The decoder of `decode_routine` in src/Task.cpp once it is open, and what is printed of its
-- counters.
use ff_test.Base.{
  ◌+◌, ◌%◌, ◌∷◌, ◌++◌, arith, length, u32_mod, ℕ, ◌≡◌, refl, sym, ◌∙◌, ap, inl, inr, false, some,
  List, Bool-cases, bind_some, some_inj, subst, ◌==◌,
}
use ff_test.Base.Int.{pos, negsuc, is_negative}
use ff_test.Av.{ErrorCodes, Frame}
use ff_test.Utils.{util_diff_time_us}
use ff_test.Decoder.Lifecycle
use ff_test.Decoder.State.{Decoder}
use ff_test.Decoder.Impl.{created}
use ff_test.Decoder.Session.{Run, opened, here, delivered}
use ff_test.Decoder.Session.Counters.{Run-counts}
use ff_test.Decoder.Callbacks.{set_cb_recv_frame, set_cb_read_pkt, read_for}
use ff_test.Task.Routine.Played.{with_reads, read_for-with_reads}
use ff_test.Decoder.Device.{Device, new_device, init, open_device}
use ff_test.Decoder.Device.Ready.{init_device_success, open_device-IsOpenedDevice}
use ff_test.Task.Routine.{Shared, Pointer, with_callbacks, Script, report}
use ff_test.Task.Routine.Turns.{IsPlaying, HasGrown, with_counters, playing}

-- The decoder after `init` and the two setters, and after `open`, when both succeed.
init_counters :
    (x : Script) (live : List ℕ)
    → let r = init {P = Pointer} {S = Shared} x.init x.init_mem (new_device live) in
      r.1.counters ≡ opened (negsuc 0) x.init_mem
unfolding init new_device
init_counters x live = elim (Bool-cases (is_negative (Lifecycle.init x.init (created live)).0)) [
  | inl bad ↦ rw bad refl
  | inr made ↦ rw made refl
]

opened_counters :
    (e : ErrorCodes) (x : Script) (live : List ℕ) (s s' : Shared) (v : Device Pointer Shared)
    → let r = init {P = Pointer} {S = Shared} x.init x.init_mem (new_device live) in
      open_device e x.cfg x.open_answers x.open_reads x.open_mem (with_callbacks x.sys r.1) s
        ≡ some (pos 0, v, s')
      → opened v.counters.stream_idx x.open_mem ≡ v.counters
unfolding with_callbacks open_device
opened_counters e x live s s' v op =
    let r = init {P = Pointer} {S = Shared} x.init x.init_mem (new_device live) in
    let dc = with_callbacks x.sys r.1 in
    let (out, _, run) =
      bind_some (Lifecycle.stream_open e x.cfg x.open_answers dc.impl) _ (pos 0, v, s') op in
    let (s1, _, done) = bind_some (read_for dc.callbacks x.open_reads s) _ (pos 0, v, s') run in
    let counters : opened out.1.stream_idx x.open_mem ≡ v.counters =
      ap (λ (c : Decoder). record c { mem_used = x.open_mem; stream_idx = out.1.stream_idx })
        (sym (init_counters x live))
      ∙ ap (λ d. d.counters) (ap (λ o. o.1) (some_inj done)) in
    subst (λ i. opened i x.open_mem ≡ v.counters) (ap (λ (c : Decoder). c.stream_idx) counters)
      counters

pub opened-IsPlaying :
    (e : ErrorCodes) (x : Script) (live : List ℕ) (s s' : Shared) (v : Device Pointer Shared)
    → let r = init {P = Pointer} {S = Shared} x.init x.init_mem (new_device live) in
      r.0 ≡ pos 0
      → open_device e x.cfg x.open_answers x.open_reads x.open_mem (with_callbacks x.sys r.1) s
        ≡ some (pos 0, v, s')
      → IsPlaying e x.sys v.counters.stream_idx x.open_mem v
unfolding with_callbacks open_device set_cb_recv_frame set_cb_read_pkt
opened-IsPlaying e x live s s' v made op =
    let r = init {P = Pointer} {S = Shared} x.init x.init_mem (new_device live) in
    let dc = with_callbacks x.sys r.1 in
    let (f, p, fmt, pkt, _) = init_device_success x.init x.init_mem (new_device live) made in
    let ((c, i, codec, fmt', pkt', _, _, _, _), _, _, _, cbs) =
      open_device-IsOpenedDevice e x.cfg x.open_answers x.open_reads x.open_mem f dc v s s' fmt
        op in
    let counters = opened_counters e x live s s' v op in
    record {
      fmt = f;
      pkt = p;
      codec = c;
      fmt_is = fmt';
      pkt_is = pkt' ∙ pkt;
      codec_is = codec;
      reads_is = ap (λ c. c.cb_read_pkt) cbs;
      reads_param = ap (λ c. c.read_pkt_param) cbs;
      cb_is = ap (λ c. c.cb_recv_frame) cbs;
      param_is = ap (λ c. c.recv_frame_param) cbs;
      run = subst (λ d. Run e (opened d.stream_idx x.open_mem) d) counters here;
    }

-- `open` has read some of the input.
pub opened_reads :
    (e : ErrorCodes) (x : Script) (live : List ℕ) (s s' : Shared) (v : Device Pointer Shared)
    → let r = init {P = Pointer} {S = Shared} x.init x.init_mem (new_device live) in
      open_device e x.cfg x.open_answers x.open_reads x.open_mem (with_callbacks x.sys r.1) s
        ≡ some (pos 0, v, s')
      → s' ≡ with_reads x.sys x.open_reads s
unfolding with_callbacks open_device set_cb_recv_frame set_cb_read_pkt
opened_reads e x live s s' v op =
    let r = init {P = Pointer} {S = Shared} x.init x.init_mem (new_device live) in
    let dc = with_callbacks x.sys r.1 in
    let (_, _, run) =
      bind_some (Lifecycle.stream_open e x.cfg x.open_answers dc.impl) _ (pos 0, v, s') op in
    let (s1, read, done) = bind_some (read_for dc.callbacks x.open_reads s) _ (pos 0, v, s') run in
    ap (λ o. o.2) (sym (some_inj done))
    ∙ some_inj (sym read ∙ read_for-with_reads x.sys dc.callbacks x.open_reads s refl refl)

-- What is printed first: the core, the packets that were read and the frames that were decoded.
pub printed_lem :
    (e : ErrorCodes) (x : Script) (live : List ℕ) (s s' : Shared) (v : Device Pointer Shared)
    (d : Decoder) (n : ℕ) (frames : List Frame)
    → let r = init {P = Pointer} {S = Shared} x.init x.init_mem (new_device live) in
      open_device e x.cfg x.open_answers x.open_reads x.open_mem (with_callbacks x.sys r.1) s
        ≡ some (pos 0, v, s')
      → IsPlaying e x.sys v.counters.stream_idx x.open_mem (with_counters v d)
      → HasGrown v.counters d n frames
      → (util_diff_time_us x.t1 x.t2 == 0) ≡ false
      → (more : List ℕ) × (report x (with_counters v d)
          ≡ some (x.core_id ∷ n % u32_mod ∷ length frames % u32_mod ∷ more))
unfolding report
printed_lem e x live s s' v d n frames op playing (count, calls) passed =
    let start = opened_counters e x live s s' v op in
    let (frame_count, _) = Run-counts e v.counters.stream_idx x.open_mem playing.run in
    let printed : (more : List ℕ) × (report x (with_counters v d)
          ≡ some (x.core_id ∷ d.decoded_frame_cnt ∷ d.decode_cnt ∷ more)) =
      rw passed (_, refl) in
    let packets_is : d.decoded_frame_cnt ≡ n % u32_mod =
      count
      ∙ ap (λ (c : Decoder). (c.decoded_frame_cnt + n) % u32_mod) (sym start)
      ∙ ap (λ k. k % u32_mod) (omega arith) in
    let frames_are : delivered d.calls ≡ frames =
      calls ∙ ap (λ (c : Decoder). delivered c.calls ++ frames) (sym start) in
    (
      printed.0,
      printed.1
          ∙ ap (λ k. some (x.core_id ∷ k ∷ d.decode_cnt ∷ printed.0)) packets_is
          ∙ ap (λ k. some (x.core_id ∷ n % u32_mod ∷ k ∷ printed.0))
              (frame_count ∙ ap (λ fs. length fs % u32_mod) frames_are),
    )
