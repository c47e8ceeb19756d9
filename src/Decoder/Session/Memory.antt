-- ===== src/Decoder/Session/Memory.antt =====
-- A session with a decoder of src/Decoder.cpp whose memory is that of src/ff_mem.cpp: what the
-- counters `mem_demux` and `mem_frm` of src/Decoder.hpp measure.
pub mod Measured
mod Tests
use ff_test.Base.{
  ℕ, ◌+◌, ◌-◌, ◌%◌, ◌≡◌, refl, sym, ◌∙◌, ap, inl, inr, Bool, true, false, Option, none, some, List,
  [], ◌∷◌, Bool-cases, Option-cases, some_inj, some_snd, subst, arith, u32_mod, ◌⊎◌,
}
use ff_test.Base.Int.{ℤ, is_negative, is_zero, eqb, zero-ne-negative}
use ff_test.Utils.{Timeval}
use ff_test.Av.{ErrorCodes}
use ff_test.Decoder.State.{Decoder, grow}
use ff_test.Decoder.Demux.{ReadAnswer, demux}
use ff_test.Decoder.Decode.{
  Received, Exit, idle, drained, failed, measure, deliver, receive_loop, finish, decode,
}
use ff_test.Decoder.Session.{opened}
use ff_test.Mem.{Memory}
use ff_test.Mem.Blocks.{Granted, total}
use ff_test.Mem.History.{Reach, initial}
use ff_test.Mem.Tracked.{used, IsTracked, Reach-IsTracked, initial-IsTracked, used-total}

-- The sizes that were asked for, of the blocks that are live before and after every measured call,
-- added up: of `av_read_frame` and of `avcodec_receive_frame`.
pub record Sums : Type 0 where
  pub before_reads : ℕ
  pub after_reads : ℕ
  pub before_receives : ℕ
  pub after_receives : ℕ

abbrev pub no_sums : Sums
no_sums = record { before_reads = 0; after_reads = 0; before_receives = 0; after_receives = 0 }

abbrev pub add_read : Granted → Granted → Sums → Sums
add_read g g' s = record s {
  before_reads = s.before_reads + total g;
  after_reads = s.after_reads + total g';
}

abbrev pub add_receives : ℕ → ℕ → Sums → Sums
add_receives before after s = record s {
  before_receives = s.before_receives + before;
  after_receives = s.after_receives + after;
}

-- The answers of the codec to one `decode`: 0 for each ready frame and then another, each with the
-- calls of the allocator before and during `avcodec_receive_frame`, and the two sums.
pub data Receives : Granted → Memory → List Received → ℕ → ℕ → Granted → Memory → Type 0 where
  stops :
      {g g1 g2 : Granted} {m m1 m2 : Memory} (a : Received)
      → Reach g m g1 m1
      → Reach g1 m1 g2 m2
      → a.mem_before ≡ used m1
      → a.mem_after ≡ used m2
      → is_zero a.ret ≡ false
      → Receives g m (a ∷ []) (total g1) (total g2) g2 m2
  goes_on :
      {g g1 g2 g' : Granted} {m m1 m2 m' : Memory} {later : List Received} {before after : ℕ}
      (a : Received)
      → Reach g m g1 m1
      → Reach g1 m1 g2 m2
      → a.mem_before ≡ used m1
      → a.mem_after ≡ used m2
      → is_zero a.ret ≡ true
      → Receives g2 m2 later before after g' m'
      → Receives g m (a ∷ later) (total g1 + before) (total g2 + after) g' m'

-- `init` and `open`, then calls of `demux` and `decode`; FFmpeg calls the allocator in them and the
-- program in between.
pub data Session (e : ErrorCodes) : Granted → Memory → Decoder → Sums → Type 0 where
  opens :
      {g : Granted} {m : Memory} (stream_idx : ℤ)
      → Reach [] initial g m
      → Session e g m (opened stream_idx (used m)) no_sums
  allocates :
      {g g' : Granted} {m m' : Memory} {d : Decoder} {s : Sums}
      → Session e g m d s
      → Reach g m g' m'
      → Session e g' m' (record d { mem_used = used m' }) s
  demuxes :
      {g g1 g2 : Granted} {m m1 m2 : Memory} {d : Decoder} {s : Sums} (a : ReadAnswer)
      → Session e g m d s
      → Reach g m g1 m1
      → Reach g1 m1 g2 m2
      → a.mem_before ≡ used m1
      → a.mem_after ≡ used m2
      → Session e g2 m2 (demux e a d).1 (add_read g1 g2 s)
  refuses :
      {g : Granted} {m : Memory} {d : Decoder} {s : Sums} {r : ℤ × Decoder} (sent : ℤ)
      (has_frame : Bool) (t2 : Timeval)
      → Session e g m d s
      → (is_negative sent ≡ true) ⊎ (has_frame ≡ false)
      → decode e sent has_frame [] t2 d ≡ some r
      → Session e g m r.1 s
  decodes :
      {g g1 g' : Granted} {m m1 m' : Memory} {d : Decoder} {s : Sums} {answers : List Received}
      {before after : ℕ} {r : ℤ × Decoder} (sent : ℤ) (t2 : Timeval)
      → Session e g m d s
      → Reach g m g1 m1
      → Receives g1 m1 answers before after g' m'
      → is_negative sent ≡ false
      → decode e sent true answers t2 d ≡ some r
      → Session e g' m' r.1 (add_receives before after s)
