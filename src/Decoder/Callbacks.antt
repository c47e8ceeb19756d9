-- ===== src/Decoder/Callbacks.antt =====
-- The callbacks of a decoder of src/Decoder.cpp, and what its calls do to the state of its owner.
use ff_test.Base.{ℕ, Option, none, some, List, [], ◌∷◌, ◌>>=◌}
use ff_test.Base.Int.{ℤ, pos}
use ff_test.Av.{Frame}
use ff_test.Decoder.State.{Call, delivers}

-- `cb_read_pkt` and `cb_recv_frame`, over parameters `P` and a state `S` of the owner. A callback
-- gets what `get_read_pkt_param` or `get_recv_frame_param` answers for the decoder that it is
-- given; the first answers a number and the bytes that it puts into the buffer.
abbrev pub CbReadPkt : Type 0 → Type 0 → Type 0
CbReadPkt P S = Option P → ℕ → S → Option (ℤ × List ℕ × S)

abbrev pub CbRecvFrame : Type 0 → Type 0 → Type 0
CbRecvFrame P S = Option P → Frame → S → Option (ℤ × S)

-- The fields `m_cb_read_pkt` and `m_cb_recv_frame` with their parameters; `none` has no value.
pub record Callbacks (P S : Type 0) : Type 0 where
  pub cb_read_pkt : Option (CbReadPkt P S)
  pub read_pkt_param : Option P
  pub cb_recv_frame : Option (CbRecvFrame P S)
  pub recv_frame_param : Option P

module _ {P S : Type 0} where
  -- The constructor sets none of them.
  abbrev pub no_callbacks : Callbacks P S
  no_callbacks = record {
    cb_read_pkt = none;
    read_pkt_param = none;
    cb_recv_frame = none;
    recv_frame_param = none;
  }

  unfoldable pub set_cb_read_pkt : CbReadPkt P S → P → Callbacks P S → ℤ × Callbacks P S
  set_cb_read_pkt fn param c =
      (pos 0, record c { cb_read_pkt = some fn; read_pkt_param = some param })

  unfoldable pub set_cb_recv_frame : CbRecvFrame P S → P → Callbacks P S → ℤ × Callbacks P S
  set_cb_recv_frame fn param c =
      (pos 0, record c { cb_recv_frame = some fn; recv_frame_param = some param })

  abbrev pub get_read_pkt_param : Callbacks P S → Option P
  get_read_pkt_param c = c.read_pkt_param

  abbrev pub get_recv_frame_param : Callbacks P S → Option P
  get_recv_frame_param c = c.recv_frame_param

  -- `Decoder::__read_pkt`, which FFmpeg calls; a callback without a value cannot be called.
  unfoldable pub read_pkt : Callbacks P S → ℕ → S → Option (ℤ × List ℕ × S)
  read_pkt c size s = do cb ← c.cb_read_pkt; cb (get_read_pkt_param c) size s

  -- FFmpeg's calls of `__read_pkt`, one for each number of bytes that it asks for, in order.
  unfoldable pub read_for : Callbacks P S → List ℕ → S → Option S
  unfolding read_pkt
  read_for c [] s = some s
  read_for c (size ∷ sizes) s = do (ret, bytes, s') ← read_pkt c size s; read_for c sizes s'

  -- What the calls that `decode` has made do to the owner's state: `m_cb_recv_frame(m_decoder,
  -- frame)` for each frame, in order.
  unfoldable pub play : Callbacks P S → List Call → S → Option S
  play c [] s = some s
  play c (delivers f ∷ calls) s = do
    cb ← c.cb_recv_frame
    r ← cb (get_recv_frame_param c) f s
    play c calls r.1
  play c (_ ∷ calls) s = play c calls s
