-- ===== src/Decoder/Session.antt =====
-- Sessions with a decoder of src/Decoder.cpp: the calls of `demux` and `decode` that its owner
-- makes after `open`, in any order and with any answers of FFmpeg.
pub mod Keeps
pub mod Counters
pub mod Stream
pub mod Times
pub mod Packets
pub mod Memory
mod Tests
use ff_test.Base.{ℕ, Bool, Option, some, List, [], ◌∷◌, ◌++◌, ◌≡◌}
use ff_test.Base.Int.{ℤ}
use ff_test.Utils.{Timeval}
use ff_test.Av.{ErrorCodes, Frame}
use ff_test.Decoder.State.{Decoder, Call, delivers, new_decoder}
use ff_test.Decoder.Demux.{ReadAnswer, demux}
use ff_test.Decoder.Decode.{Received, decode}

-- A call that returns.
pub data Step (e : ErrorCodes) (d : Decoder) : Decoder → Type 0 where
  demuxes : (a : ReadAnswer) → Step e d (demux e a d).1
  decodes :
      (sent : ℤ) (has_frame : Bool) (answers : List Received) (t2 : Timeval) {r : ℤ × Decoder}
      → decode e sent has_frame answers t2 d ≡ some r
      → Step e d r.1

pub data Run (e : ErrorCodes) (d : Decoder) : Decoder → Type 0 where
  here : Run e d d
  then_step : {d' d'' : Decoder} → Run e d d' → Step e d' d'' → Run e d d''

-- The frames that were handed to the callback, in order.
abbrev pub delivered : List Call → List Frame
delivered [] = []
delivered (delivers f ∷ cs) = f ∷ delivered cs
delivered (_ ∷ cs) = delivered cs

-- A new decoder after `init` and `open`, which have chosen the stream and used some memory.
abbrev pub opened : ℤ → ℕ → Decoder
opened stream_idx mem_used = record new_decoder { stream_idx = stream_idx; mem_used = mem_used }
