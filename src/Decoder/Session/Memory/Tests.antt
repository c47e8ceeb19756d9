-- ===== src/Decoder/Session/Memory/Tests.antt =====
-- A session of one packet with a small heap, on which the theorem about the counters of memory of
-- src/Decoder.hpp applies.
use ff_test.Base.{◌+◌, ◌%◌, ◌≡◌, refl, true, some, [], ◌∷◌, u32_mod}
use ff_test.Base.Int.{ℤ, pos, negsuc}
use ff_test.Decoder.State.{Decoder}
use ff_test.Decoder.Demux.{ReadAnswer, demux}
use ff_test.Decoder.Decode.{Received, decode, receive_loop, finish}
use ff_test.Decoder.Samples.{codes, now, read, receives}
use ff_test.Decoder.Session.{opened}
use ff_test.Mem.History.{here}
use ff_test.Mem.Blocks.{total}
use ff_test.Mem.Samples.{second_block, first_malloc, second_malloc, first_free}
use ff_test.Decoder.Session.Memory.{
  Sums, no_sums, add_read, add_receives, Session, opens, demuxes, decodes, stops, goes_on,
}
use ff_test.Decoder.Session.Memory.Measured.{Session-counts}

-- The read allocates the second block, and the codec frees the first while it gives a frame.
abbrev measured_read : ReadAnswer
measured_read = record read { mem_before = 100; mem_after = 120 }

abbrev ready : Received
ready = record (receives (pos 0)) { mem_before = 120; mem_after = 20 }

abbrev nothing_more : Received
nothing_more = record (receives (negsuc 10)) { mem_before = 20; mem_after = 20 }

abbrev demuxed : Decoder
demuxed = (demux codes measured_read (opened (pos 0) 100)).1

decoding :
    (r : ℤ × Decoder) × (decode codes (pos 0) true (ready ∷ nothing_more ∷ []) now demuxed ≡ some r)
unfolding decode receive_loop finish
decoding = (_, refl)

abbrev sums : Sums
sums = add_receives 140 40 (add_read ((4096, 100) ∷ []) ((1024, 20) ∷ (4096, 100) ∷ []) no_sums)

measured : Session codes ((1024, 20) ∷ []) second_block decoding.0.1 sums
measured =
    decodes (pos 0) now
      (demuxes measured_read (opens (pos 0) first_malloc) here second_malloc refl refl) here
      (goes_on ready here first_free refl refl refl (stops nothing_more here here refl refl refl))
      refl decoding.1

Session-counts_example :
    (decoding.0.1.mem_used ≡ total ((1024, 20) ∷ []) % u32_mod)
    × ((decoding.0.1.mem_demux + sums.before_reads) % u32_mod ≡ sums.after_reads % u32_mod)
    × ((decoding.0.1.mem_frm + sums.before_receives) % u32_mod ≡ sums.after_receives % u32_mod)
Session-counts_example =
    Session-counts codes ((1024, 20) ∷ []) second_block decoding.0.1 sums measured
