-- ===== src/Decoder/Buffers/GetFrame.antt =====
-- `lavc_GetFrame` of src/Decoder.cpp as a whole: the frame that it gives to the codec.
pub mod Filled
pub mod Held
mod Tests
use ff_test.Base.{
  ℕ, zero, suc, ◌+◌, ◌≤◌, ◌<◌, ◌≡◌, ◌⊎◌, refl, ◌∙◌, inl, inr, Bool, true, false, if◌then◌else◌,
  Option, none, some, List, [], ◌∷◌, arith, ltb, length, get_elem?, Bool-cases, Option-cases,
  some_inj, ◌>>=◌,
}
use ff_test.Base.Int.{ℤ, pos, negsuc, is_negative, is_zero}
use ff_test.Base.Handles.{Same}
use ff_test.Decoder.Buffers.{FramePool, Wanted, Plane, update_frame_pool, unref_planes, get_planes}
use ff_test.Decoder.Buffers.Planes.{plane_handles, lost_memory, IsLeft, get_planes-Same}

-- The addresses of planes that stand in the list last first, before those of `later`.
abbrev pub memories : List Plane → List ℕ → List ℕ
memories [] later = later
memories (p ∷ planes) later = memories planes (p.memory ∷ later)

-- `AV_NUM_DATA_POINTERS`
abbrev pub num_data_pointers : ℕ
num_data_pointers = 8

-- The first `n` pairs of `frame->data[i]` and `frame->linesize[i]` that the two loops leave: a
-- plane's address with the pool's line size, and NULL with 0 behind the planes. A pool has as many
-- line sizes as there can be planes.
pub slots_of : ℕ → List ℕ → List ℕ → List (Option ℕ × ℕ)
slots_of zero addresses linesize = []
slots_of (suc n) [] linesize = (none, 0) ∷ slots_of n [] linesize
slots_of (suc n) (m ∷ addresses) [] = (some m, 0) ∷ slots_of n addresses []
slots_of (suc n) (m ∷ addresses) (l ∷ linesize) = (some m, l) ∷ slots_of n addresses linesize

-- A frame that was given its buffers; `palette` is where a palette was written.
pub record AvFrame : Type 0 where
  pub slots : List (Option ℕ × ℕ)
  pub planes : List Plane
  pub palette : Option ℕ

-- The frame for planes that are there; `paletted` is the test of `desc->flags`. A palette is
-- written to `frame->data[1]`, and NULL there is undefined behaviour.
fill_frame : Bool → List ℕ → List Plane → Option AvFrame
unfolding slots_of
fill_frame paletted linesize planes =
    let addresses = memories planes [] in
    let frame : AvFrame = record {
      slots = slots_of num_data_pointers addresses linesize;
      planes = planes;
      palette = none;
    } in
    if paletted
    then (do second ← get_elem? addresses 1; some (record frame { palette = some second }))
    else some frame

-- `lavc_GetFrame`: its result, the pool, the frame when it was given buffers, and what is live.
pub get_frame :
    ℕ
    → Wanted
    → Bool
    → (ℕ → Option ℕ × Option ℕ)
    → FramePool
    → List ℕ
    → Option (ℤ × FramePool × Option AvFrame × List ℕ)
unfolding update_frame_pool get_planes fill_frame
get_frame fuel f paletted answer pool live = do
  (ret, pool') ← update_frame_pool fuel f pool
  if is_negative ret then some (ret, pool', none, live) else (do
    (planes, live') ← get_planes pool'.size 0 answer [] live
    elim planes [
      | none ↦ some (negsuc 0, pool', none, live')
      | some ps ↦ do
        frame ← fill_frame paletted pool'.linesize ps
        some (pos 0, pool', some frame, live')
    ])
