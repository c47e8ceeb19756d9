-- ===== src/Decoder/Buffers/GetFrame/Tests.antt =====
-- Frames of a 4:2:0 video that the codec asks `lavc_GetFrame` of src/Decoder.cpp for.
use ff_test.Base.{
  zero, suc, ℕ, ◌+◌, ◌≡◌, refl, true, false, Option, none, some, List, [], ◌∷◌, arith,
}
use ff_test.Base.Int.{ℤ, pos, negsuc}
use ff_test.Decoder.Buffers.{
  FramePool, Wanted, line_sizes, plane_sizes, set_sizes, update_frame_pool, Plane, get_planes,
  unref_planes,
}
use ff_test.Decoder.Buffers.Cache.{update_frame_pool_again}
use ff_test.Decoder.Buffers.Planes.{lost_memory}
use ff_test.Decoder.Buffers.GetFrame.{AvFrame, get_frame, fill_frame, slots_of}
use ff_test.Decoder.Buffers.GetFrame.Held.{
  Held, starts, gets, drops, first, later, frame_handles, Held-unref_planes,
}
use ff_test.Base.Handles.{Same, free}
use ff_test.Decoder.Buffers.GetFrame.Filled.{IsAnswer, get_frame_lem}
use ff_test.Decoder.Buffers.Tests.{fill, stride_align}

abbrev wanted : Wanted
wanted = record {
  is_video = true;
  format = pos 0;
  width = 32;
  height = 2;
  aligned_width = 32;
  fill = fill;
  stride_align = stride_align;
  total = λ linesize. (pos 96, 64 ∷ 80 ∷ 0 ∷ []);
}

abbrev pool_of : ℤ → ℕ → ℕ → List ℕ → List ℤ → FramePool
pool_of format width height linesize size = record {
  format = format;
  width = width;
  height = height;
  linesize = linesize;
  size = size;
}

abbrev updated : FramePool
updated = pool_of (pos 0) 32 2 (32 ∷ 16 ∷ 16 ∷ 0 ∷ []) (pos 64 ∷ pos 16 ∷ pos 16 ∷ pos 0 ∷ [])

-- The three planes of that video.
abbrev memory_for : ℕ → Option ℕ × Option ℕ
memory_for i = (some (10 + i), some (20 + i))

updates : update_frame_pool 1 wanted (pool_of (negsuc 0) 0 0 [] []) ≡ some (pos 0, updated)
unfolding update_frame_pool line_sizes plane_sizes set_sizes
updates = refl

get_frame_lem_example :
    (ret : ℤ) × (given : Option AvFrame) × (live : List ℕ) × (get_frame 1 wanted false memory_for
        (pool_of (negsuc 0) 0 0 [] [])
        (9 ∷ [])
      ≡ some (ret, updated, given, live))
    × IsAnswer false
        (pool_of (negsuc 0) 0 0 [] [])
        updated
        1
        (lost_memory updated.size 0 memory_for (9 ∷ []))
        (9 ∷ [])
        (pos 0)
        ret
        given
        live
get_frame_lem_example =
    get_frame_lem 1 wanted false memory_for (pool_of (negsuc 0) 0 0 [] []) updated (9 ∷ []) (pos 0)
      1 updates (λ e. absurd cc) (omega arith)

abbrev plane_of : ℕ → ℕ → Plane
plane_of m b = record { memory = m; buf = b }

abbrev frame_of : ℕ → ℕ → AvFrame
frame_of m b = record {
  slots =
      (some m, 32)
      ∷ (some (m + 1), 16)
      ∷ (some (m + 2), 16)
      ∷ (none, 0)
      ∷ (none, 0)
      ∷ (none, 0)
      ∷ (none, 0)
      ∷ (none, 0)
      ∷ [];
  planes = plane_of (m + 2) (b + 2) ∷ plane_of (m + 1) (b + 1) ∷ plane_of m b ∷ [];
  palette = none;
}

-- A second frame, and a third whose second reference cannot be created.
abbrev memory_for_second : ℕ → Option ℕ × Option ℕ
memory_for_second i = (some (30 + i), some (40 + i))

abbrev memory_for_third : ℕ → Option ℕ × Option ℕ
memory_for_third zero = (some 50, some 51)
memory_for_third (suc _) = (some 52, none)

abbrev two_live : List ℕ
two_live = 42 ∷ 32 ∷ 41 ∷ 31 ∷ 40 ∷ 30 ∷ 22 ∷ 12 ∷ 21 ∷ 11 ∷ 20 ∷ 10 ∷ 9 ∷ []

-- Of three frames that were asked for, the first is dropped and the second is held.
two_asked :
    Held
      (9 ∷ [])
      (frame_of 30 40 ∷ [])
      (52 ∷ 9 ∷ [])
      updated
      (52 ∷ 42 ∷ 32 ∷ 41 ∷ 31 ∷ 40 ∷ 30 ∷ 9 ∷ [])
unfolding get_frame get_planes fill_frame slots_of update_frame_pool line_sizes plane_sizes
    set_sizes unref_planes free
two_asked =
    drops (frame_of 10 20)
      (gets {frames = frame_of 30 40 ∷ frame_of 10 20 ∷ []} {lost = 9 ∷ []} {live = two_live}
        {pool = updated} {pool' = updated} {updated = pos 0} {ret = negsuc 0} {frame = none} 1
        wanted false memory_for_third
        (gets {frames = frame_of 10 20 ∷ []} {lost = 9 ∷ []} {pool = updated} {pool' = updated}
          {updated = pos 0} {ret = pos 0} {frame = some (frame_of 30 40)} 1 wanted false
          memory_for_second
          (gets {frames = []} {lost = 9 ∷ []} {updated = pos 0} {ret = pos 0}
            {frame = some (frame_of 10 20)} 1 wanted false memory_for
            (starts (pool_of (negsuc 0) 0 0 [] [])) refl refl)
          refl refl)
        refl refl)
      (later first) refl

Held-unref_planes_example :
    (live : List ℕ) × (unref_planes
        (frame_of 30 40).planes
        (52 ∷ 42 ∷ 32 ∷ 41 ∷ 31 ∷ 40 ∷ 30 ∷ 9 ∷ [])
      ≡ some live)
    × Same live (frame_handles [] (52 ∷ 9 ∷ []))
Held-unref_planes_example =
    Held-unref_planes (9 ∷ []) (52 ∷ 9 ∷ []) (52 ∷ 42 ∷ 32 ∷ 41 ∷ 31 ∷ 40 ∷ 30 ∷ 9 ∷ [])
      (frame_of 30 40 ∷ []) [] updated (frame_of 30 40) two_asked first

update_frame_pool_again_example : update_frame_pool 0 wanted updated ≡ some (pos 0, updated)
update_frame_pool_again_example =
    update_frame_pool_again 1 wanted (pool_of (negsuc 0) 0 0 [] []) updated updates
