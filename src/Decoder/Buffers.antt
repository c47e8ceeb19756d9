-- ===== src/Decoder/Buffers.antt =====
-- The frame buffers of src/Decoder.cpp: `update_frame_pool`, which finds the line and plane sizes
-- of a video, and `lavc_GetFrame`, which allocates the planes of a frame. What FFmpeg computes is
-- an argument of each.
pub mod Alignment
pub mod Sizes
pub mod Planes
pub mod Cache
pub mod GetFrame
mod Tests
use ff_test.Base.{
  ℕ, zero, suc, ◌+◌, ◌*◌, ◌%◌, ◌/◌, Bool, true, false, not, ◌&&◌, if◌then◌else◌, Option, none, some,
  List, [], ◌∷◌, ◌++◌, ◌==◌, length, take, ◌>>=◌,
}
use ff_test.Base.Int.{ℤ, pos, negsuc, is_negative, is_zero, eqb, sub_ℕ}
use ff_test.Base.Handles.{free}

-- `w & ~(w - 1)`, the lowest bit that is set in `w`; the fuel is enough for any `int`.
pub lowest_bit_from : ℕ → ℕ → ℕ
lowest_bit_from zero w = 0
lowest_bit_from (suc fuel) w =
    let half = lowest_bit_from fuel (w / 2) in if w % 2 == 1 then 1 else 2 * half

abbrev pub lowest_bit : ℕ → ℕ
lowest_bit w = lowest_bit_from 31 w

-- `unaligned == 0`: no line size leaves a remainder.
abbrev pub aligned : List ℕ → List ℕ → Bool
aligned (s ∷ sizes) (a ∷ stride_align) = s % a == 0 && aligned sizes stride_align
aligned _ _ = true

-- The `do` loop of `update_frame_pool`, over at most `fuel` rounds. `fill w` is what
-- `av_image_fill_linesizes` answers for the width `w`: four sizes, or an error. `none` means that
-- the loop has not ended.
pub line_sizes : ℕ → (ℕ → ℤ × List ℕ) → List ℕ → ℕ → Option (ℤ × List ℕ)
unfolding lowest_bit_from
line_sizes zero fill stride_align w = none
line_sizes (suc fuel) fill stride_align w =
    let (ret, sizes) = fill w in
    let rest = line_sizes fuel fill stride_align (w + lowest_bit w) in
    if is_negative ret
    then some (ret, sizes)
    else if aligned sizes stride_align
    then some (pos 0, sizes)
    else rest

-- The loop over the planes after the one at `here`: `addresses` are those that follow, 0 for NULL.
-- The last plane ends with the picture.
pub plane_sizes : ℕ → ℕ → List ℕ → List ℤ
plane_sizes total here [] = sub_ℕ total here ∷ []
plane_sizes total here (next ∷ addresses) =
    let rest = plane_sizes total next addresses in
    if next == 0 then sub_ℕ total here ∷ [] else sub_ℕ next here ∷ rest

-- The FramePool of the codec with `DecoderImpl::size`.
pub record FramePool : Type 0 where
  pub format : ℤ
  pub width : ℕ
  pub height : ℕ
  pub linesize : List ℕ
  pub size : List ℤ

-- `int size[4] = { 0 }`
abbrev pub pad : List ℤ → List ℤ
pad sizes = take 4 (sizes ++ pos 0 ∷ pos 0 ∷ pos 0 ∷ pos 0 ∷ [])

-- The frame that is wanted, and the answers of FFmpeg: the aligned width, the line sizes, the
-- results of `av_image_fill_pointers` with the addresses `data[1]` to `data[3]`.
pub record Wanted : Type 0 where
  pub is_video : Bool
  pub format : ℤ
  pub width : ℕ
  pub height : ℕ
  pub aligned_width : ℕ
  pub fill : ℕ → ℤ × List ℕ
  pub stride_align : List ℕ
  pub total : List ℕ → ℤ × List ℕ

-- From the call of `av_image_fill_pointers` on, for line sizes that are found; the answer is an
-- error, or the size of the picture.
pub set_sizes : Wanted → List ℕ → ℤ × List ℕ → FramePool → ℤ × FramePool
unfolding plane_sizes
set_sizes f linesize (negsuc _, addresses) pool = (negsuc 0, pool)
set_sizes f linesize (pos n, addresses) pool = (
  pos 0,
  record {
    format = f.format;
    width = f.width;
    height = f.height;
    linesize = linesize;
    size = pad (plane_sizes n 0 addresses);
  },
)

pub update_frame_pool : ℕ → Wanted → FramePool → Option (ℤ × FramePool)
unfolding line_sizes set_sizes
update_frame_pool fuel f pool =
    if not f.is_video
    then some (negsuc 0, pool)
    else if eqb pool.format f.format && pool.width == f.width && pool.height == f.height
    then some (pos 0, pool)
    else do
      (ret, linesize) ← line_sizes fuel f.fill f.stride_align f.aligned_width
      some (if is_negative ret then (ret, pool) else set_sizes f linesize (f.total linesize) pool)

-- A plane of a frame: its memory, and the AVBufferRef that owns it.
pub record Plane : Type 0 where
  pub memory : ℕ
  pub buf : ℕ

-- `lavc_ReleaseFrame`, where `memory` is its `opaque`.
unfoldable pub release_frame : ℕ → List ℕ → Option (List ℕ)
release_frame memory live = free memory live

-- `av_buffer_unref` of the planes, the last first: FFmpeg calls `lavc_ReleaseFrame` for the memory,
-- and the reference goes.
pub unref_planes : List Plane → List ℕ → Option (List ℕ)
unfolding release_frame
unref_planes [] live = some live
unref_planes (p ∷ planes) live = do
  live1 ← release_frame p.memory live
  live2 ← free p.buf live1
  unref_planes planes live2

-- The first loop of `lavc_GetFrame` from the plane `i` on, over the sizes from there; `done` are
-- the planes before it, the last first, and `answer i` what `memalign` and `av_buffer_create`
-- answer for the plane. Beside the planes, `none` after an error, stand the live allocations.
pub get_planes :
    List ℤ
    → ℕ
    → (ℕ → Option ℕ × Option ℕ)
    → List Plane
    → List ℕ
    → Option (Option (List Plane) × List ℕ)
unfolding unref_planes
get_planes [] i answer done live = some (some done, live)
get_planes (size ∷ sizes) i answer done live =
    if is_zero size then some (some done, live) else elim (answer i).0 [
      | none ↦ do live' ← unref_planes done live; some (none, live')
      | some memory ↦ elim (answer i).1 [
        | none ↦ do live' ← unref_planes done (memory ∷ live); some (none, live')
        | some buf ↦
            get_planes sizes (i + 1) answer (record { memory = memory; buf = buf } ∷ done)
              (buf ∷ memory ∷ live)
      ]
    ]
