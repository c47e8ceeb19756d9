-- ===== src/Task/Pixels.antt =====
-- Where the pixels of a frame stand in the file that src/Task.cpp writes.
use ff_test.Base.{
  ℕ, zero, suc, ◌+◌, ◌*◌, ◌≤◌, ◌<◌, ◌≡◌, sym, ◌∙◌, ap, true, some, List, ◌++◌, arith, length, take,
  get_elem?, get_elem?-take, get_elem?-drop, get_elem?-append_left, get_elem?-append_right,
  length-take_of_le, length-drop, some_snd,
}
use ff_test.Base.Int.{ℤ, pos}
use ff_test.Av.{Frame}
use ff_test.File.{MFile, is_open}
use ff_test.Task.{on_recv_frame}
use ff_test.Task.Output.{row, IsSmall, rows, picture, on_recv_frame-picture}

length-row :
    (i : ℕ) (frame : Frame)
    → frame.width ≤ frame.linesize
    → (i + 1) * frame.linesize ≤ length frame.plane
    → length (take frame.width (row frame i)) ≡ frame.width
length-row i frame fits enough =
    let size = length-drop (i * frame.linesize) frame.plane in
    length-take_of_le frame.width (row frame i) (grind (arith, size))

rows_pixel :
    (n i r c : ℕ) (frame : Frame)
    → frame.width ≤ frame.linesize
    → (i + n) * frame.linesize ≤ length frame.plane
    → r < n
    → c < frame.width
    → get_elem? (rows n i frame) (r * frame.width + c)
      ≡ get_elem? frame.plane ((i + r) * frame.linesize + c)
rows_pixel zero i r c frame fits enough hr hc = absurd (omega arith)
rows_pixel (suc n) i zero c frame fits enough hr hc =
    let first : zero * frame.width + c ≡ c = omega arith in
    let here : (i + zero) * frame.linesize + c ≡ i * frame.linesize + c = grind arith in
    let line : List ℕ = take frame.width (row frame i) in
    let size = length-row i frame fits (grind arith) in
    rw (first, here)
      (get_elem?-append_left c line (rows n (i + 1) frame) (omega (arith, size))
        ∙ get_elem?-take frame.width c (row frame i) hc
        ∙ get_elem?-drop (i * frame.linesize) c frame.plane)
rows_pixel (suc n) i (suc r) c frame fits enough hr hc =
    let line : List ℕ = take frame.width (row frame i) in
    let size = length-row i frame fits (grind arith) in
    let later : suc r * frame.width + c ≡ length line + (r * frame.width + c) =
      grind (arith, size) in
    let there : (i + 1 + r) * frame.linesize + c ≡ (i + suc r) * frame.linesize + c = grind arith in
    rw later (
      get_elem?-append_right (r * frame.width + c) line (rows n (i + 1) frame)
      ∙ rows_pixel n (i + 1) r c frame fits (grind arith) (omega arith) hc
      ∙ ap (get_elem? frame.plane) there)

-- The picture has the pixel in row `r` and column `c` of the frame at its place `r * width + c`.
pub picture_pixel :
    (r c : ℕ) (frame : Frame)
    → frame.width ≤ frame.linesize
    → frame.height * frame.linesize ≤ length frame.plane
    → r < frame.height
    → c < frame.width
    → get_elem? (picture frame) (r * frame.width + c)
      ≡ get_elem? frame.plane (r * frame.linesize + c)
picture_pixel r c frame fits enough hr hc =
    let e : 0 + frame.height ≡ frame.height = omega arith in
    let z : 0 + r ≡ r = omega arith in
    rw z at (rows_pixel frame.height 0 r c frame fits (rw e enough) hr hc)

-- When `on_recv_frame` has returned, for an open output file, a system that writes all that it is
-- asked to, and a frame of fewer than 2^16 rows, whose lines hold fewer than 2^31 bytes together,
-- are all in its buffer and at least as long as the width, then the pixel in row `r` and column `c`
-- stands in the file at the place `r * width + c` behind what was there before.
pub on_recv_frame_pixel :
    (fuel : ℕ) (f : MFile) (written : ℕ → ℕ → ℤ) (frame : Frame) (output file : List ℕ) (ret : ℤ)
    (r c : ℕ)
    → is_open f ≡ true
    → ((k have : ℕ) → written k have ≡ pos k)
    → IsSmall fuel frame
    → r < frame.height
    → c < frame.width
    → on_recv_frame fuel (some f) written frame output ≡ some (ret, file)
    → get_elem? file (length output + (r * frame.width + c))
      ≡ get_elem? frame.plane (r * frame.linesize + c)
on_recv_frame_pixel fuel f written frame output file ret r c opened all (h, small, enough, fits, lt)
      hr hc run =
    let written_all =
      on_recv_frame-picture fuel f written frame output opened all (h, small, enough, fits, lt) in
    let content : output ++ picture frame ≡ file = some_snd (sym written_all ∙ run) in
    rw (← content) (
      get_elem?-append_right (r * frame.width + c) output (picture frame)
      ∙ picture_pixel r c frame fits enough hr hc)
