-- ===== src/Decoder/Buffers/Tests.antt =====
-- A 4:2:0 video on which the theorems about the frame buffers of src/Decoder.cpp apply.
use ff_test.Base.{ℕ, ◌/◌, ◌≡◌, true, List, [], ◌∷◌, arith}
use ff_test.Base.Int.{ℤ, pos}
use ff_test.Decoder.Buffers.{aligned, line_sizes}
use ff_test.Decoder.Buffers.Alignment.{IsMultiple, Ends, line_sizes_end}

-- Lines of `w`, `w / 2` and `w / 2` bytes, each to be a multiple of 16, 8 and 8.
abbrev pub fill : ℕ → ℤ × List ℕ
fill w = (pos 0, w ∷ w / 2 ∷ w / 2 ∷ 0 ∷ [])

abbrev pub stride_align : List ℕ
stride_align = 16 ∷ 8 ∷ 8 ∷ 8 ∷ []

fill_aligned : (v : ℕ) → IsMultiple 4 v → aligned (fill v).1 stride_align ≡ true
fill_aligned v (c, e) = ground arith

line_sizes_end_example : Ends (line_sizes 5 fill stride_align 1002) stride_align
line_sizes_end_example = line_sizes_end 4 1002 fill stride_align fill_aligned (omega arith)
