-- ===== src/Task/Output.antt =====
-- The bytes that `on_recv_frame` of src/Task.cpp writes.
use ff_test.Base.{
  ◌⊎◌, leb, int_bound, Option-cases, ℕ, zero, suc, ◌+◌, ◌*◌, ◌%◌, ◌≤◌, ◌<◌, ◌≡◌, ◌≢◌, refl, sym,
  ◌∙◌, ap, inl, inr, true, false, none, some, List, [], ◌++◌, append_assoc, append-nil, arith,
  length, take, drop, take-add, drop-add, ltb, ◌==◌, Bool-cases, u16_mod, u32_mod,
}
use ff_test.Base.Int.{ℤ, pos}
use ff_test.Av.{Frame}
use ff_test.File.{MFile, is_open, write}
use ff_test.Task.{row_start, Rows, unended, wrote, returned, write_rows, on_recv_frame}

-- `n` rows of the picture from the row `i` on, without the padding of the lines.
abbrev pub rows : ℕ → ℕ → Frame → List ℕ
rows zero i frame = []
rows (suc n) i frame =
    take frame.width (drop (i * frame.linesize) frame.plane) ++ rows n (i + 1) frame

-- The picture, row by row.
abbrev pub picture : Frame → List ℕ
picture frame = rows frame.height 0 frame

-- A system on which of what is written `cut` is kept.
pub record Keeps (written : ℕ → ℕ → ℤ) (cut : List ℕ → List ℕ) : Type 0 where
  pub writes :
      (src : List ℕ) (n : ℕ) (output : List ℕ)
      → cut output ≡ output
      → (write written src n output).1 ≡ cut (output ++ take n src)
  pub again : (xs ys : List ℕ) → cut (cut xs ++ ys) ≡ cut (xs ++ ys)

-- What has been cut stays as it is.
pub cut_twice :
    (written : ℕ → ℕ → ℤ) (cut : List ℕ → List ℕ) (xs : List ℕ)
    → Keeps written cut
    → cut (cut xs) ≡ cut xs
cut_twice written cut xs v =
    ap cut (sym (append-nil (cut xs))) ∙ v.again xs [] ∙ ap cut (append-nil xs)

-- A system that writes all that it is asked to keeps everything.
pub all-Keeps :
    (written : ℕ → ℕ → ℤ) → ((k have : ℕ) → written k have ≡ pos k) → Keeps written (λ xs. xs)
unfolding write
all-Keeps written all = record {
  writes = λ src n output same. rw (all n (length output)) refl;
  again = λ xs ys. refl;
}

-- A frame whose rows a uint16_t counts, whose offsets are an `int` each, and whose lines are all in
-- the buffer and at least as long as the width.
abbrev pub IsSmall : ℕ → Frame → Type 0
IsSmall fuel f =
    (f.height < u16_mod)
    × (f.height * f.linesize < int_bound)
    × (f.height * f.linesize ≤ length f.plane)
    × (f.width ≤ f.linesize)
    × (f.height < fuel)

abbrev pub row : Frame → ℕ → List ℕ
row frame i = drop (i * frame.linesize) frame.plane

row_start_lem :
    (i n : ℕ) (frame : Frame)
    → i + suc n ≡ frame.height
    → frame.height * frame.linesize < int_bound
    → frame.height * frame.linesize ≤ length frame.plane
    → frame.width ≤ frame.linesize
    → (row_start frame i ≡ some (row frame i)) × (frame.width % u32_mod ≡ frame.width)
row_start_lem i n frame e small there fits =
    let split : (i + suc n) * frame.linesize
        ≡ i * frame.linesize + frame.linesize + n * frame.linesize =
      grind arith in
    let height = ap (λ k. k * frame.linesize) (sym e) ∙ split in
    let offset : ltb (i * frame.linesize) int_bound ≡ true = ground (arith, height) in
    let enough : leb (i * frame.linesize + frame.width) (length frame.plane) ≡ true =
      ground (arith, height) in
    (rw (row_start, offset, enough) refl, omega (arith, height))

write_rows_lem :
    (fuel n i : ℕ) (written : ℕ → ℕ → ℤ) (cut : List ℕ → List ℕ) (frame : Frame) (output : List ℕ)
    → Keeps written cut
    → cut output ≡ output
    → frame.height * frame.linesize < int_bound
    → frame.height * frame.linesize ≤ length frame.plane
    → frame.width ≤ frame.linesize
    → frame.height < u16_mod
    → i + n ≡ frame.height
    → n < fuel
    → write_rows fuel written frame i output ≡ wrote (cut (output ++ rows n i frame))
unfolding write_rows
write_rows_lem zero n i written cut frame output v same small there fits h e lt =
    absurd (omega arith)
write_rows_lem (suc fuel) zero i written cut frame output v same small there fits h e lt =
    let done : ltb i frame.height ≡ false = ground arith in
    rw done (ap wrote (sym same ∙ ap cut (sym (append-nil output))))
write_rows_lem (suc fuel) (suc n) i written cut frame output v same small there fits h e lt =
    let more : ltb i frame.height ≡ true = ground arith in
    let next : (i + 1) % u16_mod ≡ i + 1 = omega arith in
    let (start, width) = row_start_lem i n frame e small there fits in
    let line : List ℕ = take frame.width (row frame i) in
    rw (more, start, next, width, v.writes (row frame i) frame.width output same)
      (write_rows_lem fuel n (i + 1) written cut frame (cut (output ++ line)) v
          (cut_twice written cut (output ++ line) v) small there fits h (omega arith) (omega arith)
        ∙ ap wrote (
            v.again (output ++ line) (rows n (i + 1) frame)
            ∙ ap cut (append_assoc output line (rows n (i + 1) frame))))

-- Without padding the rows follow one another.
take-rows :
    (n i : ℕ) (frame : Frame)
    → frame.width ≡ frame.linesize
    → take (n * frame.width) (row frame i) ≡ rows n i frame
take-rows zero i frame e = let z : zero * frame.width ≡ 0 = omega arith in rw z
take-rows (suc n) i frame e =
    let one_more : suc n * frame.width ≡ frame.width + n * frame.width = grind arith in
    let start : (i + 1) * frame.linesize ≡ i * frame.linesize + frame.width = grind arith in
    let rest = take-rows n (i + 1) frame e in
    rw (one_more, take-add frame.width (n * frame.width) (row frame i))
      (ap (◌++◌ (take frame.width (row frame i)))
        (rw (← drop-add (i * frame.linesize) frame.width frame.plane) (rw (← start) rest)))

-- `on_recv_frame` for a small frame and an open output file.
pub on_recv_frame_kept :
    (fuel : ℕ) (f : MFile) (written : ℕ → ℕ → ℤ) (cut : List ℕ → List ℕ) (frame : Frame)
    (output : List ℕ)
    → is_open f ≡ true
    → Keeps written cut
    → cut output ≡ output
    → IsSmall fuel frame
    → on_recv_frame fuel (some f) written frame output ≡ some (pos 0, cut (output ++ picture frame))
unfolding on_recv_frame
on_recv_frame_kept fuel f written cut frame output opened v same (h, small, there, fits, lt) =
    elim (Bool-cases (frame.width == frame.linesize)) [
      | inl packed ↦
          let e : frame.width ≡ frame.linesize = ground arith in
          let turned : frame.linesize * frame.height ≡ frame.height * frame.linesize =
            grind arith in
          let area = ap (λ k. k * frame.height) e ∙ turned in
          let size : frame.width * frame.height % u32_mod ≡ frame.height * frame.width =
            grind (arith, area) in
          let bounded : ltb (frame.width * frame.height) int_bound ≡ true = ground (arith, area) in
          let enough : leb (0 + frame.width * frame.height) (length frame.plane) ≡ true =
            ground (arith, area) in
          let all_rows = take-rows frame.height 0 frame e in
          let start : row frame 0 ≡ frame.plane =
            (let z : 0 * frame.linesize ≡ 0 = omega arith in rw z) in
          rw
            (
              opened,
              packed,
              bounded,
              enough,
              size,
              v.writes frame.plane (frame.height * frame.width) output same,
            )
            (ap (λ b. some (pos 0, cut (output ++ b))) (rw start at all_rows))
      | inr padded ↦ rw (
        opened,
        padded,
        write_rows_lem fuel frame.height 0 written cut frame output v same small there fits h
            (omega arith) lt,
      )
    ]

-- For an open output file, a frame of fewer than 2^16 rows, whose lines hold fewer than 2^31 bytes
-- together, are all in its buffer and at least as long as the width, and a system that writes all
-- that it is asked to, `on_recv_frame` returns 0 after at most `height + 1` rounds and has appended
-- the picture row by row, without padding: the single write of a frame whose width is its line size
-- comes to the same bytes as the loop.
pub on_recv_frame-picture :
    (fuel : ℕ) (f : MFile) (written : ℕ → ℕ → ℤ) (frame : Frame) (output : List ℕ)
    → is_open f ≡ true
    → ((k have : ℕ) → written k have ≡ pos k)
    → IsSmall fuel frame
    → on_recv_frame fuel (some f) written frame output ≡ some (pos 0, output ++ picture frame)
on_recv_frame-picture fuel f written frame output opened all small =
    on_recv_frame_kept fuel f written (λ xs. xs) frame output opened (all-Keeps written all) refl
      small

-- With 2^16 rows or more, an open output file and padded lines, `on_recv_frame` has not returned
-- after any number of rounds: its loop goes on, unless the first 2^16 rows are not all in the
-- buffer with offsets that are an `int`.
pub on_recv_frame_endless :
    (fuel : ℕ) (f : MFile) (written : ℕ → ℕ → ℤ) (frame : Frame) (output : List ℕ)
    → is_open f ≡ true
    → frame.width ≢ frame.linesize
    → u16_mod ≤ frame.height
    → (on_recv_frame fuel (some f) written frame output ≡ none)
      × ((write_rows fuel written frame 0 output ≡ unended)
          ⊎ ((i : ℕ) × (i < u16_mod) × (row_start frame i ≡ none)))
unfolding on_recv_frame
on_recv_frame_endless fuel f written frame output opened padded h =
    let run = go fuel 0 output (omega arith) in (rw (opened, test) run.0, run.1)
  where
    test : (frame.width == frame.linesize) ≡ false
    test = ground arith

    Goes : Rows → Type 0
    Goes r =
        (returned r ≡ none)
        × ((r ≡ unended) ⊎ ((i : ℕ) × (i < u16_mod) × (row_start frame i ≡ none)))

    go : (n i : ℕ) (out : List ℕ) → i < u16_mod → Goes (write_rows n written frame i out)
    go zero i out lt = (refl, inl refl)
    go (suc n) i out lt =
        let more : ltb i frame.height ≡ true = ground arith in
        elim (Option-cases (row_start frame i)) [
          | inl outside ↦ rw (more, outside) (refl, inr (i, lt, outside))
          | inr (src, there) ↦
              rw (more, there)
                (go n ((i + 1) % u16_mod) (write written src (frame.width % u32_mod) out).1
                  (omega arith))
        ]
