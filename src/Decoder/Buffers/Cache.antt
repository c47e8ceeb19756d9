-- ===== src/Decoder/Buffers/Cache.antt =====
-- When `update_frame_pool` of src/Decoder.cpp changes nothing.
use ff_test.Base.{
  ℕ, ◌≡◌, refl, inl, inr, Bool, true, ◌&&◌, some, List, ◌==◌, arith, Bool-cases, Option-cases,
  some_snd, some_fst, sym, subst, some_inj, ap,
}
use ff_test.Base.Int.{ℤ, pos, negsuc, is_negative, eqb, eqb_refl, eqb-eq}
use ff_test.Decoder.Buffers.{FramePool, Wanted, line_sizes, set_sizes, update_frame_pool}

-- The pool is that of the frame.
abbrev pub Fits : Wanted → FramePool → Type 0
Fits f pool = (pool.format ≡ f.format) × (pool.width ≡ f.width) × (pool.height ≡ f.height)

abbrev same_frame : Wanted → FramePool → Bool
same_frame f pool = eqb pool.format f.format && pool.width == f.width && pool.height == f.height

same_frame-Fits : (f : Wanted) (pool : FramePool) → same_frame f pool ≡ true → Fits f pool
same_frame-Fits f pool h = elim (Bool-cases (eqb pool.format f.format)) [
  | inl e ↦ (eqb-eq pool.format f.format e, ground arith, ground arith)
  | inr e ↦ absurd (ground arith)
]

set_sizes-Fits :
    (f : Wanted) (linesize : List ℕ) (total : ℤ × List ℕ) (pool pool' : FramePool)
    → set_sizes f linesize total pool ≡ (pos 0, pool')
    → Fits f pool'
unfolding set_sizes
set_sizes-Fits f linesize (negsuc n, addresses) pool pool' e = absurd (ground arith)
set_sizes-Fits f linesize (pos n, addresses) pool pool' e =
    subst (Fits f) (ap (λ (r : ℤ × FramePool). r.1) e) (refl, refl, refl)

update_frame_pool-Fits :
    (fuel : ℕ) (f : Wanted) (pool pool' : FramePool)
    → update_frame_pool fuel f pool ≡ some (pos 0, pool')
    → (f.is_video ≡ true) × Fits f pool'
unfolding update_frame_pool
update_frame_pool-Fits fuel f pool pool' e = elim (Bool-cases f.is_video) [
  | inr other ↦ absurd (ground (arith, some_fst (rw (other, update_frame_pool) at e)))
  | inl video ↦ elim (Bool-cases (same_frame f pool)) [
    | inl same ↦
        let kept : pool ≡ pool' = some_snd (rw (video, update_frame_pool, same) at e) in
        (video, subst (Fits f) kept (same_frame-Fits f pool same))
    | inr new ↦ elim (Option-cases (line_sizes fuel f.fill f.stride_align f.aligned_width)) [
      | inl endless ↦ cc (rw (video, update_frame_pool, new, endless) at e)
      | inr ((ret, linesize), found) ↦ elim (Bool-cases (is_negative ret)) [
        | inl bad ↦
            absurd (ground (arith, some_fst (rw (video, update_frame_pool, new, found, bad) at e)))
        | inr fine ↦ (
          video,
          set_sizes-Fits f linesize (f.total linesize) pool pool'
              (some_inj (rw (video, update_frame_pool, new, found, fine) at e)),
        )
      ]
    ]
  ]
]

-- After a successful update for a frame the update for a frame like it succeeds at once, without a
-- round of the loop, and changes nothing.
pub update_frame_pool_again :
    (fuel : ℕ) (f : Wanted) (pool pool' : FramePool)
    → update_frame_pool fuel f pool ≡ some (pos 0, pool')
    → update_frame_pool 0 f pool' ≡ some (pos 0, pool')
unfolding update_frame_pool
update_frame_pool_again fuel f pool pool' e =
    let (video, (format, width, height)) = update_frame_pool-Fits fuel f pool pool' e in
    rw (video, format, eqb_refl f.format) (ground (arith, width, height))

set_sizes_failed :
    (f : Wanted) (linesize : List ℕ) (total : ℤ × List ℕ) (pool pool' : FramePool) (ret : ℤ)
    → set_sizes f linesize total pool ≡ (ret, pool')
    → is_negative ret ≡ true
    → pool' ≡ pool
unfolding set_sizes
set_sizes_failed f linesize (negsuc n, addresses) pool pool' ret e bad =
    sym (ap (λ (r : ℤ × FramePool). r.1) e)
set_sizes_failed f linesize (pos n, addresses) pool pool' ret e bad =
    let made : pos 0 ≡ ret = ap (λ (r : ℤ × FramePool). r.0) e in cc (rw (← made) at bad)

-- An update that answers an error leaves the pool as it was.
pub update_frame_pool_failed :
    (fuel : ℕ) (f : Wanted) (pool pool' : FramePool) (ret : ℤ)
    → update_frame_pool fuel f pool ≡ some (ret, pool')
    → is_negative ret ≡ true
    → pool' ≡ pool
unfolding update_frame_pool
update_frame_pool_failed fuel f pool pool' ret e bad = elim (Bool-cases f.is_video) [
  | inr other ↦ sym (some_snd (rw (other, update_frame_pool) at e))
  | inl video ↦ elim (Bool-cases (same_frame f pool)) [
    | inl same ↦ sym (some_snd (rw (video, update_frame_pool, same) at e))
    | inr new ↦ elim (Option-cases (line_sizes fuel f.fill f.stride_align f.aligned_width)) [
      | inl endless ↦ cc (rw (video, update_frame_pool, new, endless) at e)
      | inr ((lines, linesize), found) ↦ elim (Bool-cases (is_negative lines)) [
        | inl failed ↦ sym (some_snd (rw (video, update_frame_pool, new, found, failed) at e))
        | inr fine ↦
            set_sizes_failed f linesize (f.total linesize) pool pool' ret
              (some_inj (rw (video, update_frame_pool, new, found, fine) at e)) bad
      ]
    ]
  ]
]
