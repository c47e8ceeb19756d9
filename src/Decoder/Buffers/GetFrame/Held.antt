-- ===== src/Decoder/Buffers/GetFrame/Held.antt =====
-- The frames that `lavc_GetFrame` of src/Decoder.cpp has given to the codec and that are still
-- held.
use ff_test.Base.{
  ℕ, ◌+◌, ◌≡◌, refl, sym, ◌∙◌, inl, inr, Bool, true, false, if◌then◌else◌, get_elem?, Option, none,
  some, List, [], ◌∷◌, arith, Bool-cases, Option-cases, some_inj, bind_some, subst, ap, ◌>>=◌,
}
use ff_test.Base.Int.{ℤ, pos, negsuc, is_negative, is_zero}
use ff_test.Base.Handles.{Same, count}
use ff_test.Decoder.Buffers.{FramePool, Wanted, Plane, update_frame_pool, unref_planes}
use ff_test.Decoder.Buffers.Planes.{
  plane_handles, lost_memory, IsLeft, get_planes-Same, unref_planes-Same,
}
use ff_test.Decoder.Buffers.GetFrame.{AvFrame, memories, fill_frame, get_frame}

-- The allocations of frames, and `rest`.
abbrev pub frame_handles : List AvFrame → List ℕ → List ℕ
frame_handles [] rest = rest
frame_handles (frame ∷ frames) rest = plane_handles frame.planes (frame_handles frames rest)

abbrev pub held_too : Option AvFrame → List AvFrame → List AvFrame
held_too none frames = frames
held_too (some frame) frames = frame ∷ frames

-- What a call of `lavc_GetFrame` loses: nothing when the pool could not be updated or when it gives
-- a frame.
abbrev pub lost_by_get :
    ℤ → Option AvFrame → FramePool → (ℕ → Option ℕ × Option ℕ) → List ℕ → List ℕ
lost_by_get updated (some frame) pool answer lost = lost
lost_by_get updated none pool answer lost =
    if is_negative updated then lost else lost_memory pool.size 0 answer lost

-- A frame among others.
pub data Pick (frame : AvFrame) : List AvFrame → List AvFrame → Type 0 where
  first : {frames : List AvFrame} → Pick frame (frame ∷ frames) frames
  later :
      {other : AvFrame} {frames others : List AvFrame}
      → Pick frame frames others
      → Pick frame (other ∷ frames) (other ∷ others)

-- The frames that are held, what is lost or of others, the pool, and what is live, after a codec
-- with one pool has asked for frames and has dropped some, in any order.
pub data Held (rest : List ℕ) : List AvFrame → List ℕ → FramePool → List ℕ → Type 0 where
  starts : (pool : FramePool) → Held rest [] rest pool rest
  gets :
      {frames : List AvFrame} {lost live live' : List ℕ} {pool pool' : FramePool} {updated ret : ℤ}
      {frame : Option AvFrame} (fuel : ℕ) (f : Wanted) (paletted : Bool)
      (answer : ℕ → Option ℕ × Option ℕ)
      → Held rest frames lost pool live
      → update_frame_pool fuel f pool ≡ some (updated, pool')
      → get_frame fuel f paletted answer pool live ≡ some (ret, pool', frame, live')
      → Held rest (held_too frame frames) (lost_by_get updated frame pool' answer lost) pool' live'
  drops :
      {frames others : List AvFrame} {lost live live' : List ℕ} {pool : FramePool} (frame : AvFrame)
      → Held rest frames lost pool live
      → Pick frame frames others
      → unref_planes frame.planes live ≡ some live'
      → Held rest others lost pool live'

count-plane_handles_rest :
    (k : ℕ) (planes : List Plane) (rest : List ℕ)
    → count k (plane_handles planes rest) ≡ count k (plane_handles planes []) + count k rest
count-plane_handles_rest k [] rest = omega arith
count-plane_handles_rest k (p ∷ planes) rest = omega (arith, count-plane_handles_rest k planes rest)

count-frame_handles :
    (k : ℕ) (frames : List AvFrame) (rest : List ℕ)
    → count k (frame_handles frames rest) ≡ count k (frame_handles frames []) + count k rest
count-frame_handles k [] rest = omega arith
count-frame_handles k (frame ∷ frames) rest = omega (
  arith,
  count-frame_handles k frames rest,
  count-plane_handles_rest k frame.planes (frame_handles frames rest),
  count-plane_handles_rest k frame.planes (frame_handles frames []),
)

count-lost_memory :
    (k : ℕ) (sizes : List ℤ) (i : ℕ) (answer : ℕ → Option ℕ × Option ℕ) (rest : List ℕ)
    → count k (lost_memory sizes i answer rest)
      ≡ count k (lost_memory sizes i answer []) + count k rest
count-lost_memory k [] i answer rest = omega arith
count-lost_memory k (size ∷ sizes) i answer rest = elim (Bool-cases (is_zero size)) [
  | inl over ↦ rw over (omega arith)
  | inr more ↦ elim (Option-cases (answer i).0) [
    | inl full ↦ rw (more, full) (omega arith)
    | inr (m, got) ↦ elim (Option-cases (answer i).1) [
      | inl full ↦ rw (more, got, full) (omega arith)
      | inr (b, made) ↦ rw (more, got, made) (count-lost_memory k sizes (i + 1) answer rest)
    ]
  ]
]

Pick-Same :
    (frame : AvFrame) (frames others : List AvFrame) (lost : List ℕ)
    → Pick frame frames others
    → Same (frame_handles frames lost) (plane_handles frame.planes (frame_handles others lost))
Pick-Same frame frames others lost first k = refl
Pick-Same frame (other ∷ frames) (_ ∷ others) lost (later p) k =
    let ours = frame_handles others lost in
    omega (
      arith,
      Pick-Same frame frames others lost p k,
      count-plane_handles_rest k other.planes (frame_handles frames lost),
      count-plane_handles_rest k frame.planes ours,
      count-plane_handles_rest k other.planes ours,
      count-plane_handles_rest k frame.planes (plane_handles other.planes ours),
    )

-- What is live after a call of `lavc_GetFrame`.
abbrev Kept :
    List AvFrame
    → List ℕ
    → ℤ
    → (ℕ → Option ℕ × Option ℕ)
    → ℤ × FramePool × Option AvFrame × List ℕ
    → Type 0
Kept frames lost updated answer (ret, pool, frame, live) =
    Same live (frame_handles (held_too frame frames) (lost_by_get updated frame pool answer lost))

fill_frame-planes :
    (paletted : Bool) (linesize : List ℕ) (planes : List Plane) (frame : AvFrame)
    → fill_frame paletted linesize planes ≡ some frame
    → planes ≡ frame.planes
unfolding fill_frame
fill_frame-planes false linesize planes frame e = ap (λ (x : AvFrame). x.planes) (some_inj e)
fill_frame-planes true linesize planes frame e =
    let (second, _, made) = bind_some (get_elem? (memories planes []) 1) (λ x. some _) frame e in
    ap (λ (x : AvFrame). x.planes) (some_inj made)

-- The end of `lavc_GetFrame`, once the planes are there or not.
abbrev answered :
    Bool
    → FramePool
    → List ℕ
    → Option (List Plane)
    → Option (ℤ × FramePool × Option AvFrame × List ℕ)
unfolding fill_frame
answered paletted pool live none = some (negsuc 0, pool, none, live)
answered paletted pool live (some ps) = do
  frame ← fill_frame paletted pool.linesize ps
  some (pos 0, pool, some frame, live)

asked-Kept :
    (out : Option (List Plane)) (pool : FramePool) (live : List ℕ) (frames : List AvFrame)
    (lost : List ℕ) (updated : ℤ) (answer : ℕ → Option ℕ × Option ℕ) (paletted : Bool)
    (r : ℤ × FramePool × Option AvFrame × List ℕ)
    → is_negative updated ≡ false
    → IsLeft out live
        (lost_memory pool.size 0 answer (frame_handles frames lost))
        (frame_handles frames lost)
    → answered paletted pool live out ≡ some r
    → Kept frames lost updated answer r
unfolding answered
asked-Kept none pool live frames lost updated answer paletted r good left run =
    subst (Kept frames lost updated answer) (some_inj run) (
      rw good (λ k. omega (
        arith,
        left k,
        count-lost_memory k pool.size 0 answer (frame_handles frames lost),
        count-lost_memory k pool.size 0 answer lost,
        count-frame_handles k frames lost,
        count-frame_handles k frames (lost_memory pool.size 0 answer lost),
      )))
asked-Kept (some planes) pool live frames lost updated answer paletted r good left run =
    let (frame, filled, is_r) =
      bind_some (fill_frame paletted pool.linesize planes) (λ x. some (pos 0, pool, some x, live)) r
        run in
    subst (Kept frames lost updated answer) (some_inj is_r) (
      subst (λ x. Same live (plane_handles x (frame_handles frames lost)))
        (fill_frame-planes paletted pool.linesize planes frame filled) left)

gets-Kept :
    (fuel : ℕ) (f : Wanted) (paletted : Bool) (answer : ℕ → Option ℕ × Option ℕ)
    (pool pool' : FramePool) (live : List ℕ) (updated : ℤ) (frames : List AvFrame) (lost : List ℕ)
    (r : ℤ × FramePool × Option AvFrame × List ℕ)
    → update_frame_pool fuel f pool ≡ some (updated, pool')
    → get_frame fuel f paletted answer pool live ≡ some r
    → Same live (frame_handles frames lost)
    → Kept frames lost updated answer r
unfolding get_frame
gets-Kept fuel f paletted answer pool pool' live updated frames lost r up run s =
    elim (Bool-cases (is_negative updated)) [
      | inl bad ↦
          subst (Kept frames lost updated answer) (some_inj (rw (up, bad) at run)) (rw bad s)
      | inr good ↦
          let (out, l, got, left) =
            get_planes-Same pool'.size 0 answer [] live (frame_handles frames lost) s in
          asked-Kept out pool' l frames lost updated answer paletted r good left
            (rw (up, good, got) at run)
    ]

dropped-Same :
    (frame : AvFrame) (frames others : List AvFrame) (lost live : List ℕ)
    → Same live (frame_handles frames lost)
    → Pick frame frames others
    → (live' : List ℕ) × (unref_planes frame.planes live ≡ some live')
      × Same live' (frame_handles others lost)
dropped-Same frame frames others lost live s p =
    unref_planes-Same frame.planes live (frame_handles others lost)
      (λ k. s k ∙ Pick-Same frame frames others lost p k)

Held-Same :
    (rest : List ℕ) {frames : List AvFrame} {lost live : List ℕ} {pool : FramePool}
    → Held rest frames lost pool live
    → Same live (frame_handles frames lost)
Held-Same rest (starts pool) = λ k. refl
Held-Same rest
      (gets {frames} {lost} {live} {live'} {pool} {pool'} {updated} {ret} {frame} fuel f paletted
        answer h up run) =
    gets-Kept fuel f paletted answer pool pool' live updated frames lost (ret, pool', frame, live')
      up run (Held-Same rest h)
Held-Same rest (drops {frames} {others} {lost} {live} {live'} frame h p e) =
    let (l, freed, same) = dropped-Same frame frames others lost live (Held-Same rest h) p in
    let is_l : l ≡ live' = some_inj (sym freed ∙ e) in
    subst (λ x. Same x (frame_handles others lost)) is_l same

-- A codec asks `lavc_GetFrame` for frames, of any sizes, granted or refused, and drops them, in any
-- order. Each frame that it still holds can then be dropped: the planes are freed once each, and
-- live are exactly the planes of the other frames, what was live at the start, and the memory of
-- planes whose reference could not be created.
pub Held-unref_planes :
    (rest lost live : List ℕ) (frames others : List AvFrame) (pool : FramePool) (frame : AvFrame)
    → Held rest frames lost pool live
    → Pick frame frames others
    → (live' : List ℕ) × (unref_planes frame.planes live ≡ some live')
      × Same live' (frame_handles others lost)
Held-unref_planes rest lost live frames others pool frame h p =
    dropped-Same frame frames others lost live (Held-Same rest h) p
