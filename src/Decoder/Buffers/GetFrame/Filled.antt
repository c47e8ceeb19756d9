-- ===== src/Decoder/Buffers/GetFrame/Filled.antt =====
-- The frame that `lavc_GetFrame` of src/Decoder.cpp fills.
use ff_test.Base.{
  ℕ, zero, suc, ◌+◌, ◌≤◌, ◌<◌, ◌≡◌, ◌⊎◌, refl, inl, inr, Bool, true, false, if◌then◌else◌, Option,
  none, some, List, [], ◌∷◌, arith, ltb, length, get_elem?, Bool-cases, Option-cases, some_inj,
  some_fst, ◌>>=◌,
}
use ff_test.Base.Int.{ℤ, pos, negsuc, is_negative, is_zero}
use ff_test.Base.Handles.{Same}
use ff_test.Decoder.Buffers.{FramePool, Wanted, Plane, update_frame_pool, unref_planes, get_planes}
use ff_test.Decoder.Buffers.Cache.{update_frame_pool_failed}
use ff_test.Decoder.Buffers.Planes.{plane_handles, lost_memory, IsLeft, get_planes-Same}
use ff_test.Decoder.Buffers.GetFrame.{
  memories, num_data_pointers, slots_of, AvFrame, fill_frame, get_frame,
}

-- The planes of a picture: the sizes before the first 0.
abbrev pub plane_count : List ℤ → ℕ
plane_count [] = 0
plane_count (size ∷ sizes) = let rest = plane_count sizes in if is_zero size then 0 else suc rest

not_planes :
    (done : List Plane) (live live' : List ℕ) (planes : List Plane)
    → let out : Option (Option (List Plane) × List ℕ) = (do
      rest ← unref_planes done live
      some (none, rest)) in
      ¬ (out ≡ some (some planes, live'))
not_planes done live live' planes run = elim (Option-cases (unref_planes done live)) [
  | inl lost ↦ cc (rw lost at run)
  | inr (rest, freed) ↦ cc (rw freed at run)
]

get_planes-length :
    (sizes : List ℤ) (i : ℕ) (answer : ℕ → Option ℕ × Option ℕ) (done : List Plane)
    (live live' : List ℕ) (planes : List Plane)
    → get_planes sizes i answer done live ≡ some (some planes, live')
    → length planes ≡ plane_count sizes + length done
unfolding get_planes
get_planes-length [] i answer done live live' planes run =
    let same = some_inj (some_fst run) in rw (← same) (omega arith)
get_planes-length (size ∷ sizes) i answer done live live' planes run =
    elim (Bool-cases (is_zero size)) [
      | inl over ↦
          let same = some_inj (some_fst (rw over at run)) in rw (over, ← same) (omega arith)
      | inr more ↦ elim (Option-cases (answer i).0) [
        | inl full ↦ absurd (not_planes done live live' planes (rw (more, full) at run))
        | inr (m, got) ↦ elim (Option-cases (answer i).1) [
          | inl full ↦
              absurd (not_planes done (m ∷ live) live' planes (rw (more, got, full) at run))
          | inr (b, made) ↦
              let p : Plane = record { memory = m; buf = b } in
              rw more (
                omega (
                  arith,
                  get_planes-length sizes (i + 1) answer (p ∷ done) (b ∷ m ∷ live) live' planes
                      (rw (more, got, made) at run),
                ))
        ]
      ]
    ]

length-memories :
    (planes : List Plane) (later : List ℕ)
    → length (memories planes later) ≡ length planes + length later
length-memories [] later = omega arith
length-memories (p ∷ planes) later = omega (arith, length-memories planes (p.memory ∷ later))

abbrev pub nth_or_zero : List ℕ → ℕ → ℕ
nth_or_zero [] i = 0
nth_or_zero (x ∷ xs) zero = x
nth_or_zero (x ∷ xs) (suc i) = nth_or_zero xs i

-- What the codec reads at the place `i` of a frame.
abbrev pub slot : List ℕ → List ℕ → ℕ → Option ℕ × ℕ
slot addresses linesize i =
    (get_elem? addresses i, if ltb i (length addresses) then nth_or_zero linesize i else 0)

slot_nil : (linesize : List ℕ) (i : ℕ) → slot [] linesize i ≡ (none, 0)
slot_nil linesize i = let out : ltb i 0 ≡ false = ground arith in rw out refl

slot_first :
    (m : ℕ) (addresses linesize : List ℕ)
    → slot (m ∷ addresses) linesize 0 ≡ (some m, nth_or_zero linesize 0)
slot_first m addresses linesize =
    let inside : ltb 0 (suc (length addresses)) ≡ true = ground arith in rw inside refl

slot_next :
    (m l : ℕ) (addresses linesize : List ℕ) (i : ℕ)
    → (slot (m ∷ addresses) (l ∷ linesize) (suc i) ≡ slot addresses linesize i)
      × (slot (m ∷ addresses) [] (suc i) ≡ slot addresses [] i)
slot_next m l addresses linesize i =
    let same : ltb (suc i) (suc (length addresses)) ≡ ltb i (length addresses) = ground arith in
    rw same (refl, refl)

slots_of-slot :
    (n i : ℕ) (addresses linesize : List ℕ)
    → i < n
    → get_elem? (slots_of n addresses linesize) i ≡ some (slot addresses linesize i)
unfolding slots_of
slots_of-slot zero i addresses linesize h = absurd (omega arith)
slots_of-slot (suc n) zero [] linesize h = rw (slot_nil linesize 0) refl
slots_of-slot (suc n) (suc i) [] linesize h =
    rw (slot_nil linesize (suc i), ← slot_nil linesize i)
      (slots_of-slot n i [] linesize (omega arith))
slots_of-slot (suc n) zero (m ∷ addresses) [] h = rw (slot_first m addresses []) refl
slots_of-slot (suc n) (suc i) (m ∷ addresses) [] h =
    rw ((slot_next m 0 addresses [] i).1) (slots_of-slot n i addresses [] (omega arith))
slots_of-slot (suc n) zero (m ∷ addresses) (l ∷ linesize) h =
    rw (slot_first m addresses (l ∷ linesize)) refl
slots_of-slot (suc n) (suc i) (m ∷ addresses) (l ∷ linesize) h =
    rw ((slot_next m l addresses linesize i).0) (slots_of-slot n i addresses linesize (omega arith))

-- What is there for the codec after the plane loop: without a frame -1, and live `lost` alone; with
-- one 0, its planes, at the place `i` the plane or NULL, and the palette in the second plane.
abbrev pub IsGot : Bool → FramePool → ℕ → List ℕ → List ℕ → ℤ → Option AvFrame → List ℕ → Type 0
IsGot paletted pool i lost rest ret none live = (ret ≡ negsuc 0) × Same live lost
IsGot paletted pool i lost rest ret (some frame) live =
    let addresses = memories frame.planes [] in
    (ret ≡ pos 0)
    × (length addresses ≡ plane_count pool.size)
    × (get_elem? frame.slots i ≡ some (slot addresses pool.linesize i))
    × (frame.palette ≡ (if paletted then get_elem? addresses 1 else none))
    × Same live (plane_handles frame.planes rest)

-- The same after an update of the pool `old` that has answered `updated`; after an error nothing
-- changes.
abbrev pub IsAnswer :
    Bool → FramePool → FramePool → ℕ → List ℕ → List ℕ → ℤ → ℤ → Option AvFrame → List ℕ → Type 0
IsAnswer paletted old pool i lost rest updated ret frame live =
    ((is_negative updated ≡ true) × (ret ≡ updated) × (frame ≡ none) × (live ≡ rest) × (pool ≡ old))
    ⊎ ((is_negative updated ≡ false) × IsGot paletted pool i lost rest ret frame live)

get_elem?_of_lt : (i : ℕ) (xs : List ℕ) → i < length xs → (x : ℕ) × (get_elem? xs i ≡ some x)
get_elem?_of_lt i [] h = absurd (omega arith)
get_elem?_of_lt zero (x ∷ xs) h = (x, refl)
get_elem?_of_lt (suc i) (x ∷ xs) h = get_elem?_of_lt i xs (omega arith)

filled :
    (paletted : Bool) (pool : FramePool) (planes : List Plane) (i : ℕ) (live lost rest : List ℕ)
    → length planes ≡ plane_count pool.size
    → (paletted ≡ true → 2 ≤ plane_count pool.size)
    → i < num_data_pointers
    → Same live (plane_handles planes rest)
    → (frame : AvFrame) × (fill_frame paletted pool.linesize planes ≡ some frame)
      × IsGot paletted pool i lost rest (pos 0) (some frame) live
unfolding fill_frame
filled false pool planes i live lost rest all two h same =
    let addresses = memories planes [] in
    (
      _,
      refl,
      (
        refl,
        omega (arith, all, length-memories planes []),
        slots_of-slot num_data_pointers i addresses pool.linesize h,
        refl,
        same,
      ),
    )
filled true pool planes i live lost rest all two h same =
    let addresses = memories planes [] in
    let (second, found) =
      get_elem?_of_lt 1 addresses (omega (arith, all, length-memories planes [], two refl)) in
    (
      record {
        slots = slots_of num_data_pointers addresses pool.linesize;
        planes = planes;
        palette = some second;
      },
      rw found refl,
      (
        refl,
        omega (arith, all, length-memories planes []),
        slots_of-slot num_data_pointers i addresses pool.linesize h,
        rw found refl,
        same,
      ),
    )

-- When the pool can be updated or reports an error, and a format with a palette has at least two
-- planes, `lavc_GetFrame` returns. After an error of the update it answers that error, and neither
-- the pool nor what is live has changed. Otherwise it answers -1, and of what it has allocated only
-- the memory of a plane is live whose reference could not be created; or it answers 0, as many
-- planes are live as the pool has sizes before the first 0, each place `i` of the frame's eight has
-- the address of its plane with the pool's line size, or NULL with 0 behind the planes, and a
-- palette is written to the second plane.
pub get_frame_lem :
    (fuel : ℕ) (f : Wanted) (paletted : Bool) (answer : ℕ → Option ℕ × Option ℕ)
    (pool pool' : FramePool) (live : List ℕ) (ret : ℤ) (i : ℕ)
    → update_frame_pool fuel f pool ≡ some (ret, pool')
    → (paletted ≡ true → 2 ≤ plane_count pool'.size)
    → i < num_data_pointers
    → (ret' : ℤ) × (frame : Option AvFrame) × (live' : List ℕ) × (get_frame fuel f paletted answer
          pool live
        ≡ some (ret', pool', frame, live'))
      × IsAnswer paletted pool pool' i
          (lost_memory pool'.size 0 answer live)
          live
          ret
          ret'
          frame
          live'
unfolding get_frame
get_frame_lem fuel f paletted answer pool pool' live ret i updated two h =
    elim (Bool-cases (is_negative ret)) [
      | inl bad ↦ (
        ret,
        none,
        live,
        rw (updated, bad) refl,
        inl (bad, refl, refl, refl, update_frame_pool_failed fuel f pool pool' ret updated bad),
      )
      | inr good ↦
          let (out, live', run, left) =
            get_planes-Same pool'.size 0 answer [] live live (λ k. refl) in
          go good out live' run left
    ]
  where
    go :
        is_negative ret ≡ false
        → (out : Option (List Plane)) (live' : List ℕ)
        → get_planes pool'.size 0 answer [] live ≡ some (out, live')
        → IsLeft out live' (lost_memory pool'.size 0 answer live) live
        → (ret' : ℤ) × (frame : Option AvFrame) × (live' : List ℕ) × (get_frame fuel f paletted
              answer pool live
            ≡ some (ret', pool', frame, live'))
          × IsAnswer paletted pool pool' i
              (lost_memory pool'.size 0 answer live)
              live
              ret
              ret'
              frame
              live'
    go good none live' run left =
        (negsuc 0, none, live', rw (updated, good, run) refl, inr (good, (refl, left)))
    go good (some planes) live' run left =
        let all = get_planes-length pool'.size 0 answer [] live live' planes run in
        let (frame, made, got) =
          filled paletted pool' planes i live' (lost_memory pool'.size 0 answer live) live
            (omega (arith, all)) two h left in
        (pos 0, some frame, live', rw (updated, good, run, made) refl, inr (good, got))
