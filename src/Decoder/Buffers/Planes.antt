-- ===== src/Decoder/Buffers/Planes.antt =====
-- What `lavc_GetFrame` of src/Decoder.cpp allocates, and what it gives back on an error.
use ff_test.Base.{
  ℕ, ◌+◌, ◌≡◌, refl, inl, inr, if◌then◌else◌, Option, none, some, List, [], ◌∷◌, arith, Bool-cases,
  Option-cases,
}
use ff_test.Base.Int.{ℤ, is_zero}
use ff_test.Base.Handles.{Same, count, free-Same}
use ff_test.Decoder.Buffers.{Plane, unref_planes, get_planes}

-- The allocations of planes, and `rest`.
abbrev pub plane_handles : List Plane → List ℕ → List ℕ
plane_handles [] rest = rest
plane_handles (p ∷ planes) rest = p.memory ∷ p.buf ∷ plane_handles planes rest

-- Dropping the planes frees their memory and their references, once each.
pub unref_planes-Same :
    (planes : List Plane) (live rest : List ℕ)
    → Same live (plane_handles planes rest)
    → (live' : List ℕ) × (unref_planes planes live ≡ some live') × Same live' rest
unfolding unref_planes
unref_planes-Same [] live rest s = (live, refl, s)
unref_planes-Same (p ∷ planes) live rest s =
    let (l1, e1, s1) = free-Same p.memory live (p.buf ∷ plane_handles planes rest) s in
    let (l2, e2, s2) = free-Same p.buf l1 (plane_handles planes rest) s1 in
    let (l3, e3, s3) = unref_planes-Same planes l2 rest s2 in (l3, rw (e1, e2) e3, s3)

-- The memory that is lost: that of the plane whose AVBufferRef cannot be allocated.
abbrev pub lost_memory : List ℤ → ℕ → (ℕ → Option ℕ × Option ℕ) → List ℕ → List ℕ
lost_memory [] i answer rest = rest
lost_memory (size ∷ sizes) i answer rest =
    let later = lost_memory sizes (i + 1) answer rest in
    if is_zero size then rest else elim (answer i).0 [
      | none ↦ rest
      | some memory ↦ elim (answer i).1 [ none ↦ memory ∷ rest | some _ ↦ later ]
    ]

count-plane_handles :
    (k x : ℕ) (planes : List Plane) (rest : List ℕ)
    → count k (plane_handles planes (x ∷ rest)) ≡ count k (x ∷ plane_handles planes rest)
count-plane_handles k x [] rest = refl
count-plane_handles k x (p ∷ planes) rest = omega (arith, count-plane_handles k x planes rest)

-- What is live after the loop: the planes and `rest`, or after an error `lost`.
abbrev pub IsLeft : Option (List Plane) → List ℕ → List ℕ → List ℕ → Type 0
IsLeft none live lost rest = Same live lost
IsLeft (some planes) live lost rest = Same live (plane_handles planes rest)

-- The plane loop of `lavc_GetFrame`, begun with the planes `done` and other allocations live,
-- always returns and never frees what is not live. With every plane allocated, what is live are
-- the planes and those others; after an error it is those others alone, but for the memory of a
-- plane whose reference could not be created, which stays allocated.
pub get_planes-Same :
    (sizes : List ℤ) (i : ℕ) (answer : ℕ → Option ℕ × Option ℕ) (done : List Plane)
    (live rest : List ℕ)
    → Same live (plane_handles done rest)
    → (out : Option (List Plane)) × (live' : List ℕ) × (get_planes sizes i answer done live
        ≡ some (out, live'))
      × IsLeft out live' (lost_memory sizes i answer rest) rest
unfolding get_planes
get_planes-Same [] i answer done live rest s = (some done, live, refl, s)
get_planes-Same (size ∷ sizes) i answer done live rest s = elim (Bool-cases (is_zero size)) [
  | inl over ↦ (some done, live, rw over refl, s)
  | inr more ↦ elim (Option-cases (answer i).0) [
    | inl full ↦
        let (l, e, same) = unref_planes-Same done live rest s in
        (none, l, rw (more, full) (rw e refl), rw (more, full) same)
    | inr (m, got) ↦ elim (Option-cases (answer i).1) [
      | inl full ↦
          let (l, e, same) =
            unref_planes-Same done (m ∷ live) (m ∷ rest)
              (λ k. omega (arith, s k, count-plane_handles k m done rest)) in
          (none, l, rw (more, got, full) (rw e refl), rw (more, got, full) same)
      | inr (b, made) ↦
          let p : Plane = record { memory = m; buf = b } in
          let (out, l, e, same) =
            get_planes-Same sizes (i + 1) answer (p ∷ done) (b ∷ m ∷ live) rest
              (λ k. omega (arith, s k)) in
          (out, l, rw (more, got, made) e, rw (more, got, made) same)
    ]
  ]
]
