-- ===== src/Mem/Blocks.antt =====
-- The block list of src/ff_mem.cpp: what looking up, removing and writing a header do to its sum.
use ff_test.Base.{
  ℕ, ◌+◌, ◌%◌, ◌<◌, ◌≡◌, refl, Option, none, some, List, [], ◌∷◌, arith, u32_mod, Bool-cases, ap,
  sym, ◌∙◌, inl, inr, if◌then◌else◌, ◌==◌,
}
use ff_test.Mem.{Block, find, remove, write_header}

abbrev pub size_of_header : Option ℕ → ℕ
size_of_header none = 0
size_of_header (some s) = s

-- The bytes that the callers hold: the sum of the sizes in the headers.
abbrev pub live_bytes : List Block → ℕ
live_bytes [] = 0
live_bytes (b ∷ bs) = size_of_header b.header + live_bytes bs

abbrev pub IsSized : Block → Type 0
IsSized b = (s : ℕ) × (b.header ≡ some s) × (s < u32_mod)

-- Addresses are distinct, and every header holds a 32-bit word.
abbrev pub AreSized : List Block → Type 0
AreSized [] = Unit {0}
AreSized (b ∷ bs) = (find b.base bs ≡ none) × IsSized b × AreSized bs

pub write_header_absent : (a s : ℕ) (bs : List Block) → find a bs ≡ none → write_header a s bs ≡ bs
unfolding find write_header
write_header_absent a s [] h = refl
write_header_absent a s (b ∷ bs) h = ground (arith, write_header_absent a s bs)

pub write_header_head :
    (a n s : ℕ) (h : Option ℕ) (bs : List Block)
    → write_header a s (record { base = a; room = n; header = h } ∷ bs)
      ≡ record { base = a; room = n; header = some (s % u32_mod) } ∷ bs
unfolding write_header
write_header_head a n s h bs = ground arith

pub find_head :
    (a n : ℕ) (h : Option ℕ) (bs : List Block)
    → find a (record { base = a; room = n; header = h } ∷ bs)
      ≡ some (record { base = a; room = n; header = h })
unfolding find
find_head a n h bs = ground arith

pub remove_head :
    (a n : ℕ) (h : Option ℕ) (bs : List Block)
    → remove a (record { base = a; room = n; header = h } ∷ bs) ≡ bs
unfolding remove
remove_head a n h bs = ground arith

pub find-remove-none : (a c : ℕ) (bs : List Block) → find c bs ≡ none → find c (remove a bs) ≡ none
unfolding find remove
find-remove-none a c [] h = refl
find-remove-none a c (b ∷ bs) h = ground (arith, find-remove-none a c bs)

pub find-remove_self : (a : ℕ) (bs : List Block) → AreSized bs → find a (remove a bs) ≡ none
unfolding find remove
find-remove_self a [] w = refl
find-remove_self a (b ∷ bs) w = ground (arith, find-remove_self a bs w.2)

pub remove-AreSized : (a : ℕ) (bs : List Block) → AreSized bs → AreSized (remove a bs)
unfolding remove
remove-AreSized a [] w = tt
remove-AreSized a (b ∷ bs) w =
    ground (arith, remove-AreSized a bs w.2, find-remove-none a b.base bs)

pub find-IsSized :
    (a : ℕ) (bs : List Block) (b : Block) → AreSized bs → find a bs ≡ some b → IsSized b
unfolding find
find-IsSized a [] b w e = cc
find-IsSized a (x ∷ bs) b w e = ground (arith, find-IsSized a bs b w.2)

pub live_bytes-remove :
    (a : ℕ) (bs : List Block) (b : Block)
    → find a bs ≡ some b
    → live_bytes (remove a bs) + size_of_header b.header ≡ live_bytes bs
unfolding find remove
live_bytes-remove a [] b e = cc
live_bytes-remove a (x ∷ bs) b e = ground (arith, live_bytes-remove a bs b)

-- The blocks that the callers hold, each with its address and the size that was asked for.
abbrev pub Granted : Type 0
Granted = List (ℕ × ℕ)

-- One more block, unless the C allocator has refused it.
abbrev pub with_block : Option ℕ → ℕ → Granted → Granted
with_block none size g = g
with_block (some a) size g = (a, size) ∷ g

abbrev pub without : ℕ → Granted → Granted
without a [] = []
without a ((a', size) ∷ g) = let rest = without a g in if a' == a then g else (a', size) ∷ rest

abbrev pub total : Granted → ℕ
total [] = 0
total ((a, size) ∷ g) = size + total g

-- The live blocks are those, and each header is the size that was asked for, cut to 32 bits.
abbrev pub AreGranted : List Block → Granted → Type 0
AreGranted [] [] = Unit {0}
AreGranted [] (_ ∷ g) = ⊥
AreGranted (b ∷ bs) [] = ⊥
AreGranted (b ∷ bs) ((a, size) ∷ g) =
    (b.base ≡ a) × (b.header ≡ some (size % u32_mod)) × AreGranted bs g

pub live_bytes-total :
    (bs : List Block) (g : Granted) → AreGranted bs g → live_bytes bs % u32_mod ≡ total g % u32_mod
live_bytes-total [] [] v = refl
live_bytes-total [] (_ ∷ g) v = absurd v
live_bytes-total (b ∷ bs) [] v = absurd v
live_bytes-total (b ∷ bs) ((a, size) ∷ g) (at_a, header, v) =
    rw header (omega (arith, live_bytes-total bs g v))

pub remove-AreGranted :
    (a : ℕ) (bs : List Block) (g : Granted)
    → AreGranted bs g
    → AreGranted (remove a bs) (without a g)
unfolding remove
remove-AreGranted a [] [] v = tt
remove-AreGranted a [] (_ ∷ g) v = absurd v
remove-AreGranted a (b ∷ bs) [] v = absurd v
remove-AreGranted a (b ∷ bs) ((a', size) ∷ g) (at_a, header, v) =
    let at_it : (b.base == a) ≡ (a' == a) = ap (λ k. k == a) at_a in
    elim (Bool-cases (b.base == a)) [
      | inl same ↦ let same' = sym at_it ∙ same in rw (same, same') v
      | inr other ↦
          let other' = sym at_it ∙ other in
          rw (other, other') (at_a, header, remove-AreGranted a bs g v)
    ]
