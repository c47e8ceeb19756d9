-- ===== src/Mem/Accounting.antt =====
-- The count of bytes in use that `jut_malloc`, `jut_realloc` and `jut_free` keep under policy 4.
use ff_test.Base.{
  ℕ, ◌+◌, ◌-◌, ◌%◌, ◌<◌, ◌≡◌, refl, ◌∙◌, Option, none, some, List, ◌∷◌, arith, u32_mod, size_mod,
}
use ff_test.Mem.{
  align, padded, Block, Counters, Memory, find, remove, c_free, c_realloc, hdr_of, charge,
  discharge, malloc_tracked, finish_tracked, realloc_tracked, free_tracked, jut_malloc, jut_realloc,
  jut_free,
}
use ff_test.Mem.Blocks.{
  live_bytes, AreSized, write_header_head, remove-AreSized, find-IsSized, live_bytes-remove,
}

-- The count is the sum of the sizes in the headers, in 32 bits. With no current decoder there is
-- no count.
abbrev pub Counted : Option Counters → List Block → Type 0
Counted none bs = Unit {0}
Counted (some c) bs = c.mem_used ≡ live_bytes bs % u32_mod

pub record IsAccounted (m : Memory) : Type 0 where
  pub sized : AreSized m.blocks
  pub counted : Counted m.ctx m.blocks

-- The C allocator never hands out the address of a live block.
abbrev pub IsFresh : Option ℕ → List Block → Type 0
IsFresh none bs = Unit {0}
IsFresh (some a) bs = find a bs ≡ none

-- A new block, its header written, in front of accounted blocks.
head-AreSized :
    (a n size : ℕ) (bs : List Block)
    → find a bs ≡ none
    → AreSized bs
    → AreSized (record { base = a; room = n; header = some (size % u32_mod) } ∷ bs)
head-AreSized a n size bs f w = (f, (size % u32_mod, refl, omega arith), w)

malloc_some-IsAccounted :
    (size a : ℕ) (bs : List Block) (ctx : Option Counters)
    → find a bs ≡ none
    → IsAccounted (record { blocks = bs; ctx = ctx })
    → IsAccounted (malloc_tracked size (some a) (record { blocks = bs; ctx = ctx })).1
unfolding malloc_tracked
malloc_some-IsAccounted size a bs none f v =
    rw write_header_head
      (record { sized = head-AreSized a (padded size) size bs f v.sized; counted = tt })
malloc_some-IsAccounted size a bs (some c) f v = rw write_header_head (record {
  sized = head-AreSized a (padded size) size bs f v.sized;
  counted = omega (arith, v.counted);
})

-- `jut_malloc` keeps the count equal to the sum of the sizes of the live blocks, whether or not
-- the C allocator has memory.
pub jut_malloc-IsAccounted :
    (size : ℕ) (answer : Option ℕ) (m : Memory)
    → IsFresh answer m.blocks
    → IsAccounted m
    → IsAccounted (jut_malloc 4 size answer m).1
unfolding jut_malloc
jut_malloc-IsAccounted size none m f v = v
jut_malloc-IsAccounted size (some a) m f v = malloc_some-IsAccounted size a m.blocks m.ctx f v

pub hdr_of-align : (a : ℕ) → hdr_of (a + align) ≡ some a
unfolding hdr_of
hdr_of-align a = ground arith

abbrev pub discharged : ℕ → Option Counters → Option Counters
discharged s none = none
discharged s (some c) = some (record c { mem_used = (c.mem_used + u32_mod - s) % u32_mod })

pub discharge_lem :
    (a s : ℕ) (bs : List Block) (b : Block) (ctx : Option Counters)
    → find a bs ≡ some b
    → b.header ≡ some s
    → discharge a (record { blocks = bs; ctx = ctx }) ≡ some (discharged s ctx)
unfolding discharge
discharge_lem a s bs b none e h = refl
discharge_lem a s bs b (some c) e h = rw e (rw h)

-- Taking a block away and its size off the count.
discharged-Counted :
    (a s : ℕ) (bs : List Block) (b : Block) (ctx : Option Counters)
    → find a bs ≡ some b
    → b.header ≡ some s
    → s < u32_mod
    → Counted ctx bs
    → Counted (discharged s ctx) (remove a bs)
discharged-Counted a s bs b none e h lt v = tt
discharged-Counted a s bs b (some c) e h lt v = ground (arith, live_bytes-remove a bs b e)

-- What `jut_free` does to a live pointer.
pub free_live :
    (a s : ℕ) (m : Memory) (b : Block)
    → find a m.blocks ≡ some b
    → b.header ≡ some s
    → jut_free 4 (some (a + align)) m
      ≡ some (record { blocks = remove a m.blocks; ctx = discharged s m.ctx })
unfolding jut_free free_tracked c_free
free_live a s m b e h = rw (hdr_of-align a, discharge_lem a s m.blocks b m.ctx e h, e) refl

-- A live pointer can be freed: its block goes, and the count is right again.
pub jut_free-IsAccounted :
    (a : ℕ) (m : Memory) (b : Block)
    → find a m.blocks ≡ some b
    → IsAccounted m
    → (m' : Memory) × (jut_free 4 (some (a + align)) m ≡ some m')
      × (m'.blocks ≡ remove a m.blocks)
      × IsAccounted m'
jut_free-IsAccounted a m b e v =
    let (s, h, lt) = find-IsSized a m.blocks b v.sized e in
    (
      record { blocks = remove a m.blocks; ctx = discharged s m.ctx },
      free_live a s m b e h,
      refl,
      record {
        sized = remove-AreSized a m.blocks v.sized;
        counted = discharged-Counted a s m.blocks b m.ctx e h lt v.counted;
      },
    )

pub finish-IsAccounted :
    (a n size : ℕ) (h : Option ℕ) (bs : List Block) (ctx : Option Counters)
    → find a bs ≡ none
    → AreSized bs
    → Counted ctx bs
    → IsAccounted
        (finish_tracked size ctx (some a, record { base = a; room = n; header = h } ∷ bs)).1
unfolding finish_tracked charge
finish-IsAccounted a n size h bs none f w e =
    rw write_header_head (record { sized = head-AreSized a n size bs f w; counted = tt })
finish-IsAccounted a n size h bs (some c) f w e =
    rw write_header_head
      (record { sized = head-AreSized a n size bs f w; counted = omega (arith, e) })

c_realloc_lem :
    (a n : ℕ) (answer : Option ℕ) (bs : List Block) (b : Block)
    → find a bs ≡ some b
    → 0 < n
    → c_realloc (some a) n answer bs
      ≡ some (elim answer [
        | none ↦ (none, bs)
        | some a' ↦ (some a', record { base = a'; room = n; header = b.header } ∷ remove a bs)
      ])
unfolding c_realloc
c_realloc_lem a n none bs b e h = ground arith
c_realloc_lem a n (some a') bs b e h = ground arith

-- What `jut_realloc` does to a live pointer, whatever the C allocator answers.
pub realloc_live :
    (a size s : ℕ) (answer : Option ℕ) (bs : List Block) (ctx : Option Counters) (b : Block)
    → find a bs ≡ some b
    → b.header ≡ some s
    → size + align < size_mod
    → jut_realloc 4 (some (a + align)) size answer (record { blocks = bs; ctx = ctx })
      ≡ some (
          finish_tracked size (discharged s ctx) (elim answer [
            | none ↦ (none, bs)
            | some a' ↦ (
              some a',
              record { base = a'; room = size + align; header = b.header } ∷ remove a bs,
            )
          ]))
unfolding jut_realloc realloc_tracked
realloc_live a size s answer bs ctx b e h fits =
    let n : padded size ≡ size + align = omega arith in
    rw (
      hdr_of-align a,
      discharge_lem a s bs b ctx e h,
      n,
      c_realloc_lem a (size + align) answer bs b e (omega arith),
    )

-- A `jut_realloc` of a live pointer that the C allocator grants: the old block goes, one of the new
-- size is live at the new pointer, and the count is right again.
pub jut_realloc-IsAccounted :
    (a size a' : ℕ) (m : Memory) (b : Block)
    → find a m.blocks ≡ some b
    → size + align < size_mod
    → IsFresh (some a') (remove a m.blocks)
    → IsAccounted m
    → (m' : Memory) × (jut_realloc 4 (some (a + align)) size (some a') m
        ≡ some (some (a' + align), m'))
      × (m'.blocks
          ≡ record { base = a'; room = size + align; header = some (size % u32_mod) }
            ∷ remove a m.blocks)
      × IsAccounted m'
jut_realloc-IsAccounted a size a' m b e fits f v =
    let (s, h, lt) = find-IsSized a m.blocks b v.sized e in
    let rest : List Block = remove a m.blocks in
    let new : Block = record { base = a'; room = size + align; header = b.header } in
    let out : Option ℕ × Memory = finish_tracked size (discharged s m.ctx) (some a', new ∷ rest) in
    (
      out.1,
      realloc_live a size s (some a') m.blocks m.ctx b e h fits ∙ unfold finish_tracked in refl,
      unfold finish_tracked in write_header_head a' (size + align) size b.header rest,
      finish-IsAccounted a' (size + align) size b.header rest (discharged s m.ctx) f
          (remove-AreSized a m.blocks v.sized)
          (discharged-Counted a s m.blocks b m.ctx e h lt v.counted),
    )

-- When, under policy 4, the C allocator refuses to resize a live block of an accounted heap with
-- a size that is not 0, and the new size fits, `jut_realloc` returns NULL, the block stays live
-- with its header, and the count has lost the size of that block, so that the heap is not
-- accounted any more.
pub jut_realloc_refused :
    (a size s : ℕ) (bs : List Block) (c : Counters) (b : Block)
    → find a bs ≡ some b
    → b.header ≡ some s
    → 0 < s
    → size + align < size_mod
    → IsAccounted (record { blocks = bs; ctx = some c })
    → (c' : Counters) × (jut_realloc 4
          (some (a + align))
          size
          none
          (record { blocks = bs; ctx = some c })
        ≡ some (none, record { blocks = bs; ctx = some c' }))
      × ((c'.mem_used + s) % u32_mod ≡ c.mem_used)
      × ¬ IsAccounted (record { blocks = bs; ctx = some c' })
jut_realloc_refused a size s bs c b e h pos_s fits v =
    let sized = find-IsSized a bs b v.sized e in
    let lt : s < u32_mod = ground arith in
    (
      record c { mem_used = (c.mem_used + u32_mod - s) % u32_mod },
      realloc_live a size s none bs (some c) b e h fits ∙ unfold finish_tracked in refl,
      omega (arith, v.counted),
      λ w. omega (arith, v.counted, w.counted),
    )
