-- ===== src/Mem/Layout.antt =====
-- Where the pointers that `jut_malloc` returns lie, and that `jut_free` takes them back.
use ff_test.Base.{
  ℕ, ◌+◌, ◌-◌, ◌%◌, ◌≤◌, ◌<◌, ◌≡◌, refl, ◌⊎◌, inl, inr, none, some, List, false, ◌==◌, arith,
  u32_mod, size_mod,
}
use ff_test.Mem.{
  align, padded, Block, Counters, Memory, find, c_free, charge_max, malloc_tracked, malloc_plain,
  malloc_padded, free_tracked, free_padded, jut_malloc, jut_free, hdr_of,
}
use ff_test.Mem.Blocks.{find_head, remove_head, write_header_head}
use ff_test.Mem.Accounting.{hdr_of-align}

nonzero : (n : ℕ) → 0 < n → (n == 0) ≡ false
nonzero n h = ground arith

-- With the header (policy 4, and policy 5 of a size that is not 0), where `size + 64` is below
-- 2^64 and the C allocator answers a multiple of 64: the pointer is the block's address plus 64,
-- the `size` bytes from it lie inside the block, and it is a multiple of 64.
pub jut_malloc_region :
    (policy size a : ℕ) (m : Memory)
    → (policy ≡ 4) ⊎ ((policy ≡ 5) × (0 < size))
    → size + align < size_mod
    → a % align ≡ 0
    → let (p, m') = jut_malloc policy size (some a) m in
      (ptr : ℕ) × (b : Block) × (p ≡ some ptr)
      × (find a m'.blocks ≡ some b)
      × (b.base + align ≡ ptr)
      × (ptr + size ≤ b.base + b.room)
      × (ptr % align ≡ 0)
unfolding jut_malloc malloc_tracked malloc_padded
jut_malloc_region policy size a m (inl four) fits aligned = rw four (
  a + align,
  record { base = a; room = padded size; header = some (size % u32_mod) },
  refl,
  rw write_header_head (find_head a (padded size) (some (size % u32_mod)) m.blocks),
  refl,
  omega arith,
  omega arith,
)
jut_malloc_region policy size a m (inr (five, more)) fits aligned =
    rw (five, nonzero size more)
      (
        a + align,
        record { base = a; room = padded size; header = none },
        refl,
        find_head a (padded size) none m.blocks,
        refl,
        omega arith,
        omega arith,
      )

-- A free right after an allocation restores the blocks and the count; the maximum keeps what
-- the allocation made of it.
pub jut_free-jut_malloc :
    (size a : ℕ) (bs : List Block) (c : Counters)
    → c.mem_used < u32_mod
    → jut_free 4
        (some (a + align))
        (jut_malloc 4 size (some a) (record { blocks = bs; ctx = some c })).1
      ≡ some (record {
        blocks = bs;
        ctx = some (record c { memused_max = (charge_max size c).memused_max });
      })
unfolding jut_malloc malloc_tracked jut_free free_tracked
jut_free-jut_malloc size a bs c lt = rw write_header_head (
    rw
      (
        hdr_of-align a,
        find_head a (padded size) (some (size % u32_mod)) bs,
        remove_head a (padded size) (some (size % u32_mod)) bs,
      )
      (unfold charge_max in ground arith))

-- Under policy 5 a block of size 0 has no header, so that its free is undefined behaviour, unless
-- another block lies 64 bytes below.
pub jut_free_zero_padded :
    (a : ℕ) (m : Memory)
    → find (a - align) m.blocks ≡ none
    → (jut_malloc 5 0 (some a) m).0 ≡ some a
      × (jut_free 5 (some a) (jut_malloc 5 0 (some a) m).1 ≡ none)
unfolding jut_malloc malloc_plain jut_free free_padded hdr_of c_free find
jut_free_zero_padded a m h = (refl, ground arith)
