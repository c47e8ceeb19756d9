-- ===== src/Mem/Samples.antt =====
-- A small heap of src/ff_mem.cpp as it grows and shrinks, which the tests share.
use ff_test.Base.{ℕ, ◌+◌, refl, some, List, [], ◌∷◌}
use ff_test.Mem.{
  Block, Memory, find, remove, jut_malloc, jut_free, free_tracked, c_free, hdr_of, discharge,
  write_header, charge_max, malloc_tracked, c_alloc,
}
use ff_test.Mem.History.{Reach, here, next, mallocs, frees, initial}

abbrev pub block : ℕ → ℕ → Block
block a size = record { base = a; room = size + 64; header = some size }

abbrev heap_of : List Block → ℕ → ℕ → Memory
heap_of blocks used most = record {
  blocks = blocks;
  ctx = some (record { mem_used = used; memused_max = most });
}

-- 100 bytes allocated at 4096, then 20 at 1024, then the first freed.
abbrev pub one_block : Memory
one_block = heap_of (block 4096 100 ∷ []) 100 100

abbrev pub both_blocks : Memory
both_blocks = heap_of (block 1024 20 ∷ block 4096 100 ∷ []) 120 120

abbrev pub second_block : Memory
second_block = heap_of (block 1024 20 ∷ []) 20 120

pub first_malloc : Reach [] initial ((4096, 100) ∷ []) one_block
unfolding jut_malloc malloc_tracked c_alloc write_header charge_max find
first_malloc = next here (mallocs 100 (some 4096) refl)

pub second_malloc : Reach ((4096, 100) ∷ []) one_block ((1024, 20) ∷ (4096, 100) ∷ []) both_blocks
unfolding jut_malloc malloc_tracked c_alloc write_header charge_max find
second_malloc = next here (mallocs 20 (some 1024) refl)

pub first_free : Reach ((1024, 20) ∷ (4096, 100) ∷ []) both_blocks ((1024, 20) ∷ []) second_block
unfolding jut_free free_tracked hdr_of discharge c_free find remove
first_free = next here (frees 4096 (block 4096 100) refl refl)
