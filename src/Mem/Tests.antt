-- ===== src/Mem/Tests.antt =====
-- Small heaps of src/ff_mem.cpp on which the theorems about the allocator apply.
use ff_test.Base.{ℕ, ◌+◌, ◌≤◌, ◌%◌, ◌≡◌, refl, none, some, [], ◌∷◌, arith, inl, inr, u32_mod}
use ff_test.Mem.{
  align, Block, Counters, Memory, find, remove, jut_malloc, jut_realloc, jut_free, free_tracked,
  c_free, hdr_of, discharge, write_header, charge_max, malloc_tracked, c_alloc, c_realloc,
  realloc_tracked, finish_tracked, charge,
}
use ff_test.Mem.Accounting.{IsAccounted, jut_realloc_refused}
use ff_test.Mem.Watermark.{Run, starts, calls, Run-IsExact}
use ff_test.Mem.History.{Reach, here, next, mallocs, frees, reallocs, initial}
use ff_test.Mem.Blocks.{AreSized, AreGranted}
use ff_test.Mem.Tracked.{used, Reach-AreGranted}
use ff_test.Mem.Policies.{IsGivenBack, jut_free-jut_malloc}
use ff_test.Mem.Samples.{block, second_block}
use ff_test.Mem.Layout.{jut_malloc_region}

-- 100 and 20 bytes in use.
abbrev two_blocks : Memory
two_blocks = record {
  blocks = block 4096 100 ∷ block 1024 20 ∷ [];
  ctx = some (record { mem_used = 120; memused_max = 130 });
}

two_blocks-IsAccounted : IsAccounted two_blocks
unfolding find
two_blocks-IsAccounted = record {
  sized = (refl, (100, refl, omega arith), (refl, (20, refl, omega arith), tt));
  counted = refl;
}

-- 100 bytes allocated at 4096, 20 at 1024, and the first freed.
three_calls : Reach [] initial ((1024, 20) ∷ []) second_block
unfolding jut_malloc malloc_tracked c_alloc write_header charge_max jut_free free_tracked hdr_of
    discharge c_free find remove
three_calls =
    next (next (next here (mallocs 100 (some 4096) refl)) (mallocs 20 (some 1024) refl))
      (frees 4096 (block 4096 100) refl refl)

Reach-AreGranted_example :
    AreSized (block 1024 20 ∷ [])
    × AreGranted (block 1024 20 ∷ []) ((1024, 20) ∷ [])
    × (used second_block ≡ 20 % u32_mod)
Reach-AreGranted_example = Reach-AreGranted three_calls

jut_realloc_refused_example :
    (c' : Counters) × (jut_realloc 4 (some 1088) 50 none two_blocks
      ≡ some (none, record { blocks = two_blocks.blocks; ctx = some c' }))
    × ((c'.mem_used + 20) % u32_mod ≡ 120)
    × ¬ IsAccounted (record { blocks = two_blocks.blocks; ctx = some c' })
unfolding find
jut_realloc_refused_example =
    jut_realloc_refused 1024 50 20 two_blocks.blocks (record { mem_used = 120; memused_max = 130 })
      (block 1024 20) refl refl (omega arith) (omega arith) two_blocks-IsAccounted

-- 100 bytes allocated at 4096, resized to 150 at 2048: the maximum is 100.
grown : Run ((2048, 150) ∷ []) 100 (record {
  blocks = block 2048 150 ∷ [];
  ctx = some (record { mem_used = 150; memused_max = 100 });
})
unfolding jut_malloc malloc_tracked c_alloc write_header charge_max jut_realloc realloc_tracked
    hdr_of discharge c_realloc finish_tracked charge find remove
grown =
    calls (reallocs 4096 150 2048 (some 2112) (block 4096 100) refl (omega arith) refl refl)
      (calls (mallocs 100 (some 4096) refl) starts (omega arith)) (omega arith)

Run-IsExact_example :
    (c : Counters) × (some (record { mem_used = 150; memused_max = 100 }) ≡ some c)
    × (c.mem_used ≡ 150)
    × (c.memused_max ≡ 100)
Run-IsExact_example = Run-IsExact grown

jut_malloc_region_example :
    let (p, m') = jut_malloc 4 30 (some 8192) two_blocks in
    (ptr : ℕ) × (b : Block) × (p ≡ some ptr)
    × (find 8192 m'.blocks ≡ some b)
    × (b.base + align ≡ ptr)
    × (ptr + 30 ≤ b.base + b.room)
    × (ptr % align ≡ 0)
jut_malloc_region_example = jut_malloc_region 4 30 8192 two_blocks (inl refl) (omega arith) refl

jut_free-jut_malloc_example : IsGivenBack 5 30 8192 two_blocks
jut_free-jut_malloc_example =
    jut_free-jut_malloc 5 30 8192 two_blocks (inr (inr (refl, omega arith))) (omega arith)
