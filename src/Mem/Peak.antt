-- ===== src/Mem/Peak.antt =====
-- `memused_max`, the most bytes in use so far, under policy 4.
use ff_test.Base.{
  ℕ, ◌+◌, ◌-◌, ◌%◌, ◌≤◌, ◌<◌, ◌≡◌, refl, ◌∙◌, ◌⊎◌, some, List, ◌∷◌, arith, u32_mod, size_mod,
}
use ff_test.Mem.{
  align, Block, Counters, Memory, find, remove, c_free, charge, charge_max, malloc_tracked,
  finish_tracked, free_tracked, jut_malloc, jut_realloc, jut_free,
}
use ff_test.Mem.Blocks.{live_bytes, find-IsSized, live_bytes-remove}
use ff_test.Mem.Accounting.{IsAccounted, discharge_lem, hdr_of-align, realloc_live}

-- An allocation raises the maximum to the new count exactly when the count passes it.
pub jut_malloc_peak :
    (size a : ℕ) (bs : List Block) (c : Counters)
    → (c' : Counters) × ((jut_malloc 4 size (some a) (record { blocks = bs; ctx = some c })).1.ctx
        ≡ some c')
      × (c'.mem_used ≡ (c.mem_used + size) % u32_mod)
      × (c'.mem_used ≤ c'.memused_max)
      × (c.memused_max ≤ c'.memused_max)
      × ((c'.memused_max ≡ c.memused_max) ⊎ (c'.memused_max ≡ c'.mem_used))
unfolding jut_malloc malloc_tracked charge_max
jut_malloc_peak size a bs c =
    (charge_max size c, refl, refl, ground arith, ground arith, ground arith)

-- Under policy 4, for an accounted heap whose live blocks hold less than 2^32 bytes together and
-- a count at or below the maximum: a free of a live pointer leaves the count equal to the bytes
-- of the other blocks and at or below the maximum, which stays.
pub jut_free_peak :
    (a : ℕ) (bs : List Block) (c : Counters) (b : Block)
    → find a bs ≡ some b
    → IsAccounted (record { blocks = bs; ctx = some c })
    → live_bytes bs < u32_mod
    → c.mem_used ≤ c.memused_max
    → (c' : Counters) × (jut_free 4 (some (a + align)) (record { blocks = bs; ctx = some c })
        ≡ some (record { blocks = remove a bs; ctx = some c' }))
      × (c'.mem_used ≡ live_bytes (remove a bs))
      × (c'.memused_max ≡ c.memused_max)
      × (c'.mem_used ≤ c'.memused_max)
unfolding jut_free free_tracked c_free
jut_free_peak a bs c b e v small le =
    let (s, h, lt) = find-IsSized a bs b v.sized e in
    let sum = live_bytes-remove a bs b e in
    let used : (c.mem_used + u32_mod - s) % u32_mod ≡ live_bytes (remove a bs) =
      ground (arith, v.counted) in
    (
      record c { mem_used = (c.mem_used + u32_mod - s) % u32_mod },
      rw (hdr_of-align a, discharge_lem a s bs b (some c) e h, e),
      used,
      refl,
      ground (arith, v.counted),
    )

-- A granted resize of a live block, under policy 4 and in an accounted heap, that takes the live
-- bytes past the maximum but not to 2^32, leaves the maximum as it was and below the count.
pub jut_realloc_misses_peak :
    (a size a' : ℕ) (bs : List Block) (c : Counters) (b : Block)
    → find a bs ≡ some b
    → IsAccounted (record { blocks = bs; ctx = some c })
    → size + align < size_mod
    → live_bytes (remove a bs) + size < u32_mod
    → c.memused_max < live_bytes (remove a bs) + size
    → (m' : Memory) × (c' : Counters) × (jut_realloc 4
          (some (a + align))
          size
          (some a')
          (record { blocks = bs; ctx = some c })
        ≡ some (some (a' + align), m'))
      × (m'.ctx ≡ some c')
      × (c'.memused_max ≡ c.memused_max)
      × (c'.memused_max < c'.mem_used)
jut_realloc_misses_peak a size a' bs c b e v fits small past =
    let (s, h, lt) = find-IsSized a bs b v.sized e in
    let sum = live_bytes-remove a bs b e in
    let new : Block = record { base = a'; room = size + align; header = b.header } in
    let d : Counters = record c { mem_used = (c.mem_used + u32_mod - s) % u32_mod } in
    let used : d.mem_used ≡ live_bytes (remove a bs) % u32_mod = ground (arith, v.counted) in
    (
      (finish_tracked size (some d) (some a', new ∷ remove a bs)).1,
      charge size d,
      realloc_live a size s (some a') bs (some c) b e h fits ∙ unfold finish_tracked in refl,
      unfold finish_tracked in refl,
      unfold charge in refl,
      unfold charge in omega (arith, used),
    )
