-- ===== src/Mem.antt =====
-- src/ff_mem.cpp: the allocator that FFmpeg is linked to, which counts the bytes in use. A pointer
-- is an `Option ℕ` (`none` is NULL). The C heap is the list of its live blocks. Each call is given
-- the answer of the C allocator, an address or NULL; a result `none` is undefined behaviour.
pub mod Blocks
pub mod Accounting
pub mod History
pub mod Granted
pub mod Peak
pub mod Watermark
pub mod Layout
pub mod Tracked
pub mod Samples
pub mod Policies
mod Tests
use ff_test.Base.{
  ℕ, ◌+◌, ◌-◌, ◌%◌, Option, none, some, List, [], ◌∷◌, ◌==◌, ltb, if◌then◌else◌, u32_mod, size_mod,
  ◌>>=◌,
}
use mathlib.Core.Option

-- `#define ALIGN (64)`
abbrev pub align : ℕ
align = 64

-- A live block of the C heap: its address, its size, and the word `size` of the `jut_mem_hdr_t` at
-- its start, `none` as long as it is not written.
pub record Block : Type 0 where
  pub base : ℕ
  pub room : ℕ
  pub header : Option ℕ

-- The two counters of a `Decoder` that the allocator keeps.
pub record Counters : Type 0 where
  pub mem_used : ℕ
  pub memused_max : ℕ

-- The C heap, and the counters of the decoder that `tls_get_ctx` returns.
pub record Memory : Type 0 where
  pub blocks : List Block
  pub ctx : Option Counters

unfoldable pub find : ℕ → List Block → Option Block
find a [] = none
find a (b ∷ bs) = if b.base == a then some b else find a bs

pub remove : ℕ → List Block → List Block
remove a [] = []
remove a (b ∷ bs) = if b.base == a then bs else b ∷ remove a bs

-- `hdr->size = size`, a 32-bit word.
pub write_header : ℕ → ℕ → List Block → List Block
write_header a size [] = []
write_header a size (b ∷ bs) =
    if b.base == a
    then record b { header = some (size % u32_mod) } ∷ bs
    else b ∷ write_header a size bs

-- malloc and memalign
unfoldable pub c_alloc : ℕ → Option ℕ → List Block → Option ℕ × List Block
c_alloc n none bs = (none, bs)
c_alloc n (some a) bs = (some a, record { base = a; room = n; header = none } ∷ bs)

-- free, of a pointer that is not NULL
unfoldable pub c_free : ℕ → List Block → Option (List Block)
c_free a bs = do b ← find a bs; some (remove a bs)

-- realloc: of NULL it is malloc, to size 0 it frees (glibc), and when it fails the block stays.
unfoldable pub c_realloc : Option ℕ → ℕ → Option ℕ → List Block → Option (Option ℕ × List Block)
unfolding c_alloc
c_realloc none n answer bs = some (c_alloc n answer bs)
c_realloc (some a) n answer bs = do
  b ← find a bs
  if n == 0 then some (none, remove a bs) else elim answer [
    | none ↦ some (none, bs)
    | some a' ↦ some (some a', record { base = a'; room = n; header = b.header } ∷ remove a bs)
  ]

-- `size + ALIGN` in a size_t
abbrev pub padded : ℕ → ℕ
padded size = (size + align) % size_mod

-- `(uint8_t*)ptr - ALIGN`
pub hdr_of : ℕ → Option ℕ
hdr_of ptr = if ltb ptr align then none else some (ptr - align)

-- `dc->m_mem_used += size`, with the maximum
pub charge_max : ℕ → Counters → Counters
charge_max size c =
    let used = (c.mem_used + size) % u32_mod in
    record { mem_used = used; memused_max = if ltb c.memused_max used then used else c.memused_max }

-- `dc->m_mem_used += hdr->size`, as `jut_realloc` does it
pub charge : ℕ → Counters → Counters
charge size c = record c { mem_used = (c.mem_used + size % u32_mod) % u32_mod }

-- `if (dc) dc->m_mem_used -= hdr->size`
pub discharge : ℕ → Memory → Option (Option Counters)
discharge a m = elim m.ctx [
  | none ↦ some none
  | some c ↦ do
    b ← find a m.blocks
    size ← b.header
    some (some (record c { mem_used = (c.mem_used + u32_mod - size) % u32_mod }))
]

malloc_tracked : ℕ → Option ℕ → Memory → Option ℕ × Memory
unfolding c_alloc write_header charge_max
malloc_tracked size none m = (none, m)
malloc_tracked size (some a) m = (
  some (a + align),
  record {
    blocks = write_header a size (c_alloc (padded size) (some a) m.blocks).1;
    ctx = Option.map (charge_max size) m.ctx;
  },
)

malloc_padded : ℕ → Option ℕ → Memory → Option ℕ × Memory
unfolding c_alloc
malloc_padded size none m = (none, m)
malloc_padded size (some a) m =
    (some (a + align), record m { blocks = (c_alloc (padded size) (some a) m.blocks).1 })

malloc_plain : ℕ → Option ℕ → Memory → Option ℕ × Memory
unfolding c_alloc
malloc_plain size answer m =
    let (p, bs) = c_alloc size answer m.blocks in (p, record m { blocks = bs })

-- The first argument is the global `policy`, which is 4 in the program.
pub jut_malloc : ℕ → ℕ → Option ℕ → Memory → Option ℕ × Memory
unfolding malloc_plain malloc_tracked malloc_padded
jut_malloc policy size answer m =
    if policy == 1
    then malloc_plain size answer m
    else if policy == 4
    then malloc_tracked size answer m
    else if policy == 5
    then (if size == 0 then malloc_plain size answer m else malloc_padded size answer m)
    else (none, m)

-- From `if (p)` on, for policy 4.
pub finish_tracked : ℕ → Option Counters → Option ℕ × List Block → Option ℕ × Memory
unfolding write_header charge
finish_tracked size ctx (none, bs) = (none, record { blocks = bs; ctx = ctx })
finish_tracked size ctx (some a, bs) = (
  some (a + align),
  record { blocks = write_header a size bs; ctx = Option.map (charge size) ctx },
)

realloc_tracked : Option ℕ → ℕ → Option ℕ → Memory → Option (Option ℕ × Memory)
unfolding hdr_of discharge finish_tracked
realloc_tracked none size answer m =
    if size == 0
    then some (none, m)
    else do r ← c_realloc none (padded size) answer m.blocks; some (finish_tracked size m.ctx r)
realloc_tracked (some ptr) size answer m = do
  hdr ← hdr_of ptr
  ctx ← discharge hdr m
  r ← c_realloc (some hdr) (padded size) answer m.blocks
  some (finish_tracked size ctx r)

-- From `if (p)` on, for policy 5.
finish_padded : ℕ → Memory → Option ℕ × List Block → Option ℕ × Memory
unfolding write_header
finish_padded size m (none, bs) = (none, record m { blocks = bs })
finish_padded size m (some a, bs) = (some (a + align), record m { blocks = write_header a size bs })

realloc_padded : Option ℕ → ℕ → Option ℕ → Memory → Option (Option ℕ × Memory)
unfolding hdr_of finish_padded
realloc_padded none size answer m =
    if size == 0
    then some (none, m)
    else do r ← c_realloc none (padded size) answer m.blocks; some (finish_padded size m r)
realloc_padded (some ptr) size answer m = do
  hdr ← hdr_of ptr
  r ← c_realloc (some hdr) (padded size) answer m.blocks
  some (finish_padded size m r)

realloc_plain : Option ℕ → ℕ → Option ℕ → Memory → Option (Option ℕ × Memory)
realloc_plain ptr size answer m = do
  r ← c_realloc ptr size answer m.blocks
  some (r.0, record m { blocks = r.1 })

pub jut_realloc : ℕ → Option ℕ → ℕ → Option ℕ → Memory → Option (Option ℕ × Memory)
unfolding realloc_plain realloc_tracked realloc_padded
jut_realloc policy ptr size answer m =
    if policy == 1
    then realloc_plain ptr size answer m
    else if policy == 4
    then realloc_tracked ptr size answer m
    else if policy == 5
    then realloc_padded ptr size answer m
    else some (none, m)

free_tracked : ℕ → Memory → Option Memory
unfolding hdr_of discharge c_free
free_tracked ptr m = do
  hdr ← hdr_of ptr
  ctx ← discharge hdr m
  bs ← c_free hdr m.blocks
  some (record { blocks = bs; ctx = ctx })

free_padded : ℕ → Memory → Option Memory
unfolding hdr_of c_free
free_padded ptr m = do hdr ← hdr_of ptr; bs ← c_free hdr m.blocks; some (record m { blocks = bs })

free_plain : ℕ → Memory → Option Memory
unfolding c_free
free_plain ptr m = do bs ← c_free ptr m.blocks; some (record m { blocks = bs })

pub jut_free : ℕ → Option ℕ → Memory → Option Memory
unfolding free_plain free_tracked free_padded
jut_free policy none m = some m
jut_free policy (some ptr) m =
    if policy == 1
    then free_plain ptr m
    else if policy == 4
    then free_tracked ptr m
    else if policy == 5
    then free_padded ptr m
    else some m
