-- ===== src/Mem/History.antt =====
-- Any sequence of allocator calls under policy 4, from an empty heap.
use ff_test.Base.{
  ℕ, ◌+◌, ◌<◌, ◌≡◌, refl, sym, ◌∙◌, Option, none, some, [], ◌∷◌, if◌then◌else◌, size_mod, inl, inr,
  Bool-cases, ◌==◌, some_inj, some_snd, subst,
}
use ff_test.Mem.{
  align, padded, Block, Memory, find, remove, c_realloc, realloc_tracked, jut_malloc, jut_realloc,
  jut_free,
}
use ff_test.Mem.Blocks.{Granted, with_block, without}
use ff_test.Mem.Accounting.{
  IsAccounted, IsFresh, finish-IsAccounted, jut_malloc-IsAccounted, jut_free-IsAccounted,
  jut_realloc-IsAccounted,
}

-- One call of FFmpeg to the allocator: of a fresh or a live pointer, and a resize that is granted.
-- Beside the heap stand the sizes that were asked for.
pub data Step (g : Granted) (m : Memory) : Granted → Memory → Type 0 where
  mallocs :
      (size : ℕ) (answer : Option ℕ)
      → IsFresh answer m.blocks
      → Step g m (with_block answer size g) (jut_malloc 4 size answer m).1
  reallocs_null :
      (size a : ℕ) (p : Option ℕ) {m' : Memory}
      → IsFresh (some a) m.blocks
      → jut_realloc 4 none size (some a) m ≡ some (p, m')
      → Step g m (if size == 0 then g else (a, size) ∷ g) m'
  reallocs :
      (a size a' : ℕ) (p : Option ℕ) (b : Block) {m' : Memory}
      → find a m.blocks ≡ some b
      → size + align < size_mod
      → IsFresh (some a') (remove a m.blocks)
      → jut_realloc 4 (some (a + align)) size (some a') m ≡ some (p, m')
      → Step g m ((a', size) ∷ without a g) m'
  frees :
      (a : ℕ) (b : Block) {m' : Memory}
      → find a m.blocks ≡ some b
      → jut_free 4 (some (a + align)) m ≡ some m'
      → Step g m (without a g) m'

pub data Reach (g : Granted) (m : Memory) : Granted → Memory → Type 0 where
  here : Reach g m g m
  next :
      {g' g'' : Granted} {m' m'' : Memory}
      → Reach g m g' m'
      → Step g' m' g'' m''
      → Reach g m g'' m''

-- The heap before the first call, with the counters of a new decoder.
abbrev pub initial : Memory
initial = record { blocks = []; ctx = some (record { mem_used = 0; memused_max = 0 }) }

realloc_null-IsAccounted :
    (size a : ℕ) (p : Option ℕ) (m m' : Memory)
    → IsFresh (some a) m.blocks
    → IsAccounted m
    → jut_realloc 4 none size (some a) m ≡ some (p, m')
    → IsAccounted m'
unfolding jut_realloc realloc_tracked c_realloc
realloc_null-IsAccounted size a p m m' f v e = elim (Bool-cases (size == 0)) [
  | inl zero_size ↦ subst IsAccounted (some_snd (rw zero_size at e)) v
  | inr more ↦
      subst IsAccounted (some_snd (rw more at e))
        (finish-IsAccounted a (padded size) size none m.blocks m.ctx f v.sized v.counted)
]

-- Every call keeps the count equal to the sum of the sizes of the live blocks.
pub Step-IsAccounted :
    {g g' : Granted} {m m' : Memory} → Step g m g' m' → IsAccounted m → IsAccounted m'
Step-IsAccounted {m = m} (mallocs size answer f) v = jut_malloc-IsAccounted size answer m f v
Step-IsAccounted {m = m} {m' = m'} (reallocs_null size a p f e) v =
    realloc_null-IsAccounted size a p m m' f v e
Step-IsAccounted {m = m} (reallocs a size a' p b live fits f e) v =
    let (q, granted, _, w) = jut_realloc-IsAccounted a size a' m b live fits f v in
    subst IsAccounted (some_snd (sym granted ∙ e)) w
Step-IsAccounted {m = m} (frees a b live e) v =
    let (q, freed, _, w) = jut_free-IsAccounted a m b live v in
    subst IsAccounted (some_inj (sym freed ∙ e)) w

pub initial-IsAccounted : IsAccounted initial
initial-IsAccounted = record { sized = tt; counted = refl }
