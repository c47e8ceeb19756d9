-- ===== src/Mem/Policies.antt =====
-- A block of `jut_malloc` given back to `jut_free`, under each value of the global `policy` of
-- src/ff_mem.cpp.
use ff_test.Base.{
  ℕ, ◌+◌, ◌%◌, ◌<◌, ◌≡◌, ◌⊎◌, refl, sym, inl, inr, ◌==◌, true, false, Option, none, some, List, ◌∷◌,
  arith, u32_mod, subst,
}
use mathlib.Core.Option
use ff_test.Mem.{
  align, padded, Block, Counters, Memory, find, remove, c_alloc, c_free, charge_max, malloc_tracked,
  malloc_padded, malloc_plain, free_tracked, free_padded, free_plain, jut_malloc, jut_free,
}
use ff_test.Mem.Blocks.{write_header_head}
use ff_test.Mem.Accounting.{hdr_of-align, discharge_lem, discharged}
use ff_test.Mem.Tracked.{used}

-- The pointer of a `jut_malloc`, the memory after its `jut_free`.
abbrev pub IsGivenBack : ℕ → ℕ → ℕ → Memory → Type 0
IsGivenBack policy size a m =
    let (p, m') = jut_malloc policy size (some a) m in
    (ptr : ℕ) × (m'' : Memory) × (p ≡ some ptr)
    × (jut_free policy (some ptr) m' ≡ some m'')
    × (m''.blocks ≡ m.blocks)
    × (used m'' ≡ used m)

first_found : (a : ℕ) (b : Block) (bs : List Block) → b.base ≡ a → find a (b ∷ bs) ≡ some b
unfolding find
first_found a b bs e = ground arith

abbrev with_ctx : List Block → Option Counters → Memory
with_ctx bs ctx = record { blocks = bs; ctx = ctx }

used-discharged :
    (size : ℕ) (bs : List Block) (ctx : Option Counters)
    → used (with_ctx bs ctx) < u32_mod
    → used (with_ctx bs (discharged (size % u32_mod) (Option.map (charge_max size) ctx)))
      ≡ used (with_ctx bs ctx)
unfolding charge_max
used-discharged size bs none h = refl
used-discharged size bs (some c) h = omega arith

plain : (size a : ℕ) (m : Memory) → IsGivenBack 1 size a m
unfolding jut_malloc malloc_plain c_alloc jut_free free_plain c_free find remove
plain size a m = let same : (a == a) ≡ true = ground arith in (a, m, refl, rw same refl, refl, refl)

tracked : (size a : ℕ) (m : Memory) → used m < u32_mod → IsGivenBack 4 size a m
unfolding jut_malloc malloc_tracked c_alloc jut_free free_tracked c_free find remove
tracked size a m h =
    let same : (a == a) ≡ true = ground arith in
    let b : Block = record { base = a; room = padded size; header = some (size % u32_mod) } in
    let bs : List Block = b ∷ m.blocks in
    let ctx : Option Counters = Option.map (charge_max size) m.ctx in
    let s = size % u32_mod in
    let there : find a bs ≡ some b = first_found a b m.blocks refl in
    rw write_header_head (
      a + align,
      record { blocks = m.blocks; ctx = discharged s ctx },
      refl,
      rw (hdr_of-align a, discharge_lem a s bs b ctx there refl, there) (rw same refl),
      refl,
      used-discharged size m.blocks m.ctx h,
    )

headed : (size a : ℕ) (m : Memory) → 0 < size → IsGivenBack 5 size a m
unfolding jut_malloc malloc_padded c_alloc jut_free free_padded c_free find remove
headed size a m h =
    let same : (a == a) ≡ true = ground arith in
    let more : (size == 0) ≡ false = ground arith in
    let b : Block = record { base = a; room = padded size; header = none } in
    let there : find a (b ∷ m.blocks) ≡ some b = first_found a b m.blocks refl in
    rw more (a + align, m, refl, rw (hdr_of-align a, there) (rw same refl), refl, refl)

-- Under which of its values `policy` gives a block of that size a header that both sides know.
abbrev pub IsPolicy : ℕ → ℕ → Type 0
IsPolicy policy size = (policy ≡ 1) ⊎ (policy ≡ 4) ⊎ ((policy ≡ 5) × (0 < size))

-- Under the policies 1 and 4, and 5 for a size that is not 0: what `jut_malloc` answers, when the
-- C allocator grants it, can be given to `jut_free`, which then frees the block of the C allocator
-- and no other, and the count of the current decoder, if there is one, is as it was before.
pub jut_free-jut_malloc :
    (policy size a : ℕ) (m : Memory)
    → IsPolicy policy size
    → used m < u32_mod
    → IsGivenBack policy size a m
jut_free-jut_malloc policy size a m (inl one) h =
    subst (λ p. IsGivenBack p size a m) (sym one) (plain size a m)
jut_free-jut_malloc policy size a m (inr (inl four)) h =
    subst (λ p. IsGivenBack p size a m) (sym four) (tracked size a m h)
jut_free-jut_malloc policy size a m (inr (inr (five, more))) h =
    subst (λ p. IsGivenBack p size a m) (sym five) (headed size a m more)
