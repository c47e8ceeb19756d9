-- ===== src/Mem/Granted.antt =====
-- The sizes that the callers of src/ff_mem.cpp have asked for, beside the headers that it writes.
use ff_test.Base.{
  ℕ, ◌≡◌, refl, sym, ◌∙◌, ap, Option, none, some, ◌∷◌, inl, inr, Bool-cases, ◌==◌, some_inj,
  some_snd, subst, if◌then◌else◌,
}
use ff_test.Mem.{
  padded, Memory, c_realloc, realloc_tracked, finish_tracked, malloc_tracked, jut_malloc,
  jut_realloc,
}
use ff_test.Mem.Blocks.{
  Granted, with_block, without, AreGranted, remove-AreGranted, write_header_head,
}
use ff_test.Mem.Accounting.{IsAccounted, jut_free-IsAccounted, jut_realloc-IsAccounted}
use ff_test.Mem.History.{Step, mallocs, reallocs_null, reallocs, frees}

malloc-AreGranted :
    (size : ℕ) (answer : Option ℕ) (m : Memory) (g : Granted)
    → AreGranted m.blocks g
    → AreGranted (jut_malloc 4 size answer m).1.blocks (with_block answer size g)
unfolding jut_malloc malloc_tracked
malloc-AreGranted size none m g v = v
malloc-AreGranted size (some a) m g v =
    rw (write_header_head a (padded size) size none m.blocks) (refl, refl, v)

realloc_null-AreGranted :
    (size a : ℕ) (p : Option ℕ) (m m' : Memory) (g : Granted)
    → AreGranted m.blocks g
    → jut_realloc 4 none size (some a) m ≡ some (p, m')
    → AreGranted m'.blocks (if size == 0 then g else (a, size) ∷ g)
unfolding jut_realloc realloc_tracked c_realloc finish_tracked
realloc_null-AreGranted size a p m m' g v e = elim (Bool-cases (size == 0)) [
  | inl zero_size ↦
      let same : m.blocks ≡ m'.blocks =
        ap (λ (x : Memory). x.blocks) (some_snd (rw zero_size at e)) in
      rw zero_size (subst (λ bs. AreGranted bs g) same v)
  | inr more ↦
      let head = write_header_head a (padded size) size none m.blocks in
      let same = sym head ∙ ap (λ (x : Memory). x.blocks) (some_snd (rw more at e)) in
      rw more (subst (λ bs. AreGranted bs ((a, size) ∷ g)) same (refl, refl, v))
]

-- Every call writes the size that it is asked for.
pub Step-AreGranted :
    {g g' : Granted} {m m' : Memory}
    → Step g m g' m'
    → IsAccounted m
    → AreGranted m.blocks g
    → AreGranted m'.blocks g'
Step-AreGranted {g} {m = m} (mallocs size answer f) w v = malloc-AreGranted size answer m g v
Step-AreGranted {g} {m = m} {m' = m'} (reallocs_null size a p f e) w v =
    realloc_null-AreGranted size a p m m' g v e
Step-AreGranted {g} {m = m} (reallocs a size a' p b live fits f e) w v =
    let (q, granted, blocks, _) = jut_realloc-IsAccounted a size a' m b live fits f w in
    subst (λ (x : Memory). AreGranted x.blocks ((a', size) ∷ without a g))
      (some_snd (sym granted ∙ e))
      (subst (λ bs. AreGranted bs ((a', size) ∷ without a g)) (sym blocks)
        (refl, refl, remove-AreGranted a m.blocks g v))
Step-AreGranted {g} {m = m} (frees a b live e) w v =
    let (q, freed, blocks, _) = jut_free-IsAccounted a m b live w in
    subst (λ (x : Memory). AreGranted x.blocks (without a g)) (some_inj (sym freed ∙ e))
      (subst (λ bs. AreGranted bs (without a g)) (sym blocks) (remove-AreGranted a m.blocks g v))
