-- ===== src/Mem/Watermark.antt =====
-- `memused_max` over a sequence of allocator calls, under policy 4.
use mathlib.Core.Option
use ff_test.Base.{
  ℕ, ◌<◌, ◌≡◌, refl, sym, ◌∙◌, Bool, true, false, Option, none, some, List, [], ltb, if◌then◌else◌,
  arith, u32_mod, ap, some_inj, some_snd, subst, inl, inr, Bool-cases, ◌==◌,
}
use ff_test.Mem.{
  Block, Counters, Memory, charge, charge_max, malloc_tracked, finish_tracked, realloc_tracked,
  c_realloc, jut_malloc, jut_realloc,
}
use ff_test.Mem.Blocks.{find-IsSized, Granted, AreGranted, total, live_bytes-total}
use ff_test.Mem.Granted.{Step-AreGranted}
use ff_test.Mem.Accounting.{IsAccounted, Counted, discharged, free_live, realloc_live}
use ff_test.Mem.History.{
  Step, initial, initial-IsAccounted, Step-IsAccounted, mallocs, reallocs_null, reallocs, frees,
}

abbrev pub higher : ℕ → ℕ → ℕ
higher a b = if ltb a b then b else a

-- The call is a `jut_malloc` that is granted.
abbrev pub is_malloc : {g g' : Granted} {m m' : Memory} → Step g m g' m' → Bool
is_malloc (mallocs size none fresh) = false
is_malloc (mallocs size (some a) fresh) = true
is_malloc (reallocs_null size a p fresh e) = false
is_malloc (reallocs a size a' p b live fits fresh e) = false
is_malloc (frees a b live e) = false

-- A sequence of calls from the empty heap, with the sizes that were asked for and the most that
-- they came to just after a granted `jut_malloc`. Together they stay below 2^32.
pub data Run : Granted → ℕ → Memory → Type 0 where
  starts : Run [] 0 initial
  calls :
      {g g' : Granted} {most : ℕ} {m m' : Memory} (s : Step g m g' m')
      → Run g most m
      → total g' < u32_mod
      → Run g' (if is_malloc s then higher most (total g') else most) m'

-- What a call does to the maximum.
abbrev IsRaised : Bool → Counters → Counters → Type 0
IsRaised malloc c c' =
    c'.memused_max ≡ (if malloc then higher c.memused_max c'.mem_used else c.memused_max)

realloc_null_ctx :
    (size a : ℕ) (p : Option ℕ) (bs : List Block) (c : Counters) (m' : Memory)
    → jut_realloc 4 none size (some a) (record { blocks = bs; ctx = some c }) ≡ some (p, m')
    → (c' : Counters) × (m'.ctx ≡ some c') × (c'.memused_max ≡ c.memused_max)
unfolding jut_realloc realloc_tracked c_realloc finish_tracked charge
realloc_null_ctx size a p bs c m' e = elim (Bool-cases (size == 0)) [
  | inl zero_size ↦ (c, ap (λ (m : Memory). m.ctx) (sym (some_snd (rw zero_size at e))), refl)
  | inr more ↦ (_, ap (λ (m : Memory). m.ctx) (sym (some_snd (rw more at e))), refl)
]

step_ctx :
    {g g' : Granted} {m m' : Memory} (s : Step g m g' m') (c : Counters)
    → IsAccounted m
    → m.ctx ≡ some c
    → (c' : Counters) × (m'.ctx ≡ some c') × IsRaised (is_malloc s) c c'
unfolding jut_malloc malloc_tracked charge_max finish_tracked charge
step_ctx {m = m} (mallocs size none fresh) c v e = (c, e, refl)
step_ctx {m = m} (mallocs size (some a) fresh) c v e =
    (charge_max size c, ap (Option.map (charge_max size)) e, refl)
step_ctx {m = m} {m' = m'} (reallocs_null size a p fresh r) c v e =
    realloc_null_ctx size a p m.blocks c m' (
      subst
        (λ o.
          jut_realloc 4 none size (some a) (record { blocks = m.blocks; ctx = o }) ≡ some (p, m'))
        e r)
step_ctx {m = m} {m' = m'} (reallocs a size a' p b live fits fresh r) c v e =
    let (s, h, _) = find-IsSized a m.blocks b v.sized live in
    (
      _,
      ap (λ (m : Memory). m.ctx)
            (some_snd (sym r ∙ realloc_live a size s (some a') m.blocks m.ctx b live h fits))
          ∙ ap (λ o. Option.map (charge size) (discharged s o)) e,
      refl,
    )
step_ctx {m = m} {m' = m'} (frees a b live r) c v e =
    let (s, h, _) = find-IsSized a m.blocks b v.sized live in
    (
      _,
      ap (λ (m : Memory). m.ctx) (some_inj (sym r ∙ free_live a s m b live h))
          ∙ ap (discharged s) e,
      refl,
    )

-- The counters are exact.
record IsExact (g : Granted) (most : ℕ) (m : Memory) : Type 0 where
  accounted : IsAccounted m
  granted : AreGranted m.blocks g
  counters : Counters
  ctx_is : m.ctx ≡ some counters
  maximum : counters.memused_max ≡ most
  small : total g < u32_mod

counted-total :
    (g : Granted) (m : Memory) (c : Counters)
    → IsAccounted m
    → AreGranted m.blocks g
    → m.ctx ≡ some c
    → total g < u32_mod
    → c.mem_used ≡ total g
counted-total g m c v granted ctx_is small =
    let counted = subst (λ o. Counted o m.blocks) ctx_is v.counted in
    omega (arith, counted, live_bytes-total m.blocks g granted, small)

Run-IsExact_lem : {g : Granted} {most : ℕ} {m : Memory} → Run g most m → IsExact g most m
Run-IsExact_lem starts = record {
  accounted = initial-IsAccounted;
  granted = tt;
  counters = record { mem_used = 0; memused_max = 0 };
  ctx_is = refl;
  maximum = refl;
  small = omega arith;
}
Run-IsExact_lem (calls {g} {g'} {most} {m} {m'} s r small) =
    let x = Run-IsExact_lem r in
    let (c', ctx_is, raised) = step_ctx s x.counters x.accounted x.ctx_is in
    let accounted = Step-IsAccounted s x.accounted in
    let granted = Step-AreGranted s x.accounted x.granted in
    let used = counted-total g' m' c' accounted granted ctx_is small in
    record {
      accounted = accounted;
      granted = granted;
      counters = c';
      ctx_is = ctx_is;
      maximum =
          raised
          ∙ ap (λ k. if is_malloc s then higher k c'.mem_used else k) x.maximum
          ∙ ap (λ u. if is_malloc s then higher most u else most) used;
      small = small;
    }

-- Under policy 4, over any sequence from the empty heap, with the counters at 0, of `jut_malloc`
-- (granted or refused), of granted calls of `jut_realloc` with NULL or a live pointer, and of
-- `jut_free` with a live pointer, where the C allocator never answers the address of a live block
-- and the sizes that were asked for, of the live blocks, stay below 2^32 together: the count is the
-- sum of these sizes, and `memused_max` is the largest sum that there was just after a granted
-- `jut_malloc`. What `jut_realloc` adds is not in the maximum.
pub Run-IsExact :
    {g : Granted} {most : ℕ} {m : Memory}
    → Run g most m
    → (c : Counters) × (m.ctx ≡ some c) × (c.mem_used ≡ total g) × (c.memused_max ≡ most)
Run-IsExact {g} {m = m} r =
    let x = Run-IsExact_lem r in
    (
      x.counters,
      x.ctx_is,
      counted-total g m x.counters x.accounted x.granted x.ctx_is x.small,
      x.maximum,
    )
