-- ===== src/Mem/Tracked.antt =====
-- The heap of src/ff_mem.cpp while `tls_get_ctx` returns a decoder: its `m_mem_used` follows every
-- call.
use ff_test.Base.{
  ℕ, ◌+◌, ◌≡◌, refl, sym, ◌∙◌, ap, Option, none, some, List, [], u32_mod, ◌%◌, ◌==◌, inl, inr,
  Bool-cases, some_inj, some_snd, subst, bind_some, ◌>>=◌, ◌-◌,
}
use mathlib.Core.Option
use ff_test.Mem.{
  align, padded, Block, Counters, Memory, find, c_realloc, realloc_tracked, malloc_tracked,
  jut_malloc, jut_realloc, jut_free, finish_tracked, charge, charge_max, discharge, c_free,
  free_tracked, hdr_of,
}
use ff_test.Mem.Blocks.{AreSized, Granted, AreGranted, live_bytes-total, total}
use ff_test.Mem.Granted.{Step-AreGranted}
use ff_test.Mem.Accounting.{Counted, IsAccounted}
use ff_test.Mem.History.{
  Step, mallocs, reallocs_null, reallocs, frees, Reach, here, next, initial, Step-IsAccounted,
  initial-IsAccounted,
}

-- `m_mem_used` of the current decoder
abbrev pub used : Memory → ℕ
used m = elim m.ctx [ none ↦ 0 | some c ↦ c.mem_used ]

abbrev pub HasCtx : Memory → Type 0
HasCtx m = (c : Counters) × (m.ctx ≡ some c)

malloc-HasCtx :
    (size : ℕ) (answer : Option ℕ) (m : Memory) → HasCtx m → HasCtx (jut_malloc 4 size answer m).1
unfolding jut_malloc malloc_tracked
malloc-HasCtx size none m h = h
malloc-HasCtx size (some a) m (c, h) = (charge_max size c, ap (Option.map (charge_max size)) h)

realloc_null-HasCtx :
    (size a : ℕ) (p : Option ℕ) (m m' : Memory)
    → jut_realloc 4 none size (some a) m ≡ some (p, m')
    → HasCtx m
    → HasCtx m'
unfolding jut_realloc realloc_tracked c_realloc finish_tracked
realloc_null-HasCtx size a p m m' e (c, h) = elim (Bool-cases (size == 0)) [
  | inl zero_size ↦ subst HasCtx (some_snd (rw zero_size at e)) (c, h)
  | inr more ↦
      subst HasCtx (some_snd (rw more at e)) (charge size c, ap (Option.map (charge size)) h)
]

discharge-HasCtx :
    (a : ℕ) (m : Memory) (o : Option Counters)
    → discharge a m ≡ some o
    → HasCtx m
    → (c : Counters) × (o ≡ some c)
unfolding discharge
discharge-HasCtx a m o e (c, h) =
    let e' = rw h at e in
    let (b, _, e1) =
      bind_some (find a m.blocks)
        (λ b. do
          size ← b.header
          some (some (record c { mem_used = (c.mem_used + u32_mod - size) % u32_mod })))
        o e' in
    let (s, _, e2) =
      bind_some b.header
        (λ size. some (some (record c { mem_used = (c.mem_used + u32_mod - size) % u32_mod }))) o
        e1 in
    (_, sym (some_inj e2))

free-HasCtx : (ptr : ℕ) (m m' : Memory) → jut_free 4 (some ptr) m ≡ some m' → HasCtx m → HasCtx m'
unfolding jut_free free_tracked
free-HasCtx ptr m m' e h =
    let (hdr, _, e1) =
      bind_some (hdr_of ptr)
        (λ hdr. do
          ctx ← discharge hdr m
          bs ← c_free hdr m.blocks
          some (record { blocks = bs; ctx = ctx }))
        m' e in
    let (ctx, off, e2) =
      bind_some (discharge hdr m)
        (λ ctx. do bs ← c_free hdr m.blocks; some (record { blocks = bs; ctx = ctx })) m' e1 in
    let (bs, _, e3) =
      bind_some (c_free hdr m.blocks) (λ bs. some (record { blocks = bs; ctx = ctx })) m' e2 in
    let (c, is_c) = discharge-HasCtx hdr m ctx off h in
    (c, sym (ap (λ (x : Memory). x.ctx) (some_inj e3)) ∙ is_c)

finish-HasCtx :
    (size : ℕ) (ctx : Option Counters) (r : Option ℕ × List Block)
    → (c : Counters) × (ctx ≡ some c)
    → HasCtx (finish_tracked size ctx r).1
unfolding finish_tracked
finish-HasCtx size ctx (none, bs) h = h
finish-HasCtx size ctx (some a, bs) (c, h) = (charge size c, ap (Option.map (charge size)) h)

realloc-HasCtx :
    (ptr size : ℕ) (answer : Option ℕ) (r : Option ℕ × Memory) (m : Memory)
    → jut_realloc 4 (some ptr) size answer m ≡ some r
    → HasCtx m
    → HasCtx r.1
unfolding jut_realloc realloc_tracked
realloc-HasCtx ptr size answer r m e h =
    let (hdr, _, e1) =
      bind_some (hdr_of ptr)
        (λ hdr. do
          ctx ← discharge hdr m
          x ← c_realloc (some hdr) (padded size) answer m.blocks
          some (finish_tracked size ctx x))
        r e in
    let (ctx, off, e2) =
      bind_some (discharge hdr m)
        (λ ctx. do
          x ← c_realloc (some hdr) (padded size) answer m.blocks
          some (finish_tracked size ctx x))
        r e1 in
    let (x, _, e3) =
      bind_some (c_realloc (some hdr) (padded size) answer m.blocks)
        (λ x. some (finish_tracked size ctx x)) r e2 in
    subst (λ y. HasCtx y.1) (some_inj e3)
      (finish-HasCtx size ctx x (discharge-HasCtx hdr m ctx off h))

-- What a call of the allocator keeps while the decoder is the current one.
pub record IsTracked (g : Granted) (m : Memory) : Type 0 where
  pub accounted : IsAccounted m
  pub granted : AreGranted m.blocks g
  pub current : HasCtx m

Step-HasCtx : {g g' : Granted} {m m' : Memory} → Step g m g' m' → HasCtx m → HasCtx m'
Step-HasCtx {m = m} (mallocs size answer f) h = malloc-HasCtx size answer m h
Step-HasCtx {m = m} {m' = m'} (reallocs_null size a p f e) h = realloc_null-HasCtx size a p m m' e h
Step-HasCtx {m = m} {m' = m'} (reallocs a size a' p b live fits f e) h =
    realloc-HasCtx (a + align) size (some a') (p, m') m e h
Step-HasCtx {m = m} {m' = m'} (frees a b live e) h = free-HasCtx (a + align) m m' e h

pub Reach-IsTracked :
    {g : Granted} {m : Memory} {g' : Granted} {m' : Memory}
    → Reach g m g' m'
    → IsTracked g m
    → IsTracked g' m'
Reach-IsTracked here v = v
Reach-IsTracked (next r s) v =
    let w = Reach-IsTracked r v in
    record {
      accounted = Step-IsAccounted s w.accounted;
      granted = Step-AreGranted s w.accounted w.granted;
      current = Step-HasCtx s w.current;
    }

pub initial-IsTracked : IsTracked [] initial
initial-IsTracked = record { accounted = initial-IsAccounted; granted = tt; current = (_, refl) }

-- The count of the current decoder is the sum of the sizes that were asked for.
pub used-total : {g : Granted} (m : Memory) → IsTracked g m → used m ≡ total g % u32_mod
used-total {g} m v =
    let (c, h) = v.current in
    let counted : Counted (some c) m.blocks =
      subst (λ x. Counted x m.blocks) h v.accounted.counted in
    rw h (counted ∙ live_bytes-total m.blocks g v.granted)

-- After any sequence of calls from the empty heap, under policy 4, of `jut_malloc` (granted or
-- refused), of granted calls of `jut_realloc` with NULL or a live pointer, and of `jut_free` with a
-- live pointer, where the C allocator never answers the address of a live block: the live blocks
-- have distinct addresses; they are those that were granted and not freed or moved since, each with
-- the size that was asked for in its header, cut to 32 bits; and the count is the sum of the sizes
-- that were asked for, in 32 bits.
pub Reach-AreGranted :
    {g : Granted} {m : Memory}
    → Reach [] initial g m
    → AreSized m.blocks × AreGranted m.blocks g × (used m ≡ total g % u32_mod)
Reach-AreGranted {m = m} r =
    let v = Reach-IsTracked r initial-IsTracked in (v.accounted.sized, v.granted, used-total m v)
