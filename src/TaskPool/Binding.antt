-- ===== src/TaskPool/Binding.antt =====
-- The processors that the threads of src/Task.cpp are bound to by src/TaskPool.cpp.
use ff_test.Base.{
  ℕ, ◌<◌, ◌≡◌, refl, ◌∙◌, ap, inl, inr, Bool, false, ◌&&◌, ◌||◌, if◌then◌else◌, Option, none, some,
  List, [], ◌∷◌, All, map, ltb, arith, Bool-cases, ◌==◌,
}
use ff_test.Base.Int.{ℤ, pos, is_zero}
use ff_test.Utils.{util_cpu_bind, cpus_of}
use ff_test.Utils.Laws.{core_mask, cpus_of-core_mask}
use ff_test.TaskPool.{
  Task, Created, to_u8, bind_thread, init, start, set_affinity, init_tasks, svc_step, stop, release,
  Pool, start_pool, stop_pool,
}
use ff_test.TaskPool.Threads.{
  Move, first, later, Joins, joins_first, joins_later, Step, threads, starts, stops, releases,
  Reach, here, then_step,
}

-- A system with the processors 0 to `n - 1`: `pthread_setaffinity_np` succeeds exactly if one of
-- the wanted processors is there.
abbrev pub has_one_below : ℕ → List ℕ → Bool
has_one_below n [] = false
has_one_below n (i ∷ cpus) = ltb i n || has_one_below n cpus

abbrev pub HasProcessors : ℕ → (List ℕ → ℕ) → Type 0
HasProcessors n setaffinity = (cpus : List ℕ) → (setaffinity cpus == 0) ≡ has_one_below n cpus

-- Where the thread for a core ends up.
abbrev pub place_of : ℕ → ℕ → Option (List ℕ)
place_of n core = if ltb core 8 && ltb core n then some (core ∷ []) else none

-- What the threads of the tasks are bound to.
abbrev pub bound : List Task → List (Option (List ℕ))
bound = map (λ t. t.cpus)

-- The core is a number for which the shift of `1 << core` is defined, and its thread is created.
abbrev pub IsPlain : ℤ × Created → Type 0
IsPlain (core, c) = (to_u8 core < 32) × (c.ret ≡ pos 0)

bound_lem :
    (n core : ℕ) (setaffinity : List ℕ → ℕ)
    → HasProcessors n setaffinity
    → (if is_zero (util_cpu_bind setaffinity (core_mask core))
        then some (cpus_of (core_mask core))
        else none)
      ≡ place_of n core
unfolding util_cpu_bind
bound_lem n core setaffinity system = elim (Bool-cases (ltb core 8)) [
  | inl small ↦
      let cpus : cpus_of (core_mask core) ≡ core ∷ [] = cpus_of-core_mask core ∙ rw small refl in
      elim (Bool-cases (ltb core n)) [
        | inl there ↦ rw (cpus, system (core ∷ []), small, there) refl
        | inr missing ↦ rw (cpus, system (core ∷ []), small, missing) refl
      ]
  | inr large ↦
      let cpus : cpus_of (core_mask core) ≡ [] = cpus_of-core_mask core ∙ rw large refl in
      rw (cpus, system [], large) refl
]

pub bound-init_tasks :
    (n : ℕ) (setaffinity : List ℕ → ℕ) (cores : List (ℤ × Created))
    → HasProcessors n setaffinity
    → All IsPlain cores
    → bound (init_tasks setaffinity cores) ≡ map (λ (x : ℤ × Created). place_of n (to_u8 x.0)) cores
unfolding init_tasks init set_affinity bind_thread
bound-init_tasks n setaffinity [] system plain = refl
bound-init_tasks n setaffinity ((core, c) ∷ cores) system ((small, made), plain) =
    rw (made, bound-init_tasks n setaffinity cores system plain)
      (ap (λ o. o ∷ map (λ (x : ℤ × Created). place_of n (to_u8 x.0)) cores)
        (bound_lem n (to_u8 core) setaffinity system))

bound-start : (ts : List Task) → bound (map (λ t. (start t).1) ts) ≡ bound ts
unfolding start
bound-start [] = refl
bound-start (t ∷ ts) = elim (Bool-cases t.has_thread) [
  | inl there ↦ rw (there, bound-start ts) refl
  | inr absent ↦ rw (absent, bound-start ts) refl
]

pub bound-start_pool : (p : Pool) → bound (start_pool p).tasks ≡ bound p.tasks
unfolding start_pool
bound-start_pool p = bound-start p.tasks

bound-stop : (ts : List Task) → bound (map stop ts) ≡ bound ts
bound-stop [] = refl
bound-stop (t ∷ ts) = ap (λ os. t.cpus ∷ os) (bound-stop ts)

svc_step_cpus :
    (seclive : ℤ) (t t' : Task) (n n' : ℕ) → svc_step seclive t n ≡ some (t', n') → t'.cpus ≡ t.cpus
unfolding svc_step
svc_step_cpus seclive t t' n n' e = ground (arith, svc_step)

release_cpus : (t t' : Task) → release t ≡ some t' → t'.cpus ≡ t.cpus
unfolding release
release_cpus t t' e = ground arith

Move-bound :
    (seclive : ℤ) {ts ts' : List Task} {n n' : ℕ} → Move seclive ts n ts' n' → bound ts' ≡ bound ts
Move-bound seclive {n = n} {n' = n'} (first {t} {t'} {ts} e) =
    ap (λ o. o ∷ bound ts) (svc_step_cpus seclive t t' n n' e)
Move-bound seclive (later {t} m) = ap (λ os. t.cpus ∷ os) (Move-bound seclive m)

Joins-bound : {ts ts' : List Task} → Joins ts ts' → bound ts' ≡ bound ts
Joins-bound (joins_first {t} {t'} {ts} e) = ap (λ o. o ∷ bound ts) (release_cpus t t' e)
Joins-bound (joins_later {t} j) = ap (λ os. t.cpus ∷ os) (Joins-bound j)

Step-bound : (seclive : ℤ) {p q : Pool} → Step seclive p q → bound q.tasks ≡ bound p.tasks
unfolding stop_pool
Step-bound seclive (threads m) = Move-bound seclive m
Step-bound seclive {p} starts = bound-start_pool p
Step-bound seclive {p} stops = bound-stop p.tasks
Step-bound seclive (releases j) = Joins-bound j

-- Nothing that happens after the start changes what a thread is bound to.
pub Reach-bound : (seclive : ℤ) {p q : Pool} → Reach seclive p q → bound q.tasks ≡ bound p.tasks
Reach-bound seclive here = refl
Reach-bound seclive (then_step r s) = Step-bound seclive s ∙ Reach-bound seclive r
