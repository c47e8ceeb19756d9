-- ===== src/Base/Fallible.antt =====
-- Steps that may have no result: `none` is undefined behaviour, or fuel that ran out.
use mathlib.Core.Path.{◌≡◌, refl, ap, ◌∙◌}
use mathlib.Core.Option.{Option, none, some}

infixl 5 ◌>>=◌
abbrev pub ◌>>=◌ {ℓ κ} : {A : Type ℓ} {B : Type κ} → Option A → (A → Option B) → Option B
none >>= f = none
some a >>= f = f a

pub some_inj {ℓ} : {A : Type ℓ} {a b : A} → some a ≡ some b → a ≡ b
some_inj e = cc

-- The state that a call leaves beside its result.
pub some_snd {ℓ κ} : {A : Type ℓ} {B : Type κ} {r r' : A × B} → some r ≡ some r' → r.1 ≡ r'.1
some_snd e = ap (λ r. r.1) (some_inj e)

pub some_fst {ℓ κ} : {A : Type ℓ} {B : Type κ} {r r' : A × B} → some r ≡ some r' → r.0 ≡ r'.0
some_fst e = ap (λ r. r.0) (some_inj e)

-- A chain that has a result has one at its first step.
pub bind_some {ℓ κ} :
    {A : Type ℓ} {B : Type κ} (o : Option A) (f : A → Option B) (b : B)
    → (o >>= f) ≡ some b
    → (a : A) × (o ≡ some a) × (f a ≡ some b)
bind_some none f b e = cc
bind_some (some a) f b e = (a, refl, e)

pub bind_of {ℓ κ} :
    {A : Type ℓ} {B : Type κ} (o : Option A) (f : A → Option B) (a : A) (b : B)
    → o ≡ some a
    → f a ≡ some b
    → (o >>= f) ≡ some b
bind_of o f a b e h = ap (λ x. x >>= f) e ∙ h
