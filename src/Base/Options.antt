-- ===== src/Base/Options.antt =====
-- Computations that may raise: the sequencing of Option for do blocks, and what its result tells.
use mathlib.Core.Path.{◌≡◌, refl}
use mathlib.Core.Option
use mathlib.Core.Option.{Option, none, some}
use mathlib.Core.Bool.{Bool, true, false}
use native.Mathlib.Omega.{arith}
use power_blockade.Base.Tests.{if◌then◌else◌}

infixl 5 ◌>>=◌
abbrev pub ◌>>=◌ {ℓ κ} : {A : Type ℓ} {B : Type κ} → Option A → (A → Option B) → Option B
none >>= f = none
some a >>= f = f a

-- A chain that gives a result has one at its first step.
pub bind-some {ℓ κ} :
    {A : Type ℓ} {B : Type κ} (o : Option A) (f : A → Option B) (b : B)
    → (o >>= f) ≡ some b
    → (a : A) × ((o ≡ some a) × (f a ≡ some b))
bind-some none f b h = ground arith
bind-some (some a) f b h = (a, (refl, h))

pub bind-agree {ℓ κ} :
    {A : Type ℓ} {B : Type κ} (o p : Option A) (f g : A → Option B)
    → o ≡ p
    → ((a : A) → f a ≡ g a)
    → (o >>= f) ≡ (p >>= g)
bind-agree none none f g e h = refl
bind-agree none (some b) f g e h = ground arith
bind-agree (some a) none f g e h = ground arith
bind-agree (some a) (some b) f g e h = ground (arith, h a, h b)

-- A guard that did not raise.
pub guarded {ℓ} :
    {A : Type ℓ} (c : Bool) (x y : A) → (if c then some x else none) ≡ some y → (c ≡ true) × (x ≡ y)
guarded true x y h = ground arith
guarded false x y h = ground arith

pub map-guarded {ℓ κ} :
    {A : Type ℓ} {B : Type κ} (f : A → B) (c : Bool) (x : A) (y : B)
    → Option.map f (if c then some x else none) ≡ some y
    → (c ≡ true) × (f x ≡ y)
map-guarded f true x y h = ground arith
map-guarded f false x y h = ground arith
