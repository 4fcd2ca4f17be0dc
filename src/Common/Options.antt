-- ===== src/Common/Options.antt =====
-- Chains of computations that may raise, and what a chain that returns says of its parts.
use mathlib.Core.Path.{◌≡◌, refl, ap}
use mathlib.Core.Bool.{Bool, true, false}
use mathlib.Core.Option.{Option, none, some}

-- The rest of a computation after a check that raises.
unfoldable pub check {ℓ} : {A : Type ℓ} → Bool → Option A → Option A
check true rest = rest
check false rest = none

unfoldable pub bind {ℓ} : {A B : Type ℓ} → Option A → (A → Option B) → Option B
bind none f = none
bind (some a) f = f a

pub check-some {ℓ} :
    {A : Type ℓ} (b : Bool) (rest : Option A) (a : A)
    → check b rest ≡ some a
    → (b ≡ true) × (rest ≡ some a)
unfolding check
check-some true rest a h = (refl, h)
check-some false rest a h = cc

pub bind-some {ℓ} :
    {A B : Type ℓ} (o : Option A) (f : A → Option B) (b : B)
    → bind o f ≡ some b
    → (a : A) × (o ≡ some a) × (f a ≡ some b)
unfolding bind
bind-some none f b h = cc
bind-some (some a) f b h = (a, refl, h)

value_or {ℓ} : {A : Type ℓ} → A → Option A → A
value_or a none = a
value_or a (some b) = b

pub some-inj {ℓ} : {A : Type ℓ} (a b : A) → some a ≡ some b → a ≡ b
unfolding value_or
some-inj a b h = ap (value_or a) h
