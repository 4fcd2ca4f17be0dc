-- ===== src/TurnInput/Failing.antt =====
-- turn_input.py: how the building of a prompt may end.
-- The codes of `TurnInputValidationError`, and any other exception
pub data Failure : Type 0 where
  image_invalid image_too_large too_many_images images_too_large uncaught : Failure

pub data Result {ℓ} (A : Type ℓ) : Type ℓ where
  ok : A → Result A
  failed : Failure → Result A

unfoldable pub chain {ℓ} : {A B : Type ℓ} → Result A → (A → Result B) → Result B
chain (ok a) f = f a
chain (failed e) f = failed e

-- Whatever is returned has the property.
unfoldable pub Each {ℓ κ} : {A : Type ℓ} → (A → Type κ) → Result A → Type κ
Each P (ok a) = P a
Each P (failed e) = Unit

pub chain-Each {ℓ κ} :
    {A B : Type ℓ} (P : A → Type κ) (Q : B → Type κ) (r : Result A) (f : A → Result B)
    → Each P r
    → ((a : A) → P a → Each Q (f a))
    → Each Q (chain r f)
unfolding Each chain
chain-Each P Q (ok a) f h k = k a h
chain-Each P Q (failed e) f h k = tt

pub failed-Each {ℓ κ} : {A : Type ℓ} (P : A → Type κ) (e : Failure) → Each P (failed e)
unfolding Each
failed-Each P e = tt

pub ok-Each {ℓ κ} : {A : Type ℓ} (P : A → Type κ) (a : A) → P a → Each P (ok a)
unfolding Each
ok-Each P a h = h
