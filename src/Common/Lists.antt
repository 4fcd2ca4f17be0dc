-- ===== src/Common/Lists.antt =====
-- Lists measured by native numbers, Boolean search, and predicates on all members.
use Prim.Native.Nat.{ℕ, zero, suc}
use Prim.Native.String.{String}
use mathlib.Core.Path.{◌≡◌, subst}
use mathlib.Core.Bool.{Bool, true, false, ◌&&◌, ◌||◌}
use mathlib.Core.List.{List, [], ◌∷◌}
use text.Mathlib.Text.{◌==◌}
use text.Mathlib.TextEquality.{eq_iff}
use hermes_claude_agent_sdk.Common.Tests.{Bool-cases}
use mathlib.Core.Logic.{inl, inr}

module _ {ℓ} {A : Type ℓ} where
  abbrev pub take : ℕ → List A → List A
  take zero xs = []
  take (suc n) [] = []
  take (suc n) (x ∷ xs) = x ∷ take n xs

  unfoldable pub any : (A → Bool) → List A → Bool
  any p [] = false
  any p (x ∷ xs) = p x || any p xs

  unfoldable pub all : (A → Bool) → List A → Bool
  all p [] = true
  all p (x ∷ xs) = p x && all p xs

  abbrev pub All {κ} : (A → Type κ) → List A → Type κ
  All P [] = Unit
  All P (x ∷ xs) = P x × All P xs

-- `text in names`
unfoldable pub contains : List String → String → Bool
contains [] t = false
contains (s ∷ names) t = s == t || contains names t

-- What holds of every listed name holds of a name that the test finds.
pub contains-All {ℓ} :
    (P : String → Type ℓ) (names : List String) (t : String)
    → All P names
    → contains names t ≡ true
    → P t
unfolding contains
contains-All P [] t h found = cc
contains-All P (s ∷ names) t h found = elim (Bool-cases (s == t)) [
  | inl e ↦ subst P ((eq_iff s t).0 e) h.0
  | inr e ↦ contains-All P names t h.1 (rw e at found)
]
