-- ===== src/Session/Release.antt =====
-- What the host may be shown: a terminal message is projected right after a decision that allows
-- it, and a turn's result says no more than its decision and the session's state bear out.
pub mod Moves
pub mod Runs
use hermes_claude_agent_sdk.Common.{
  ◌≡◌, refl, sym, subst, ◌∙◌, ap, Bool, true, false, List, [], ◌∷◌, ◌++◌, Option, none, some, ◌==◌,
  if◌then◌else◌, if-elim,
}
use hermes_claude_agent_sdk.Python.{Value, class_name}
use hermes_claude_agent_sdk.Billing.{Decision}
use hermes_claude_agent_sdk.Session.{
  Session, Shown, decided, projected, interrupt, call, close, interrupt_client,
}
use hermes_claude_agent_sdk.Session.Outcome
use hermes_claude_agent_sdk.Session.Outcome.{
  Outcome, complete, billing_blocked, timed_out, TurnResult,
}
use hermes_claude_agent_sdk.Session.Turn.{
  Turn, settling, retiring, leaving, done, finish_turn, retire_turn,
}
use hermes_claude_agent_sdk.Session.Handle.{show_decision, show_projection}

-- An observer of what is shown: `some true` right after a decision that allows, and failure at a
-- terminal message shown elsewhere.
permit : Option Bool → Shown → Option Bool
permit none _ = none
permit (some p) (decided d) = some d.allowed
permit (some p) (projected v) =
    if class_name v == "ResultMessage" then (if p then some false else none) else some false

pub view : Option Bool → List Shown → Option Bool
view o [] = o
view o (x ∷ xs) = view (permit o x) xs

view-append : (o : Option Bool) (xs ys : List Shown) → view o (xs ++ ys) ≡ view (view o xs) ys
unfolding view
view-append o [] ys = refl
view-append o (x ∷ xs) ys = view-append (permit o x) xs ys

-- The observer never failed.
abbrev pub IsGuarded : List Shown → Type 0
IsGuarded xs = (p : Bool) × (view (some false) xs ≡ some p)

pub decided-IsAllowed :
    (d : Decision) (xs : List Shown)
    → IsGuarded xs
    → view (some false) (xs ++ decided d ∷ []) ≡ some d.allowed
unfolding view permit
decided-IsAllowed d xs h = view-append (some false) xs _ ∙ ap (λ o. permit o (decided d)) h.1

pub progress-IsGuarded :
    (v : Value) (xs : List Shown)
    → (class_name v == "ResultMessage") ≡ false
    → IsGuarded xs
    → IsGuarded (xs ++ projected v ∷ [])
unfolding view permit
progress-IsGuarded v xs other h = (
  false,
  view-append (some false) xs _
      ∙ ap (λ o. permit o (projected v)) h.1
      ∙ ap (λ b. if b then (if h.0 then some false else none) else some false) other,
)

pub allowed-IsGuarded :
    (v : Value) (xs : List Shown)
    → view (some false) xs ≡ some true
    → IsGuarded (xs ++ projected v ∷ [])
unfolding view permit
allowed-IsGuarded v xs h = (
  false,
  view-append (some false) xs _
      ∙ ap (λ o. permit o (projected v)) h
      ∙ if-elim (λ x. x ≡ some false) (class_name v == "ResultMessage") (λ _. refl) (λ _. refl),
)

-- What an outcome says of the decision, and whether it leaves the session closed.
abbrev pub IsResult : Outcome → Option Decision → Bool → Type 0
IsResult complete (some d) closed = d.allowed ≡ true
IsResult complete none closed = ⊥
IsResult billing_blocked _ closed = closed ≡ true
IsResult timed_out _ closed = closed ≡ true
IsResult _ _ _ = Unit

abbrev pub IsHonest : Turn → Bool → Type 0
IsHonest (settling l d v) closed = d.allowed ≡ true
IsHonest (retiring r) closed = IsResult r.outcome r.billing_decision true
IsHonest (leaving r) closed = IsResult r.outcome r.billing_decision true
IsHonest (done r) closed = IsResult r.outcome r.billing_decision closed
IsHonest _ closed = Unit

pub record IsSafe (r : Session × Turn) : Type 0 where
  pub guarded : IsGuarded r.0.shown
  pub honest : IsHonest r.1 r.0.closed

abbrev pub safe : (s : Session) (t : Turn) → IsGuarded s.shown → IsHonest t s.closed → IsSafe (s, t)
safe s t g o = record { guarded = g; honest = o }

IsResult-closed :
    (o : Outcome) (d : Option Decision) (a : Bool) → IsResult o d a → IsResult o d true
IsResult-closed complete (some d) a h = h
IsResult-closed complete none a h = h
IsResult-closed billing_blocked d a h = refl
IsResult-closed timed_out d a h = refl
IsResult-closed Outcome.cancelled d a h = tt
IsResult-closed Outcome.failed d a h = tt
IsResult-closed Outcome.closed d a h = tt

pub IsHonest-closed : (t : Turn) (a : Bool) → IsHonest t a → IsHonest t true
IsHonest-closed (settling l d v) a h = h
IsHonest-closed (retiring r) a h = h
IsHonest-closed (leaving r) a h = h
IsHonest-closed (done r) a h = IsResult-closed r.outcome r.billing_decision a h
IsHonest-closed (Turn.waiting _) a h = tt
IsHonest-closed Turn.idle a h = tt
IsHonest-closed Turn.crashed a h = tt

pub close-IsSafe :
    (s : Session) (t : Turn) → IsGuarded s.shown → IsHonest t true → IsSafe (close s, t)
unfolding close
close-IsSafe s t g o =
    if-elim (λ x. IsSafe (x, t)) s.closed (λ shut. safe s t g (subst (IsHonest t) (sym shut) o))
      (λ _. safe _ t g o)

pub interrupt-IsSafe :
    (s : Session) (t : Turn)
    → IsGuarded s.shown
    → IsHonest t s.closed
    → IsSafe (interrupt_client s, t)
unfolding interrupt_client
interrupt-IsSafe s t g o =
    if-elim (λ x. IsSafe (x, t)) s.client (λ _. safe _ _ g o) (λ _. safe _ _ g o)

pub retire-IsSafe :
    (r : TurnResult) (s : Session)
    → IsGuarded s.shown
    → IsResult r.outcome r.billing_decision true
    → IsSafe (retire_turn r s)
unfolding retire_turn
retire-IsSafe r s g o = interrupt-IsSafe s (retiring r) g o
