-- ===== src/Runtime/Host.antt =====
-- What the host is told in a turn of the runtime.
use hermes_claude_agent_sdk.Common.{
  String, ◌≡◌, refl, sym, ap, ◌∙◌, subst, ◌⊎◌, inl, inr, Bool-cases, Bool, true, false, List, [],
  Option, none, some, All,
}
use hermes_claude_agent_sdk.Common.Options.{some-inj}
use hermes_claude_agent_sdk.Python.{Value, Interpreter}
use hermes_claude_agent_sdk.Billing.{Decision}
use hermes_claude_agent_sdk.Compaction.{Tracker}
use hermes_claude_agent_sdk.Session.Outcome.{Outcome, complete, TurnResult}
use hermes_claude_agent_sdk.Session.Turn.{Turn, done}
use hermes_claude_agent_sdk.Session.World.{Move, fresh, run}
use hermes_claude_agent_sdk.Session.Release.{IsResult, IsHonest}
use hermes_claude_agent_sdk.Session.Release.Runs.{result-IsHonest}
use hermes_claude_agent_sdk.Runtime.Types.{Input, Platform, Runtime, Run}
use hermes_claude_agent_sdk.Runtime.Settle.{response_messages}
use hermes_claude_agent_sdk.Runtime.Protocol.{
  IsTurn, IsHostEvent, IsTold, has_content, has_completed,
}
use hermes_claude_agent_sdk.Runtime.Turns.{IsComplete}
use hermes_claude_agent_sdk.Runtime.Runs.{IsRun, run_turn-IsRun}
use hermes_claude_agent_sdk.Runtime.{run_turn}

ended-IsTurn :
    (e : Platform) (i : Input) (r : Run) (ms : List Value)
    → response_messages e.dict_of i.request.messages ≡ some ms
    → IsRun e i r
    → ((r.raised ≡ true) × (r.emitted ≡ [])) ⊎ IsTurn r.emitted
ended-IsTurn e i r ms h (inl x) = inl x
ended-IsTurn e i r ms h (inr x) = elim x.ended [ inl t ↦ inr t | inr lost ↦ cc ]

-- If every message of the request can be made a dict, a turn yields events, perhaps then the state
-- to save, and exactly one terminal event, which is the last; or an exception leaves it before
-- anything was yielded.
pub run_turn-IsTurn :
    (e : Platform) (i : Input) (r : Runtime) (ms : List Value)
    → response_messages e.dict_of i.request.messages ≡ some ms
    → (((run_turn e i r).raised ≡ true) × ((run_turn e i r).emitted ≡ []))
      ⊎ IsTurn (run_turn e i r).emitted
run_turn-IsTurn e i r ms h = ended-IsTurn e i (run_turn e i r) ms h (run_turn-IsRun e i r)

served-IsHostEvent : (e : Platform) (i : Input) (r : Run) → IsRun e i r → All IsHostEvent r.emitted
served-IsHostEvent e i r (inl (x, y)) = subst (All IsHostEvent) (sym y) tt
served-IsHostEvent e i r (inr x) = x.served

-- The host is never sent a request of a tool or the SDK's own completion, and every usage receipt
-- that it is sent is one of this runtime, on the subscription, included, and not to be replayed.
pub run_turn-IsHostEvent :
    (e : Platform) (i : Input) (r : Runtime) → All IsHostEvent (run_turn e i r).emitted
run_turn-IsHostEvent e i r = served-IsHostEvent e i (run_turn e i r) (run_turn-IsRun e i r)

run-IsTold :
    (e : Platform) (i : Input) (r : Run)
    → IsRun e i r
    → All (IsTold (has_content r.emitted)) r.emitted
run-IsTold e i r (inl (x, y)) = subst (λ xs. All (IsTold (has_content xs)) xs) (sym y) tt
run-IsTold e i r (inr x) = x.told

-- Each failure that is told has the phase that fits: before visible output or at the preflight only
-- if the turn showed no content, after visible output only if it did; and only a failure of the
-- preflight is safe to replay.
pub run_turn-IsTold :
    (e : Platform) (i : Input) (r : Runtime)
    → All (IsTold (has_content (run_turn e i r).emitted)) (run_turn e i r).emitted
run_turn-IsTold e i r = run-IsTold e i (run_turn e i r) (run_turn-IsRun e i r)

earned-IsComplete :
    (e : Platform) (i : Input) (r : Run)
    → IsRun e i r
    → has_completed r.emitted ≡ true
    → IsComplete i.outcome
unfolding has_completed
earned-IsComplete e i r (inl (x, y)) h =
    let never : false ≡ true = subst (λ xs. has_completed xs ≡ true) y h in cc
earned-IsComplete e i r (inr x) h = x.earned h

-- A decision that allows
abbrev pub IsPaid : TurnResult → Type 0
IsPaid t = (d : Decision) × (t.billing_decision ≡ some d) × (d.allowed ≡ true)

result-IsPaid :
    (o : Outcome) (d : Option Decision) (a : Bool)
    → o ≡ complete
    → IsResult o d a
    → (b : Decision) × (d ≡ some b) × (b.allowed ≡ true)
result-IsPaid complete (some d) a e h = (d, refl, h)
result-IsPaid complete none a e h = absurd h
result-IsPaid _ d a e h = cc

-- The result of the session's turn, where it has ended
abbrev pub outcome_of : Turn → Option TurnResult
outcome_of (done t) = some t
outcome_of _ = none

complete-IsPaid :
    (turn : Turn) (shut : Bool)
    → IsHonest turn shut
    → IsComplete (outcome_of turn)
    → (t : TurnResult) × (outcome_of turn ≡ some t) × IsPaid t
complete-IsPaid (done t) shut h (s, same, whole) = (
  t,
  refl,
  result-IsPaid t.outcome t.billing_decision shut
      (ap (λ (x : TurnResult). x.outcome) (some-inj t s same) ∙ whole) h,
)
complete-IsPaid _ shut h (s, same, whole) = cc

-- On a session after any moves: either the host is not told that the turn is completed, or the
-- session's turn has ended, with a billing decision that allows it.
pub run_turn-IsPaid :
    (e : Platform) (i : Input) (r : Runtime) (py : Interpreter) (tools : List String)
    (tracker : Tracker) (moves : List Move)
    → i.outcome ≡ outcome_of (run py (fresh tools tracker) moves).turn
    → (has_completed (run_turn e i r).emitted ≡ false)
      ⊎ ((t : TurnResult) × (outcome_of (run py (fresh tools tracker) moves).turn ≡ some t)
          × IsPaid t)
run_turn-IsPaid e i r py tools tracker moves out =
    elim (Bool-cases (has_completed (run_turn e i r).emitted)) [
      | inr other ↦ inl other
      | inl told ↦ inr (
          complete-IsPaid (run py (fresh tools tracker) moves).turn
            (run py (fresh tools tracker) moves).session.closed
            (result-IsHonest py tools tracker moves)
            (subst IsComplete out
              (earned-IsComplete e i (run_turn e i r) (run_turn-IsRun e i r) told)))
    ]
