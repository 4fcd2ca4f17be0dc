-- ===== src/Runtime/Turns.antt =====
-- What a turn of the runtime yields, from its first check to its terminal event.
use hermes_claude_agent_sdk.Common.{
  ℕ, String, ◌≡◌, refl, inr, Bool, true, false, List, [], Option, none, some, if-elim,
}
use hermes_claude_agent_sdk.Python.{Value}
use hermes_claude_agent_sdk.Session.Outcome.{
  Outcome, complete, cancelled, billing_blocked, TurnResult,
}
use hermes_claude_agent_sdk.Runtime.Types.{
  Request, cancellation_unavailable, billing_blocked_for, Emitted, state_saved, completed,
  cancelled_turn,
}
use hermes_claude_agent_sdk.Runtime.Forward.{Loop, phase_at}
use hermes_claude_agent_sdk.Runtime.Settle.{
  reason_of, code_of, or_empty, save_state, completion_of, response_messages, complete_turn,
  settle_outcome, settle,
}
use hermes_claude_agent_sdk.Runtime.Protocol.{
  Stage, running, saved, over, advance, stage, has_content, has_completed, IsYielded, IsUnderway,
  IsOver, untold-IsTold, next-IsYielded, terminal-IsOver,
}
use hermes_claude_agent_sdk.Runtime.Rounds.{
  Ends, failure-IsOver, fail_unexpectedly-IsOver, phase_at-IsToldAt,
}
use hermes_claude_agent_sdk.Runtime.{end_rounds}

-- The session's turn ended as complete.
abbrev pub IsComplete : Option TurnResult → Type 0
IsComplete outcome = (r : TurnResult) × (outcome ≡ some r) × (r.outcome ≡ complete)

module _ (dict_of : Value → Option Value) (outcome : Option TurnResult) (request : Request) where
  abbrev pub IsLost : Type 0
  IsLost = response_messages dict_of request.messages ≡ none

  abbrev pub IsDone : List Emitted → Type 0
  IsDone = IsOver IsLost (IsComplete outcome)

  complete-IsDone :
      (ms : Option (List Value)) (r : TurnResult) (s : Stage) (l : Loop)
      → response_messages dict_of request.messages ≡ ms
      → IsComplete outcome
      → IsYielded s l.emitted
      → ((c : _) → advance s (completed c) ≡ over)
      → IsDone (complete_turn dict_of ms request r l).emitted
  complete-IsDone none r s l e k y last = record {
    ended = inr e;
    served = y.served;
    told = untold-IsTold (has_content l.emitted) l.emitted y.untold;
    earned = λ _. k;
  }
  complete-IsDone (some ms) r s l e k y last =
      let c = completion_of request (or_empty r.final_text) ms l in
      terminal-IsOver IsLost (IsComplete outcome) s l.emitted (completed c) y (last c) tt refl tt
        (λ _. k)

  saved-IsDone :
      (id : Option String) (r : TurnResult) (l : Loop)
      → IsComplete outcome
      → IsUnderway l
      → IsDone
          (complete_turn dict_of
            (response_messages dict_of request.messages)
            request
            r
            (save_state id l)).emitted
  saved-IsDone none r l k (y, s) =
      complete-IsDone (response_messages dict_of request.messages) r running l refl k y (λ c. refl)
  saved-IsDone (some id) r l k (y, s) =
      complete-IsDone (response_messages dict_of request.messages) r saved (save_state (some id) l)
        refl k (next-IsYielded running l.emitted (state_saved id) y tt tt refl) (λ c. refl)

  outcome-IsDone :
      (o : Outcome) (r : TurnResult) (executions : ℕ) (l : Loop)
      → outcome ≡ some r
      → r.outcome ≡ o
      → IsUnderway l
      → IsDone (settle_outcome dict_of o request r executions l).emitted
  unfolding settle_outcome
  outcome-IsDone complete r executions l e f h = saved-IsDone r.external_session_id r l (r, e, f) h
  outcome-IsDone cancelled r executions l e f (y, s) =
      terminal-IsOver IsLost (IsComplete outcome) running l.emitted cancelled_turn y refl tt refl tt
        (λ x. cc)
  outcome-IsDone billing_blocked r executions l e f h =
      failure-IsOver IsLost (IsComplete outcome)
        (billing_blocked_for (reason_of r.billing_decision)) (phase_at executions l) r.retryable l h
        (phase_at-IsToldAt executions l h)
  outcome-IsDone _ r executions l e f h =
      failure-IsOver IsLost (IsComplete outcome) (code_of r.error_code) (phase_at executions l)
        r.retryable l h (phase_at-IsToldAt executions l h)

  settle-IsDone :
      (o : Option TurnResult) (executions : ℕ) (l : Loop)
      → outcome ≡ o
      → IsUnderway l
      → IsDone (settle dict_of o request executions l).emitted
  unfolding settle
  settle-IsDone none executions l e h =
      fail_unexpectedly-IsOver IsLost (IsComplete outcome) executions l h
  settle-IsDone (some r) executions l e h =
      if-elim (λ (x : Loop). IsDone x.emitted) l.poll_failed
        (λ _.
          failure-IsOver IsLost (IsComplete outcome) cancellation_unavailable
            (phase_at executions l) false l h (phase_at-IsToldAt executions l h))
        (λ _. outcome-IsDone r.outcome r executions l e refl h)

  pub end_rounds-IsDone :
      (ended : Loop × Bool) (executions : ℕ)
      → Ends IsLost (IsComplete outcome) ended
      → IsDone (end_rounds ended (λ l. settle dict_of outcome request executions l)).emitted
  end_rounds-IsDone (l, true) executions h = h
  end_rounds-IsDone (l, false) executions h = settle-IsDone outcome executions l refl h

-- Nothing was yielded yet.
pub nothing-IsYielded : IsYielded running []
unfolding has_completed stage
nothing-IsYielded = record { going = refl; served = tt; untold = tt; uncompleted = refl }
