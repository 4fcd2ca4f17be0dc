-- ===== src/Runtime/Settle.antt =====
-- runtime.py: the rounds of the loop, and how the result of the session's turn is reported.
use hermes_claude_agent_sdk.Common.{
  ℕ, String, Bool, true, false, List, [], ◌∷◌, ◌++◌, Option, none, some, ◌==◌, if◌then◌else◌,
}
use hermes_claude_agent_sdk.Common.Options.{bind}
use hermes_claude_agent_sdk.Python.{
  Value, str, dict, broken, list, tuple, Items, nil, cons, end, field,
}
use hermes_claude_agent_sdk.Billing.{BlockReason, unknown_evidence, Decision}
use hermes_claude_agent_sdk.Session.Outcome.{
  Outcome, complete, cancelled, billing_blocked, ErrorCode, sdk_native_tool_unsupported, TurnResult,
}
use hermes_claude_agent_sdk.Runtime.Types.{
  Code, native_tool_unsupported, cancellation_unavailable, billing_blocked_for, session_error,
  runtime_failed, Provenance, Completion, state_saved, completed, cancelled_turn, failed_turn,
  Round, polled, taken, Request,
}
use hermes_claude_agent_sdk.Runtime.Forward.{
  Loop, phase_at, failure, poll, note_result, has_foreign_tool, forward_all, add, add_cancel,
  fail_unexpectedly, stop_foreign,
}

-- The rounds, and whether the turn was stopped in one of them
unfoldable pub run_rounds : Option TurnResult → ℕ → Option String → List Round → Loop → Loop × Bool
unfolding poll note_result has_foreign_tool forward_all stop_foreign
run_rounds outcome at_end correlation [] l = (l, false)
run_rounds outcome at_end correlation (polled answer ∷ rounds) l =
    run_rounds outcome at_end correlation rounds (poll answer l)
run_rounds outcome at_end correlation (taken p executions ∷ rounds) l =
    let noted = note_result p l in
    let rest =
      run_rounds outcome at_end correlation rounds (forward_all correlation p.events noted) in
    if has_foreign_tool l.allowed p.events
    then (stop_foreign outcome executions at_end noted, true)
    else rest

abbrev pub reason_of : Option Decision → BlockReason
reason_of none = unknown_evidence
reason_of (some d) = elim d.block_reason [ none ↦ unknown_evidence | some reason ↦ reason ]

abbrev pub code_of : Option ErrorCode → Code
code_of none = runtime_failed
code_of (some sdk_native_tool_unsupported) = native_tool_unsupported
code_of (some code) = session_error code

abbrev pub or_empty : Option String → String
or_empty none = ""
or_empty (some s) = s

-- `result.state_update`
abbrev pub save_state : Option String → Loop → Loop
save_state none l = l
save_state (some id) l = add (state_saved id) l

abbrev shown_model : Provenance → String
shown_model p = if p.canonical_model == "unknown" then p.effective_model else p.canonical_model

abbrev pub completion_of : Request → String → List Value → Loop → Completion
completion_of request text messages l = record {
  text = text;
  messages =
      messages
      ++ dict (field (str "role") (str "assistant") (field (str "content") (str text) end)) ∷ [];
  model = shown_model l.provenance;
  selected_model = request.model;
  provenance = l.provenance;
}

module _ (dict_of : Value → Option Value) where
  -- `dict(message)`
  abbrev one_dict : Value → Option Value
  one_dict (dict fs) = some (dict fs)
  one_dict broken = none
  one_dict v = dict_of v

  unfoldable pub message_dicts : Items → Option (List Value)
  message_dicts nil = some []
  message_dicts (cons m messages) =
      bind (one_dict m) (λ d. bind (message_dicts messages) (λ ds. some (d ∷ ds)))

  unfoldable pub response_messages : Value → Option (List Value)
  unfolding message_dicts
  response_messages (list messages) = message_dicts messages
  response_messages (tuple messages) = message_dicts messages
  response_messages _ = none

  -- The completion, once the terminal event is claimed: an exception is only followed by a cancel.
  abbrev pub complete_turn : Option (List Value) → Request → TurnResult → Loop → Loop
  complete_turn none request r l = add_cancel l
  complete_turn (some messages) request r l =
      add (completed (completion_of request (or_empty r.final_text) messages l)) l

  unfoldable pub settle_outcome : Outcome → Request → TurnResult → ℕ → Loop → Loop
  unfolding phase_at response_messages
  settle_outcome complete request r executions l =
      complete_turn (response_messages request.messages) request r
        (save_state r.external_session_id l)
  settle_outcome cancelled request r executions l = add cancelled_turn l
  settle_outcome billing_blocked request r executions l =
      add
        (failed_turn (
          failure (billing_blocked_for (reason_of r.billing_decision)) (phase_at executions l)
            r.retryable))
        l
  settle_outcome _ request r executions l =
      add (failed_turn (failure (code_of r.error_code) (phase_at executions l) r.retryable)) l

  -- After the loop, at so many calls of the host
  unfoldable pub settle : Option TurnResult → Request → ℕ → Loop → Loop
  unfolding fail_unexpectedly phase_at settle_outcome
  settle none request executions l = fail_unexpectedly executions l
  settle (some r) request executions l =
      if l.poll_failed
      then add (failed_turn (failure cancellation_unavailable (phase_at executions l) false)) l
      else settle_outcome r.outcome request r executions l
