-- ===== src/Session/Handle.antt =====
-- `run_turn`, the second part: one item of the inbox, the terminal message and its settling.
use hermes_claude_agent_sdk.Common.{
  String, Bool, true, false, not, ◌&&◌, ◌||◌, List, [], ◌∷◌, ◌++◌, Option, none, some, ◌==◌, ltb,
  leb, nat_eq, if◌then◌else◌,
}
use hermes_claude_agent_sdk.Python.{
  Value, null, str, Interpreter, class_name, eq_str, is_true, attr, is_hashable,
}
use hermes_claude_agent_sdk.Python.Text
use hermes_claude_agent_sdk.Billing.{
  Decision, Evidence, BlockReason, api_key_source, extra_usage, overage, conflicting_evidence,
}
use hermes_claude_agent_sdk.Billing.Extract.{
  typed, value, Extraction, unsupported, evidence, extract_sdk_billing_evidence, merge_evidence,
}
use hermes_claude_agent_sdk.Billing.Extract
use hermes_claude_agent_sdk.Billing.Classify.{classify_sdk_billing}
use hermes_claude_agent_sdk.Compaction.Message.{handle_message}
use hermes_claude_agent_sdk.Session.{
  Session, Item, message, stream_ended, watchdog_expired, post_terminal_output,
  native_tool_violation, decided, projected, close,
}
use hermes_claude_agent_sdk.Session.Outcome.{
  Outcome, complete, billing_blocked, ErrorCode, sdk_native_tool_unsupported,
  sdk_post_terminal_output, sdk_compaction_watchdog, sdk_stream_failed, sdk_stream_ended,
  sdk_billing_blocked, TurnResult, result, classify_result_failure,
}
use hermes_claude_agent_sdk.Session.Text.{Projection, text, project}
use hermes_claude_agent_sdk.Session.Turn.{
  Locals, Turn, waiting, settling, failure, finish_turn, retire_turn, fail_turn,
}

-- `_IMMEDIATE_BILLING_BLOCKS`
abbrev pub is_immediate : Option BlockReason → Bool
is_immediate (some api_key_source) = true
is_immediate (some extra_usage) = true
is_immediate (some overage) = true
is_immediate (some conflicting_evidence) = true
is_immediate _ = false

abbrev pub blocked_result : Decision → Locals → TurnResult
blocked_result d l = record (failure sdk_billing_blocked l) {
  outcome = billing_blocked;
  billing_decision = some d;
}

abbrev pub show_decision : Decision → Session → Session
show_decision d s = record s { shown = s.shown ++ decided d ∷ [] }

abbrev pub show_projection : Value → Session → Session
show_projection v s = record s { shown = s.shown ++ projected v ∷ [] }

abbrev with_text : Option String → Locals → Locals
with_text none l = l
with_text (some t) l = record l { final_text = some t }

-- An `external_session_id` that may be kept.
abbrev is_session_id : String → Bool
is_session_id s =
    ltb 0 (Text.length s)
    && leb (Text.length s) 512
    && not (Text.any_char (λ c. ltb c 32 || nat_eq c 127) s)

abbrev with_session_id : Value → Locals → Locals
with_session_id (str s) l = if is_session_id s then record l { external_session_id = some s } else l
with_session_id _ l = l

abbrev evidence_input : Option Evidence → Extract.Input
evidence_input none = value null
evidence_input (some e) = typed e

-- A message before the terminal one.
unfoldable pub show_progress : Projection → Value → Locals → Session → Session × Turn
show_progress Projection.failed v l s = fail_turn l s
show_progress (text t) v l s = (show_projection v s, waiting (with_text t l))

unfoldable pub handle_progress : Value → Locals → Session → Session × Turn
unfolding show_progress
handle_progress v l s = show_progress (project v) v l s

-- An allowed terminal message is projected.
unfoldable pub release_result : Projection → Decision → Value → Locals → Session → Session × Turn
release_result Projection.failed d v l s = fail_turn l s
release_result (text t) d v l s = (show_projection v s, settling (with_text t l) d v)

-- The billing decision comes before the projection.
unfoldable pub end_terminal : Decision → Value → Locals → Session → Session × Turn
unfolding release_result finish_turn
end_terminal d v l s =
    if not d.allowed
    then finish_turn false (blocked_result d l) (close (show_decision d s))
    else release_result (project v) d v l (show_decision d s)

module _ (py : Interpreter) where
  -- The terminal message.
  unfoldable pub handle_terminal : Value → Locals → Session → Session × Turn
  unfolding attr end_terminal
  handle_terminal v l s =
      end_terminal (classify_sdk_billing py (evidence_input l.evidence)) v
        (with_session_id (attr v "session_id" null) l) s

  unfoldable pub handle_kind : Value → Locals → Session → Session × Turn
  unfolding class_name handle_progress handle_terminal
  handle_kind v l s =
      if not (class_name v == "ResultMessage") then handle_progress v l s else handle_terminal v l s

  -- By the decision on the merged evidence.
  unfoldable pub handle_decision : Decision → Evidence → Value → Locals → Session → Session × Turn
  unfolding handle_kind retire_turn
  handle_decision d merged v l s =
      if is_immediate d.block_reason
      then retire_turn (blocked_result d l) (show_decision d s)
      else handle_kind v (record l { evidence = some merged }) s

  -- New billing evidence.
  unfoldable pub handle_evidence : Evidence → Value → Locals → Session → Session × Turn
  unfolding handle_decision
  handle_evidence e v l s =
      let merged = merge_evidence l.evidence e in
      handle_decision (classify_sdk_billing py (typed merged)) merged v l s

  -- By what the message says of billing.
  unfoldable pub handle_extraction : Extraction → Value → Locals → Session → Session × Turn
  unfolding handle_evidence
  handle_extraction Extraction.failed v l s = fail_turn l s
  handle_extraction unsupported v l s = handle_kind v l s
  handle_extraction (evidence e) v l s = handle_evidence e v l s

  -- One SDK message of the inbox.
  unfoldable pub handle_sdk_message : Value → Locals → Session → Session × Turn
  unfolding handle_extraction
  handle_sdk_message v l s =
      handle_extraction (extract_sdk_billing_evidence py (value v)) v l
        (record s { compaction = (handle_message v s.compaction).0 })

  unfoldable pub handle_live_item : Item → Locals → Session → Session × Turn
  unfolding handle_sdk_message
  handle_live_item Item.cancelled l s = finish_turn false (result Outcome.cancelled none) s
  handle_live_item native_tool_violation l s = retire_turn (failure sdk_native_tool_unsupported l) s
  handle_live_item post_terminal_output l s = retire_turn (failure sdk_post_terminal_output l) s
  handle_live_item watchdog_expired l s =
      retire_turn (result Outcome.failed (some sdk_compaction_watchdog)) s
  handle_live_item (stream_ended bad) l s =
      finish_turn false (failure (if bad then sdk_stream_failed else sdk_stream_ended) l) s
  handle_live_item (message v) l s = handle_sdk_message v l s

  -- One item of the inbox.
  unfoldable pub handle_item : Item → Locals → Session → Session × Turn
  unfolding handle_live_item
  handle_item item l s =
      if s.cancel_requested
      then finish_turn false (result Outcome.cancelled none) s
      else handle_live_item item l s

-- What the drain of the inbox finds first behind the terminal message.
pub data Trailing : Type 0 where
  nothing output native : Trailing

unfoldable pub drain : List Item → Trailing
drain [] = nothing
drain (post_terminal_output ∷ items) = output
drain (native_tool_violation ∷ items) = native
drain (_ ∷ items) = drain items

abbrev pub is_aborted : Value → Bool
is_aborted reason = eq_str reason "aborted_streaming" || eq_str reason "aborted_tools"

abbrev settled : Outcome → Option ErrorCode → Bool → Decision → Locals → TurnResult
settled outcome code retryable d l = record {
  outcome = outcome;
  final_text = l.final_text;
  external_session_id = l.external_session_id;
  billing_decision = some d;
  error_code = code;
  retryable = retryable;
}

-- The end of a turn behind whose terminal message nothing came.
unfoldable pub settle_result : Locals → Decision → Value → Session → Session × Turn
unfolding attr eq_str is_true is_hashable finish_turn retire_turn
settle_result l d v s =
    let reason = attr v "terminal_reason" null in
    let (code, retryable) = classify_result_failure v in
    if not (is_hashable reason)
    then fail_turn l s
    else if is_aborted reason
    then finish_turn false (settled Outcome.cancelled none false d l) s
    else if is_true (attr v "is_error" null)
    then finish_turn false (settled Outcome.failed (some code) retryable d l) s
    else finish_turn true (settled complete none false d l) s

unfoldable pub settle_drained : Trailing → Locals → Decision → Value → Session → Session × Turn
unfolding settle_result retire_turn
settle_drained native l d v s = retire_turn (failure sdk_native_tool_unsupported l) s
settle_drained output l d v s = retire_turn (failure sdk_post_terminal_output l) s
settle_drained nothing l d v s = settle_result l d v s

unfoldable pub settle_turn : List Item → Locals → Decision → Value → Session → Session × Turn
unfolding settle_drained
settle_turn items l d v s = settle_drained (drain items) l d v s
