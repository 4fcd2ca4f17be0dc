-- ===== src/Session/Calls/Moves.antt =====
-- The reader, and each step of a turn from its first item on, keep the client's life in order.
use hermes_claude_agent_sdk.Common.{Bool, true, false, not, refl, if-elim, ◌==◌}
use hermes_claude_agent_sdk.Python.{
  Value, null, Interpreter, class_name, attr, is_true, is_hashable,
}
use hermes_claude_agent_sdk.Compaction.{expire}
use hermes_claude_agent_sdk.Compaction.Message.{handle_message}
use hermes_claude_agent_sdk.Billing.{Decision, Evidence}
use hermes_claude_agent_sdk.Billing.Extract.{Extraction, unsupported, evidence}
use hermes_claude_agent_sdk.Guard.{Verdict, violation, clean, raises, zero_native_violation}
use hermes_claude_agent_sdk.Session.{
  Session, Item, message, stream_ended, watchdog_expired, post_terminal_output,
  native_tool_violation, close, has_inbox, deliver, deliver_violation, end_stream, read_message,
  fire_watchdog,
}
use hermes_claude_agent_sdk.Session.Outcome.{TurnResult}
use hermes_claude_agent_sdk.Session.Text.{Projection, text, project}
use hermes_claude_agent_sdk.Session.Turn.{Locals, Turn, retire_turn, finish_turn}
use hermes_claude_agent_sdk.Session.Handle.{
  handle_item, handle_live_item, handle_sdk_message, handle_evidence, handle_kind, handle_terminal,
  handle_progress, release_result, show_progress, end_terminal, handle_decision, is_immediate,
  is_aborted, handle_extraction, show_decision, settle_drained, settle_result, Trailing, nothing,
  output, native,
}
use hermes_claude_agent_sdk.Session.Calls.{
  IsOrdered, IsOrderedIf, interrupt-IsOrdered, close-ordered,
}

-- What a step of the turn leaves.
pub Leaves : Session × Turn → Type 0
Leaves r = IsOrdered r.1 r.0

pub leaves : (s : Session) (t : Turn) → IsOrdered t s → Leaves (s, t)
unfolding Leaves
leaves s t h = h

pub left : (r : Session × Turn) → Leaves r → IsOrdered r.1 r.0
unfolding Leaves
left r h = h

-- The reader, beside a turn
module _ (t : Turn) where
  deliver-IsOrdered : (v : Value) (s : Session) → IsOrdered t s → IsOrdered t (deliver v s)
  unfolding deliver
  deliver-IsOrdered v s h =
      if-elim (IsOrdered t) (has_inbox s.inbox)
        (λ _. if-elim (IsOrdered t) s.terminal_seen (λ _. h) (λ _. h)) (λ _. h)

  deliver_violation-IsOrdered : (s : Session) → IsOrdered t s → IsOrdered t (deliver_violation s)
  unfolding deliver_violation
  deliver_violation-IsOrdered s h = if-elim (IsOrdered t) (has_inbox s.inbox) (λ _. h) (λ _. h)

  pub read-IsOrdered : (v : Value) (s : Session) → IsOrdered t s → IsOrdered t (read_message v s)
  unfolding read_message end_stream
  read-IsOrdered v s h =
      let u : Session = record s {
        indexes = (zero_native_violation s.allowed_tools v s.indexes).1;
      } in
      elim (zero_native_violation s.allowed_tools v s.indexes).0
        as (λ (x : Verdict). IsOrdered t (elim x [
          | violation ↦ deliver_violation u
          | clean ↦ deliver v u
          | raises ↦ end_stream true u
        ])) [
          | violation ↦ deliver_violation-IsOrdered u h
          | clean ↦ deliver-IsOrdered v u h
          | raises ↦ h
        ]

  pub fire-IsOrdered : (s : Session) → IsOrdered t s → IsOrdered t (fire_watchdog s)
  unfolding fire_watchdog
  fire-IsOrdered s h = if-elim (IsOrdered t) (expire s.compaction).1 (λ _. h) (λ _. h)

-- The session as a turn that does not wait for an interrupt finds it
abbrev pub IsCalm : Session → Type 0
IsCalm s = IsOrderedIf s.cancel_requested s

pub retire-IsOrdered : (r : TurnResult) (s : Session) → IsCalm s → Leaves (retire_turn r s)
unfolding retire_turn
retire-IsOrdered r s h = leaves _ _ (interrupt-IsOrdered s s.cancel_requested true refl h)

finish-IsOrdered : (b : Bool) (r : TurnResult) (s : Session) → IsCalm s → Leaves (finish_turn b r s)
unfolding finish_turn
finish-IsOrdered b r s h = leaves _ _ h

pub close-IsCalm : (s : Session) → IsCalm s → IsCalm (close s)
unfolding close
close-IsCalm s h =
    if-elim IsCalm s.closed (λ _. h)
      (λ _. close-ordered s.client s.closed s.calls s.cancel_requested s.cancel_requested h)

show-IsOrdered :
    (p : Projection) (v : Value) (l : Locals) (s : Session)
    → IsCalm s
    → Leaves (show_progress p v l s)
unfolding show_progress
show-IsOrdered Projection.failed v l s h = retire-IsOrdered _ s h
show-IsOrdered (text t) v l s h = leaves _ _ h

release-IsOrdered :
    (p : Projection) (d : Decision) (v : Value) (l : Locals) (s : Session)
    → IsCalm s
    → Leaves (release_result p d v l s)
unfolding release_result
release-IsOrdered Projection.failed d v l s h = retire-IsOrdered _ s h
release-IsOrdered (text t) d v l s h = leaves _ _ h

end-IsOrdered :
    (d : Decision) (v : Value) (l : Locals) (s : Session) → IsCalm s → Leaves (end_terminal d v l s)
unfolding end_terminal
end-IsOrdered d v l s h =
    if-elim Leaves (not d.allowed)
      (λ _.
        finish-IsOrdered false _ (close (show_decision d s)) (close-IsCalm (show_decision d s) h))
      (λ _. release-IsOrdered (project v) d v l (show_decision d s) h)

module _ (py : Interpreter) where
  kind-IsOrdered : (v : Value) (l : Locals) (s : Session) → IsCalm s → Leaves (handle_kind py v l s)
  unfolding handle_kind handle_progress handle_terminal
  kind-IsOrdered v l s h =
      if-elim Leaves (not (class_name v == "ResultMessage"))
        (λ _. show-IsOrdered (project v) v l s h) (λ _. end-IsOrdered _ v _ s h)

  decision-IsOrdered :
      (d : Decision) (e : Evidence) (v : Value) (l : Locals) (s : Session)
      → IsCalm s
      → Leaves (handle_decision py d e v l s)
  unfolding handle_decision
  decision-IsOrdered d e v l s h =
      if-elim Leaves (is_immediate d.block_reason) (λ _. retire-IsOrdered _ (show_decision d s) h)
        (λ _. kind-IsOrdered v _ s h)

  extraction-IsOrdered :
      (x : Extraction) (v : Value) (l : Locals) (s : Session)
      → IsCalm s
      → Leaves (handle_extraction py x v l s)
  unfolding handle_extraction handle_evidence
  extraction-IsOrdered Extraction.failed v l s h = retire-IsOrdered _ s h
  extraction-IsOrdered unsupported v l s h = kind-IsOrdered v l s h
  extraction-IsOrdered (evidence e) v l s h = decision-IsOrdered _ _ v l s h

  live-IsOrdered :
      (item : Item) (l : Locals) (s : Session) → IsCalm s → Leaves (handle_live_item py item l s)
  unfolding handle_live_item handle_sdk_message finish_turn
  live-IsOrdered Item.cancelled l s h = leaves _ _ h
  live-IsOrdered native_tool_violation l s h = retire-IsOrdered _ s h
  live-IsOrdered post_terminal_output l s h = retire-IsOrdered _ s h
  live-IsOrdered watchdog_expired l s h = retire-IsOrdered _ s h
  live-IsOrdered (stream_ended bad) l s h = leaves _ _ h
  live-IsOrdered (message v) l s h =
      extraction-IsOrdered _ v l (record s { compaction = (handle_message v s.compaction).0 }) h

  pub item-IsOrdered :
      (item : Item) (l : Locals) (s : Session) → IsCalm s → Leaves (handle_item py item l s)
  unfolding handle_item finish_turn
  item-IsOrdered item l s h =
      if-elim Leaves s.cancel_requested (λ _. leaves _ _ h) (λ _. live-IsOrdered item l s h)

settle_result-IsOrdered :
    (l : Locals) (d : Decision) (v : Value) (s : Session)
    → IsCalm s
    → Leaves (settle_result l d v s)
unfolding settle_result finish_turn
settle_result-IsOrdered l d v s h =
    let reason = attr v "terminal_reason" null in
    if-elim Leaves (not (is_hashable reason)) (λ _. retire-IsOrdered _ s h)
      (λ _.
        if-elim Leaves (is_aborted reason) (λ _. leaves _ _ h)
          (λ _.
            if-elim Leaves (is_true (attr v "is_error" null)) (λ _. leaves _ _ h)
              (λ _. leaves _ _ h)))

pub settle-IsOrdered :
    (t : Trailing) (l : Locals) (d : Decision) (v : Value) (s : Session)
    → IsCalm s
    → Leaves (settle_drained t l d v s)
unfolding settle_drained
settle-IsOrdered native l d v s h = retire-IsOrdered _ s h
settle-IsOrdered output l d v s h = retire-IsOrdered _ s h
settle-IsOrdered nothing l d v s h = settle_result-IsOrdered l d v s h
