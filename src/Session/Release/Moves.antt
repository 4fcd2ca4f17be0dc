-- ===== src/Session/Release/Moves.antt =====
-- Each move of the world keeps the session safe.
use hermes_claude_agent_sdk.Common.{
  ◌≡◌, refl, ◌∙◌, ap, Bool, true, false, not, List, [], ◌∷◌, Option, none, some, arith, ◌==◌, ℕ,
  if-elim,
}
use hermes_claude_agent_sdk.Python.{
  Value, null, Interpreter, class_name, attr, is_true, is_hashable,
}
use hermes_claude_agent_sdk.Billing.{Decision, Evidence}
use hermes_claude_agent_sdk.Billing.Extract.{Extraction, unsupported, evidence}
use hermes_claude_agent_sdk.Compaction.{Tracker, bind}
use hermes_claude_agent_sdk.Compaction.Message.{handle_message}
use hermes_claude_agent_sdk.Session.{
  Session, Item, message, stream_ended, watchdog_expired, post_terminal_output,
  native_tool_violation, query, call,
}
use hermes_claude_agent_sdk.Session.Text.{Projection, text, project}
use hermes_claude_agent_sdk.Session.Turn.{
  Locals, done, Prompt, is_prompt, Answer, answered, late, raised, begin_turn, start_turn, start,
  Connection, connected, refused, unbuilt, start_failure, open_turn, bound_turn, send_query,
  attempted, finish_turn,
}
use hermes_claude_agent_sdk.Session.Handle.{
  handle_item, handle_live_item, handle_sdk_message, handle_extraction, handle_evidence,
  handle_decision, is_immediate, blocked_result, handle_kind, handle_terminal, end_terminal,
  handle_progress, show_progress, release_result, show_decision, settle_drained, settle_result,
  is_aborted, Trailing, nothing, output, native,
}
use hermes_claude_agent_sdk.Session.World.{take_item}
use hermes_claude_agent_sdk.Session.Release.{
  view, IsGuarded, IsSafe, safe, decided-IsAllowed, progress-IsGuarded, allowed-IsGuarded,
  close-IsSafe, interrupt-IsSafe, retire-IsSafe,
}

show-IsSafe :
    (p : Projection) (v : Value) (l : Locals) (s : Session)
    → (class_name v == "ResultMessage") ≡ false
    → IsGuarded s.shown
    → IsSafe (show_progress p v l s)
unfolding show_progress
show-IsSafe Projection.failed v l s other g = retire-IsSafe _ s g tt
show-IsSafe (text t) v l s other g = safe _ _ (progress-IsGuarded v s.shown other g) tt

release-IsSafe :
    (p : Projection) (d : Decision) (v : Value) (l : Locals) (s : Session)
    → d.allowed ≡ true
    → view (some false) s.shown ≡ some true
    → IsSafe (release_result p d v l s)
unfolding release_result
release-IsSafe Projection.failed d v l s a g = retire-IsSafe _ s (true, g) tt
release-IsSafe (text t) d v l s a g = safe _ _ (allowed-IsGuarded v s.shown g) a

not-false : (b : Bool) → not b ≡ false → b ≡ true
not-false b h = ground arith

not-true : (b : Bool) → not b ≡ true → b ≡ false
not-true b h = ground arith

end-IsSafe :
    (d : Decision) (v : Value) (l : Locals) (s : Session)
    → IsGuarded s.shown
    → IsSafe (end_terminal d v l s)
unfolding end_terminal finish_turn
end-IsSafe d v l s g =
    let shown = decided-IsAllowed d s.shown g in
    if-elim IsSafe (not d.allowed)
      (λ _.
        let h =
          close-IsSafe (show_decision d s) (done (blocked_result d l)) (d.allowed, shown) refl in
        safe _ _ h.guarded h.honest)
      (λ e.
        let a = not-false d.allowed e in
        release-IsSafe (project v) d v l (show_decision d s) a (shown ∙ ap some a))

module _ (py : Interpreter) where
  kind-IsSafe :
      (v : Value) (l : Locals) (s : Session) → IsGuarded s.shown → IsSafe (handle_kind py v l s)
  unfolding handle_kind handle_progress handle_terminal
  kind-IsSafe v l s g =
      if-elim IsSafe (not (class_name v == "ResultMessage"))
        (λ e. show-IsSafe (project v) v l s (not-true _ e) g) (λ _. end-IsSafe _ v _ s g)

  decision-IsSafe :
      (d : Decision) (e : Evidence) (v : Value) (l : Locals) (s : Session)
      → IsGuarded s.shown
      → IsSafe (handle_decision py d e v l s)
  unfolding handle_decision
  decision-IsSafe d e v l s g =
      if-elim IsSafe (is_immediate d.block_reason)
        (λ _. retire-IsSafe _ (show_decision d s) (d.allowed, decided-IsAllowed d s.shown g) refl)
        (λ _. kind-IsSafe v _ s g)

  extraction-IsSafe :
      (x : Extraction) (v : Value) (l : Locals) (s : Session)
      → IsGuarded s.shown
      → IsSafe (handle_extraction py x v l s)
  unfolding handle_extraction handle_evidence
  extraction-IsSafe Extraction.failed v l s g = retire-IsSafe _ s g tt
  extraction-IsSafe unsupported v l s g = kind-IsSafe v l s g
  extraction-IsSafe (evidence e) v l s g = decision-IsSafe _ _ v l s g

  live-IsSafe :
      (item : Item) (l : Locals) (s : Session)
      → IsGuarded s.shown
      → IsSafe (handle_live_item py item l s)
  unfolding handle_live_item handle_sdk_message finish_turn
  live-IsSafe Item.cancelled l s g = safe _ _ g tt
  live-IsSafe native_tool_violation l s g = retire-IsSafe _ s g tt
  live-IsSafe post_terminal_output l s g = retire-IsSafe _ s g tt
  live-IsSafe watchdog_expired l s g = retire-IsSafe _ s g tt
  live-IsSafe (stream_ended bad) l s g = safe _ _ g tt
  live-IsSafe (message v) l s g =
      extraction-IsSafe _ v l (record s { compaction = (handle_message v s.compaction).0 }) g

  pub take-IsSafe :
      (items : Option (List Item)) (l : Locals) (s : Session)
      → IsGuarded s.shown
      → IsSafe (take_item py items l s)
  unfolding take_item handle_item finish_turn
  take-IsSafe (some (item ∷ items)) l s g =
      if-elim IsSafe s.cancel_requested (λ _. safe _ _ g tt)
        (λ _. live-IsSafe item l (record s { inbox = some items }) g)
  take-IsSafe (some []) l s g = safe _ _ g tt
  take-IsSafe none l s g = safe _ _ g tt

settle_result-IsSafe :
    (l : Locals) (d : Decision) (v : Value) (s : Session)
    → d.allowed ≡ true
    → IsGuarded s.shown
    → IsSafe (settle_result l d v s)
unfolding settle_result finish_turn
settle_result-IsSafe l d v s a g =
    let reason = attr v "terminal_reason" null in
    if-elim IsSafe (not (is_hashable reason)) (λ _. retire-IsSafe _ s g tt)
      (λ _.
        if-elim IsSafe (is_aborted reason) (λ _. safe _ _ g tt)
          (λ _.
            if-elim IsSafe (is_true (attr v "is_error" null)) (λ _. safe _ _ g tt)
              (λ _. safe _ _ g a)))

pub settle-IsSafe :
    (t : Trailing) (l : Locals) (d : Decision) (v : Value) (s : Session)
    → d.allowed ≡ true
    → IsGuarded s.shown
    → IsSafe (settle_drained t l d v s)
unfolding settle_drained
settle-IsSafe native l d v s a g = retire-IsSafe _ s g tt
settle-IsSafe output l d v s a g = retire-IsSafe _ s g tt
settle-IsSafe nothing l d v s a g = settle_result-IsSafe l d v s a g

send-IsSafe : (a : Answer) (s : Session) → IsGuarded s.shown → IsSafe (send_query a s)
unfolding send_query
send-IsSafe answered s g = safe _ _ g tt
send-IsSafe late s g = retire-IsSafe _ (call query s) g refl
send-IsSafe raised s g = retire-IsSafe _ (call query s) g tt

bound-IsSafe :
    (o : Option Tracker) (a : Answer) (s : Session) → IsGuarded s.shown → IsSafe (bound_turn o a s)
unfolding bound_turn
bound-IsSafe none a s g = safe _ _ g tt
bound-IsSafe (some t) a s g = send-IsSafe a (record s { compaction = t }) g

open-IsSafe :
    (on_event : Option ℕ) (a : Answer) (s : Session)
    → IsGuarded s.shown
    → IsSafe (open_turn on_event a s)
unfolding open_turn
open-IsSafe on_event a s g =
    if-elim IsSafe s.cancel_requested (λ _. safe _ _ g tt)
      (λ _.
        bound-IsSafe (bind on_event (some 0) s.compaction) a
          (record s { inbox = some []; terminal_seen = false; indexes = [] }) g)

connection-IsSafe :
    (c : Connection) (on_event : Option ℕ) (a : Answer) (s : Session)
    → IsGuarded s.shown
    → IsSafe (start c on_event a s)
unfolding start
connection-IsSafe connected on_event a s g =
    open-IsSafe on_event a (record (attempted s) { reading = true }) g
connection-IsSafe refused on_event a s g = close-IsSafe (attempted s) (done start_failure) g tt
connection-IsSafe unbuilt on_event a s g = safe _ _ g tt

start-IsSafe :
    (on_event : Option ℕ) (c : Connection) (a : Answer) (s : Session)
    → IsGuarded s.shown
    → IsSafe (start_turn on_event c a s)
unfolding start_turn
start-IsSafe on_event c a s g =
    if-elim IsSafe s.client (λ _. open-IsSafe on_event a s g)
      (λ _. connection-IsSafe c on_event a s g)

pub begin-IsSafe :
    (p : Prompt) (on_event : Option ℕ) (connects : Connection) (a : Answer) (s : Session)
    → IsGuarded s.shown
    → IsSafe (begin_turn p on_event connects a s)
unfolding begin_turn
begin-IsSafe p on_event connects a s g =
    if-elim IsSafe (not (is_prompt p)) (λ _. safe _ _ g tt)
      (λ _.
        if-elim IsSafe s.closed (λ _. safe _ _ g tt)
          (λ _.
            if-elim IsSafe s.post_native
              (λ _. interrupt-IsSafe (record s { post_native = false; post_output = false }) _ g tt)
              (λ _.
                if-elim IsSafe s.post_output
                  (λ _. interrupt-IsSafe (record s { post_output = false }) _ g tt)
                  (λ _. start-IsSafe on_event connects a s g))))
