-- ===== src/Runtime/Rounds.antt =====
-- The loop of a turn and its end, told by what they yield.
use hermes_claude_agent_sdk.Common.{
  ℕ, String, ◌≡◌, refl, sym, ◌∙◌, Bool, true, false, ◌||◌, List, [], ◌∷◌, ◌++◌, Option, none, some,
  arith, ltb, if-elim,
}
use hermes_claude_agent_sdk.Python.{Value, bool}
use hermes_claude_agent_sdk.Session.Outcome.{TurnResult}
use hermes_claude_agent_sdk.Projector.Events.{
  Event, content, tool_request, usage, completion, compaction, Projection,
}
use hermes_claude_agent_sdk.Runtime.Types.{
  Phase, Code, native_tool_unsupported, runtime_failed, Emitted, shown, failed_turn, Round, polled,
  taken,
}
use hermes_claude_agent_sdk.Runtime.Forward.{
  Loop, phase_at, failure, answer_poll, poll, note_result, has_foreign_tool, host_receipt, forward,
  forward_all, add_cancel, fail_unexpectedly, stop_foreign,
}
use hermes_claude_agent_sdk.Runtime.Settle.{run_rounds}
use hermes_claude_agent_sdk.Runtime.Protocol.{
  running, has_content, shows_content, IsToldAt, IsUnderway, IsOver, has_content-append,
  next-IsYielded, terminal-IsOver,
}

seen-append :
    (xs : List Emitted) (x : Emitted) (b : Bool)
    → b ≡ has_content xs
    → (b || shows_content x) ≡ has_content (xs ++ x ∷ [])
unfolding has_content
seen-append xs x b h = ground (arith, h, has_content-append xs (x ∷ []))

or_false : (b : Bool) → b ≡ (b || false)
or_false true = refl
or_false false = refl

or_true : (b : Bool) → true ≡ (b || true)
or_true true = refl
or_true false = refl

forward-IsUnderway :
    (correlation : Option String) (e : Event) (l : Loop)
    → IsUnderway l
    → IsUnderway (forward correlation e l)
unfolding forward
forward-IsUnderway correlation (completion fields) l h = h
forward-IsUnderway correlation (tool_request id name args) l h = h
forward-IsUnderway correlation (usage r) l (y, s) = (
  next-IsYielded running l.emitted (shown (usage (host_receipt correlation r))) y
      (refl, refl, refl, refl, refl) tt refl,
  or_false l.visible
      ∙ seen-append l.emitted (shown (usage (host_receipt correlation r))) l.visible s,
)
forward-IsUnderway correlation (content t) l (y, s) = (
  next-IsYielded running l.emitted (shown (content t)) y tt tt refl,
  or_true l.visible ∙ seen-append l.emitted (shown (content t)) l.visible s,
)
forward-IsUnderway correlation (compaction phase bound) l (y, s) = (
  next-IsYielded running l.emitted (shown (compaction phase bound)) y tt tt refl,
  or_false l.visible ∙ seen-append l.emitted (shown (compaction phase bound)) l.visible s,
)

forward_all-IsUnderway :
    (correlation : Option String) (events : List Event) (l : Loop)
    → IsUnderway l
    → IsUnderway (forward_all correlation events l)
unfolding forward_all
forward_all-IsUnderway correlation [] l h = h
forward_all-IsUnderway correlation (e ∷ events) l h =
    forward_all-IsUnderway correlation events (forward correlation e l)
      (forward-IsUnderway correlation e l h)

note_result-IsUnderway : (p : Projection) (l : Loop) → IsUnderway l → IsUnderway (note_result p l)
unfolding note_result
note_result-IsUnderway p l h = if-elim IsUnderway p.is_result (λ _. h) (λ _. h)

answer_poll-IsUnderway :
    (answer : Option Value) (l : Loop) → IsUnderway l → IsUnderway (answer_poll answer l)
answer_poll-IsUnderway (some (bool true)) l h = h
answer_poll-IsUnderway (some (bool false)) l h = h
answer_poll-IsUnderway (some _) l h = h
answer_poll-IsUnderway none l h = h

poll-IsUnderway : (answer : Option Value) (l : Loop) → IsUnderway l → IsUnderway (poll answer l)
unfolding poll
poll-IsUnderway answer l h =
    if-elim IsUnderway l.cancel_sent (λ _. h) (λ _. answer_poll-IsUnderway answer l h)

pub phase_at-IsToldAt :
    (executions : ℕ) (l : Loop)
    → IsUnderway l
    → IsToldAt (has_content l.emitted) (phase_at executions l)
unfolding phase_at
phase_at-IsToldAt executions l (y, s) =
    if-elim (IsToldAt (has_content l.emitted)) (ltb l.start executions) (λ _. tt)
      (λ _. if-elim (IsToldAt (has_content l.emitted)) l.visible (λ e. sym s ∙ e) (λ e. sym s ∙ e))

module _ (Lost Earned : Type 0) where
  -- The run is over, or still under way.
  abbrev pub Ends : Loop × Bool → Type 0
  Ends (l, true) = IsOver Lost Earned l.emitted
  Ends (l, false) = IsUnderway l

  pub failure-IsOver :
      (code : Code) (phase : Phase) (retryable : Bool) (l : Loop)
      → IsUnderway l
      → IsToldAt (has_content l.emitted) phase
      → IsOver Lost Earned (l.emitted ++ failed_turn (failure code phase retryable) ∷ [])
  failure-IsOver code phase retryable l (y, s) told =
      terminal-IsOver Lost Earned running l.emitted (failed_turn (failure code phase retryable)) y
        refl tt refl (told, λ e. cc) (λ e. cc)

  pub fail_unexpectedly-IsOver :
      (executions : ℕ) (l : Loop)
      → IsUnderway l
      → IsOver Lost Earned (fail_unexpectedly executions l).emitted
  unfolding fail_unexpectedly
  fail_unexpectedly-IsOver executions l h =
      failure-IsOver runtime_failed (phase_at executions l) false l h
        (phase_at-IsToldAt executions l h)

  stop_foreign-IsOver :
      (outcome : Option TurnResult) (executions at_end : ℕ) (l : Loop)
      → IsUnderway l
      → IsOver Lost Earned (stop_foreign outcome executions at_end l).emitted
  unfolding stop_foreign
  stop_foreign-IsOver none executions at_end l h = fail_unexpectedly-IsOver at_end (add_cancel l) h
  stop_foreign-IsOver (some r) executions at_end l h =
      failure-IsOver native_tool_unsupported (phase_at executions l) false l h
        (phase_at-IsToldAt executions l h)

  pub run_rounds-Ends :
      (outcome : Option TurnResult) (at_end : ℕ) (correlation : Option String) (rounds : List Round)
      (l : Loop)
      → IsUnderway l
      → Ends (run_rounds outcome at_end correlation rounds l)
  unfolding run_rounds
  run_rounds-Ends outcome at_end correlation [] l h = h
  run_rounds-Ends outcome at_end correlation (polled answer ∷ rounds) l h =
      run_rounds-Ends outcome at_end correlation rounds (poll answer l) (poll-IsUnderway answer l h)
  run_rounds-Ends outcome at_end correlation (taken p executions ∷ rounds) l h =
      let noted = note_result-IsUnderway p l h in
      if-elim Ends (has_foreign_tool l.allowed p.events)
        (λ _. stop_foreign-IsOver outcome executions at_end (note_result p l) noted)
        (λ _.
          run_rounds-Ends outcome at_end correlation rounds
            (forward_all correlation p.events (note_result p l))
            (forward_all-IsUnderway correlation p.events (note_result p l) noted))
