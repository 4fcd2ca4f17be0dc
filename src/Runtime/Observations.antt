-- ===== src/Runtime/Observations.antt =====
-- The names of tools that a turn of the runtime keeps.
use hermes_claude_agent_sdk.Common.{
  ℕ, suc, String, ◌≡◌, refl, ap, Bool, true, false, not, ◌&&◌, List, [], ◌∷◌, ◌++◌, Option, none,
  some, arith, All, if-elim, if◌then◌else◌, leb, ltb,
}
use hermes_claude_agent_sdk.Python.Text
use hermes_claude_agent_sdk.Python.{Value, bool}
use hermes_claude_agent_sdk.Session.Outcome.{
  Outcome, complete, cancelled, billing_blocked, TurnResult,
}
use hermes_claude_agent_sdk.ToolBridge.{Bridge}
use hermes_claude_agent_sdk.Projector.Events.{
  Event, content, tool_request, usage, completion, compaction, Projection,
}
use hermes_claude_agent_sdk.Runtime.Types.{Request, Round, polled, taken, Input, Platform, Runtime}
use hermes_claude_agent_sdk.Runtime.Forward.{
  Loop, count, observed_name, observed, forward, forward_all, note_result, poll, answer_poll,
  has_foreign_tool, fail_unexpectedly, stop_foreign,
}
use hermes_claude_agent_sdk.Runtime.Settle.{
  run_rounds, response_messages, complete_turn, save_state, settle_outcome, settle,
}
use hermes_claude_agent_sdk.Runtime.{bound, allowed_tools, loop_from, end_rounds, run_loop}

-- A name of a tool that may be kept: of 1 to 128 characters
abbrev IsKept : String → Type 0
IsKept name = (Text.is_empty name ≡ false) × (leb (Text.length name) 128 ≡ true)

-- At most 64 names are kept.
abbrev pub IsObserved : List String → Type 0
IsObserved names = (leb (count names) 64 ≡ true) × All IsKept names

abbrev IsName : Option String → Type 0
IsName none = Unit
IsName (some name) = IsKept name

kept_parts : (a b c : Bool) → (not a && b && not c) ≡ true → (a ≡ false) × (b ≡ true)
kept_parts a b c h = ground arith

if_kept-IsName :
    (name : String) (odd : Bool)
    → IsName (
        if not (Text.is_empty name) && leb (Text.length name) 128 && not odd
        then some name
        else none)
if_kept-IsName name odd =
    if-elim IsName (not (Text.is_empty name) && leb (Text.length name) 128 && not odd)
      (λ e. kept_parts (Text.is_empty name) (leb (Text.length name) 128) odd e) (λ _. tt)

observed_name-IsName : (value : String) → IsName (observed_name value)
unfolding observed_name
observed_name-IsName value = if_kept-IsName (Text.strip value) _

count-snoc : (names : List String) (name : String) → count (names ++ name ∷ []) ≡ suc (count names)
count-snoc [] name = refl
count-snoc (x ∷ names) name = ap suc (count-snoc names name)

All-snoc :
    (names : List String) (name : String)
    → All IsKept names
    → IsKept name
    → All IsKept (names ++ name ∷ [])
All-snoc [] name h k = (k, tt)
All-snoc (x ∷ names) name (h, hs) k = (h, All-snoc names name hs k)

observed-IsObserved :
    (o : Option String) (names : List String)
    → IsName o
    → IsObserved names
    → IsObserved (observed o names)
observed-IsObserved none names h k = k
observed-IsObserved (some name) names h (few, kept) =
    if-elim IsObserved (ltb (count names) 64)
      (λ e. (ground (arith, count-snoc names name, e), All-snoc names name kept h))
      (λ _. (few, kept))

forward-IsObserved :
    (correlation : Option String) (e : Event) (l : Loop)
    → IsObserved l.observations
    → IsObserved (forward correlation e l).observations
unfolding forward
forward-IsObserved correlation (tool_request id name args) l h =
    observed-IsObserved (observed_name name) l.observations (observed_name-IsName name) h
forward-IsObserved correlation (content s) l h = h
forward-IsObserved correlation (usage r) l h = h
forward-IsObserved correlation (completion fields) l h = h
forward-IsObserved correlation (compaction phase bound) l h = h

forward_all-IsObserved :
    (correlation : Option String) (events : List Event) (l : Loop)
    → IsObserved l.observations
    → IsObserved (forward_all correlation events l).observations
unfolding forward_all
forward_all-IsObserved correlation [] l h = h
forward_all-IsObserved correlation (e ∷ events) l h =
    forward_all-IsObserved correlation events (forward correlation e l)
      (forward-IsObserved correlation e l h)

abbrev Keeps : Loop → Type 0
Keeps l = IsObserved l.observations

note_result-Keeps : (p : Projection) (l : Loop) → Keeps l → Keeps (note_result p l)
unfolding note_result
note_result-Keeps p l h = if-elim Keeps p.is_result (λ _. h) (λ _. h)

answer_poll-Keeps : (answer : Option Value) (l : Loop) → Keeps l → Keeps (answer_poll answer l)
answer_poll-Keeps (some (bool true)) l h = h
answer_poll-Keeps (some (bool false)) l h = h
answer_poll-Keeps (some _) l h = h
answer_poll-Keeps none l h = h

poll-Keeps : (answer : Option Value) (l : Loop) → Keeps l → Keeps (poll answer l)
unfolding poll
poll-Keeps answer l h = if-elim Keeps l.cancel_sent (λ _. h) (λ _. answer_poll-Keeps answer l h)

stop_foreign-Keeps :
    (outcome : Option TurnResult) (executions at_end : ℕ) (l : Loop)
    → Keeps l
    → Keeps (stop_foreign outcome executions at_end l)
unfolding stop_foreign fail_unexpectedly
stop_foreign-Keeps none executions at_end l h = h
stop_foreign-Keeps (some r) executions at_end l h = h

run_rounds-Keeps :
    (outcome : Option TurnResult) (at_end : ℕ) (correlation : Option String) (rounds : List Round)
    (l : Loop)
    → Keeps l
    → Keeps (run_rounds outcome at_end correlation rounds l).0
unfolding run_rounds
run_rounds-Keeps outcome at_end correlation [] l h = h
run_rounds-Keeps outcome at_end correlation (polled answer ∷ rounds) l h =
    run_rounds-Keeps outcome at_end correlation rounds (poll answer l) (poll-Keeps answer l h)
run_rounds-Keeps outcome at_end correlation (taken p executions ∷ rounds) l h =
    if-elim (λ (x : Loop × Bool). Keeps x.0) (has_foreign_tool l.allowed p.events)
      (λ _.
        stop_foreign-Keeps outcome executions at_end (note_result p l) (note_result-Keeps p l h))
      (λ _.
        run_rounds-Keeps outcome at_end correlation rounds
          (forward_all correlation p.events (note_result p l))
          (forward_all-IsObserved correlation p.events (note_result p l) (note_result-Keeps p l h)))

module _ (dict_of : Value → Option Value) (request : Request) where
  complete-Keeps :
      (ms : Option (List Value)) (r : TurnResult) (id : Option String) (l : Loop)
      → Keeps l
      → Keeps (complete_turn dict_of ms request r (save_state id l))
  complete-Keeps none r none l h = h
  complete-Keeps none r (some id) l h = h
  complete-Keeps (some ms) r none l h = h
  complete-Keeps (some ms) r (some id) l h = h

  outcome-Keeps :
      (o : Outcome) (r : TurnResult) (executions : ℕ) (l : Loop)
      → Keeps l
      → Keeps (settle_outcome dict_of o request r executions l)
  unfolding settle_outcome
  outcome-Keeps complete r executions l h =
      complete-Keeps (response_messages dict_of request.messages) r r.external_session_id l h
  outcome-Keeps cancelled r executions l h = h
  outcome-Keeps billing_blocked r executions l h = h
  outcome-Keeps _ r executions l h = h

  settle-Keeps :
      (o : Option TurnResult) (executions : ℕ) (l : Loop)
      → Keeps l
      → Keeps (settle dict_of o request executions l)
  unfolding settle fail_unexpectedly
  settle-Keeps none executions l h = h
  settle-Keeps (some r) executions l h =
      if-elim Keeps l.poll_failed (λ _. h) (λ _. outcome-Keeps r.outcome r executions l h)

  pub end_rounds-Keeps :
      (ended : Loop × Bool) (o : Option TurnResult) (executions : ℕ)
      → Keeps ended.0
      → Keeps (end_rounds ended (λ l. settle dict_of o request executions l))
  end_rounds-Keeps (l, true) o executions h = h
  end_rounds-Keeps (l, false) o executions h = settle-Keeps o executions l h

pub loop-IsObserved :
    (e : Platform) (i : Input) (r : Runtime) (b : Bridge)
    → IsObserved r.observations
    → IsObserved (run_loop e i r b).runtime.observations
unfolding run_loop
loop-IsObserved e i r b h = end_rounds-Keeps e.dict_of i.request _ i.outcome i.executions (
    run_rounds-Keeps i.outcome i.executions i.request.correlation_id i.rounds
      (loop_from r b.host_executions (allowed_tools b)) h)
