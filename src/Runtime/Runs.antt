-- ===== src/Runtime/Runs.antt =====
-- Whole turns of the runtime, from the first check on.
use hermes_claude_agent_sdk.Common.{
  String, ◌≡◌, refl, sym, subst, ◌⊎◌, inl, inr, Bool, true, false, not, [], Option, none, some,
  arith, if-elim,
}
use hermes_claude_agent_sdk.Python.{Value, bool}
use hermes_claude_agent_sdk.ToolBridge.{Bridge}
use hermes_claude_agent_sdk.Compaction.{Tracker}
use hermes_claude_agent_sdk.Compaction as Compactions
use hermes_claude_agent_sdk.Configuration.{Configuration}
use hermes_claude_agent_sdk.TurnInput.Failing as Failing
use hermes_claude_agent_sdk.TurnInput.{Prompt, nothing, messages_prompt}
use hermes_claude_agent_sdk.Runtime.Types.{
  preflight, before_visible_output, Code, runtime_closed, cancellation_unavailable,
  host_binding_changed, prompt_invalid, session_contract_changed, configuration_failed, image_input,
  RuntimeFailure, Emitted, cancelled_turn, failed_turn, Input, Platform, Runtime, Run,
}
use hermes_claude_agent_sdk.Runtime.Preflight.{
  resume_id, check_auth, is_model_compatible, is_declared, check_state, checked_resume,
  check_preflight, consume_preflight,
}
use hermes_claude_agent_sdk.Runtime.Forward.{failure}
use hermes_claude_agent_sdk.Runtime.Protocol.{
  running, over, advance, has_content, shows_content, is_completed, IsHostEvent, IsToldAt, IsTold,
  terminal-IsOver,
}
use hermes_claude_agent_sdk.Runtime.Rounds.{fail_unexpectedly-IsOver, run_rounds-Ends}
use hermes_claude_agent_sdk.Runtime.{
  prepared, start_session, restart_session, bound, opened, restarted, ends_with, fails_with, raises,
  allowed_tools, loop_from, fail_beginning, run_loop, begin_bridge, bridge_turn, begin_turn,
  make_session, open_session, contract_of, is_contract, continue_session, take_session,
  resume_session, with_prompt, is_bound, bind_host, ask_host, admit, after_preflight, run_turn,
}
use hermes_claude_agent_sdk.Runtime.Turns.{
  IsComplete, IsLost, IsDone, end_rounds-IsDone, nothing-IsYielded,
}

-- An exception left the turn before anything was yielded, or the turn is over.
abbrev pub IsRun : Platform → Input → Run → Type 0
IsRun e i r =
    ((r.raised ≡ true) × (r.emitted ≡ [])) ⊎ IsDone e.dict_of i.outcome i.request r.emitted

-- A failure of the preflight
abbrev IsRefusal : Option RuntimeFailure → Type 0
IsRefusal none = Unit
IsRefusal (some f) = f.phase ≡ preflight

abbrev IsChecked : Option (Option RuntimeFailure × Runtime) → Type 0
IsChecked none = Unit
IsChecked (some (f, r)) = IsRefusal f

check_state-IsRefusal : (ok : Bool) (i : Input) (r : Runtime) → IsRefusal (check_state ok i r).0
unfolding check_state
check_state-IsRefusal false i r = refl
check_state-IsRefusal true i r =
    if-elim (λ (x : Option RuntimeFailure × Runtime). IsRefusal x.0)
      (not (is_model_compatible i.model_check)) (λ _. refl)
      (λ _.
        if-elim (λ (x : Option RuntimeFailure × Runtime). IsRefusal x.0) (not (check_auth i.auth))
          (λ _. refl) (λ _. tt))

resume-IsChecked :
    (o : Option (Option String × Bool)) (i : Input) (r : Runtime) → IsChecked (checked_resume o i r)
unfolding checked_resume
resume-IsChecked none i r = tt
resume-IsChecked (some (id, ok)) i r = check_state-IsRefusal ok i r

check_preflight-IsChecked : (i : Input) (r : Runtime) → IsChecked (check_preflight i r)
unfolding check_preflight
check_preflight-IsChecked i r =
    if-elim IsChecked (is_declared i.request)
      (λ _. resume-IsChecked (resume_id i.request.session_state) i _) (λ _. refl)

module _ (e : Platform) (i : Input) where
  single-IsRun :
      (x : Emitted) (r : Runtime)
      → advance running x ≡ over
      → IsHostEvent x
      → is_completed x ≡ false
      → shows_content x ≡ false
      → IsTold false x
      → IsRun e i (ends_with x r)
  unfolding has_content
  single-IsRun x r last host other unseen told = inr (
      terminal-IsOver (IsLost e.dict_of i.outcome i.request) (IsComplete i.outcome) running [] x
        nothing-IsYielded last host unseen told (λ c. ground (arith, other, c)))

  fails-IsRun : (code : Code) (r : Runtime) → IsRun e i (fails_with code r)
  fails-IsRun code r =
      single-IsRun (failed_turn (failure code before_visible_output false)) r refl tt refl refl
        (refl, λ c. cc)

  raises-IsRun : (r : Runtime) → IsRun e i (raises r)
  raises-IsRun r = inl (refl, refl)

  fail_beginning-IsRun : (r : Runtime) → IsRun e i (fail_beginning r)
  unfolding fail_beginning has_content
  fail_beginning-IsRun r = inr (
      fail_unexpectedly-IsOver (IsLost e.dict_of i.outcome i.request) (IsComplete i.outcome) _
        (loop_from r 0 []) (nothing-IsYielded, refl))

  run_loop-IsRun : (r : Runtime) (b : Bridge) → IsRun e i (run_loop e i r b)
  unfolding run_loop has_content
  run_loop-IsRun r b = inr (
      end_rounds-IsDone e.dict_of i.outcome i.request _ i.executions (
        run_rounds-Ends (IsLost e.dict_of i.outcome i.request) (IsComplete i.outcome) i.outcome
          i.executions i.request.correlation_id i.rounds
          (loop_from r b.host_executions (allowed_tools b)) (nothing-IsYielded, refl)))

  bridge-IsRun : (b : Option Bridge) (r : Runtime) → IsRun e i (begin_bridge e b i r)
  unfolding begin_bridge
  bridge-IsRun none r = fail_beginning-IsRun r
  bridge-IsRun (some b) r = run_loop-IsRun r b

  begin_turn-IsRun : (r : Runtime) → IsRun e i (begin_turn e i r)
  unfolding begin_turn
  begin_turn-IsRun r = bridge-IsRun (bridge_turn r.bridge i.request.correlation_id) r

  start-IsRun :
      (t : Option Tracker) (b : Bridge) (c : Configuration) (r : Runtime)
      → IsRun e i (start_session e t i b c r)
  unfolding start_session
  start-IsRun none b c r = fails-IsRun configuration_failed (prepared i b r)
  start-IsRun (some t) b c r = begin_turn-IsRun (opened i b c r)

  restart-IsRun :
      (t : Option Tracker) (c : Configuration) (resume : Option String) (r : Runtime)
      → IsRun e i (restart_session e t c resume i r)
  unfolding restart_session has_content
  restart-IsRun none c resume r = inr (
      fail_unexpectedly-IsOver (IsLost e.dict_of i.outcome i.request) (IsComplete i.outcome) 0
        (loop_from r 0 []) (nothing-IsYielded, refl))
  restart-IsRun (some t) c resume r = begin_turn-IsRun (restarted c resume r)

  open-IsRun :
      (o : Option (Bridge × Configuration)) (r : Runtime) → IsRun e i (open_session e o i r)
  unfolding open_session
  open-IsRun none r = fails-IsRun configuration_failed (bound i r)
  open-IsRun (some (b, c)) r = start-IsRun (Compactions.create r.watchdog) b c r

  continue-IsRun :
      (c : Configuration) (resume : Option String) (r : Runtime)
      → IsRun e i (continue_session e c resume i r)
  unfolding continue_session
  continue-IsRun c resume r =
      if-elim (IsRun e i) (not (is_contract r.contract (contract_of i.request)))
        (λ _. fails-IsRun session_contract_changed r)
        (λ _.
          if-elim (IsRun e i) i.can_restart
            (λ _. restart-IsRun (Compactions.create r.watchdog) c resume r)
            (λ _. begin_turn-IsRun r))

  take-IsRun :
      (o : Option Configuration) (resume : Option String) (r : Runtime)
      → IsRun e i (take_session e o resume i r)
  unfolding take_session
  take-IsRun none resume r = open-IsRun (make_session e i resume r) r
  take-IsRun (some c) resume r = continue-IsRun c resume r

  resume-IsRun :
      (o : Option (Option String × Bool)) (r : Runtime) → IsRun e i (resume_session e o i r)
  unfolding resume_session
  resume-IsRun none r = raises-IsRun r
  resume-IsRun (some (resume, ok)) r = take-IsRun r.session resume r

  prompt-IsRun : (p : Failing.Result Prompt) (r : Runtime) → IsRun e i (with_prompt e p i r)
  unfolding with_prompt
  prompt-IsRun (Failing.failed Failing.uncaught) r = raises-IsRun r
  prompt-IsRun (Failing.failed f) r = fails-IsRun (image_input f) r
  prompt-IsRun (Failing.ok nothing) r = fails-IsRun prompt_invalid r
  prompt-IsRun (Failing.ok _) r = resume-IsRun (resume_id i.request.session_state) r

  bind_host-IsRun : (r : Runtime) → IsRun e i (bind_host e i r)
  unfolding bind_host
  bind_host-IsRun r =
      if-elim (IsRun e i) (is_bound r.host i.host)
        (λ _. prompt-IsRun (messages_prompt e.decoders i.request.messages) r)
        (λ _. fails-IsRun host_binding_changed r)

  ask_host-IsRun : (answer : Option Value) (r : Runtime) → IsRun e i (ask_host e answer i r)
  unfolding ask_host
  ask_host-IsRun (some (bool true)) r = single-IsRun cancelled_turn r refl tt refl refl tt
  ask_host-IsRun (some (bool false)) r = bind_host-IsRun r
  ask_host-IsRun (some _) r = fails-IsRun cancellation_unavailable r
  ask_host-IsRun none r = fails-IsRun cancellation_unavailable r

  admit-IsRun : (r : Runtime) → IsRun e i (admit e i r)
  unfolding admit
  admit-IsRun r =
      if-elim (IsRun e i) r.closed (λ _. fails-IsRun runtime_closed r)
        (λ _. ask_host-IsRun i.cancelled_before r)

  refusal-IsRun :
      (f : RuntimeFailure) (r : Runtime)
      → f.phase ≡ preflight
      → IsRun e i (ends_with (failed_turn f) r)
  refusal-IsRun f r h =
      single-IsRun (failed_turn f) r refl tt refl refl (subst (IsToldAt false) (sym h) refl, λ _. h)

  checked-IsRun :
      (o : Option (Option RuntimeFailure × Runtime)) (r : Runtime)
      → IsChecked o
      → IsRun e i (after_preflight e o i r)
  unfolding after_preflight
  checked-IsRun none r h = raises-IsRun r
  checked-IsRun (some (some f, checked)) r h = refusal-IsRun f checked h
  checked-IsRun (some (none, checked)) r h =
      if-elim (IsRun e i) (consume_preflight i.request.identity checked).0
        (λ _. admit-IsRun (consume_preflight i.request.identity checked).1)
        (λ _. refusal-IsRun _ (consume_preflight i.request.identity checked).1 refl)

  pub run_turn-IsRun : (r : Runtime) → IsRun e i (run_turn e i r)
  unfolding run_turn
  run_turn-IsRun r =
      let fresh = record r { observations = [] } in
      let consumed = (consume_preflight i.request.identity fresh).1 in
      if-elim (IsRun e i) (consume_preflight i.request.identity fresh).0 (λ _. admit-IsRun consumed)
        (λ _.
          checked-IsRun (check_preflight i consumed) consumed
            (check_preflight-IsChecked i consumed))
