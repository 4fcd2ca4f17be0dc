-- ===== src/Runtime/Sound.antt =====
-- What holds of the runtime's object between its turns.
use hermes_claude_agent_sdk.Common.{
  String, ◌≡◌, refl, ap, Bool, true, false, not, ◌||◌, ◌&&◌, List, [], ◌∷◌, Option, none, some,
  if-elim, arith,
}
use hermes_claude_agent_sdk.Python.{Value, Float, bool}
use hermes_claude_agent_sdk.ToolBridge.{Bridge}
use hermes_claude_agent_sdk.Compaction.{Tracker}
use hermes_claude_agent_sdk.Compaction as Compactions
use hermes_claude_agent_sdk.Configuration.{Configuration}
use hermes_claude_agent_sdk.TurnInput.Failing as Failing
use hermes_claude_agent_sdk.TurnInput.{Prompt, nothing, messages_prompt}
use hermes_claude_agent_sdk.Runtime.Types.{RuntimeFailure, Input, Platform, Runtime, Run}
use hermes_claude_agent_sdk.Runtime.Preflight.{
  resume_id, is_model_compatible, check_auth, is_declared, check_state, checked_resume,
  check_preflight, consume_preflight,
}
use hermes_claude_agent_sdk.Runtime.Forward.{fail_unexpectedly}
use hermes_claude_agent_sdk.Runtime.Observations.{IsObserved, loop-IsObserved}
use hermes_claude_agent_sdk.Runtime.{
  start_session, restart_session, opened, restarted, fail_beginning, run_loop, begin_bridge,
  bridge_turn, begin_turn, make_session, open_session, contract_of, is_contract, continue_session,
  take_session, resume_session, with_prompt, is_bound, bind_host, ask_host, admit, after_preflight,
  run_turn, close, create,
}

-- What a host does with the object
pub data Step : Type 0 where
  turns : Input → Step
  shuts : Step

unfoldable pub run_steps : Platform → List Step → Runtime → Runtime
run_steps e [] r = r
run_steps e (turns i ∷ steps) r = run_steps e steps (run_turn e i r).runtime
run_steps e (shuts ∷ steps) r = run_steps e steps (close r)

abbrev has {ℓ} : {A : Type ℓ} → Option A → Bool
has none = false
has (some x) = true

-- Where there is a session, there are the bridge and the contract, so that the assertions of
-- `run_turn` hold; and the names that are kept are bounded.
abbrev pub IsSound : Runtime → Type 0
IsSound r =
    ((not (has r.session) || has r.bridge && has r.contract) ≡ true) × IsObserved r.observations

backed : (s b k : Bool) → b ≡ true → k ≡ true → (not s || b && k) ≡ true
backed s b k bridged agreed = ground arith

backing : (s b k : Bool) → s ≡ true → (not s || b && k) ≡ true → (b ≡ true) × (k ≡ true)
backing s b k ready h = (ground arith, ground arith)

abbrev IsSoundRun : Run → Type 0
IsSoundRun x = IsSound x.runtime

-- The object has what a session needs.
abbrev IsOpen : Runtime → Type 0
IsOpen r = (has r.bridge ≡ true) × (has r.contract ≡ true) × IsObserved r.observations

open-IsSound : (r : Runtime) → IsOpen r → IsSound r
open-IsSound r (bridged, agreed, kept) =
    (backed (has r.session) (has r.bridge) (has r.contract) bridged agreed, kept)

module _ (e : Platform) (i : Input) where
  bridge-IsSound : (b : Option Bridge) (r : Runtime) → IsOpen r → IsSoundRun (begin_bridge e b i r)
  unfolding begin_bridge fail_beginning fail_unexpectedly run_loop
  bridge-IsSound none r h = open-IsSound r h
  bridge-IsSound (some b) r (bridged, agreed, kept) =
      (backed (has r.session) true (has r.contract) refl agreed, loop-IsObserved e i r b kept)

  begin_turn-IsSound : (r : Runtime) → IsOpen r → IsSoundRun (begin_turn e i r)
  unfolding begin_turn
  begin_turn-IsSound r h = bridge-IsSound (bridge_turn r.bridge i.request.correlation_id) r h

  start-IsSound :
      (t : Option Tracker) (b : Bridge) (c : Configuration) (r : Runtime)
      → IsObserved r.observations
      → IsSoundRun (start_session e t i b c r)
  unfolding start_session
  start-IsSound none b c r kept = (backed (has r.session) true true refl refl, kept)
  start-IsSound (some t) b c r kept = begin_turn-IsSound (opened i b c r) (refl, refl, kept)

  opening-IsSound :
      (o : Option (Bridge × Configuration)) (r : Runtime)
      → IsSound r
      → IsSoundRun (open_session e o i r)
  unfolding open_session
  opening-IsSound none r h = h
  opening-IsSound (some (b, c)) r (whole, kept) =
      start-IsSound (Compactions.create r.watchdog) b c r kept

  restart-IsSound :
      (t : Option Tracker) (c : Configuration) (resume : Option String) (r : Runtime)
      → IsOpen r
      → IsSoundRun (restart_session e t c resume i r)
  unfolding restart_session fail_unexpectedly
  restart-IsSound none c resume r h = open-IsSound r h
  restart-IsSound (some t) c resume r h = begin_turn-IsSound (restarted c resume r) h

  continue-IsSound :
      (c : Configuration) (resume : Option String) (r : Runtime)
      → IsOpen r
      → IsSoundRun (continue_session e c resume i r)
  unfolding continue_session
  continue-IsSound c resume r h =
      if-elim IsSoundRun (not (is_contract r.contract (contract_of i.request)))
        (λ _. open-IsSound r h)
        (λ _.
          if-elim IsSoundRun i.can_restart
            (λ _. restart-IsSound (Compactions.create r.watchdog) c resume r h)
            (λ _. begin_turn-IsSound r h))

  take-IsSound :
      (o : Option Configuration) (resume : Option String) (r : Runtime)
      → r.session ≡ o
      → IsSound r
      → IsSoundRun (take_session e o resume i r)
  unfolding take_session
  take-IsSound none resume r same h = opening-IsSound (make_session e i resume r) r h
  take-IsSound (some c) resume r same (whole, kept) =
      let (bridged, agreed) =
        backing (has r.session) (has r.bridge) (has r.contract) (ap has same) whole in
      continue-IsSound c resume r (bridged, agreed, kept)

  resume-IsSound :
      (o : Option (Option String × Bool)) (r : Runtime)
      → IsSound r
      → IsSoundRun (resume_session e o i r)
  unfolding resume_session
  resume-IsSound none r h = h
  resume-IsSound (some (resume, ok)) r h = take-IsSound r.session resume r refl h

  prompt-IsSound :
      (p : Failing.Result Prompt) (r : Runtime) → IsSound r → IsSoundRun (with_prompt e p i r)
  unfolding with_prompt
  prompt-IsSound (Failing.failed Failing.uncaught) r h = h
  prompt-IsSound (Failing.failed f) r h = h
  prompt-IsSound (Failing.ok nothing) r h = h
  prompt-IsSound (Failing.ok _) r h = resume-IsSound (resume_id i.request.session_state) r h

  bind_host-IsSound : (r : Runtime) → IsSound r → IsSoundRun (bind_host e i r)
  unfolding bind_host
  bind_host-IsSound r h =
      if-elim IsSoundRun (is_bound r.host i.host)
        (λ _. prompt-IsSound (messages_prompt e.decoders i.request.messages) r h) (λ _. h)

  ask_host-IsSound :
      (answer : Option Value) (r : Runtime) → IsSound r → IsSoundRun (ask_host e answer i r)
  unfolding ask_host
  ask_host-IsSound (some (bool true)) r h = h
  ask_host-IsSound (some (bool false)) r h = bind_host-IsSound r h
  ask_host-IsSound (some _) r h = h
  ask_host-IsSound none r h = h

  admit-IsSound : (r : Runtime) → IsSound r → IsSoundRun (admit e i r)
  unfolding admit
  admit-IsSound r h =
      if-elim IsSoundRun r.closed (λ _. h) (λ _. ask_host-IsSound i.cancelled_before r h)

  -- The preflight leaves the object sound.
  abbrev IsSoundCheck : Option (Option RuntimeFailure × Runtime) → Type 0
  IsSoundCheck none = Unit
  IsSoundCheck (some (f, checked)) = IsSound checked

  check_state-IsSound : (ok : Bool) (r : Runtime) → IsSound r → IsSound (check_state ok i r).1
  unfolding check_state
  check_state-IsSound false r h = h
  check_state-IsSound true r h =
      if-elim (λ (x : Option RuntimeFailure × Runtime). IsSound x.1)
        (not (is_model_compatible i.model_check)) (λ _. h)
        (λ _.
          if-elim (λ (x : Option RuntimeFailure × Runtime). IsSound x.1) (not (check_auth i.auth))
            (λ _. h) (λ _. h))

  checked-IsSound :
      (o : Option (Option String × Bool)) (r : Runtime)
      → IsSound r
      → IsSoundCheck (checked_resume o i r)
  unfolding checked_resume
  checked-IsSound none r h = tt
  checked-IsSound (some (id, ok)) r h = check_state-IsSound ok r h

  check_preflight-IsSound : (r : Runtime) → IsSound r → IsSoundCheck (check_preflight i r)
  unfolding check_preflight
  check_preflight-IsSound r h =
      if-elim IsSoundCheck (is_declared i.request)
        (λ _.
          checked-IsSound (resume_id i.request.session_state)
            (record r { preflight_request = none }) h)
        (λ _. h)

  after_preflight-IsSound :
      (o : Option (Option RuntimeFailure × Runtime)) (r : Runtime)
      → IsSoundCheck o
      → IsSound r
      → IsSoundRun (after_preflight e o i r)
  unfolding after_preflight consume_preflight
  after_preflight-IsSound none r h k = k
  after_preflight-IsSound (some (some f, checked)) r h k = h
  after_preflight-IsSound (some (none, checked)) r h k =
      if-elim IsSoundRun (consume_preflight i.request.identity checked).0
        (λ _. admit-IsSound (consume_preflight i.request.identity checked).1 h) (λ _. h)

  run_turn-IsSound : (r : Runtime) → IsSound r → IsSoundRun (run_turn e i r)
  unfolding run_turn consume_preflight
  run_turn-IsSound r (whole, kept) =
      let dropped = record r { observations = []; preflight_request = none } in
      let sound : IsSound dropped = (whole, (refl, tt)) in
      if-elim IsSoundRun (consume_preflight i.request.identity r).0
        (λ _. admit-IsSound dropped sound)
        (λ _.
          after_preflight-IsSound (check_preflight i dropped) dropped
            (check_preflight-IsSound dropped sound) sound)

close-IsSound : (r : Runtime) → IsSound r → IsSound (close r)
unfolding close
close-IsSound r h = if-elim IsSound r.closed (λ _. h) (λ _. h)

from-IsSound :
    (e : Platform) (steps : List Step) (r : Runtime) → IsSound r → IsSound (run_steps e steps r)
unfolding run_steps
from-IsSound e [] r h = h
from-IsSound e (turns i ∷ steps) r h =
    from-IsSound e steps (run_turn e i r).runtime (run_turn-IsSound e i r h)
from-IsSound e (shuts ∷ steps) r h = from-IsSound e steps (close r) (close-IsSound r h)

-- After any turns and closes of a new runtime, wherever it has a session it has a bridge and a
-- contract; and it keeps at most 64 names of tools, each of 1 to 128 characters.
pub run_steps-IsSound :
    (e : Platform) (cwd parent_env : Value) (watchdog : Float) (steps : List Step)
    → IsSound (run_steps e steps (create cwd parent_env watchdog))
run_steps-IsSound e cwd parent_env watchdog steps =
    from-IsSound e steps (create cwd parent_env watchdog) (refl, (refl, tt))
