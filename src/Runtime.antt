-- ===== src/Runtime.antt =====
-- runtime.py: `ClaudeAgentSDKRuntime`, which runs the turns of the host on one session.
pub mod Types
pub mod Preflight
pub mod Forward
pub mod Settle
pub mod Protocol
pub mod Rounds
pub mod Turns
pub mod Runs
pub mod Host
pub mod Gate
pub mod Observations
pub mod Sound
mod Tests
use hermes_claude_agent_sdk.Common.{
  ℕ, suc, ◌+◌, String, Bool, true, false, not, ◌&&◌, List, [], ◌∷◌, Option, none, some, map, ◌==◌,
  nat_eq, if◌then◌else◌,
}
use hermes_claude_agent_sdk.Common.Options.{bind}
use hermes_claude_agent_sdk.Common.Int.{pos}
use hermes_claude_agent_sdk.Python.{
  Float, Value, null, bool, int, float, finite, str, tuple, dict, Items, nil, cons, end, field,
}
use hermes_claude_agent_sdk.Python.Text as Str
use hermes_claude_agent_sdk.ToolBridge.{Bridge}
use hermes_claude_agent_sdk.ToolBridge as Bridges
use hermes_claude_agent_sdk.Compaction.{Tracker}
use hermes_claude_agent_sdk.Compaction as Compactions
use hermes_claude_agent_sdk.Configuration.{Configuration}
use hermes_claude_agent_sdk.Configuration as Configurations
use hermes_claude_agent_sdk.TurnInput.Failing as Failing
use hermes_claude_agent_sdk.TurnInput.{Prompt, nothing, messages_prompt}
use hermes_claude_agent_sdk.Runtime.Types.{
  Request, Contract, Phase, before_visible_output, preflight, Code, preflight_unavailable,
  runtime_closed, cancellation_unavailable, host_binding_changed, prompt_invalid,
  session_contract_changed, runtime_failed, configuration_failed, image_input, RuntimeFailure,
  Emitted, cancelled_turn, failed_turn, Input, Platform, Runtime, Run,
}
use hermes_claude_agent_sdk.Runtime.Preflight.{resume_id, check_preflight, consume_preflight}
use hermes_claude_agent_sdk.Runtime.Forward.{Loop, no_provenance, failure, fail_unexpectedly}
use hermes_claude_agent_sdk.Runtime.Settle.{run_rounds, settle}

-- A run that yields one event, or none, and leaves the loop alone
abbrev pub ends_with : Emitted → Runtime → Run
ends_with e r = record { emitted = e ∷ []; runtime = r; raised = false }

abbrev pub fails_with : Code → Runtime → Run
fails_with code r = ends_with (failed_turn (failure code before_visible_output false)) r

abbrev pub raises : Runtime → Run
raises r = record { emitted = []; runtime = r; raised = true }

-- `f"mcp__{_MCP_SERVER_NAME}__{name}"` of every tool of the bridge
unfoldable pub allowed_tools : Bridge → List String
unfolding Str.append
allowed_tools b = map (λ d. Str.append "mcp__hermes-tools__" d.name) b.definitions

abbrev pub text_value : Option String → Value
text_value none = null
text_value (some s) = str s

abbrev texts_value : List String → Items
texts_value [] = nil
texts_value (s ∷ names) = cons (str s) (texts_value names)

abbrev pub contract_of : Request → Contract
contract_of r = record {
  provider = r.provider;
  model = r.model;
  api_mode = r.api_mode;
  tool_schema_hash = r.tool_schema_hash;
  prompt_snapshot = r.prompt_snapshot;
}

abbrev pub is_contract : Option Contract → Contract → Bool
is_contract none d = false
is_contract (some c) d =
    (c.provider == d.provider)
    && (c.model == d.model)
    && (c.api_mode == d.api_mode)
    && (c.tool_schema_hash == d.tool_schema_hash)
    && (c.prompt_snapshot == d.prompt_snapshot)

-- The other arguments of `create` have their defaults.
unfoldable pub arguments_of :
    Runtime → Request → Option String → Value → Bridge → Configurations.Arguments
unfolding allowed_tools
arguments_of r request resume server b = record {
  cwd = r.cwd;
  model = str request.model;
  permission_mode = str "bypassPermissions";
  prompt_snapshot = str request.prompt_snapshot;
  resume_external_session_id = text_value resume;
  parent_env = r.parent_env;
  configured_env = null;
  setting_sources = tuple nil;
  mcp_servers = dict (field (str "hermes-tools") server end);
  allowed_tools = tuple (texts_value (allowed_tools b));
  turn_timeout = float (finite (pos 600) 0);
  connect_timeout = float (finite (pos 60) 0);
  close_timeout = float (finite (pos 15) 0);
}

abbrev pub calls_of : Option Bridge → ℕ
calls_of none = 0
calls_of (some b) = b.host_executions

-- The loop's state at the start of a turn, where the bridge counts so many calls
abbrev pub loop_from : Runtime → ℕ → List String → Loop
loop_from r start allowed = record {
  start = start;
  allowed = allowed;
  emitted = [];
  observations = r.observations;
  visible = false;
  cancel_sent = false;
  poll_failed = false;
  cancels = r.cancels;
  provenance = no_provenance;
}

-- The run of a loop that has ended
abbrev pub run_of : Runtime → Option Bridge → Loop → Run
run_of r bridge l = record {
  emitted = l.emitted;
  runtime = record r { bridge = bridge; observations = l.observations; cancels = l.cancels };
  raised = false;
}

-- After the rounds: a turn that was stopped is over.
abbrev pub end_rounds : Loop × Bool → (Loop → Loop) → Loop
end_rounds (l, true) settled = l
end_rounds (l, false) settled = settled l

-- The handler of an exception at the beginning of the turn, once there is a session
unfoldable pub fail_beginning : Runtime → Run
unfolding fail_unexpectedly
fail_beginning r = run_of r r.bridge (fail_unexpectedly (calls_of r.bridge) (loop_from r 0 []))

unfoldable pub bridge_turn : Option Bridge → Option String → Option Bridge
unfolding Bridges.begin_turn bind
bridge_turn bridge correlation = bind bridge (λ b. Bridges.begin_turn (text_value correlation) b)

abbrev pub is_bound : Option ℕ → ℕ → Bool
is_bound none host = true
is_bound (some bound) host = nat_eq bound host

abbrev pub bound : Input → Runtime → Runtime
bound i r = record r { host = some i.host }

-- The object with its first session
abbrev pub opened : Input → Bridge → Configuration → Runtime → Runtime
opened i b c r = record r {
  host = some i.host;
  bridge = some b;
  session = some c;
  contract = some (contract_of i.request);
  sessions = r.sessions + 1;
}

-- The object as it is before `_new_session` returns for the first time
abbrev pub prepared : Input → Bridge → Runtime → Runtime
prepared i b r = record r {
  host = some i.host;
  bridge = some b;
  contract = some (contract_of i.request);
}

-- The object with a session in place of a cancelled one
abbrev pub restarted : Configuration → Option String → Runtime → Runtime
restarted c resume r = record r {
  session = some (record c { resume_external_session_id = resume });
  sessions = r.sessions + 1;
}

module _ (e : Platform) where
  -- The session's turn, over the loop
  unfoldable pub run_loop : Input → Runtime → Bridge → Run
  unfolding run_rounds settle allowed_tools
  run_loop i r b =
      let ended =
        run_rounds i.outcome i.executions i.request.correlation_id i.rounds
          (loop_from r b.host_executions (allowed_tools b)) in
      run_of r (some (record b { host_executions = i.executions }))
        (end_rounds ended (λ l. settle e.dict_of i.outcome i.request i.executions l))

  -- `bridge.begin_turn`, where an exception goes to the handler
  unfoldable pub begin_bridge : Option Bridge → Input → Runtime → Run
  unfolding run_loop fail_beginning
  begin_bridge none i r = fail_beginning r
  begin_bridge (some b) i r = run_loop i r b

  unfoldable pub begin_turn : Input → Runtime → Run
  unfolding run_loop fail_beginning Bridges.begin_turn bind
  begin_turn i r = begin_bridge (bridge_turn r.bridge i.request.correlation_id) i r

  -- The bridge and the configuration of a session are made; `none` is an exception.
  unfoldable pub make_session : Input → Option String → Runtime → Option (Bridge × Configuration)
  unfolding Bridges.create allowed_tools bind
  make_session i resume r =
      bind (Bridges.create e.texts i.request.tool_schemas [] (text_value i.request.correlation_id))
        (λ b. bind i.server (λ server.
          bind
            (Configurations.create e.interpreter e.parse_float
              (arguments_of r i.request resume server b))
            (λ c. some (b, c))))

  -- The first session is made, or its compaction refuses the bound of the watchdog.
  unfoldable pub start_session : Option Tracker → Input → Bridge → Configuration → Runtime → Run
  unfolding begin_turn
  start_session none i b c r = fails_with configuration_failed (prepared i b r)
  start_session (some t) i b c r = begin_turn i (opened i b c r)

  -- The first turn, with what was made for it
  unfoldable pub open_session : Option (Bridge × Configuration) → Input → Runtime → Run
  unfolding start_session Compactions.create
  open_session none i r = fails_with configuration_failed (bound i r)
  open_session (some (b, c)) i r = start_session (Compactions.create r.watchdog) i b c r

  -- A session that takes the place of a cancelled one; the old one stays if it cannot be made.
  unfoldable pub restart_session :
      Option Tracker → Configuration → Option String → Input → Runtime → Run
  unfolding begin_turn fail_unexpectedly
  restart_session none c resume i r = run_of r r.bridge (fail_unexpectedly 0 (loop_from r 0 []))
  restart_session (some t) c resume i r = begin_turn i (restarted c resume r)

  -- A further turn on the session that is there, or on one that takes its place after a cancel
  unfoldable pub continue_session : Configuration → Option String → Input → Runtime → Run
  unfolding begin_turn restart_session Compactions.create
  continue_session c resume i r =
      if not (is_contract r.contract (contract_of i.request))
      then fails_with session_contract_changed r
      else if i.can_restart
      then restart_session (Compactions.create r.watchdog) c resume i r
      else begin_turn i r

  unfoldable pub take_session : Option Configuration → Option String → Input → Runtime → Run
  unfolding continue_session make_session begin_turn
  take_session none resume i r = open_session (make_session i resume r) i r
  take_session (some c) resume i r = continue_session c resume i r

  unfoldable pub resume_session : Option (Option String × Bool) → Input → Runtime → Run
  unfolding continue_session make_session begin_turn
  resume_session none i r = raises r
  resume_session (some (resume, _)) i r = take_session r.session resume i r

  -- What the prompt of the request allows
  unfoldable pub with_prompt : Failing.Result Prompt → Input → Runtime → Run
  unfolding resume_id continue_session make_session begin_turn
  with_prompt (Failing.failed Failing.uncaught) i r = raises r
  with_prompt (Failing.failed f) i r = fails_with (image_input f) r
  with_prompt (Failing.ok nothing) i r = fails_with prompt_invalid r
  with_prompt (Failing.ok _) i r = resume_session (resume_id i.request.session_state) i r

  unfoldable pub bind_host : Input → Runtime → Run
  unfolding resume_id continue_session make_session begin_turn messages_prompt
  bind_host i r =
      if is_bound r.host i.host
      then with_prompt (messages_prompt e.decoders i.request.messages) i r
      else fails_with host_binding_changed r

  -- The host's answer before the start
  unfoldable pub ask_host : Option Value → Input → Runtime → Run
  unfolding bind_host
  ask_host (some (bool true)) i r = ends_with cancelled_turn r
  ask_host (some (bool false)) i r = bind_host i r
  ask_host _ i r = fails_with cancellation_unavailable r

  -- After the preflight is consumed
  unfoldable pub admit : Input → Runtime → Run
  unfolding bind_host
  admit i r = if r.closed then fails_with runtime_closed r else ask_host i.cancelled_before i r

  -- `run_turn` without the preflight of this very request
  unfoldable pub after_preflight : Option (Option RuntimeFailure × Runtime) → Input → Runtime → Run
  unfolding admit consume_preflight
  after_preflight none i r = raises r
  after_preflight (some (some f, checked)) i r = ends_with (failed_turn f) checked
  after_preflight (some (none, checked)) i r =
      let (ready, consumed) = consume_preflight i.request.identity checked in
      if ready
      then admit i consumed
      else ends_with
          (failed_turn (record {
            code = preflight_unavailable;
            phase = preflight;
            replay_safe = false;
            retryable = false;
          }))
          consumed

  -- `run_turn`
  unfoldable pub run_turn : Input → Runtime → Run
  unfolding admit consume_preflight check_preflight
  run_turn i r =
      let (ready, consumed) =
        consume_preflight i.request.identity (record r { observations = [] }) in
      if ready then admit i consumed else after_preflight (check_preflight i consumed) i consumed

-- `close`, which closes the session, too
unfoldable pub close : Runtime → Runtime
close r = if r.closed then r else record r { closed = true; preflight_request = none }

-- `__init__`, of the directory, the parent's environment and the bound of the watchdog
abbrev pub create : Value → Value → Float → Runtime
create cwd parent_env watchdog = record {
  cwd = cwd;
  parent_env = parent_env;
  watchdog = watchdog;
  host = none;
  bridge = none;
  session = none;
  contract = none;
  preflight_request = none;
  observations = [];
  closed = false;
  sessions = 0;
  cancels = 0;
}
