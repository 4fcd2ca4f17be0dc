-- ===== src/Runtime/Tests.antt =====
-- The theorems on the runtime, for a second turn on its session.
use hermes_claude_agent_sdk.Common.{
  ◌≡◌, refl, ◌⊎◌, String, Bool, true, false, List, [], ◌∷◌, none, some, All, contains, any,
}
use hermes_claude_agent_sdk.Common.Options.{bind, check}
use hermes_claude_agent_sdk.Common.Int.{pos}
use hermes_claude_agent_sdk.Python.{
  Value, null, bool, str, list, dict, nil, cons, end, finite, lookup, attr, eq_str, dict_get,
}
use hermes_claude_agent_sdk.Python.Sample.{plain, fields, message}
use hermes_claude_agent_sdk.Python.Text as Str
use hermes_claude_agent_sdk.Compaction.{auto, Tracker}
use hermes_claude_agent_sdk.Session.Outcome.{complete, TurnResult}
use hermes_claude_agent_sdk.Session.Turn.{connected, words, answered}
use hermes_claude_agent_sdk.Session.World.{Move, begins, reads, resumes, fresh, run}
use hermes_claude_agent_sdk.Configuration.{Configuration}
use hermes_claude_agent_sdk.ToolBridge.{Bridge}
use hermes_claude_agent_sdk.ToolBridge as Bridges
use hermes_claude_agent_sdk.ToolBridge.Text.{is_safe_identifier}
use hermes_claude_agent_sdk.Python.Utf8
use hermes_claude_agent_sdk.TurnInput.Failing.{chain}
use hermes_claude_agent_sdk.TurnInput.Words.{bounded_text}
use hermes_claude_agent_sdk.TurnInput.{messages_prompt, last_user, reverse_items, content_prompt}
use hermes_claude_agent_sdk.Projector.Events.{Event, content, tool_request, Projection, exact}
use hermes_claude_agent_sdk.Runtime.Types.{Request, polled, taken, Input, Platform, Runtime}
use hermes_claude_agent_sdk.Runtime.Preflight.{resume_id, consume_preflight, is_request}
use hermes_claude_agent_sdk.Runtime.Forward.{
  poll, note_result, has_foreign_tool, forward, forward_all, observed_name,
}
use hermes_claude_agent_sdk.Runtime.Settle.{
  run_rounds, message_dicts, response_messages, settle_outcome, settle,
}
use hermes_claude_agent_sdk.Runtime.Protocol.{
  IsTurn, IsHostEvent, IsTold, has_content, has_completed,
}
use hermes_claude_agent_sdk.Runtime.Host.{
  run_turn-IsTurn, run_turn-IsHostEvent, run_turn-IsTold, IsPaid, outcome_of, run_turn-IsPaid,
}
use hermes_claude_agent_sdk.Runtime.Gate.{IsReady, reset, run_turn-IsReady}
use hermes_claude_agent_sdk.Runtime.Sound.{turns, shuts, run_steps, IsSound, run_steps-IsSound}
use hermes_claude_agent_sdk.Runtime.{
  create, allowed_tools, run_loop, begin_bridge, bridge_turn, begin_turn, continue_session,
  take_session, resume_session, with_prompt, bind_host, ask_host, admit, run_turn,
}

abbrev platform : Platform
platform = record {
  interpreter = plain;
  parse_float = λ s. none;
  texts = record { is_other = λ c. false; substitute = λ p s. s };
  decoders = record { decode = λ s. none; urlsplit = λ s. none };
  dict_of = λ v. none;
}

abbrev greeting : Value
greeting = dict (fields (("role", str "user") ∷ ("content", str "hello") ∷ []))

abbrev request : Request
request = record {
  identity = 2;
  provider = "claude-agent-sdk";
  model = "claude-fable-5-1";
  api_mode = "agent_runtime";
  session_state = null;
  correlation_id = some "turn-2";
  prompt_snapshot = "You are Hermes.";
  tool_schemas = list nil;
  tool_schema_hash = "00";
  messages = list (cons greeting nil);
}

abbrev configuration : Configuration
configuration = record {
  cwd = ".";
  model = some "claude-fable-5-1";
  permission_mode = str "bypassPermissions";
  prompt_snapshot = "You are Hermes.";
  resume_external_session_id = none;
  env_overrides = [];
  mcp_servers = [];
  allowed_tools = "mcp__hermes-tools__read" ∷ [];
  turn_timeout = finite (pos 600) 0;
  connect_timeout = finite (pos 60) 0;
  close_timeout = finite (pos 15) 0;
}

abbrev bridge : Bridge
bridge = record {
  definitions = record { name = "read"; description = "reads"; input_schema = null } ∷ [];
  correlation_id = some "turn-1";
  sdk_calls = 3;
  host_executions = 3;
  executed = [];
}

abbrev runtime : Runtime
runtime = record {
  cwd = str ".";
  parent_env = null;
  watchdog = finite (pos 600) 0;
  host = some 1;
  bridge = some bridge;
  session = some configuration;
  contract = some (record {
    provider = "claude-agent-sdk";
    model = "claude-fable-5-1";
    api_mode = "agent_runtime";
    tool_schema_hash = "00";
    prompt_snapshot = "You are Hermes.";
  });
  preflight_request = some 2;
  observations = "mcp__hermes-tools__read" ∷ [];
  closed = false;
  sessions = 1;
  cancels = 0;
}

abbrev answer : TurnResult
answer = record {
  outcome = complete;
  final_text = some "done";
  external_session_id = some "s1";
  billing_decision = none;
  error_code = none;
  retryable = false;
}

abbrev projection : List Event → Bool → Projection
projection events last = record {
  events = events;
  tool_results = [];
  is_tool_iteration = false;
  final_text = none;
  is_result = last;
  selected_model = some "claude-fable-5-1";
  effective_model = some "claude-fable-5-1";
  canonical_model = none;
  model_resolution = exact;
}

abbrev input : Input
input = record {
  request = request;
  host = 1;
  auth = none;
  model_check = none;
  cancelled_before = some (bool false);
  server = none;
  can_restart = false;
  rounds =
      polled (some (bool false))
      ∷ taken
          (projection (content "so" ∷ tool_request "c1" "mcp__hermes-tools__read" end ∷ []) false) 3
      ∷ taken (projection (content "done" ∷ []) true) 4
      ∷ [];
  executions = 4;
  outcome = some answer;
}

-- The turn completes: two pieces of content, the state, and the completion.
completes : has_completed (run_turn platform input runtime).emitted ≡ true
unfolding has_completed run_turn consume_preflight admit ask_host bind_host with_prompt
    resume_session take_session continue_session begin_turn begin_bridge bridge_turn run_loop
    run_rounds settle settle_outcome response_messages message_dicts poll note_result
    has_foreign_tool forward forward_all observed_name allowed_tools Bridges.begin_turn
    is_safe_identifier resume_id messages_prompt last_user reverse_items content_prompt bounded_text
    chain bind check lookup attr eq_str dict_get contains any Str.strip Str.append Str.any_char
    Utf8.bytes Utf8.width Utf8.size
completes = refl

-- The request's only message is a dict.
greeting_response : response_messages platform.dict_of input.request.messages ≡ some (greeting ∷ [])
unfolding response_messages message_dicts bind
greeting_response = refl

run_turn-IsTurn_example :
    (((run_turn platform input runtime).raised ≡ true)
      × ((run_turn platform input runtime).emitted ≡ []))
    ⊎ IsTurn (run_turn platform input runtime).emitted
run_turn-IsTurn_example = run_turn-IsTurn platform input runtime (greeting ∷ []) greeting_response

run_turn-IsHostEvent_example : All IsHostEvent (run_turn platform input runtime).emitted
run_turn-IsHostEvent_example = run_turn-IsHostEvent platform input runtime

run_turn-IsTold_example :
    All
      (IsTold (has_content (run_turn platform input runtime).emitted))
      (run_turn platform input runtime).emitted
run_turn-IsTold_example = run_turn-IsTold platform input runtime

abbrev tracker : Tracker
tracker = record {
  watchdog_bound = finite (pos 300) 0;
  on_event = none;
  on_watchdog = none;
  active_depth = 0;
  active_trigger = auto;
  watchdog_task = false;
  notices = [];
}

abbrev tools : List String
tools = "mcp__hermes-tools__read" ∷ []

-- The init message, an answer on the subscription, and its result
abbrev moves : List Move
moves =
    begins (words "hello") (some 1) connected answered
    ∷ reads (
        message "SystemMessage" (
          ("subtype", str "init")
          ∷ ("data", dict (fields (("apiKeySource", str "none") ∷ [])))
          ∷ []))
    ∷ reads (
        message "RateLimitEvent"
          (("rate_limit_info", dict (fields (("rate_limit_type", str "five_hour") ∷ []))) ∷ []))
    ∷ reads (message "ResultMessage" (("result", str "done") ∷ ("session_id", str "s1") ∷ []))
    ∷ resumes
    ∷ resumes
    ∷ resumes
    ∷ resumes
    ∷ []

abbrev earned : Input
earned = record input { outcome = outcome_of (run plain (fresh tools tracker) moves).turn }

run_turn-IsPaid_example :
    (has_completed (run_turn platform earned runtime).emitted ≡ false)
    ⊎ ((t : TurnResult) × (outcome_of (run plain (fresh tools tracker) moves).turn ≡ some t)
        × IsPaid t)
run_turn-IsPaid_example = run_turn-IsPaid platform earned runtime plain tools tracker moves refl

run_turn-IsReady_example :
    (is_request input.request.identity runtime.preflight_request ≡ true)
    ⊎ (IsReady input ⊎ ((run_turn platform input runtime).runtime ≡ reset runtime))
run_turn-IsReady_example = run_turn-IsReady platform input runtime

-- The first turn of a new runtime, whose server is made
abbrev first : Input
first = record input {
  request = record request { correlation_id = some "turn-1" };
  auth =
      some (
        message "AuthResult"
          (("allowed", bool true) ∷ ("category", str "subscription_oauth") ∷ []));
  model_check = some (dict (fields (("compatible", bool true) ∷ [])));
  server = some null;
}

run_steps-IsSound_example : IsSound (
    run_steps platform
      (turns first ∷ shuts ∷ turns first ∷ [])
      (create (str ".") null (finite (pos 600) 0)))
run_steps-IsSound_example =
    run_steps-IsSound platform (str ".") null (finite (pos 600) 0)
      (turns first ∷ shuts ∷ turns first ∷ [])
