-- ===== src/Configuration.antt =====
-- configuration.py: `SDKSessionConfiguration`. An exception of `create` is `none`; which of its
-- kinds it is does not count.
pub mod Checks
pub mod Strict
mod Tests
use hermes_claude_agent_sdk.Common.{
  ℕ, ◌+◌, ◌*◌, ◌^◌, Char, code, String, Bool, true, false, not, ◌&&◌, ◌||◌, List, [], ◌∷◌, ◌++◌,
  Option, none, some, map, ◌==◌, starts_with, ltb, leb, nat_eq, any, all, contains, if◌then◌else◌,
}
use hermes_claude_agent_sdk.Common.Int.{ℤ, pos}
use hermes_claude_agent_sdk.Common.Names.{sorted_items}
use hermes_claude_agent_sdk.Python.{
  Value, null, bool, int, float, str, list, tuple, dict, nil, end, Float, finite, infinite, nan,
  Interpreter, eq_str, is_truthy, to_list, entries,
}
use hermes_claude_agent_sdk.Python.Text
use hermes_claude_agent_sdk.Billing.Env.{plan_sdk_env_overrides}
use hermes_claude_agent_sdk.Configuration.Checks.{
  optional_text, prompt_text, is_resumable, is_permission_mode, is_no_source, tool_names,
  is_hermes_tool, is_distinct, servers, is_hermes_server, is_timeout,
}
use hermes_claude_agent_sdk.Common.Options.{check, bind}

-- The arguments of `create`.
pub record Arguments : Type 0 where
  pub cwd : Value
  pub model : Value
  pub permission_mode : Value
  pub prompt_snapshot : Value
  pub resume_external_session_id : Value
  pub parent_env : Value
  pub configured_env : Value
  pub setting_sources : Value
  pub mcp_servers : Value
  pub allowed_tools : Value
  pub turn_timeout : Value
  pub connect_timeout : Value
  pub close_timeout : Value

-- The object; its `setting_sources` are always empty.
pub record Configuration : Type 0 where
  pub cwd : String
  pub model : Option String
  pub permission_mode : Value
  pub prompt_snapshot : String
  pub resume_external_session_id : Option String
  pub env_overrides : List (String × String)
  pub mcp_servers : List (Value × Value)
  pub allowed_tools : List String
  pub turn_timeout : Float
  pub connect_timeout : Float
  pub close_timeout : Float

abbrev or_empty : Value → Value
or_empty v = if is_truthy v then v else dict end

-- What passed the checks, and the results of the conversions.
abbrev configuration :
    Interpreter
    → Arguments
    → String
    → Option String
    → String
    → Option String
    → List String
    → List (Value × Value)
    → Float
    → Float
    → Float
    → Configuration
unfolding plan_sdk_env_overrides
configuration py a cwd model prompt resume tools mcp turn connect close = record {
  cwd = cwd;
  model = model;
  permission_mode = a.permission_mode;
  prompt_snapshot = prompt;
  resume_external_session_id = resume;
  env_overrides = sorted_items (plan_sdk_env_overrides py (or_empty a.parent_env) a.configured_env);
  mcp_servers = mcp;
  allowed_tools = tools;
  turn_timeout = turn;
  connect_timeout = connect;
  close_timeout = close;
}

-- `parse` is what `float` makes of a text.
module _ (py : Interpreter) (parse : String → Option Float) where
  -- `float(value)`; an integer too large for a float is refused as a timeout in any case.
  abbrev to_float : Value → Option Float
  to_float (float x) = some x
  to_float (int n) = some (finite n 0)
  to_float (bool b) = some (finite (pos (if b then 1 else 0)) 0)
  to_float (str s) = parse s
  to_float _ = none

  -- The timeouts and what is built of all.
  create_timed :
      Arguments
      → String
      → Option String
      → String
      → Option String
      → List String
      → List (Value × Value)
      → Option Configuration
  create_timed a cwd model prompt resume tools mcp = bind (to_float a.turn_timeout) (λ turn.
      bind (to_float a.connect_timeout) (λ connect. bind (to_float a.close_timeout) (λ close.
        check (is_timeout turn && is_timeout connect && is_timeout close)
          (some (configuration py a cwd model prompt resume tools mcp turn connect close)))))

  -- The tools and the servers.
  create_tooled : Arguments → String → Option String → String → Option String → Option Configuration
  unfolding create_timed
  create_tooled a cwd model prompt resume = bind (tool_names a.allowed_tools) (λ tools.
      check (all is_hermes_tool tools) (
        check (is_distinct tools) (
          bind (servers a.mcp_servers) (λ mcp.
            check (all is_hermes_server mcp) (create_timed a cwd model prompt resume tools mcp)))))

  -- `create`
  pub create : Arguments → Option Configuration
  unfolding create_tooled
  create a = bind (bind (optional_text a.cwd) (λ cwd. cwd)) (λ cwd.
      bind (optional_text a.model) (λ model. bind (prompt_text a.prompt_snapshot) (λ prompt.
        bind (optional_text a.resume_external_session_id) (λ resume. check (is_resumable resume) (
          check (is_permission_mode a.permission_mode)
            (check (is_no_source a.setting_sources) (create_tooled a cwd model prompt resume)))))))

-- The fields of `ClaudeAgentOptions`.
pub record Options : Type 0 where
  pub cwd : String
  pub model : Option String
  pub permission_mode : Value
  pub system_prompt : String
  pub env : List (String × String)
  pub setting_sources : List Value
  pub tools : List String
  pub mcp_servers : List (Value × Value)
  pub strict_mcp_config : Bool
  pub allowed_tools : List String
  pub resume : Option String

abbrev is_nonempty : List (Value × Value) → Bool
is_nonempty [] = false
is_nonempty (_ ∷ _) = true

-- `option_fields`
pub option_fields : Configuration → Options
option_fields c = record {
  cwd = c.cwd;
  model = c.model;
  permission_mode = c.permission_mode;
  system_prompt = c.prompt_snapshot;
  env = c.env_overrides;
  setting_sources = [];
  tools = [];
  mcp_servers = c.mcp_servers;
  strict_mcp_config = is_nonempty c.mcp_servers;
  allowed_tools = c.allowed_tools;
  resume = c.resume_external_session_id;
}
