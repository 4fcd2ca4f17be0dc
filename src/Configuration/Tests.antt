-- ===== src/Configuration/Tests.antt =====
-- The configuration's theorem at concrete arguments.
use hermes_claude_agent_sdk.Common.{
  String, ◌≡◌, refl, [], ◌∷◌, Option, none, some, all, any, contains,
}
use hermes_claude_agent_sdk.Common.Int.{pos}
use hermes_claude_agent_sdk.Python.{
  null, int, str, tuple, dict, cons, nil, end, field, Float, finite, to_list, entries, is_truthy,
  eq_str,
}
use hermes_claude_agent_sdk.Python.Sample.{plain}
use hermes_claude_agent_sdk.Python.Text
use hermes_claude_agent_sdk.Configuration.{
  Arguments, Configuration, configuration, create_timed, create_tooled, create,
}
use hermes_claude_agent_sdk.Configuration.Checks.{
  prompt_text, bounded_names, tool_names, is_hermes_tool, is_distinct, is_hermes_server, is_timeout,
}
use hermes_claude_agent_sdk.Common.Options.{check, bind}
use hermes_claude_agent_sdk.Python.Utf8
use hermes_claude_agent_sdk.Configuration.Strict.{IsStrict, create-IsStrict}

abbrev no_number : String → Option Float
no_number s = none

abbrev arguments : Arguments
arguments = record {
  cwd = str "/srv";
  model = null;
  permission_mode = str "dontAsk";
  prompt_snapshot = str "hi";
  resume_external_session_id = str "s1";
  parent_env = null;
  configured_env = null;
  setting_sources = tuple nil;
  mcp_servers = dict (field (str "hermes-tools") null end);
  allowed_tools = tuple (cons (str "mcp__hermes-tools__read") nil);
  turn_timeout = int (pos 600);
  connect_timeout = int (pos 60);
  close_timeout = int (pos 15);
}

abbrev created : Configuration
created =
    configuration plain arguments "/srv" none "hi" (some "s1") ("mcp__hermes-tools__read" ∷ [])
      ((str "hermes-tools", null) ∷ []) (finite (pos 600) 0) (finite (pos 60) 0) (finite (pos 15) 0)

create_run : create plain no_number arguments ≡ some created
unfolding check bind Utf8.size Utf8.bytes Utf8.width prompt_text bounded_names tool_names
    is_hermes_tool is_distinct is_hermes_server is_timeout create_timed create_tooled create to_list
    entries is_truthy eq_str contains any all Text.any_char
create_run = refl

create-IsStrict_example : IsStrict created
create-IsStrict_example = create-IsStrict plain no_number arguments created create_run
