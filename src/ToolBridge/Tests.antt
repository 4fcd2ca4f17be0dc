-- ===== src/ToolBridge/Tests.antt =====
-- The tool bridge's theorems on a bridge with one tool.
use hermes_claude_agent_sdk.Common.{
  ◌≤◌, ◌≡◌, refl, ◌≢◌, ◌↔◌, String, Bool, true, false, List, [], ◌∷◌, none, some, any, contains,
}
use hermes_claude_agent_sdk.Common.Names.{less}
use hermes_claude_agent_sdk.Common.Options.{check, bind}
use hermes_claude_agent_sdk.Python.{
  Value, null, bool, str, list, tuple, dict, nil, cons, Fields, field, end, eq_str, is_null, lookup,
  to_list, entries,
}
use hermes_claude_agent_sdk.Python.Sample.{fields}
use hermes_claude_agent_sdk.Python.Text as Str
use hermes_claude_agent_sdk.Python.Utf8
use hermes_claude_agent_sdk.ToolBridge.Text.{
  Texts, bounded_text, bounded_text-bytes, is_safe_identifier,
}
use hermes_claude_agent_sdk.ToolBridge.Json.{copy_plain_json}
use hermes_claude_agent_sdk.ToolBridge.Json.Reference.{listed}
use hermes_claude_agent_sdk.ToolBridge.Json.Exactly.{IsCopyable, copy_plain_json_iff, copy-copy}
use hermes_claude_agent_sdk.ToolBridge.Schema.{
  valid_schema, valid_fields, valid_typed, valid_shape, has_sound_bounds, has_own_bounds, has_enum,
  get_or, has, has_known_keys, are_properties, valid_properties,
}
use hermes_claude_agent_sdk.ToolBridge.Match.{matches_schema}
use hermes_claude_agent_sdk.ToolBridge.Match.Enum.{IsContainer, matches_schema-enum}
use hermes_claude_agent_sdk.ToolBridge.Match.Levels.{matches_schema-returns}
use hermes_claude_agent_sdk.ToolBridge.Normalize.{
  max_levels, normalize_tool_schemas, normalize_tool_schema, normalize_parts, spec_parts,
  function_parts, is_tool_name, collect, sort, insert,
}
use hermes_claude_agent_sdk.ToolBridge.{
  Printer, is_cancelled, returns, Host, Bridge, create, excluded_names, without, handle_tool_call,
}
use hermes_claude_agent_sdk.ToolBridge.Calls.{IsOnce, handle_tool_call-IsOnce}
use hermes_claude_agent_sdk.ToolBridge.Calls.Answers.{
  HasSchemas, IsProper, handle_tool_call-IsProper,
}
use hermes_claude_agent_sdk.ToolBridge.Calls.Valid.{Avoids, create-HasSchemas}
use hermes_claude_agent_sdk.ToolBridge.Handler.{handle_sdk_call, IsReply, handle_sdk_call-IsReply}

abbrev texts : Texts
texts = record { is_other = λ c. false; substitute = λ p s. s }

abbrev json : Printer
json = record { dumps = λ v. some "{}"; loads = λ s. none }

abbrev path_schema : Value
path_schema = dict (
    fields (
      ("type", str "object")
      ∷ ("properties", dict (fields (("path", dict (fields (("type", str "string") ∷ []))) ∷ [])))
      ∷ ("required", list (cons (str "path") nil))
      ∷ []))

abbrev tool : String → Value
tool name = dict (
    fields
      (("name", str name) ∷ ("description", str "a tool") ∷ ("input_schema", path_schema) ∷ []))

abbrev tools : Value
tools = list (cons (tool "read") (cons (tool "memory") nil))

abbrev bridge : Bridge
bridge = record {
  definitions = record { name = "read"; description = "a tool"; input_schema = path_schema } ∷ [];
  correlation_id = some "turn-1";
  sdk_calls = 0;
  host_executions = 0;
  executed = [];
}

abbrev arguments : Value
arguments = dict (fields (("path", str "notes.md") ∷ []))

abbrev host : Host
host = record {
  before = some (bool false);
  answer = returns (str "done");
  after = some (bool false);
}

abbrev pair : Value
pair = tuple (cons (str "a") (cons null nil))

copy_plain_json_iff_example :
    (copy_plain_json 100 pair ≡ some (listed pair))
    ↔ (IsCopyable 100 pair × (listed pair ≡ listed pair))
copy_plain_json_iff_example = copy_plain_json_iff 100 pair (listed pair)

copied : copy_plain_json 100 pair ≡ some (list (cons (str "a") (cons null nil)))
unfolding copy_plain_json bind check Utf8.size Utf8.bytes Utf8.width
copied = refl

copy-copy_example :
    copy_plain_json 100 (list (cons (str "a") (cons null nil)))
    ≡ some (list (cons (str "a") (cons null nil)))
copy-copy_example = copy-copy 100 pair (list (cons (str "a") (cons null nil))) copied

short : bounded_text texts "  a   b " 100 true ≡ some "a b"
unfolding bounded_text bind check Utf8.size Utf8.bytes Utf8.width Str.any_char Str.is_space
short = refl

bounded_text-bytes_example : Utf8.bytes "a b" ≤ 100
bounded_text-bytes_example = bounded_text-bytes texts "  a   b " 100 true "a b" short

valid : valid_schema texts max_levels path_schema ≡ true
unfolding valid_schema valid_fields valid_typed valid_shape has_sound_bounds has_own_bounds has_enum
    get_or has has_known_keys are_properties valid_properties copy_plain_json bind check Utf8.size
    Utf8.bytes Utf8.width Str.any_char lookup eq_str any contains is_null
valid = refl

matches_schema-returns_example :
    (b : Bool) × (matches_schema max_levels arguments path_schema ≡ some b)
matches_schema-returns_example = matches_schema-returns texts max_levels arguments path_schema valid

handle_tool_call-IsOnce_example :
    IsOnce host arguments bridge
      (handle_tool_call texts json (str "c1") (str "read") arguments host bridge).0
handle_tool_call-IsOnce_example =
    handle_tool_call-IsOnce texts json (str "c1") (str "read") arguments host bridge

handle_tool_call-IsProper_example :
    IsProper host.answer "c1" bridge.correlation_id
      (handle_tool_call texts json (str "c1") (str "read") arguments host bridge).1
handle_tool_call-IsProper_example =
    handle_tool_call-IsProper texts json "c1" (str "read") arguments host bridge (valid, tt)

returned : host.answer ≢ is_cancelled
returned = cc

handle_sdk_call-IsReply_example :
    IsReply (handle_sdk_call texts json "read" arguments host bridge).1
handle_sdk_call-IsReply_example =
    handle_sdk_call-IsReply texts json "read" arguments host bridge (valid, tt) returned

created : create texts tools (str "memory" ∷ []) (str "turn-1") ≡ some bridge
unfolding create excluded_names without normalize_tool_schemas normalize_tool_schema normalize_parts
    spec_parts function_parts is_tool_name collect sort insert less bounded_text valid_schema
    valid_fields valid_typed valid_shape has_sound_bounds has_own_bounds has_enum get_or has
    has_known_keys are_properties valid_properties copy_plain_json bind check Utf8.size Utf8.bytes
    Utf8.width Str.any_char Str.is_space lookup to_list entries eq_str any contains is_null
    is_safe_identifier
created = refl

create-HasSchemas_example :
    HasSchemas texts bridge.definitions
    × ((names : List String) × (excluded_names (str "memory" ∷ []) ≡ some names)
        × Avoids texts names bridge.definitions)
    × (bridge.executed ≡ [])
create-HasSchemas_example =
    create-HasSchemas texts tools (str "turn-1") (str "memory" ∷ []) bridge created

abbrev container : Fields
container = field (str "type") (str "object") end

container-IsContainer : IsContainer container
unfolding get_or lookup eq_str
container-IsContainer = refl

matches_schema-enum_example :
    matches_schema 3 (dict end) (dict (field (str "enum") (list nil) container))
    ≡ matches_schema 3 (dict end) (dict container)
matches_schema-enum_example =
    matches_schema-enum 2 (dict end) (list nil) container container-IsContainer
