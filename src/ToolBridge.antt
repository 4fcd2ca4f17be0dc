-- ===== src/ToolBridge.antt =====
-- tool_bridge.py: `HostToolBridge`. What the host answers to one call is an argument; each call of
-- the host's `execute_tool` is logged.
pub mod Text
pub mod Json
pub mod Schema
pub mod Match
pub mod Normalize
pub mod Calls
pub mod Handler
mod Tests
use hermes_claude_agent_sdk.Common.{
  ℕ, ◌+◌, ◌/◌, ◌%◌, ◌*◌, zero, suc, String, Bool, true, false, not, ◌&&◌, ◌||◌, List, [], ◌∷◌, ◌++◌,
  Option, none, some, ◌==◌, ltb, contains, all, if◌then◌else◌,
}
use hermes_claude_agent_sdk.Common.Options.{check, bind}
use hermes_claude_agent_sdk.Python.{Value, null, bool, str, dict, Fields, end, field, eq_str}
use hermes_claude_agent_sdk.Python.Text as Str
use hermes_claude_agent_sdk.ToolBridge.Text.{Texts, bounded_text, is_safe_identifier}
use hermes_claude_agent_sdk.ToolBridge.Json.{copy_plain_json, max_input_bytes}
use hermes_claude_agent_sdk.ToolBridge.Match.{matches_schema}
use hermes_claude_agent_sdk.ToolBridge.Normalize.{Definition, max_levels, normalize_tool_schemas}

-- `json.dumps` with the options of the source, and `json.loads`; `none` is an exception.
pub record Printer : Type 0 where
  pub dumps : Value → Option String
  pub loads : String → Option Value

-- `ToolCallResult`
pub record CallResult : Type 0 where
  pub request_id : String
  pub correlation_id : Option String
  pub tool_name : String
  pub text : String
  pub is_error : Bool

-- The codes of `ToolBridgeRequestError`
pub data RequestError : Type 0 where
  request_id name unknown arguments cancelled cancellation_unavailable : RequestError

-- How a call ends: an answer, a request error, the cancellation of its task, or any other exception.
pub data CallOutcome : Type 0 where
  answered : CallResult → CallOutcome
  rejected : RequestError → CallOutcome
  interrupted broken_off : CallOutcome

-- One call of `execute_tool`
pub record HostCall : Type 0 where
  pub name : String
  pub arguments : Value
  pub request_id : String

-- What the host does: it raises, is cancelled, returns no awaitable, or returns a value.
pub data HostAnswer : Type 0 where
  raises is_cancelled no_awaitable : HostAnswer
  returns : Value → HostAnswer

-- The host in one call: the answers to `cancellation_requested` before and after, where `none` is
-- an exception.
pub record Host : Type 0 where
  pub before : Option Value
  pub answer : HostAnswer
  pub after : Option Value

pub record Bridge : Type 0 where
  pub definitions : List Definition
  pub correlation_id : Option String
  pub sdk_calls : ℕ
  pub host_executions : ℕ
  pub executed : List HostCall

abbrev max_identifier : ℕ
max_identifier = 256

-- A correlation that may be kept; `none` is the configuration error.
abbrev pub checked_correlation : Value → Option (Option String)
checked_correlation null = some none
checked_correlation (str s) = if is_safe_identifier s max_identifier then some (some s) else none
checked_correlation _ = none

abbrev excluded_name : Value → Option String
excluded_name (str s) = if is_safe_identifier s max_identifier then some s else none
excluded_name _ = none

unfoldable pub excluded_names : List Value → Option (List String)
excluded_names [] = some []
excluded_names (v ∷ vs) =
    bind (excluded_name v) (λ s. bind (excluded_names vs) (λ rest. some (s ∷ rest)))

unfoldable pub without : List String → List Definition → List Definition
without excluded [] = []
without excluded (d ∷ ds) =
    let rest = without excluded ds in if contains excluded d.name then rest else d ∷ rest

-- `__init__`, for a host with both of its methods
unfoldable pub create : Texts → Value → List Value → Value → Option Bridge
unfolding excluded_names without normalize_tool_schemas
create u schemas excluded correlation = bind (checked_correlation correlation) (λ correlation_id.
    bind (excluded_names excluded) (λ names. bind (normalize_tool_schemas u schemas) (λ definitions.
      some (record {
        definitions = without names definitions;
        correlation_id = correlation_id;
        sdk_calls = 0;
        host_executions = 0;
        executed = [];
      }))))

-- `begin_turn`
unfoldable pub begin_turn : Value → Bridge → Option Bridge
begin_turn correlation b =
    bind (checked_correlation correlation) (λ c. some (record b { correlation_id = c }))

-- `_definitions_by_name.get(name)`
unfoldable pub find : String → List Definition → Option Definition
find key [] = none
find key (d ∷ ds) = if d.name == key then some d else find key ds

-- `_is_cancelled`; `none` is its error.
abbrev pub probed : Option Value → Option Bool
probed (some (bool b)) = some b
probed _ = none

unfoldable pub is_error_fields : Fields → Bool
unfolding eq_str
is_error_fields end = true
is_error_fields (field k v fs) = eq_str k "error" && is_error_fields fs

-- `type(value) is dict and set(value) == {"error"}`
abbrev is_error_dict : Option Value → Bool
is_error_dict (some (dict (field k v fs))) = is_error_fields (field k v fs)
is_error_dict _ = false

abbrev pub max_result_bytes : ℕ
max_result_bytes = 65_536

module _ (u : Texts) (json : Printer) where
  abbrev printed : Value → Option String
  printed (str s) = some s
  printed v = json.dumps v

  abbrev shows_error : Value → Bool
  unfolding is_error_fields
  shows_error (str s) = is_error_dict (json.loads s)
  shows_error v = is_error_dict (some v)

  -- The text of a copied result; `none` is a value that has none.
  unfoldable pub copied_text : Value → Option (String × Bool)
  unfolding shows_error bounded_text
  copied_text copied = bind (printed copied) (λ text.
      bind (bounded_text u text max_result_bytes true) (λ short. some (short, shows_error copied)))

  abbrev pub or_unsupported : Option (String × Bool) → String × Bool
  or_unsupported none = ("Host returned unsupported result", true)
  or_unsupported (some r) = r

  -- `_result_text`
  unfoldable pub result_text : Value → String × Bool
  unfolding copied_text
  result_text value =
      or_unsupported (bind (copy_plain_json (max_result_bytes * 4) value) copied_text)

  abbrev fixed : Bridge → String → String → String → CallOutcome
  fixed b id tool words = answered (record {
    request_id = id;
    correlation_id = b.correlation_id;
    tool_name = tool;
    text = words;
    is_error = true;
  })

  abbrev shown : Bridge → String → String → String × Bool → CallOutcome
  shown b id tool (words, bad) = answered (record {
    request_id = id;
    correlation_id = b.correlation_id;
    tool_name = tool;
    text = words;
    is_error = bad;
  })

  -- After the host returned a value
  unfoldable pub finish_call : Option Bool → Value → String → String → Bridge → CallOutcome
  unfolding result_text
  finish_call none value id tool b = rejected cancellation_unavailable
  finish_call (some true) value id tool b = fixed b id tool "Tool call cancelled"
  finish_call (some false) value id tool b = shown b id tool (result_text value)

  -- What the host's answer makes of the call
  unfoldable pub answer_call : HostAnswer → Option Value → String → String → Bridge → CallOutcome
  unfolding finish_call
  answer_call raises after id tool b = fixed b id tool "Host tool execution failed"
  answer_call no_awaitable after id tool b = fixed b id tool "Host tool execution failed"
  answer_call is_cancelled after id tool b = interrupted
  answer_call (returns value) after id tool b = finish_call (probed after) value id tool b

  -- The request is in order: the host is called, once.
  unfoldable pub execute : Host → String → String → Value → Bridge → Bridge × CallOutcome
  unfolding answer_call
  execute host id tool copied b = (
    record b {
      host_executions = b.host_executions + 1;
      executed = b.executed ++ record { name = tool; arguments = copied; request_id = id } ∷ [];
    },
    answer_call host.answer host.after id tool b,
  )

  -- The gate on cancellation, once the arguments match
  unfoldable pub gate_call :
      Option Bool → Host → String → String → Value → Bridge → Bridge × CallOutcome
  unfolding execute
  gate_call none host id tool copied b = (b, rejected cancellation_unavailable)
  gate_call (some true) host id tool copied b = (b, rejected cancelled)
  gate_call (some false) host id tool copied b = execute host id tool copied b

  abbrev is_dict : Value → Bool
  is_dict (dict _) = true
  is_dict _ = false

  -- By whether the copied arguments match
  unfoldable pub match_call :
      Option Bool → Host → String → String → Value → Bridge → Bridge × CallOutcome
  unfolding gate_call
  match_call none host id tool copied b = (b, broken_off)
  match_call (some false) host id tool copied b = (b, rejected arguments)
  match_call (some true) host id tool copied b =
      gate_call (probed host.before) host id tool copied b

  unfoldable pub copied_call :
      Option Value → Value → Host → String → String → Bridge → Bridge × CallOutcome
  unfolding match_call matches_schema
  copied_call none schema host id tool b = (b, rejected arguments)
  copied_call (some (dict fs)) schema host id tool b =
      match_call (matches_schema max_levels (dict fs) schema) host id tool (dict fs) b
  copied_call (some _) schema host id tool b = (b, rejected arguments)

  unfoldable pub known_call :
      Option Definition → Value → Host → String → String → Bridge → Bridge × CallOutcome
  unfolding copied_call copy_plain_json
  known_call none args host id tool b = (b, rejected unknown)
  known_call (some d) args host id tool b =
      copied_call (copy_plain_json max_input_bytes args) d.input_schema host id tool b

  -- `handle_tool_call`
  unfoldable pub handle_tool_call : Value → Value → Value → Host → Bridge → Bridge × CallOutcome
  unfolding known_call find is_safe_identifier
  handle_tool_call (str id) (str tool) args host b =
      if is_safe_identifier id max_identifier
      then known_call (find tool b.definitions) args host id tool b
      else (b, rejected request_id)
  handle_tool_call (str id) _ args host b =
      if is_safe_identifier id max_identifier then (b, rejected name) else (b, rejected request_id)
  handle_tool_call _ _ args host b = (b, rejected request_id)
