-- ===== src/Runtime/Types.antt =====
-- runtime.py: what a turn of the runtime is given, what it keeps, and what it emits.
use hermes_claude_agent_sdk.Common.{ℕ, String, Bool, List, Option}
use hermes_claude_agent_sdk.Python.{Value, Float, Interpreter}
use hermes_claude_agent_sdk.Billing.{BlockReason}
use hermes_claude_agent_sdk.Session.Outcome.{ErrorCode, TurnResult}
use hermes_claude_agent_sdk.TurnInput.Failing.{Failure}
use hermes_claude_agent_sdk.ToolBridge.Text.{Texts}
use hermes_claude_agent_sdk.TurnInput.Images.{Decoders}
use hermes_claude_agent_sdk.ToolBridge.{Bridge}
use hermes_claude_agent_sdk.Configuration.{Configuration}
use hermes_claude_agent_sdk.Projector.Events.{Event, Projection, Resolution}

-- `RuntimeTurnRequest`, as far as the runtime reads it, with the identity of the object
pub record Request : Type 0 where
  pub identity : ℕ
  pub provider : String
  pub model : String
  pub api_mode : String
  pub session_state : Value
  pub correlation_id : Option String
  pub prompt_snapshot : String
  pub tool_schemas : Value
  pub tool_schema_hash : String
  pub messages : Value

-- `_session_contract`
pub record Contract : Type 0 where
  pub provider : String
  pub model : String
  pub api_mode : String
  pub tool_schema_hash : String
  pub prompt_snapshot : String

-- `RuntimeFailurePhase`
pub data Phase : Type 0 where
  preflight before_visible_output after_visible_output after_side_effects : Phase

-- The codes of the failures; a code of the session or of the turn input is passed on.
pub data Code : Type 0 where
  selection_unsupported state_invalid compatibility_unsupported auth_rejected : Code
  preflight_unavailable runtime_closed cancellation_unavailable host_binding_changed : Code
  prompt_invalid session_contract_changed native_tool_unsupported runtime_failed : Code
  configuration_failed : Code
  billing_blocked_for : BlockReason → Code
  image_input : Failure → Code
  session_error : ErrorCode → Code

-- `RuntimeFailure`, with its message left out
pub record RuntimeFailure : Type 0 where
  pub code : Code
  pub phase : Phase
  pub replay_safe : Bool
  pub retryable : Bool

-- What is known of the model at the end
pub record Provenance : Type 0 where
  pub effective_model : String
  pub canonical_model : String
  pub model_resolution : Resolution

-- The result of a `RuntimeCompletedEvent`
pub record Completion : Type 0 where
  pub text : String
  pub messages : List Value
  pub model : String
  pub selected_model : String
  pub provenance : Provenance

-- What `run_turn` yields
pub data Emitted : Type 0 where
  shown : Event → Emitted
  state_saved : String → Emitted
  completed : Completion → Emitted
  cancelled_turn : Emitted
  failed_turn : RuntimeFailure → Emitted

-- One round of the loop in which the runtime waits for its session: the host is asked whether it
-- is cancelled (`none` is an exception), or a projection is taken from the queue, when the bridge
-- has sent so many calls to the host.
pub data Round : Type 0 where
  polled : Option Value → Round
  taken : Projection → ℕ → Round

-- What the parts around the runtime do in one turn: the authentication probe, the compatibility
-- check, the host and its answer before the start, the server of the tools, whether the session was
-- cancelled before, the rounds of the loop, the calls of the host at the end, and how the session's
-- turn ends. `none` is an exception.
pub record Input : Type 0 where
  pub request : Request
  pub host : ℕ
  pub auth : Option Value
  pub model_check : Option Value
  pub cancelled_before : Option Value
  pub server : Option Value
  pub can_restart : Bool
  pub rounds : List Round
  pub executions : ℕ
  pub outcome : Option TurnResult

-- What the runtime takes from outside: Python's texts and numbers, and `dict(value)` of what is no
-- mapping, where `none` is an exception.
pub record Platform : Type 0 where
  pub interpreter : Interpreter
  pub parse_float : String → Option Float
  pub texts : Texts
  pub decoders : Decoders
  pub dict_of : Value → Option Value

-- The object; a session is its configuration, and sessions are counted. `watchdog` is the bound in
-- seconds that a new session is given.
pub record Runtime : Type 0 where
  pub cwd : Value
  pub parent_env : Value
  pub watchdog : Float
  pub host : Option ℕ
  pub bridge : Option Bridge
  pub session : Option Configuration
  pub contract : Option Contract
  pub preflight_request : Option ℕ
  pub observations : List String
  pub closed : Bool
  pub sessions : ℕ
  pub cancels : ℕ

-- A turn: what it yielded, the object after it, and whether an exception left it
pub record Run : Type 0 where
  pub emitted : List Emitted
  pub runtime : Runtime
  pub raised : Bool
