-- ===== src/Projector/Events.antt =====
-- content_events.py: the events and the metadata that the projection of one message gives.
use hermes_claude_agent_sdk.Common.{ℕ, String, Bool, List, Option}
use hermes_claude_agent_sdk.Python.{Fields, Float}
use hermes_claude_agent_sdk.Compaction.{Phase}

-- How the model's identity was found
pub data Resolution : Type 0 where
  unknown ambiguous canonicalized mismatch exact reported : Resolution

-- `RuntimeUsageReceipt`
pub record Receipt : Type 0 where
  pub runtime_id : String
  pub provider : String
  pub model : String
  pub billing_mode : String
  pub cost_status : String
  pub input_tokens : ℕ
  pub output_tokens : ℕ
  pub cache_read_tokens : ℕ
  pub cache_write_tokens : ℕ
  pub reasoning_tokens : ℕ
  pub replay_safe : Bool
  pub correlation_id : Option String
  pub selected_model : Option String
  pub effective_model : Option String
  pub canonical_model : Option String
  pub model_resolution : Resolution

-- The events of AgentRuntime v1 that are projected; a tool request has its identifier, its name and
-- its arguments; a compaction has its phase and the bound of its watchdog.
pub data Event : Type 0 where
  content : String → Event
  tool_request : String → String → Fields → Event
  usage : Receipt → Event
  completion : Fields → Event
  compaction : Phase → Option Float → Event

-- `ToolResultMetadata`
pub record ToolResult : Type 0 where
  pub tool_use_id : String
  pub text : String
  pub is_error : Bool

-- `ProjectionResult`; its `model` is the effective one.
pub record Projection : Type 0 where
  pub events : List Event
  pub tool_results : List ToolResult
  pub is_tool_iteration : Bool
  pub final_text : Option String
  pub is_result : Bool
  pub selected_model : Option String
  pub effective_model : Option String
  pub canonical_model : Option String
  pub model_resolution : Resolution
