-- ===== src/Session/Outcome.antt =====
-- The results of a turn, and the bounded code of a failed one (`_classify_result_failure`).
use hermes_claude_agent_sdk.Common.{
  ℕ, String, Bool, true, false, ◌&&◌, ◌||◌, Option, none, some, ◌==◌, leb, nat_eq, if◌then◌else◌,
}
use hermes_claude_agent_sdk.Common.Int.{pos}
use hermes_claude_agent_sdk.Python.{Value, null, int, str, attr}
use hermes_claude_agent_sdk.Billing.{Decision}

-- `SessionOutcome`
pub data Outcome : Type 0 where
  complete cancelled billing_blocked timed_out failed closed : Outcome

-- The error codes; a code that ends in a status carries it.
pub data ErrorCode : Type 0 where
  invalid_prompt session_closed sdk_native_tool_unsupported sdk_post_terminal_output : ErrorCode
  sdk_start_failed sdk_turn_timeout sdk_compaction_watchdog sdk_stream_failed : ErrorCode
  sdk_stream_ended sdk_billing_blocked sdk_turn_failed sdk_result_failed : ErrorCode
  sdk_terminal_api_error sdk_terminal_max_turns : ErrorCode
  sdk_result_error_during_execution sdk_result_error_max_turns : ErrorCode
  sdk_api_billing_402 sdk_api_timeout_408 sdk_api_rate_limit_429 : ErrorCode
  sdk_api_auth sdk_api_overloaded sdk_api_server_error sdk_api_error : ℕ → ErrorCode

-- `SessionTurnResult`
pub record TurnResult : Type 0 where
  pub outcome : Outcome
  pub final_text : Option String
  pub external_session_id : Option String
  pub billing_decision : Option Decision
  pub error_code : Option ErrorCode
  pub retryable : Bool

abbrev pub result : Outcome → Option ErrorCode → TurnResult
result outcome code = record {
  outcome = outcome;
  final_text = none;
  external_session_id = none;
  billing_decision = none;
  error_code = code;
  retryable = false;
}

-- The code of an HTTP status from 400 to 599, and whether a retry may help.
status_failure : ℕ → ErrorCode × Bool
status_failure status =
    if nat_eq status 401 || nat_eq status 403
    then (sdk_api_auth status, false)
    else if nat_eq status 402
    then (sdk_api_billing_402, false)
    else if nat_eq status 408
    then (sdk_api_timeout_408, true)
    else if nat_eq status 429
    then (sdk_api_rate_limit_429, true)
    else if nat_eq status 503 || nat_eq status 529
    then (sdk_api_overloaded status, true)
    else if leb 500 status
    then (sdk_api_server_error status, true)
    else (sdk_api_error status, false)

abbrev terminal_code : Value → Option ErrorCode
terminal_code (str s) =
    if s == "api_error"
    then some sdk_terminal_api_error
    else if s == "max_turns"
    then some sdk_terminal_max_turns
    else none
terminal_code _ = none

abbrev subtype_code : Value → Option ErrorCode
subtype_code (str s) =
    if s == "error_during_execution"
    then some sdk_result_error_during_execution
    else if s == "error_max_turns"
    then some sdk_result_error_max_turns
    else none
subtype_code _ = none

abbrev first_code : Option ErrorCode → Option ErrorCode → ErrorCode
first_code (some code) _ = code
first_code none (some code) = code
first_code none none = sdk_result_failed

abbrev http_status : Value → Option ℕ
http_status (int (pos n)) = if leb 400 n && leb n 599 then some n else none
http_status _ = none

pub classify_result_failure : Value → ErrorCode × Bool
unfolding attr status_failure
classify_result_failure message = elim (http_status (attr message "api_error_status" null)) [
  | some status ↦ status_failure status
  | none ↦ (
    first_code (terminal_code (attr message "terminal_reason" null))
        (subtype_code (attr message "subtype" null)),
    false,
  )
]
