-- ===== src/Runtime/Preflight.antt =====
-- runtime.py: `preflight` and `_resume_id`. `none` is an exception.
use hermes_claude_agent_sdk.Common.{
  ℕ, ◌^◌, String, Bool, true, false, not, ◌&&◌, ◌||◌, Option, none, some, ◌==◌, ltb, leb, nat_eq,
  if◌then◌else◌,
}
use hermes_claude_agent_sdk.Common.Int.{pos}
use hermes_claude_agent_sdk.Python.{
  Value, null, bool, int, float, str, dict, broken, Fields, end, field, finite, is_null, is_true,
  eq_str, attr, dict_get,
}
use hermes_claude_agent_sdk.Python.Text
use hermes_claude_agent_sdk.Runtime.Types.{
  Request, preflight, Code, selection_unsupported, state_invalid, compatibility_unsupported,
  auth_rejected, RuntimeFailure, Input, Runtime,
}

-- `RUNTIME_ID`
abbrev pub runtime_id : String
runtime_id = "hermes-claude-agent-sdk"

-- `is_supported_model_id`
unfoldable pub is_supported_model_id : String → Bool
is_supported_model_id model = model == "claude-fable-5-1"

-- `value == 1`
abbrev is_one : Value → Bool
is_one (int (pos n)) = nat_eq n 1
is_one (bool b) = b
is_one (float (finite (pos m) k)) = nat_eq m (2 ^ k)
is_one _ = false

-- No key but `external_session_id`
unfoldable pub has_one_key : Fields → Bool
unfolding eq_str
has_one_key end = true
has_one_key (field k v fs) = eq_str k "external_session_id" && has_one_key fs

-- The identifier of a session to resume, and whether the state is in order
abbrev resumed : Value → Option String × Bool
resumed null = (none, true)
resumed (str s) =
    if not (Text.is_empty s)
      && leb (Text.length s) 512
      && not (Text.any_char (λ c. ltb c 32 || nat_eq c 127) s)
    then (some s, true)
    else (none, false)
resumed _ = (none, false)

abbrev resumed_state : Value → Option (Option String × Bool)
resumed_state (dict fs) =
    some
      (if has_one_key fs then resumed (dict_get (dict fs) "external_session_id") else (none, false))
resumed_state broken = none
resumed_state _ = some (none, false)

-- `_resume_id`, of the session state of a request
unfoldable pub resume_id : Value → Option (Option String × Bool)
unfolding has_one_key is_null eq_str attr dict_get Text.any_char
resume_id null = some (none, true)
resume_id envelope =
    if eq_str (attr envelope "runtime_id" null) runtime_id
      && is_one (attr envelope "schema_version" null)
    then resumed_state (attr envelope "state" null)
    else some (none, false)

-- `_check_auth`, of the probe's result
unfoldable pub check_auth : Option Value → Bool
unfolding is_true eq_str attr
check_auth none = false
check_auth (some result) =
    let category = attr result "category" null in
    is_true (attr result "allowed" null)
    && eq_str (attr category "value" category) "subscription_oauth"

unfoldable pub is_model_compatible : Option Value → Bool
unfolding is_true dict_get
is_model_compatible none = false
is_model_compatible (some v) = is_true (dict_get v "compatible")

-- The selection that the descriptor declares: `PROVIDER_IDS`, `API_MODES` and the model
unfoldable pub is_declared : Request → Bool
unfolding is_supported_model_id
is_declared r =
    (r.provider == "claude-agent-sdk")
    && (r.api_mode == "agent_runtime")
    && is_supported_model_id r.model

abbrev pub refused : Code → Bool → Option RuntimeFailure
refused code safe =
    some (record { code = code; phase = preflight; replay_safe = safe; retryable = false })

-- The checks after the one of the session state
unfoldable pub check_state : Bool → Input → Runtime → Option RuntimeFailure × Runtime
unfolding is_model_compatible check_auth
check_state false i r = (refused state_invalid false, r)
check_state true i r =
    if not (is_model_compatible i.model_check)
    then (refused compatibility_unsupported true, r)
    else if not (check_auth i.auth)
    then (refused auth_rejected false, r)
    else (none, record r { preflight_request = some i.request.identity })

unfoldable pub checked_resume :
    Option (Option String × Bool) → Input → Runtime → Option (Option RuntimeFailure × Runtime)
unfolding check_state
checked_resume none i r = none
checked_resume (some (_, ok)) i r = some (check_state ok i r)

-- `preflight`: a failure or none
unfoldable pub check_preflight : Input → Runtime → Option (Option RuntimeFailure × Runtime)
unfolding is_declared resume_id checked_resume
check_preflight i r =
    let cleared = record r { preflight_request = none } in
    if is_declared i.request
    then checked_resume (resume_id i.request.session_state) i cleared
    else some (refused selection_unsupported true, cleared)

abbrev pub is_request : ℕ → Option ℕ → Bool
is_request n none = false
is_request n (some m) = nat_eq m n

-- `_consume_preflight`
unfoldable pub consume_preflight : ℕ → Runtime → Bool × Runtime
consume_preflight identity r =
    (is_request identity r.preflight_request, record r { preflight_request = none })
