-- ===== src/ToolBridge/Handler.antt =====
-- tool_bridge.py: the handler that the SDK calls for one tool, and the correlations that it makes.
use hermes_claude_agent_sdk.Common.{
  ℕ, zero, suc, ◌+◌, ◌/◌, ◌%◌, ◌≤◌, String, ◌≡◌, refl, ◌≢◌, Bool, true, Option, none, some, arith,
  ltb, leb, if◌then◌else◌,
}
use hermes_claude_agent_sdk.Python.{Value, str}
use hermes_claude_agent_sdk.Python.Text as Str
use hermes_claude_agent_sdk.Python.Utf8
use hermes_claude_agent_sdk.ToolBridge.Text.{Texts, is_safe_identifier}
use hermes_claude_agent_sdk.ToolBridge.{
  Printer, RequestError, request_id, name, unknown, arguments, cancelled, cancellation_unavailable,
  CallOutcome, answered, rejected, interrupted, broken_off, HostAnswer, is_cancelled, Host, Bridge,
  max_identifier, max_result_bytes, handle_tool_call,
}
use hermes_claude_agent_sdk.ToolBridge.Calls.Answers.{
  HasSchemas, IsProper, handle_tool_call-IsProper,
}

abbrev digit : ℕ → String
digit zero = "0"
digit (suc zero) = "1"
digit (suc (suc zero)) = "2"
digit (suc (suc (suc zero))) = "3"
digit (suc (suc (suc (suc zero)))) = "4"
digit (suc (suc (suc (suc (suc zero))))) = "5"
digit (suc (suc (suc (suc (suc (suc zero)))))) = "6"
digit (suc (suc (suc (suc (suc (suc (suc zero))))))) = "7"
digit (suc (suc (suc (suc (suc (suc (suc (suc zero)))))))) = "8"
digit _ = "9"

-- The decimal digits of a number with as many rounds as are left, before the text `rest`
digits : ℕ → ℕ → String → String
unfolding Str.append
digits zero n rest = rest
digits (suc rounds) n rest =
    let more = digits rounds (n / 10) (Str.append (digit (n % 10)) rest) in
    if ltb n 10 then Str.append (digit n) rest else more

zeros : ℕ → String → String
unfolding Str.append
zeros zero s = s
zeros (suc n) s = Str.append "0" (zeros n s)

-- `f"{n:04d}"`
four_digits : ℕ → String
unfolding digits zeros
four_digits n =
    let plain = digits (suc n) n "" in
    if leb 4 (Str.length plain)
    then plain
    else if leb 3 (Str.length plain)
    then zeros 1 plain
    else if leb 2 (Str.length plain)
    then zeros 2 plain
    else zeros 3 plain

counted : four_digits 1_207 ≡ "1207"
unfolding four_digits
counted = refl

padded : four_digits 42 ≡ "0042"
unfolding four_digits
padded = refl

abbrev prefix : Option String → String
prefix none = "sdk"
prefix (some c) = c

-- `_next_sdk_request_id`
unfoldable pub next_sdk_request_id : Bridge → Bridge × String
unfolding four_digits Str.append is_safe_identifier
next_sdk_request_id b =
    let calls = b.sdk_calls + 1 in
    let short = Str.append "sdk-call-" (four_digits calls) in
    let candidate = Str.append (prefix b.correlation_id) (Str.append ":" short) in
    (
      record b { sdk_calls = calls },
      if is_safe_identifier candidate max_identifier then candidate else short,
    )

-- `_REQUEST_MESSAGES`
unfoldable pub request_message : RequestError → String
request_message request_id = "Tool request correlation is malformed"
request_message name = "Tool name is malformed"
request_message unknown = "Tool is not available"
request_message arguments = "Tool arguments are malformed"
request_message cancelled = "Tool call cancelled"
request_message cancellation_unavailable = "Tool cancellation state unavailable"

-- The reply to the SDK, its text and its error flag; `none` is an exception that leaves the handler.
unfoldable pub reply : CallOutcome → Option (String × Bool)
unfolding request_message
reply (answered r) = some (r.text, r.is_error)
reply (rejected e) = some (request_message e, true)
reply interrupted = none
reply broken_off = none

-- A reply of bounded length
abbrev pub IsReply : Option (String × Bool) → Type 0
IsReply none = ⊥
IsReply (some r) = Utf8.bytes r.0 ≤ max_result_bytes

message-IsReply : (e : RequestError) → IsReply (some (request_message e, true))
unfolding request_message Utf8.bytes Utf8.width
message-IsReply request_id = omega arith
message-IsReply name = omega arith
message-IsReply unknown = omega arith
message-IsReply arguments = omega arith
message-IsReply cancelled = omega arith
message-IsReply cancellation_unavailable = omega arith

reply-IsReply :
    (a : HostAnswer) (id : String) (c : Option String) (o : CallOutcome)
    → a ≢ is_cancelled
    → IsProper a id c o
    → IsReply (reply o)
unfolding reply
reply-IsReply a id c (answered r) n p = p.2
reply-IsReply a id c (rejected e) n p = message-IsReply e
reply-IsReply a id c interrupted n p = absurd (n p)
reply-IsReply a id c broken_off n p = p

module _ (u : Texts) (json : Printer) where
  -- `handler`, made by `_make_sdk_handler`
  unfoldable pub handle_sdk_call : String → Value → Host → Bridge → Bridge × Option (String × Bool)
  unfolding next_sdk_request_id reply handle_tool_call
  handle_sdk_call tool args host b =
      let (b1, id) = next_sdk_request_id b in
      let (b2, outcome) = handle_tool_call u json (str id) (str tool) args host b1 in
      (b2, reply outcome)

  -- `execute_tool`, with or without a correlation of its own
  unfoldable pub execute_tool : Value → Value → Option Value → Host → Bridge → Bridge × CallOutcome
  unfolding next_sdk_request_id handle_tool_call
  execute_tool tool args (some id) host b = handle_tool_call u json id tool args host b
  execute_tool tool args none host b =
      let (b1, id) = next_sdk_request_id b in handle_tool_call u json (str id) tool args host b1

  -- On a bridge whose schemas are valid, every call of the SDK is replied to, whatever its
  -- arguments are and whatever the host does short of being cancelled; the reply has at most
  -- 65,536 bytes.
  pub handle_sdk_call-IsReply :
      (tool : String) (args : Value) (host : Host) (b : Bridge)
      → HasSchemas u b.definitions
      → host.answer ≢ is_cancelled
      → IsReply (handle_sdk_call tool args host b).1
  unfolding handle_sdk_call
  handle_sdk_call-IsReply tool args host b v n =
      let (b1, id) = next_sdk_request_id b in
      reply-IsReply host.answer id b1.correlation_id _ n
        (handle_tool_call-IsProper u json id (str tool) args host b1 v)
