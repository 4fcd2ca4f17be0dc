-- ===== src/Guard/Tests.antt =====
-- The guard's theorems at concrete messages.
use hermes_claude_agent_sdk.Common.{
  ℕ, String, ◌≡◌, ◌↔◌, refl, false, List, [], ◌∷◌, contains, any, take, All, zero, suc, eq_iff,
  arith,
}
use hermes_claude_agent_sdk.Common.Int.{pos}
use hermes_claude_agent_sdk.Python.{
  Value, null, int, str, dict, list, object, field, end, Items, nil, cons, class_name, is_mapping,
  is_null, eq_str, read, lookup, attr, to_list,
}
use hermes_claude_agent_sdk.Python.Sample.{fields, message}
use hermes_claude_agent_sdk.Guard.{
  Indexes, get, put, pop, clean, violation, mapping_value, admit_tool, block_part, delta_part,
  boundary_part, stream_tool_violation, is_violating_tool, is_violating_block, is_foreign,
  scan_blocks, sequence, max_blocks, zero_native_violation,
}
use hermes_claude_agent_sdk.Guard.Stream.{IsAdmitted, guard-IsAdmitted}
use hermes_claude_agent_sdk.Guard.Content.{IsHermesBlock, clean_message, clean_message_iff}

guard_code : Unit {0}
unfolding get put pop mapping_value admit_tool block_part delta_part boundary_part
    stream_tool_violation is_violating_tool is_violating_block is_foreign scan_blocks
    zero_native_violation class_name is_mapping is_null eq_str read lookup attr to_list contains any
guard_code = tt

abbrev tool : String
tool = "mcp__hermes__read"

abbrev allowed : List String
allowed = tool ∷ []

abbrev delta : Value
delta = dict (fields (("type", str "input_json_delta") ∷ []))

abbrev event : Value
event = dict (fields (("index", int (pos 1)) ∷ ("delta", delta) ∷ []))

abbrev partial : Value
partial = message "StreamEvent" (("event", event) ∷ [])

abbrev remembered : Indexes
remembered = (1, tool) ∷ []

guard-IsAdmitted_example : IsAdmitted allowed (zero_native_violation allowed partial remembered).1
unfolding guard_code
guard-IsAdmitted_example = guard-IsAdmitted allowed partial remembered (refl, tt)

abbrev spoken : Value
spoken =
    message "AssistantMessage"
      (("content", list (cons (message "ToolUseBlock" (("name", str tool) ∷ [])) nil)) ∷ [])

clean_message_example :
    (attr spoken "parent_tool_use_id" null ≡ null)
    × All (IsHermesBlock allowed) (take max_blocks (sequence (attr spoken "content" null)))
unfolding guard_code
clean_message_example =
    clean_message allowed spoken []
      (λ e. ground (arith, (eq_iff "AssistantMessage" "StreamEvent").1 e)) refl

-- `n` text blocks before the others
padded : ℕ → Items → Items
padded zero rest = rest
padded (suc n) rest = cons (message "TextBlock" []) (padded n rest)

abbrev native : Items
native = cons (message "ToolUseBlock" (("name", str "Bash") ∷ [])) nil

abbrev hidden : Value
hidden = object "AssistantMessage" (field (str "content") (list (padded 32 native)) end)

clean_message_iff_example : (zero_native_violation allowed hidden []).0 ≡ clean ↔ (
    (is_foreign hidden ≡ false)
    × All (IsHermesBlock allowed) (take max_blocks (sequence (attr hidden "content" null))))
unfolding class_name
clean_message_iff_example =
    clean_message_iff allowed hidden []
      (λ e. ground (arith, (eq_iff "AssistantMessage" "StreamEvent").1 e))

-- The native block passes there, and not in the first place.
native_passes :
    (zero_native_violation allowed
      (object "AssistantMessage" (field (str "content") (list (padded 32 native)) end))
      []).0
    ≡ clean
unfolding guard_code padded
native_passes = refl

native_stopped :
    (zero_native_violation allowed
      (object "AssistantMessage" (field (str "content") (list native) end))
      []).0
    ≡ violation
unfolding guard_code
native_stopped = refl
