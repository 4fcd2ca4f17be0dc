-- ===== src/Guard.antt =====
-- content_events.py: `zero_native_violation`, the check of every SDK message before it is used.
-- A comparison with a set of texts raises on a value that cannot be hashed.
pub mod Stream
pub mod Content
mod Tests
use hermes_claude_agent_sdk.Common.{
  ℕ, String, Bool, true, false, not, ◌&&◌, ◌||◌, List, [], ◌∷◌, Option, none, some, ◌==◌,
  starts_with, contains, ltb, nat_eq, take, if◌then◌else◌,
}
use hermes_claude_agent_sdk.Common.Int.{pos}
use hermes_claude_agent_sdk.Python.{
  Value, null, int, str, list, tuple, set, dict, Read, absent, raised, found, class_name,
  is_mapping, is_null, eq_str, read, attr, to_list, is_hashable,
}

-- `stream_tool_indexes`: the tool name that was proved for a content-block index.
abbrev pub Indexes : Type 0
Indexes = List (ℕ × String)

unfoldable pub get : ℕ → Indexes → Option String
get i [] = none
get i ((j, name) ∷ m) = if nat_eq i j then some name else get i m

unfoldable pub put : ℕ → String → Indexes → Indexes
put i name [] = (i, name) ∷ []
put i name ((j, old) ∷ m) = if nat_eq i j then (j, name) ∷ m else (j, old) ∷ put i name m

pub pop : ℕ → Indexes → Indexes
pop i [] = []
pop i ((j, name) ∷ m) = let rest = pop i m in if nat_eq i j then rest else (j, name) ∷ rest

-- The result of the check: `True`, `False`, or an exception.
pub data Verdict : Type 0 where
  violation clean raises : Verdict

-- Whether the type that was found can be looked up in a set
abbrev pub has_hash : Option Value → Bool
has_hash none = true
has_hash (some v) = is_hashable v

-- `_mapping_value`; `none` is its `_MISSING`.
pub mapping_value : Value → List String → Option Value
unfolding read
mapping_value source [] = none
mapping_value source (key ∷ keys) =
    let rest = mapping_value source keys in
    elim (read source key) [ found v ↦ some v | raised ↦ none | absent ↦ rest ]

abbrev pub is_text : Option Value → String → Bool
is_text none s = false
is_text (some v) s = eq_str v s

abbrev pub is_map : Option Value → Bool
is_map none = false
is_map (some v) = is_mapping v

abbrev pub or_null : Option Value → Value
or_null none = null
or_null (some v) = v

-- `index if type(index) is int and 0 <= index < 128 else None`
abbrev pub tool_index : Option Value → Option ℕ
tool_index (some (int (pos n))) = if ltb n 128 then some n else none
tool_index _ = none

abbrev pub set_index : Option ℕ → String → Indexes → Indexes
set_index none name m = m
set_index (some i) name m = put i name m

abbrev pub pop_index : Option ℕ → Indexes → Indexes
pop_index none m = m
pop_index (some i) m = pop i m

abbrev pub is_native_type : Option Value → Bool
is_native_type t =
    is_text t "server_tool_use" || is_text t "server_tool_result" || is_text t "tool_result"

abbrev is_plain_type : Option Value → Bool
is_plain_type t = is_text t "text" || is_text t "thinking"

-- A named tool: exact admission, then the index is remembered.
pub admit_tool : List String → Option Value → Option ℕ → Indexes → Verdict × Indexes
admit_tool allowed (some (str name)) index m =
    if contains allowed name then (clean, set_index index name m) else (violation, m)
admit_tool allowed _ index m = (violation, m)

abbrev pub is_proved : Option ℕ → Indexes → Bool
is_proved none m = false
is_proved (some i) m = elim (get i m) [ none ↦ false | some _ ↦ true ]

-- The part for `content_block`; `none` goes on with the next part.
pub block_part : List String → Option Value → Option ℕ → Indexes → Option (Verdict × Indexes)
unfolding admit_tool mapping_value is_hashable
block_part allowed block index m =
    if not (is_map block)
    then none
    else let kind = mapping_value (or_null block) ("type" ∷ []) in
      if not (has_hash kind)
      then some (raises, m)
      else if is_native_type kind
      then some (violation, m)
      else if is_text kind "tool_use"
      then some (admit_tool allowed (mapping_value (or_null block) ("name" ∷ [])) index m)
      else none

-- The part for `delta`.
pub delta_part : List String → Option Value → Option ℕ → Indexes → Option (Verdict × Indexes)
unfolding admit_tool mapping_value is_hashable
delta_part allowed delta index m =
    if not (is_map delta)
    then none
    else let kind = mapping_value (or_null delta) ("type" ∷ []) in
      if not (has_hash kind)
      then some (raises, m)
      else if is_native_type kind
      then some (violation, m)
      else if is_text kind "tool_use" || is_text kind "tool_use_delta"
      then some (admit_tool allowed (mapping_value (or_null delta) ("name" ∷ [])) index m)
      else if is_text kind "input_json_delta"
      then some (if is_proved index m then clean else violation, m)
      else none

-- The part for the event's own type.
pub boundary_part : Option Value → Option Value → Option ℕ → Indexes → Verdict × Indexes
unfolding mapping_value
boundary_part kind block index m =
    if is_text kind "content_block_stop" || is_text kind "contentBlockStop"
    then (clean, pop_index index m)
    else if is_text kind "content_block_start" || is_text kind "contentBlockStart"
    then (
      if not (is_map block) || is_plain_type (mapping_value (or_null block) ("type" ∷ []))
          then clean
          else violation,
      m,
    )
    else (clean, m)

abbrev pub or_else : Option (Verdict × Indexes) → Verdict × Indexes → Verdict × Indexes
or_else none r = r
or_else (some r) _ = r

-- `_stream_tool_violation`
pub stream_tool_violation : List String → Value → Indexes → Verdict × Indexes
unfolding attr mapping_value
stream_tool_violation allowed message m =
    let event = attr message "event" null in
    if not (is_mapping event)
    then (clean, m)
    else let index = tool_index (mapping_value event ("index" ∷ [])) in
      let kind = mapping_value event ("type" ∷ []) in
      let block = mapping_value event ("content_block" ∷ "contentBlock" ∷ []) in
      let delta = mapping_value event ("delta" ∷ []) in
      or_else (block_part allowed block index m)
        (or_else (delta_part allowed delta index m) (boundary_part kind block index m))

-- `name` and `parent_tool_use_id` of a tool-use block
pub is_violating_tool : List String → Value → Value → Bool
unfolding is_null
is_violating_tool allowed (str tool) parent = not (contains allowed tool) || not (is_null parent)
is_violating_tool allowed _ parent = true

-- One block of a typed message.
pub is_violating_block : List String → Value → Bool
unfolding class_name attr is_violating_tool
is_violating_block allowed block =
    let name = class_name block in
    if name == "ServerToolUseBlock" || name == "ServerToolResultBlock"
    then true
    else if name == "ToolUseBlock"
    then is_violating_tool allowed (attr block "name" null) (attr block "parent_tool_use_id" null)
    else false

pub scan_blocks : List String → List Value → Verdict
unfolding is_violating_block
scan_blocks allowed [] = clean
scan_blocks allowed (b ∷ bs) =
    let rest = scan_blocks allowed bs in if is_violating_block allowed b then violation else rest

abbrev pub sequence : Value → List Value
sequence (list xs) = to_list xs
sequence (tuple xs) = to_list xs
sequence _ = []

-- `_MAX_ARGUMENT_ITEMS`
abbrev pub max_blocks : ℕ
max_blocks = 32

abbrev starts_as : Value → String → Bool
starts_as (str s) p = starts_with s p
starts_as _ p = false

-- The tests on the message as a whole: task messages, nested messages and deferred tools.
pub is_foreign : Value → Bool
unfolding class_name attr is_null
is_foreign message =
    starts_with (class_name message) "Task"
    || starts_as (attr message "subtype" null) "task_"
    || not (is_null (attr message "parent_tool_use_id" null))
    || (class_name message == "ResultMessage"
        && not (is_null (attr message "deferred_tool_use" null)))

pub zero_native_violation : List String → Value → Indexes → Verdict × Indexes
unfolding class_name attr is_foreign stream_tool_violation scan_blocks
zero_native_violation allowed message m =
    if is_foreign message
    then (violation, m)
    else if class_name message == "StreamEvent"
    then stream_tool_violation allowed message m
    else (scan_blocks allowed (take max_blocks (sequence (attr message "content" null))), m)
