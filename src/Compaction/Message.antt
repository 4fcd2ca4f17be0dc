-- ===== src/Compaction/Message.antt =====
-- The SDK's side of compaction: the trigger of the `PreCompact` hook and the `compact_boundary`
-- message.
use hermes_claude_agent_sdk.Common.{Bool, false, not, ◌||◌, ◌==◌, if◌then◌else◌}
use hermes_claude_agent_sdk.Python.{Value, null, class_name, eq_str, attr, dict_get, is_truthy}
use hermes_claude_agent_sdk.Compaction.{Tracker, is_active, trigger_of, start, complete}

-- The hook that `build_hooks` installs.
unfoldable pub on_pre_compact : Value → Tracker → Tracker
unfolding start trigger_of dict_get
on_pre_compact input t = start (trigger_of (dict_get input "trigger")) t

-- `data.get("compact_metadata") or data.get("compactMetadata")`
boundary_metadata : Value → Value
unfolding dict_get is_truthy
boundary_metadata fields =
    let first = dict_get fields "compact_metadata" in
    if is_truthy first then first else dict_get fields "compactMetadata"

pub handle_message : Value → Tracker → Tracker × Bool
unfolding class_name eq_str attr is_active complete trigger_of boundary_metadata
handle_message message t =
    if not (class_name message == "SystemMessage")
      || not (eq_str (attr message "subtype" null) "compact_boundary")
      || not (is_active t)
    then (t, false)
    else complete (trigger_of (dict_get (boundary_metadata (attr message "data" null)) "trigger")) t
