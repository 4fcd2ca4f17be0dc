-- ===== src/Configuration/Checks.antt =====
-- configuration.py: the checks that `create` makes of each argument.
use hermes_claude_agent_sdk.Common.{
  ◌*◌, ◌^◌, String, Bool, true, false, not, ◌&&◌, ◌||◌, List, [], ◌∷◌, Option, none, some, ◌==◌,
  starts_with, ltb, leb, nat_eq, contains, if◌then◌else◌,
}
use hermes_claude_agent_sdk.Common.Int.{pos}
use hermes_claude_agent_sdk.Python.{
  Value, null, str, tuple, dict, nil, Float, finite, eq_str, is_truthy, to_list, entries,
}
use hermes_claude_agent_sdk.Python.Text
use hermes_claude_agent_sdk.Python.Utf8
use hermes_claude_agent_sdk.Common.Options.{bind}

abbrev has_nul : String → Bool
has_nul s = Text.any_char (λ c. nat_eq c 0) s

-- `_optional_text`
abbrev pub optional_text : Value → Option (Option String)
optional_text null = some none
optional_text (str s) =
    if Text.is_empty s || ltb 4_096 (Text.length s) || has_nul s then none else some (some s)
optional_text _ = none

-- `prompt_snapshot`
unfoldable pub prompt_text : Value → Option String
unfolding bind Utf8.size
prompt_text (str s) =
    bind (Utf8.size s) (λ n. if ltb 1_048_576 n || has_nul s then none else some s)
prompt_text _ = none

abbrev pub is_resumable : Option String → Bool
is_resumable none = true
is_resumable (some s) =
    leb (Text.length s) 512 && not (Text.any_char (λ c. ltb c 32 || nat_eq c 127) s)

abbrev permission_modes : List String
permission_modes =
    "default" ∷ "acceptEdits" ∷ "plan" ∷ "bypassPermissions" ∷ "dontAsk" ∷ "auto" ∷ []

-- A value that cannot be hashed raises as well.
abbrev pub is_permission_mode : Value → Bool
is_permission_mode (str s) = contains permission_modes s
is_permission_mode _ = false

abbrev pub is_no_source : Value → Bool
is_no_source (tuple nil) = true
is_no_source _ = false

abbrev tool_prefix : String
tool_prefix = "mcp__hermes-tools__"

-- The names, if all are bounded texts.
abbrev bounded_name : Value → Option String
bounded_name (str s) = if Text.is_empty s || ltb 4_096 (Text.length s) then none else some s
bounded_name _ = none

unfoldable pub bounded_names : List Value → Option (List String)
unfolding bind
bounded_names [] = some []
bounded_names (v ∷ vs) =
    bind (bounded_name v) (λ s. bind (bounded_names vs) (λ names. some (s ∷ names)))

unfoldable pub tool_names : Value → Option (List String)
unfolding bounded_names
tool_names (tuple xs) = bounded_names (to_list xs)
tool_names _ = none

unfoldable pub is_hermes_tool : String → Bool
is_hermes_tool name = starts_with name tool_prefix && not (name == tool_prefix)

-- `len(set(names)) == len(names)`
unfoldable pub is_distinct : List String → Bool
is_distinct [] = true
is_distinct (name ∷ names) = not (contains names name) && is_distinct names

-- `dict(mcp_servers or {})`
abbrev pub servers : Value → Option (List (Value × Value))
servers (dict fs) = some (entries fs)
servers v = if is_truthy v then none else some []

-- The bounds on a name follow from the name that is asked for.
unfoldable pub is_hermes_server : Value × Value → Bool
is_hermes_server (key, _) = eq_str key "hermes-tools"

-- `math.isfinite(value) and 0 < value <= 86_400`
unfoldable pub is_timeout : Float → Bool
is_timeout (finite (pos m) k) = ltb 0 m && leb m (86_400 * 2 ^ k)
is_timeout _ = false
