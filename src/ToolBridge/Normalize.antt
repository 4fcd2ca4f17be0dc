-- ===== src/ToolBridge/Normalize.antt =====
-- tool_bridge.py: `normalize_tool_schema` and `normalize_tool_schemas`. An exception is `none`.
use hermes_claude_agent_sdk.Common.{
  ℕ, String, Bool, false, not, ◌&&◌, ◌||◌, List, [], ◌∷◌, Option, none, some, leb, contains, map,
  if◌then◌else◌,
}
use hermes_claude_agent_sdk.Common.Names.{less}
use hermes_claude_agent_sdk.Common.Options.{check, bind}
use hermes_claude_agent_sdk.Python.{
  Value, null, str, list, tuple, set, dict, eq_str, to_list, entries,
}
use hermes_claude_agent_sdk.Python.Text
use hermes_claude_agent_sdk.Python.Utf8
use hermes_claude_agent_sdk.ToolBridge.Text.{Texts, bounded_text}
use hermes_claude_agent_sdk.ToolBridge.Json.{copy_plain_json, max_input_bytes}
use hermes_claude_agent_sdk.ToolBridge.Schema.{get_or, valid_schema}

-- `HostToolDefinition`
pub record Definition : Type 0 where
  pub name : String
  pub description : String
  pub input_schema : Value

abbrev pub max_levels : ℕ
max_levels = 65

-- The three parts of a specification, as they are found
unfoldable pub function_parts : Value → Option (Value × Value × Value)
unfolding get_or
function_parts (dict fs) =
    some (get_or fs "name" null, get_or fs "description" null, get_or fs "parameters" null)
function_parts _ = none

unfoldable pub spec_parts : Value → Option (Value × Value × Value)
unfolding get_or function_parts eq_str
spec_parts (dict fs) =
    if eq_str (get_or fs "type" null) "function"
    then function_parts (get_or fs "function" null)
    else some (
      get_or fs "name" null,
      get_or fs "description" null,
      get_or fs "input_schema" (get_or fs "parameters" null),
    )
spec_parts _ = none

abbrev description_text : String → Value → Option String
description_text name null = some name
description_text name (str s) = some s
description_text name _ = none

abbrev pub is_object_schema : Value → Bool
is_object_schema (dict fs) = eq_str (get_or fs "type" null) "object"
is_object_schema _ = false

-- What the loop goes over; a text or a number is refused.
abbrev iterated : Value → Option (List Value)
iterated (list xs) = some (to_list xs)
iterated (tuple xs) = some (to_list xs)
iterated (set xs) = some (to_list xs)
iterated (dict fs) = some (map (λ (k, _). k) (entries fs))
iterated _ = none

unfoldable pub insert : Definition → List Definition → List Definition
unfolding less
insert d [] = d ∷ []
insert d (e ∷ ds) = if less d.name e.name then d ∷ e ∷ ds else e ∷ insert d ds

-- `sorted`, by name
unfoldable pub sort : List Definition → List Definition
unfolding insert
sort [] = []
sort (d ∷ ds) = insert d (sort ds)

module _ (u : Texts) where
  unfoldable pub is_tool_name : String → Bool
  unfolding Text.any_char Utf8.bytes Text.is_space
  is_tool_name name =
      not (Text.is_empty name)
      && not (Text.any_char Utf8.is_surrogate name)
      && leb (Utf8.bytes name) 256
      && not (Text.any_char (λ c. u.is_other c || Text.is_space c) name)

  -- A name, a description and a schema that were found
  unfoldable pub normalize_parts : Value → Value → Value → Option Definition
  normalize_parts (str name) description schema = check (is_tool_name name) (
      bind (description_text name description) (λ words.
        bind (bounded_text u words 4_096 false) (λ short.
          bind (copy_plain_json max_input_bytes schema) (λ copied.
            check (valid_schema u max_levels copied && is_object_schema copied)
              (some (record { name = name; description = short; input_schema = copied }))))))
  normalize_parts _ description schema = none

  unfoldable pub normalize_tool_schema : Value → Option Definition
  unfolding spec_parts normalize_parts
  normalize_tool_schema spec =
      bind (spec_parts spec)
        (λ (name, description, schema). normalize_parts name description schema)

  -- The loop, with the definitions by name so far
  unfoldable pub collect : List Value → List Definition → Option (List Definition)
  unfolding normalize_tool_schema
  collect [] found_so_far = some found_so_far
  collect (spec ∷ specs) found_so_far = bind (normalize_tool_schema spec) (λ definition.
      check (not (contains (map (λ d. d.name) found_so_far) definition.name))
        (collect specs (definition ∷ found_so_far)))

  unfoldable pub normalize_tool_schemas : Value → Option (List Definition)
  unfolding collect sort
  normalize_tool_schemas specs =
      bind (iterated specs) (λ items. bind (collect items []) (λ found_all. some (sort found_all)))
