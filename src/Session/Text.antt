-- ===== src/Session/Text.antt =====
-- content_events.py: the final text of one projected message, which is all that a turn keeps of it.
use hermes_claude_agent_sdk.Common.{
  String, List, [], ◌∷◌, Option, none, some, ◌==◌, map, if◌then◌else◌,
}
use hermes_claude_agent_sdk.Python.{
  Value, null, str, list, tuple, set, dict, class_name, is_true, is_truthy, attr, to_list, entries,
}
use hermes_claude_agent_sdk.Python.Text

-- `_MAX_TEXT_CHARS`
abbrev safe_text : Value → String
safe_text (str s) = Text.take 4000 s
safe_text _ = ""

-- The members that a `for` loop over `content or ()` visits; `none` is its `TypeError`. The
-- characters of a text are no blocks.
iterate : Value → Option (List Value)
unfolding is_truthy to_list entries
iterate (list xs) = some (to_list xs)
iterate (tuple xs) = some (to_list xs)
iterate (set xs) = some (to_list xs)
iterate (dict fs) = some (map (λ (k, _). k) (entries fs))
iterate (str _) = some []
iterate v = if is_truthy v then none else some []

text_parts : List Value → List String
unfolding class_name attr
text_parts [] = []
text_parts (block ∷ blocks) =
    let rest = text_parts blocks in
    let text = safe_text (attr block "text" null) in
    if class_name block == "TextBlock"
    then if Text.is_empty text then rest else text ∷ rest
    else rest

unfoldable pub join_lines : List String → String
join_lines [] = ""
join_lines (part ∷ []) = part
join_lines (part ∷ parts) = Text.append part (String.◌∷◌ "\n" (join_lines parts))

abbrev nonempty : String → Option String
nonempty s = if Text.is_empty s then none else some s

-- `ProjectionResult.final_text`
pub data Projection : Type 0 where
  failed : Projection
  text : Option String → Projection

assistant_text : Value → Projection
unfolding iterate text_parts join_lines attr
assistant_text message = elim (iterate (attr message "content" null)) [
  | none ↦ failed
  | some blocks ↦ text (nonempty (Text.take 4000 (join_lines (text_parts blocks))))
]

result_text : Value → Projection
unfolding is_true attr
result_text message = text (
    if is_true (attr message "is_error" null)
    then none
    else nonempty (safe_text (attr message "result" null)))

-- `project(message).final_text`
pub project : Value → Projection
unfolding class_name assistant_text result_text
project message =
    if class_name message == "AssistantMessage"
    then assistant_text message
    else if class_name message == "ResultMessage"
    then result_text message
    else text none
