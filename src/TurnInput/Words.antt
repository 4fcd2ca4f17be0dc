-- ===== src/TurnInput/Words.antt =====
-- turn_input.py: `_bounded_text`.
use hermes_claude_agent_sdk.Common.{
  ℕ, ◌+◌, ◌-◌, String, List, [], ◌∷◌, Option, none, some, leb, if◌then◌else◌,
}
use hermes_claude_agent_sdk.Python.{
  Value, str, list, tuple, dict, broken, Items, nil, cons, dict_get, eq_str,
}
use hermes_claude_agent_sdk.Python.Text
use hermes_claude_agent_sdk.Session.Text.{join_lines}
use hermes_claude_agent_sdk.TurnInput.Failing.{uncaught, Result, ok, failed, chain}

abbrev pub max_turn_text : ℕ
max_turn_text = 32_000

abbrev pub if_nonempty : String → Option String
if_nonempty t = if Text.is_empty t then none else some t

unfoldable pub stripped : Value → Option String
unfolding Text.strip
stripped (str s) = if_nonempty (Text.strip s)
stripped _ = none

-- The stripped text of a block of text, if it has one
unfoldable pub block_text : Value → Result (Option String)
unfolding eq_str dict_get stripped
block_text broken = failed uncaught
block_text (dict fs) =
    if eq_str (dict_get (dict fs) "type") "text"
    then ok (stripped (dict_get (dict fs) "text"))
    else ok none
block_text _ = ok none

-- The loop over the blocks, with the characters used so far
abbrev pub add_part : Option String → ℕ → (ℕ → Result (List String)) → Result (List String)
add_part none used more = more used
add_part (some t) used more =
    let part = Text.take (max_turn_text - used) t in
    let rest = more (used + Text.length part) in
    if leb max_turn_text used then ok [] else chain rest (λ parts. ok (part ∷ parts))

unfoldable pub text_parts : Items → ℕ → Result (List String)
unfolding chain block_text
text_parts nil used = ok []
text_parts (cons block blocks) used =
    chain (block_text block) (λ t. add_part t used (λ n. text_parts blocks n))

abbrev pub cut : Option String → Option String
cut none = none
cut (some t) = some (Text.take max_turn_text t)

-- `_bounded_text`
unfoldable pub bounded_text : Value → Result (Option String)
unfolding text_parts join_lines chain Text.strip
bounded_text (str s) = ok (cut (if_nonempty (Text.strip s)))
bounded_text (list blocks) =
    chain (text_parts blocks 0) (λ parts. ok (if_nonempty (Text.strip (join_lines parts))))
bounded_text (tuple blocks) =
    chain (text_parts blocks 0) (λ parts. ok (if_nonempty (Text.strip (join_lines parts))))
bounded_text _ = ok none
