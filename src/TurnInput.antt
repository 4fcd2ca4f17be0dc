-- ===== src/TurnInput.antt =====
-- turn_input.py: the prompt that is made of the last user message. A sequence is a list or a tuple.
pub mod Failing
pub mod Base64
pub mod Words
pub mod Length
pub mod DataUrl
pub mod Images
pub mod Sources
pub mod Bounds
pub mod Blocks
mod Tests
use hermes_claude_agent_sdk.Common.{
  ℕ, zero, suc, ◌+◌, ◌-◌, ◌*◌, ◌/◌, ◌≤◌, Char, code, String, Bool, true, false, not, ◌&&◌, ◌||◌,
  List, [], ◌∷◌, Option, none, some, ◌==◌, ltb, leb, nat_eq, contains, if◌then◌else◌,
}
use hermes_claude_agent_sdk.Python.{
  Value, null, str, list, tuple, set, dict, broken, Items, nil, cons, Fields, end, field, lookup,
  dict_get, attr, eq_str,
}
use hermes_claude_agent_sdk.Python.Text
use hermes_claude_agent_sdk.Session.Text.{join_lines}
use hermes_claude_agent_sdk.TurnInput.Base64.{size, encode}
use hermes_claude_agent_sdk.TurnInput.Failing.{
  Failure, image_invalid, image_too_large, too_many_images, images_too_large, uncaught, Result, ok,
  failed, chain,
}
use hermes_claude_agent_sdk.TurnInput.Words.{bounded_text}
use hermes_claude_agent_sdk.TurnInput.Images.{ImageSource, Decoders, block_images}

-- `SDKTurnInput`
pub record RichTurn : Type 0 where
  pub text : String
  pub images : List ImageSource

-- What is built: nothing, a text, or a rich turn
pub data Prompt : Type 0 where
  nothing : Prompt
  plain : String → Prompt
  rich : RichTurn → Prompt

unfoldable pub reverse_items : Items → Items → Items
reverse_items nil done = done
reverse_items (cons x xs) done = reverse_items xs (cons x done)

abbrev pub text_prompt : Option String → Prompt
text_prompt none = nothing
text_prompt (some t) = plain t

abbrev pub or_question : Option String → String
or_question none = "What do you see in this image?"
or_question (some t) = t

abbrev pub rich_prompt : Option String → List ImageSource → Prompt
rich_prompt t [] = text_prompt t
rich_prompt t (i ∷ is) = rich (record { text = or_question t; images = i ∷ is })

module _ (d : Decoders) where
  -- The content of the last user message
  unfoldable pub content_prompt : Value → Result Prompt
  unfolding bounded_text block_images chain
  content_prompt (str s) = chain (bounded_text (str s)) (λ t. ok (text_prompt t))
  content_prompt (list blocks) =
      chain (bounded_text (list blocks))
        (λ t. chain (block_images d blocks 0 0) (λ images. ok (rich_prompt t images)))
  content_prompt (tuple blocks) =
      chain (bounded_text (tuple blocks))
        (λ t. chain (block_images d blocks 0 0) (λ images. ok (rich_prompt t images)))
  content_prompt _ = ok nothing

  -- The loop over the messages, the last one first
  unfoldable pub last_user : Items → Result Prompt
  unfolding content_prompt eq_str dict_get
  last_user nil = ok nothing
  last_user (cons (dict fs) messages) =
      let earlier = last_user messages in
      if eq_str (dict_get (dict fs) "role") "user"
      then content_prompt (dict_get (dict fs) "content")
      else earlier
  last_user (cons broken messages) = failed uncaught
  last_user (cons _ messages) = last_user messages

  unfoldable pub messages_prompt : Value → Result Prompt
  unfolding last_user reverse_items
  messages_prompt (list messages) = last_user (reverse_items messages nil)
  messages_prompt (tuple messages) = last_user (reverse_items messages nil)
  messages_prompt _ = ok nothing

  -- `build_sdk_turn_input`
  unfoldable pub build_sdk_turn_input : Value → Result Prompt
  unfolding messages_prompt attr
  build_sdk_turn_input request = messages_prompt (attr request "messages" (tuple nil))
