-- ===== src/PromptContext.antt =====
-- prompt_context.py: `_safe_text` and `_safe_relative_path`, with which the texts and the paths of
-- a host snapshot are cut down.
pub mod Paths
mod Tests
use hermes_claude_agent_sdk.Common.{
  ℕ, zero, suc, ◌-◌, ◌≤◌, code, String, ◌≡◌, refl, Bool, true, false, not, ◌&&◌, ◌||◌, List, [],
  ◌∷◌, ◌++◌, arith, ◌==◌, nat_eq, any, if◌then◌else◌, if-elim, append-nil, append_assoc,
}
use hermes_claude_agent_sdk.Python.{Value, null, str, list, tuple, dict, broken}
use hermes_claude_agent_sdk.Python.Text

-- `str(value)` of what is no text, `_SENSITIVE_VALUE_RE.sub("[redacted]", text)`, and whether
-- `_SENSITIVE_KEY_RE` is found in a text
pub record Patterns : Type 0 where
  pub text_of : Value → String
  pub redact : String → String
  pub is_sensitive : String → Bool

abbrev pub starts_rooted : String → Bool
starts_rooted String.[] = true
starts_rooted (String.◌∷◌ c s) = nat_eq (code c) b'/' || nat_eq (code c) b'~'

abbrev pub is_special : String → Bool
is_special component = (component == "") || (component == ".") || (component == "..")

module _ (u : Patterns) where
  unfoldable pub clean : ℕ → String → String
  unfolding Text.strip Text.remove_char
  clean limit text = Text.take limit (u.redact (Text.strip (Text.remove_char 0 text)))

  -- `_safe_text`
  unfoldable pub safe_text : Value → ℕ → String
  unfolding clean
  safe_text null limit = ""
  safe_text (dict fs) limit = ""
  safe_text broken limit = ""
  safe_text (list xs) limit = ""
  safe_text (tuple xs) limit = ""
  safe_text (str s) limit = clean limit s
  safe_text v limit = clean limit (u.text_of v)

  -- A path whose separators are slashes
  unfoldable pub kept_path : String → String
  unfolding Text.split
  kept_path path =
      if starts_rooted path
      then ""
      else if any is_special (Text.split b'/' path)
      then ""
      else if any u.is_sensitive (Text.split b'/' path)
      then ""
      else path

  -- `_safe_relative_path`
  unfoldable pub safe_relative_path : Value → String
  unfolding kept_path safe_text
  safe_relative_path value = kept_path (Text.replace b'\\' "/" (safe_text value 240))
