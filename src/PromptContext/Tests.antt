-- ===== src/PromptContext/Tests.antt =====
-- The theorem on safe paths, for one path.
use hermes_claude_agent_sdk.Common.{◌≡◌, refl, ◌⊎◌, false, any}
use hermes_claude_agent_sdk.Python.{str}
use hermes_claude_agent_sdk.Python.Text
use hermes_claude_agent_sdk.PromptContext.{
  Patterns, clean, safe_text, kept_path, safe_relative_path,
}
use hermes_claude_agent_sdk.PromptContext.Paths.{IsRelative, safe_relative_path-IsRelative}

abbrev patterns : Patterns
patterns = record { text_of = λ v. ""; redact = λ s. s; is_sensitive = λ s. false }

windows : safe_relative_path patterns (str " docs\\guide.md ") ≡ "docs/guide.md"
unfolding safe_relative_path kept_path safe_text clean any Text.strip Text.remove_char Text.replace
    Text.split
windows = refl

climbing : safe_relative_path patterns (str "docs\\..\\..\\x") ≡ ""
unfolding safe_relative_path kept_path safe_text clean any Text.strip Text.remove_char Text.replace
    Text.split
climbing = refl

safe_relative_path-IsRelative_example :
    (safe_relative_path patterns (str " docs\\guide.md ") ≡ "")
    ⊎ IsRelative patterns (safe_relative_path patterns (str " docs\\guide.md "))
safe_relative_path-IsRelative_example =
    safe_relative_path-IsRelative patterns (str " docs\\guide.md ")
