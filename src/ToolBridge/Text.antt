-- ===== src/ToolBridge/Text.antt =====
-- tool_bridge.py: `_bounded_text` and `_safe_identifier`. The tables of Unicode and the engine of
-- the regular expressions are parameters.
use hermes_claude_agent_sdk.Common.{
  ℕ, ◌-◌, ◌/◌, ◌≤◌, code, String, ◌≡◌, refl, Bool, false, not, ◌&&◌, ◌||◌, List, [], ◌∷◌, Option,
  some, arith, subst, leb, nat_eq, if◌then◌else◌, if-elim,
}
use hermes_claude_agent_sdk.Common.Options.{bind, bind-some, some-inj}
use hermes_claude_agent_sdk.Python.Text
use hermes_claude_agent_sdk.Python.Utf8

-- `is_other` says whether the category of a code point starts with C, and `substitute` is
-- `re.compile(pattern).sub("[redacted]", value)`.
pub record Texts : Type 0 where
  pub is_other : ℕ → Bool
  pub substitute : String → String → String

-- `_SECRET_LIKE_PATTERNS`
abbrev pub secret_like_patterns : List String
secret_like_patterns =
    "(?i)\\bbearer\\s+[A-Za-z0-9._~+/=-]{8,}" ∷ "\\bsk-[A-Za-z0-9_-]{8,}\\b"
    ∷ "\\bAKIA[0-9A-Z]{16}\\b"
    ∷ "(?i)\\b(?:api[_-]?key|access[_-]?token|auth[_-]?token|password|secret)\\s*[:=]\\s*[^\\s,;]+"
    ∷ []

module _ (u : Texts) where
  redact_all : List String → String → String
  redact_all [] value = value
  redact_all (pattern_text ∷ patterns) value = redact_all patterns (u.substitute pattern_text value)

  -- `_redact_secret_like`
  unfoldable pub redact_secret_like : String → String
  unfolding redact_all
  redact_secret_like value = redact_all secret_like_patterns value

  unfoldable pub blank_others : String → String
  blank_others String.[] = ""
  blank_others (String.◌∷◌ c s) =
      String.◌∷◌ (if u.is_other (code c) then " " else c) (blank_others s)

abbrev starts_word : String → Bool
starts_word String.[] = false
starts_word (String.◌∷◌ c s) = not (Text.is_space (code c))

-- After the leading blanks, a blank is kept as a space just before a word.
unfoldable pub gaps : String → String
unfolding Text.is_space
gaps String.[] = ""
gaps (String.◌∷◌ c s) =
    let rest = gaps s in
    if Text.is_space (code c)
    then if starts_word s then String.◌∷◌ " " rest else rest
    else String.◌∷◌ c rest

-- `" ".join(value.split())`
unfoldable pub squeeze : String → String
unfolding gaps Text.lstrip
squeeze s = gaps (Text.lstrip s)

abbrev marker : String
marker = " … [truncated] … "

abbrev marker_bytes : ℕ
marker_bytes = 21

marker_size : Utf8.bytes marker ≡ marker_bytes
unfolding Utf8.bytes Utf8.width
marker_size = refl

-- The head and the tail that fit half of the limit each, with the marker between.
unfoldable pub cut_middle : ℕ → String → String
cut_middle limit value =
    let remaining = limit - marker_bytes in
    let head_limit = remaining / 2 in
    let tail_limit = remaining - head_limit in
    Text.append (Utf8.fit head_limit value)
      (Text.append marker (Utf8.reverse_onto (Utf8.fit tail_limit (Utf8.reverse_onto value "")) ""))

unfoldable pub truncate : ℕ → String → String
truncate limit value =
    if leb (Utf8.bytes value) limit
    then value
    else if leb limit marker_bytes
    then Utf8.fit limit marker
    else cut_middle limit value

-- `_bounded_text` of a text; `none` is its `None`.
unfoldable pub bounded_text : Texts → String → ℕ → Bool → Option String
unfolding truncate squeeze blank_others redact_secret_like
bounded_text u value limit redact =
    let cleaned = squeeze (blank_others u (if redact then redact_secret_like u value else value)) in
    bind (Utf8.size cleaned) (λ _. some (truncate limit cleaned))

empty_size : Utf8.bytes "" ≡ 0
unfolding Utf8.bytes
empty_size = refl

cut_middle-bytes :
    (limit : ℕ) (value : String)
    → leb limit marker_bytes ≡ false
    → Utf8.bytes (cut_middle limit value) ≤ limit
unfolding cut_middle
cut_middle-bytes limit value h =
    let remaining = limit - marker_bytes in
    let head = Utf8.fit (remaining / 2) value in
    let last = Utf8.fit (remaining - remaining / 2) (Utf8.reverse_onto value "") in
    let tail = Utf8.reverse_onto last "" in
    ground (
      arith,
      Utf8.bytes-append head (Text.append marker tail),
      Utf8.bytes-append marker tail,
      Utf8.bytes-reverse_onto last "",
      Utf8.bytes-fit (remaining / 2) value,
      Utf8.bytes-fit (remaining - remaining / 2) (Utf8.reverse_onto value ""),
      marker_size,
      empty_size,
    )

truncate-bytes : (limit : ℕ) (value : String) → Utf8.bytes (truncate limit value) ≤ limit
unfolding truncate
truncate-bytes limit value =
    if-elim (λ t. Utf8.bytes t ≤ limit) (leb (Utf8.bytes value) limit) (λ e. ground arith)
      (λ _.
        if-elim (λ t. Utf8.bytes t ≤ limit) (leb limit marker_bytes)
          (λ _. Utf8.bytes-fit limit marker) (λ e. cut_middle-bytes limit value e))

-- Whatever text is bounded, the result is at most `limit` bytes long.
pub bounded_text-bytes :
    (u : Texts) (value : String) (limit : ℕ) (redact : Bool) (t : String)
    → bounded_text u value limit redact ≡ some t
    → Utf8.bytes t ≤ limit
unfolding bounded_text
bounded_text-bytes u value limit redact t h =
    let (_, _, e) = bind-some _ _ t h in
    subst (λ x. Utf8.bytes x ≤ limit) (some-inj _ t e) (truncate-bytes limit _)

abbrev is_identifier_char : ℕ → Bool
is_identifier_char c =
    (leb b'A' c && leb c b'Z')
    || (leb b'a' c && leb c b'z')
    || (leb b'0' c && leb c b'9')
    || nat_eq c b'_'
    || nat_eq c b'.'
    || nat_eq c b':'
    || nat_eq c b'-'

-- `_safe_identifier` of a text, with `_SAFE_IDENTIFIER_RE`
unfoldable pub is_safe_identifier : String → ℕ → Bool
unfolding Utf8.bytes Text.any_char
is_safe_identifier value limit =
    not (Text.is_empty value)
    && leb (Utf8.bytes value) limit
    && not (Text.any_char (λ c. not (is_identifier_char c)) value)
