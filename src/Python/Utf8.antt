-- ===== src/Python/Utf8.antt =====
-- The UTF-8 size of texts, `len(text.encode("utf-8"))`, and the longest prefix that fits a size.
use hermes_claude_agent_sdk.Common.{
  ℕ, ◌+◌, ◌-◌, ◌≤◌, code, String, ◌≡◌, Bool, true, ◌&&◌, Option, none, some, arith, ltb, leb,
  if-elim, if◌then◌else◌,
}
use hermes_claude_agent_sdk.Python.Text

-- A surrogate cannot be encoded.
abbrev pub is_surrogate : ℕ → Bool
is_surrogate c = leb 0xd800 c && leb c 0xdfff

unfoldable pub width : ℕ → ℕ
width c = if ltb c 0x80 then 1 else if ltb c 0x800 then 2 else if ltb c 0x10000 then 3 else 4

-- The bytes of a text without surrogates
unfoldable pub bytes : String → ℕ
unfolding width
bytes String.[] = 0
bytes (String.◌∷◌ c s) = width (code c) + bytes s

-- `none` is a `UnicodeError`.
unfoldable pub size : String → Option ℕ
unfolding bytes Text.any_char
size s = if Text.any_char is_surrogate s then none else some (bytes s)

-- The longest prefix of at most so many bytes
unfoldable pub fit : ℕ → String → String
unfolding width
fit limit String.[] = ""
fit limit (String.◌∷◌ c s) =
    let rest = fit (limit - width (code c)) s in
    if leb (width (code c)) limit then String.◌∷◌ c rest else ""

fits : (w rest limit : ℕ) → leb w limit ≡ true → rest ≤ limit - w → w + rest ≤ limit
fits w rest limit e h = ground arith

pub bytes-fit : (limit : ℕ) (s : String) → bytes (fit limit s) ≤ limit
unfolding bytes fit
bytes-fit limit String.[] = omega arith
bytes-fit limit (String.◌∷◌ c s) =
    if-elim (λ t. bytes t ≤ limit) (leb (width (code c)) limit)
      (λ e. fits (width (code c)) _ limit e (bytes-fit (limit - width (code c)) s))
      (λ _. omega arith)

pub bytes-append : (s t : String) → bytes (Text.append s t) ≡ bytes s + bytes t
unfolding bytes Text.append
bytes-append String.[] t = omega arith
bytes-append (String.◌∷◌ c s) t = omega (arith, bytes-append s t)

-- `reversed(text)`, joined
unfoldable pub reverse_onto : String → String → String
reverse_onto String.[] t = t
reverse_onto (String.◌∷◌ c s) t = reverse_onto s (String.◌∷◌ c t)

pub bytes-reverse_onto : (s t : String) → bytes (reverse_onto s t) ≡ bytes s + bytes t
unfolding bytes reverse_onto
bytes-reverse_onto String.[] t = omega arith
bytes-reverse_onto (String.◌∷◌ c s) t = omega (arith, bytes-reverse_onto s (String.◌∷◌ c t))
