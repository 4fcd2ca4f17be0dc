-- ===== src/TurnInput/Base64.antt =====
-- turn_input.py: `base64.b64encode`, by groups of three bytes, as the standard library has it.
use hermes_claude_agent_sdk.Common.{
  ℕ, zero, suc, ◌+◌, ◌*◌, ◌/◌, ◌%◌, Char, String, ◌≡◌, refl, List, [], ◌∷◌, arith,
}
use hermes_claude_agent_sdk.Python.Text

abbrev alphabet : String
alphabet = "ABCDEFGHIJKLMNOPQRSTUVWXYZabcdefghijklmnopqrstuvwxyz0123456789+/"

char_at : String → ℕ → Char
char_at String.[] n = "="
char_at (String.◌∷◌ c s) zero = c
char_at (String.◌∷◌ c s) (suc n) = char_at s n

-- The character of six bits
unfoldable digit : ℕ → Char
unfolding char_at
digit n = char_at alphabet n

abbrev quad : Char → Char → Char → Char → String → String
quad a b c d s = String.◌∷◌ a (String.◌∷◌ b (String.◌∷◌ c (String.◌∷◌ d s)))

abbrev pub size : List ℕ → ℕ
size [] = 0
size (b ∷ bytes) = suc (size bytes)

-- `base64.b64encode`, of bytes
unfoldable pub encode : List ℕ → String
unfolding digit
encode [] = ""
encode (a ∷ []) = quad (digit (a / 4)) (digit (a % 4 * 16)) "=" "=" ""
encode (a ∷ b ∷ []) = quad (digit (a / 4)) (digit (a % 4 * 16 + b / 16)) (digit (b % 16 * 4)) "=" ""
encode (a ∷ b ∷ c ∷ bytes) =
    quad (digit (a / 4)) (digit (a % 4 * 16 + b / 16)) (digit (b % 16 * 4 + c / 64))
      (digit (c % 64)) (encode bytes)

known : encode (77 ∷ 97 ∷ 110 ∷ 77 ∷ []) ≡ "TWFuTQ=="
unfolding encode
known = refl

-- Four characters for every three bytes or part of three
pub length-encode : (bytes : List ℕ) → Text.length (encode bytes) ≡ (size bytes + 2) / 3 * 4
unfolding encode
length-encode [] = refl
length-encode (a ∷ []) = refl
length-encode (a ∷ b ∷ []) = refl
length-encode (a ∷ b ∷ c ∷ bytes) = ground (arith, length-encode bytes)
