-- ===== src/TurnInput/DataUrl.antt =====
-- turn_input.py: `_DATA_URL`.
use hermes_claude_agent_sdk.Common.{
  ℕ, code, String, Bool, true, ◌&&◌, ◌||◌, Option, none, some, ◌==◌, leb, nat_eq, if◌then◌else◌,
}

-- What `_DATA_URL` matches: the media type and the data
unfoldable pub after : String → String → Option String
after String.[] s = some s
after (String.◌∷◌ c p) String.[] = none
after (String.◌∷◌ c p) (String.◌∷◌ d s) =
    let rest = after p s in if nat_eq (code c) (code d) then rest else none

abbrev is_data_char : ℕ → Bool
is_data_char c =
    (leb b'A' c && leb c b'Z')
    || (leb b'a' c && leb c b'z')
    || (leb b'0' c && leb c b'9')
    || nat_eq c b'+'
    || nat_eq c b'/'

-- `[A-Za-z0-9+/]*={0,2}`
unfoldable pub is_data : String → Bool
is_data String.[] = true
is_data (String.◌∷◌ c s) =
    let rest = is_data s in
    if is_data_char (code c) then rest else (String.◌∷◌ c s == "=") || (String.◌∷◌ c s == "==")

unfoldable pub data_of : String → String → Option (String × String)
unfolding is_data
data_of media s = if is_data s then some (media, s) else none

abbrev first_of : Option (String × String) → Option (String × String) → Option (String × String)
first_of none other = other
first_of (some r) other = some r

abbrev with_media : String → Option String → Option (String × String)
with_media media none = none
with_media media (some s) = data_of media s

-- `_DATA_URL.fullmatch`
unfoldable pub data_url : String → Option (String × String)
unfolding after data_of
data_url s = first_of (with_media "image/gif" (after "data:image/gif;base64," s)) (
    first_of (with_media "image/jpeg" (after "data:image/jpeg;base64," s)) (
      first_of (with_media "image/png" (after "data:image/png;base64," s))
        (with_media "image/webp" (after "data:image/webp;base64," s))))
