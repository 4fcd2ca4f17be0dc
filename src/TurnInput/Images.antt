-- ===== src/TurnInput/Images.antt =====
-- turn_input.py: `SDKImageSource`, `_image_source` and the loop over the images. What is not of the
-- repository's own, the decoding and the splitting, is a parameter.
use hermes_claude_agent_sdk.Common.{
  ℕ, ◌+◌, ◌*◌, ◌/◌, String, Bool, true, false, not, ◌&&◌, ◌||◌, List, [], ◌∷◌, Option, none, some,
  ◌==◌, leb, nat_eq, contains, if◌then◌else◌,
}
use hermes_claude_agent_sdk.Python.{
  Value, str, dict, broken, Items, nil, cons, Fields, dict_get, eq_str, is_hashable,
}
use hermes_claude_agent_sdk.Python.Text
use hermes_claude_agent_sdk.TurnInput.Base64.{size, encode}
use hermes_claude_agent_sdk.TurnInput.DataUrl.{data_url}
use hermes_claude_agent_sdk.TurnInput.Failing.{
  image_invalid, image_too_large, too_many_images, images_too_large, uncaught, Result, ok, failed,
  chain,
}

-- `SDKImageSource`
pub record ImageSource : Type 0 where
  pub source_type : String
  pub media_type : Option String
  pub value : String
  pub decoded_bytes : ℕ

-- What `urlsplit` finds in an URL
pub record Url : Type 0 where
  pub scheme : String
  pub netloc : String
  pub username : Option String
  pub password : Option String

-- `base64.b64decode(text, validate=True)`, whose care about surplus padding differs among the
-- supported versions of Python, and `urlsplit`; `none` is an exception.
pub record Decoders : Type 0 where
  pub decode : String → Option (List ℕ)
  pub urlsplit : String → Option Url

abbrev pub max_images_per_turn : ℕ
max_images_per_turn = 4

abbrev pub max_image_bytes : ℕ
max_image_bytes = 5 * 1_024 * 1_024

abbrev pub max_total_image_bytes : ℕ
max_total_image_bytes = 8 * 1_024 * 1_024

abbrev pub max_image_url_length : ℕ
max_image_url_length = 2_048

-- `_ALLOWED_MEDIA_TYPES`
abbrev pub allowed_media_types : List String
allowed_media_types = "image/gif" ∷ "image/jpeg" ∷ "image/png" ∷ "image/webp" ∷ []

abbrev pub max_encoded : ℕ
max_encoded = (max_image_bytes + 2) / 3 * 4

-- The source of decoded bytes
unfoldable pub decoded_source : String → Option (List ℕ) → Result ImageSource
unfolding encode
decoded_source media none = failed image_invalid
decoded_source media (some bytes) =
    if nat_eq (size bytes) 0
    then failed image_invalid
    else if leb (size bytes) max_image_bytes
    then ok (record {
      source_type = "base64";
      media_type = some media;
      value = encode bytes;
      decoded_bytes = size bytes;
    })
    else failed image_too_large

abbrev pub is_given : Option String → Bool
is_given none = false
is_given (some _) = true

-- The source of a split URL
unfoldable pub split_source : String → Option Url → Result ImageSource
split_source value none = failed uncaught
split_source value (some url) =
    if (url.scheme == "https")
      && not (Text.is_empty url.netloc)
      && not (is_given url.username)
      && not (is_given url.password)
    then ok (record { source_type = "url"; media_type = none; value = value; decoded_bytes = 0 })
    else failed image_invalid

-- One image more, under the limits
abbrev pub add_image :
    Option ImageSource → ℕ → ℕ → (ℕ → ℕ → Result (List ImageSource)) → Result (List ImageSource)
add_image none count total more = more count total
add_image (some i) count total more =
    let rest = more (count + 1) (total + i.decoded_bytes) in
    if leb (count + 1) max_images_per_turn
    then if leb (total + i.decoded_bytes) max_total_image_bytes
      then chain rest (λ is. ok (i ∷ is))
      else failed images_too_large
    else failed too_many_images

module _ (d : Decoders) where
  -- `_base64_source` of a media type that is allowed
  unfoldable pub data_source : String → Value → Result ImageSource
  unfolding decoded_source
  data_source media (str s) =
      if Text.is_empty s
      then failed image_invalid
      else if leb (Text.length s) max_encoded
      then decoded_source media (d.decode s)
      else failed image_too_large
  data_source media _ = failed image_invalid

  -- `_base64_source`
  unfoldable pub base64_source : Value → Value → Result ImageSource
  unfolding data_source is_hashable
  base64_source (str media) value =
      if contains allowed_media_types media then data_source media value else failed image_invalid
  base64_source media value = if is_hashable media then failed image_invalid else failed uncaught

  -- `_url_source`
  unfoldable pub url_source : Value → Result ImageSource
  unfolding split_source
  url_source (str s) =
      if Text.is_empty s
      then failed image_invalid
      else if leb (Text.length s) max_image_url_length
      then split_source s (d.urlsplit s)
      else failed image_invalid
  url_source _ = failed image_invalid

  abbrev pub matched_source : String → Option (String × String) → Result ImageSource
  matched_source s none = url_source (str s)
  matched_source s (some (media, text)) = base64_source (str media) (str text)

  unfoldable pub text_source : Value → Result ImageSource
  unfolding data_url url_source base64_source
  text_source (str s) = matched_source s (data_url s)
  text_source _ = failed image_invalid

  -- The image of `image_url` and `input_image`
  unfoldable pub image_url_source : Value → Result ImageSource
  unfolding text_source dict_get
  image_url_source (dict fs) = text_source (dict_get (dict fs) "url")
  image_url_source broken = failed uncaught
  image_url_source v = text_source v

  -- The source of an `image`
  unfoldable pub source_source : Value → Result ImageSource
  unfolding base64_source url_source eq_str dict_get
  source_source (dict fs) =
      let kind = dict_get (dict fs) "type" in
      if eq_str kind "base64"
      then base64_source (dict_get (dict fs) "media_type") (dict_get (dict fs) "data")
      else if eq_str kind "url"
      then url_source (dict_get (dict fs) "url")
      else failed image_invalid
  source_source broken = failed uncaught
  source_source _ = failed image_invalid

  -- `_image_source`, of the fields of a block
  unfoldable pub image_source : Fields → Result (Option ImageSource)
  unfolding chain image_url_source source_source is_hashable eq_str dict_get
  image_source fs =
      let kind = dict_get (dict fs) "type" in
      if eq_str kind "image_url" || eq_str kind "input_image"
      then chain (image_url_source (dict_get (dict fs) "image_url")) (λ i. ok (some i))
      else if not (is_hashable kind)
      then failed uncaught
      else if eq_str kind "image"
      then chain (source_source (dict_get (dict fs) "source")) (λ i. ok (some i))
      else ok none

  unfoldable pub block_image : Value → Result (Option ImageSource)
  unfolding image_source
  block_image (dict fs) = image_source fs
  block_image broken = failed uncaught
  block_image _ = ok none

  -- The loop over the blocks, with the images and the bytes so far
  unfoldable pub block_images : Items → ℕ → ℕ → Result (List ImageSource)
  unfolding chain block_image
  block_images nil count total = ok []
  block_images (cons block blocks) count total =
      chain (block_image block) (λ i. add_image i count total (λ n t. block_images blocks n t))
