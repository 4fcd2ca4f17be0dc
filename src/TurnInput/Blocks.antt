-- ===== src/TurnInput/Blocks.antt =====
-- turn_input.py: the message that a rich turn is sent as, and its images read again.
use hermes_claude_agent_sdk.Common.{
  ℕ, ◌≤◌, String, ◌≡◌, refl, sym, subst, ap, ◌∙◌, inl, inr, true, false, List, [], ◌∷◌, Option,
  none, some, ◌==◌, arith, leb, nat_eq, contains, if◌then◌else◌,
}
use hermes_claude_agent_sdk.Python.{
  Value, null, str, list, dict, Items, nil, cons, end, field, eq_str, dict_get, is_hashable,
}
use hermes_claude_agent_sdk.Python.Text
use hermes_claude_agent_sdk.TurnInput.Failing.{ok, chain}
use hermes_claude_agent_sdk.TurnInput.Base64.{size, encode}
use hermes_claude_agent_sdk.TurnInput.Images.{
  ImageSource, Url, Decoders, max_image_bytes, max_image_url_length, allowed_media_types,
  max_encoded, decoded_source, is_given, split_source, data_source, base64_source, url_source,
  source_source, image_source, block_image,
}
use hermes_claude_agent_sdk.TurnInput.Sources.{IsSound}
use hermes_claude_agent_sdk.TurnInput.{RichTurn}

abbrev or_null : Option String → Value
or_null none = null
or_null (some s) = str s

abbrev two : String → Value → String → Value → Value
two k v l w = dict (field (str k) v (field (str l) w end))

-- `as_content_block`
unfoldable pub as_content_block : ImageSource → Value
as_content_block i = two "type" (str "image") "source" (
    if i.source_type == "base64"
    then dict (
        field (str "type") (str "base64")
          (field (str "media_type") (or_null i.media_type) (field (str "data") (str i.value) end)))
    else two "type" (str "url") "url" (str i.value))

unfoldable pub content_blocks : List ImageSource → Items
unfolding as_content_block
content_blocks [] = nil
content_blocks (i ∷ is) = cons (as_content_block i) (content_blocks is)

-- `as_sdk_message`
unfoldable pub as_sdk_message : RichTurn → Value
unfolding content_blocks
as_sdk_message r =
    let content =
      list (cons (two "type" (str "text") "text" (str r.text)) (content_blocks r.images)) in
    dict (
      field (str "type") (str "user") (
        field (str "message") (two "role" (str "user") "content" content)
          (field (str "parent_tool_use_id") null end)))

abbrev encoded : String → List ℕ → ImageSource
encoded media bytes = record {
  source_type = "base64";
  media_type = some media;
  value = encode bytes;
  decoded_bytes = size bytes;
}

abbrev linked : String → ImageSource
linked value = record { source_type = "url"; media_type = none; value = value; decoded_bytes = 0 }

module _ (d : Decoders) where
  encoded-again :
      (media : String) (bytes : List ℕ)
      → contains allowed_media_types media ≡ true
      → d.decode (encode bytes) ≡ some bytes
      → nat_eq (size bytes) 0 ≡ false
      → leb (size bytes) max_image_bytes ≡ true
      → Text.is_empty (encode bytes) ≡ false
      → leb (Text.length (encode bytes)) max_encoded ≡ true
      → block_image d (as_content_block (encoded media bytes)) ≡ ok (some (encoded media bytes))
  unfolding block_image as_content_block image_source source_source base64_source data_source
      decoded_source is_hashable chain dict_get eq_str
  encoded-again media bytes a e p q f l = rw (a, f, l, e, p, q) refl

  linked-again :
      (value : String) (url : Url)
      → d.urlsplit value ≡ some url
      → Text.is_empty value ≡ false
      → leb (Text.length value) max_image_url_length ≡ true
      → (url.scheme == "https") ≡ true
      → Text.is_empty url.netloc ≡ false
      → is_given url.username ≡ false
      → is_given url.password ≡ false
      → block_image d (as_content_block (linked value)) ≡ ok (some (linked value))
  unfolding block_image as_content_block image_source source_source url_source split_source
      is_hashable chain dict_get eq_str
  linked-again value url e f l s n u p = rw (f, l, e, s, n, u, p) refl

encode-nonempty : (bytes : List ℕ) → 1 ≤ size bytes → Text.is_empty (encode bytes) ≡ false
unfolding encode
encode-nonempty [] h = absurd (omega arith)
encode-nonempty (a ∷ []) h = refl
encode-nonempty (a ∷ b ∷ []) h = refl
encode-nonempty (a ∷ b ∷ c ∷ bytes) h = refl

of_fields : String → Option String → String → ℕ → ImageSource
of_fields a b c e = record { source_type = a; media_type = b; value = c; decoded_bytes = e }

source-equal :
    (i j : ImageSource)
    → i.source_type ≡ j.source_type
    → i.media_type ≡ j.media_type
    → i.value ≡ j.value
    → i.decoded_bytes ≡ j.decoded_bytes
    → j ≡ i
unfolding of_fields
source-equal i j p q r s =
    ap (λ a. of_fields a j.media_type j.value j.decoded_bytes) (sym p)
    ∙ ap (λ b. of_fields i.source_type b j.value j.decoded_bytes) (sym q)
    ∙ ap (λ c. of_fields i.source_type i.media_type c j.decoded_bytes) (sym r)
    ∙ ap (λ e. of_fields i.source_type i.media_type i.value e) (sym s)

leb-true : (m n : ℕ) → m ≤ n → leb m n ≡ true
leb-true m n h = ground arith

-- Where b64decode reads the encoding of what it decoded as the same bytes, the content block of
-- every sound image is accepted, and read as that image.
pub block_image-as_content_block :
    (d : Decoders)
    → ((s : String) (bytes : List ℕ)
        → d.decode s ≡ some bytes
        → d.decode (encode bytes) ≡ some bytes)
    → (i : ImageSource) → IsSound d i
    → block_image d (as_content_block i) ≡ ok (some i)
block_image-as_content_block d again i (inl k) =
    subst (λ x. block_image d (as_content_block x) ≡ ok (some x))
      (source-equal i (encoded k.media k.bytes) k.encoding k.typed k.encoded k.counted)
      (encoded-again d k.media k.bytes k.allowed (again k.given k.bytes k.decoded)
        (let h = k.nonempty in ground arith) (leb-true (size k.bytes) max_image_bytes k.bounded)
        (encode-nonempty k.bytes k.nonempty)
        (leb-true (Text.length (encode k.bytes)) max_encoded
          (subst (λ t. Text.length t ≤ max_encoded) k.encoded k.fits)))
block_image-as_content_block d again i (inr k) =
    subst (λ x. block_image d (as_content_block x) ≡ ok (some x))
      (source-equal i (linked i.value) k.linking k.untyped refl k.uncounted)
      (linked-again d i.value k.url k.found k.filled
        (leb-true (Text.length i.value) max_image_url_length k.short) k.secure k.named k.no_username
        k.no_password)
