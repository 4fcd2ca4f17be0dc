-- ===== src/TurnInput/Tests.antt =====
-- The theorems on the building of a prompt, for one request.
use hermes_claude_agent_sdk.Common.{
  ℕ, ◌≡◌, refl, List, [], ◌∷◌, none, some, String, inl, arith, contains, any,
}
use hermes_claude_agent_sdk.Python.{
  Value, str, list, dict, object, nil, cons, lookup, dict_get, attr, eq_str, is_hashable,
}
use hermes_claude_agent_sdk.Python.Sample.{fields}
use hermes_claude_agent_sdk.Python.Text
use hermes_claude_agent_sdk.Session.Text.{join_lines}
use hermes_claude_agent_sdk.TurnInput.Failing.{ok, failed, uncaught, chain, Each}
use hermes_claude_agent_sdk.TurnInput.Base64.{encode}
use hermes_claude_agent_sdk.TurnInput.DataUrl.{after, data_of, is_data, data_url}
use hermes_claude_agent_sdk.TurnInput.Words.{stripped, block_text, text_parts, bounded_text}
use hermes_claude_agent_sdk.TurnInput.Images.{
  ImageSource, Decoders, decoded_source, split_source, data_source, base64_source, url_source,
  text_source, image_url_source, source_source, image_source, block_image, block_images,
}
use hermes_claude_agent_sdk.TurnInput.Sources.{IsSound}
use hermes_claude_agent_sdk.TurnInput.Blocks.{as_content_block, block_image-as_content_block}
use hermes_claude_agent_sdk.TurnInput.Bounds.{IsBounded, build_sdk_turn_input-IsBounded}
use hermes_claude_agent_sdk.TurnInput.{
  rich, reverse_items, content_prompt, last_user, messages_prompt, build_sdk_turn_input,
}

abbrev decoders : Decoders
decoders = record { decode = λ s. some (77 ∷ 97 ∷ 110 ∷ []); urlsplit = λ s. none }

abbrev request_of : Value → Value
request_of block = object "RuntimeRequest" (
    fields (
      (
        "messages",
        list (
            cons
              (dict (
                fields (
                  ("role", str "user")
                  ∷ (
                    "content",
                    list (
                        cons (dict (fields (("type", str "text") ∷ ("text", str " look ") ∷ [])))
                          (cons block nil)),
                  )
                  ∷ [])))
              nil),
      )
      ∷ []))

abbrev picture : Value
picture = dict (
    fields (
      ("type", str "image_url")
      ∷ ("image_url", dict (fields (("url", str "data:image/png;base64,TWFu") ∷ [])))
      ∷ []))

built :
    build_sdk_turn_input decoders (request_of picture)
    ≡ ok (
        rich (record {
          text = "look";
          images =
              record {
                source_type = "base64";
                media_type = some "image/png";
                value = "TWFu";
                decoded_bytes = 3;
              }
              ∷ [];
        }))
unfolding build_sdk_turn_input messages_prompt last_user content_prompt reverse_items block_images
    block_image image_source source_source image_url_source text_source url_source base64_source
    data_source split_source decoded_source is_hashable after data_of is_data data_url stripped
    block_text text_parts bounded_text join_lines chain encode lookup dict_get attr eq_str contains
    any Text.strip
built = refl

-- A type that cannot be hashed raises what is no validation failure.
escaped :
    build_sdk_turn_input decoders (request_of (dict (fields (("type", list nil) ∷ []))))
    ≡ failed uncaught
unfolding build_sdk_turn_input messages_prompt last_user content_prompt reverse_items block_images
    block_image image_source is_hashable stripped block_text text_parts bounded_text join_lines
    chain lookup dict_get attr eq_str Text.strip
escaped = refl

build_sdk_turn_input-IsBounded_example :
    Each (IsBounded decoders) (build_sdk_turn_input decoders (request_of picture))
build_sdk_turn_input-IsBounded_example =
    build_sdk_turn_input-IsBounded decoders (request_of picture)

again :
    (s : String) (bytes : List ℕ)
    → decoders.decode s ≡ some bytes
    → decoders.decode (encode bytes) ≡ some bytes
again s bytes h = h

abbrev picture_source : ImageSource
picture_source = record {
  source_type = "base64";
  media_type = some "image/png";
  value = "TWFu";
  decoded_bytes = 3;
}

picture-IsSound : IsSound decoders picture_source
unfolding encode contains any
picture-IsSound = inl (record {
  media = "image/png";
  given = "TWFu";
  bytes = 77 ∷ 97 ∷ 110 ∷ [];
  encoding = refl;
  typed = refl;
  allowed = refl;
  decoded = refl;
  encoded = refl;
  counted = refl;
  nonempty = omega arith;
  bounded = omega arith;
  fits = omega arith;
})

block_image-as_content_block_example :
    block_image decoders (as_content_block picture_source) ≡ ok (some picture_source)
block_image-as_content_block_example =
    block_image-as_content_block decoders again picture_source picture-IsSound
