-- ===== src/TurnInput/Sources.antt =====
-- turn_input.py: what an image source that is accepted is.
use hermes_claude_agent_sdk.Common.{
  ℕ, ◌≤◌, String, ◌≡◌, refl, ◌⊎◌, inl, inr, Bool, true, false, not, ◌||◌, ◌&&◌, List, Option, none,
  some, ◌==◌, arith, leb, nat_eq, contains, if-elim, if◌then◌else◌, and-true,
}
use hermes_claude_agent_sdk.Python.{Value, str, dict, broken, Fields, eq_str, dict_get, is_hashable}
use hermes_claude_agent_sdk.Python.Text
use hermes_claude_agent_sdk.TurnInput.Failing.{
  Result, ok, failed, uncaught, image_invalid, image_too_large, chain, Each, chain-Each,
  failed-Each, ok-Each,
}
use hermes_claude_agent_sdk.TurnInput.Base64.{size, encode, length-encode}
use hermes_claude_agent_sdk.TurnInput.DataUrl.{data_url}
use hermes_claude_agent_sdk.TurnInput.Images.{
  ImageSource, Url, Decoders, max_image_bytes, max_image_url_length, allowed_media_types,
  max_encoded, decoded_source, is_given, split_source, data_source, base64_source, url_source,
  matched_source, text_source, image_url_source, source_source, image_source, block_image,
}

-- Bytes of an allowed type, encoded
pub record IsEncoded (d : Decoders) (i : ImageSource) : Type 0 where
  pub media : String
  pub given : String
  pub bytes : List ℕ
  pub encoding : i.source_type ≡ "base64"
  pub typed : i.media_type ≡ some media
  pub allowed : contains allowed_media_types media ≡ true
  pub decoded : d.decode given ≡ some bytes
  pub encoded : i.value ≡ encode bytes
  pub counted : i.decoded_bytes ≡ size bytes
  pub nonempty : 1 ≤ size bytes
  pub bounded : size bytes ≤ max_image_bytes
  pub fits : Text.length i.value ≤ max_encoded

-- A link of bounded length to a named host, over https, without credentials
pub record IsLinked (d : Decoders) (i : ImageSource) : Type 0 where
  pub url : Url
  pub linking : i.source_type ≡ "url"
  pub untyped : i.media_type ≡ none
  pub uncounted : i.decoded_bytes ≡ 0
  pub filled : Text.is_empty i.value ≡ false
  pub found : d.urlsplit i.value ≡ some url
  pub short : Text.length i.value ≤ max_image_url_length
  pub secure : (url.scheme == "https") ≡ true
  pub named : Text.is_empty url.netloc ≡ false
  pub no_username : is_given url.username ≡ false
  pub no_password : is_given url.password ≡ false

abbrev pub IsSound : Decoders → ImageSource → Type 0
IsSound d i = IsEncoded d i ⊎ IsLinked d i

not-true : (b : Bool) → not b ≡ true → b ≡ false
not-true true h = cc
not-true false h = refl

encode-fits :
    (bytes : List ℕ) → size bytes ≤ max_image_bytes → Text.length (encode bytes) ≤ max_encoded
encode-fits bytes h = let e = length-encode bytes in omega arith

module _ (d : Decoders) where
  decoded-IsSound :
      (media given : String) (o : Option (List ℕ))
      → contains allowed_media_types media ≡ true
      → d.decode given ≡ o
      → Each (IsSound d) (decoded_source media o)
  unfolding decoded_source
  decoded-IsSound media given none a e = failed-Each (IsSound d) image_invalid
  decoded-IsSound media given (some bytes) a e =
      if-elim (Each (IsSound d)) (nat_eq (size bytes) 0)
        (λ _. failed-Each (IsSound d) image_invalid)
        (λ p.
          if-elim (Each (IsSound d)) (leb (size bytes) max_image_bytes)
            (λ q. ok-Each (IsSound d) _ (
              inl (record {
                media = media;
                given = given;
                bytes = bytes;
                encoding = refl;
                typed = refl;
                allowed = a;
                decoded = e;
                encoded = refl;
                counted = refl;
                nonempty = ground arith;
                bounded = ground arith;
                fits = encode-fits bytes (ground arith);
              })))
            (λ _. failed-Each (IsSound d) image_too_large))

  split-IsSound :
      (value : String) (o : Option Url)
      → Text.length value ≤ max_image_url_length
      → Text.is_empty value ≡ false
      → d.urlsplit value ≡ o
      → Each (IsSound d) (split_source value o)
  unfolding split_source
  split-IsSound value none s f e = failed-Each (IsSound d) uncaught
  split-IsSound value (some url) s f e =
      if-elim (Each (IsSound d))
        ((url.scheme == "https")
          && not (Text.is_empty url.netloc)
          && not (is_given url.username)
          && not (is_given url.password))
        (λ h.
          let (h3, p) =
            and-true
              ((url.scheme == "https")
                && not (Text.is_empty url.netloc)
                && not (is_given url.username))
              _ h in
          let (h2, u) = and-true ((url.scheme == "https") && not (Text.is_empty url.netloc)) _ h3 in
          let (h1, n) = and-true (url.scheme == "https") _ h2 in
          ok-Each (IsSound d) _ (
            inr (record {
              url = url;
              linking = refl;
              untyped = refl;
              uncounted = refl;
              filled = f;
              found = e;
              short = s;
              secure = h1;
              named = not-true _ n;
              no_username = not-true _ u;
              no_password = not-true _ p;
            })))
        (λ _. failed-Each (IsSound d) image_invalid)

  data-IsSound :
      (media : String) (value : Value)
      → contains allowed_media_types media ≡ true
      → Each (IsSound d) (data_source d media value)
  unfolding data_source
  data-IsSound media (str s) a =
      if-elim (Each (IsSound d)) (Text.is_empty s) (λ _. failed-Each (IsSound d) image_invalid)
        (λ _.
          if-elim (Each (IsSound d)) (leb (Text.length s) max_encoded)
            (λ _. decoded-IsSound media s (d.decode s) a refl)
            (λ _. failed-Each (IsSound d) image_too_large))
  data-IsSound media _ a = failed-Each (IsSound d) image_invalid

  unhashable-IsSound :
      (b : Bool) → Each (IsSound d) (if b then failed image_invalid else failed uncaught)
  unhashable-IsSound true = failed-Each (IsSound d) image_invalid
  unhashable-IsSound false = failed-Each (IsSound d) uncaught

  base64-IsSound : (media value : Value) → Each (IsSound d) (base64_source d media value)
  unfolding base64_source
  base64-IsSound (str media) value =
      if-elim (Each (IsSound d)) (contains allowed_media_types media)
        (λ a. data-IsSound media value a) (λ _. failed-Each (IsSound d) image_invalid)
  base64-IsSound media value = unhashable-IsSound (is_hashable media)

  url-IsSound : (value : Value) → Each (IsSound d) (url_source d value)
  unfolding url_source
  url-IsSound (str s) =
      if-elim (Each (IsSound d)) (Text.is_empty s) (λ _. failed-Each (IsSound d) image_invalid)
        (λ f.
          if-elim (Each (IsSound d)) (leb (Text.length s) max_image_url_length)
            (λ e. split-IsSound s (d.urlsplit s) (ground arith) f refl)
            (λ _. failed-Each (IsSound d) image_invalid))
  url-IsSound _ = failed-Each (IsSound d) image_invalid

  matched-IsSound :
      (s : String) (o : Option (String × String)) → Each (IsSound d) (matched_source d s o)
  matched-IsSound s none = url-IsSound (str s)
  matched-IsSound s (some (media, text)) = base64-IsSound (str media) (str text)

  text-IsSound : (value : Value) → Each (IsSound d) (text_source d value)
  unfolding text_source
  text-IsSound (str s) = matched-IsSound s (data_url s)
  text-IsSound _ = failed-Each (IsSound d) image_invalid

  image_url-IsSound : (value : Value) → Each (IsSound d) (image_url_source d value)
  unfolding image_url_source
  image_url-IsSound (dict fs) = text-IsSound (dict_get (dict fs) "url")
  image_url-IsSound broken = failed-Each (IsSound d) uncaught
  image_url-IsSound v = text-IsSound v

  source-IsSound : (value : Value) → Each (IsSound d) (source_source d value)
  unfolding source_source
  source-IsSound (dict fs) =
      if-elim (Each (IsSound d)) (eq_str (dict_get (dict fs) "type") "base64")
        (λ _. base64-IsSound (dict_get (dict fs) "media_type") (dict_get (dict fs) "data"))
        (λ _.
          if-elim (Each (IsSound d)) (eq_str (dict_get (dict fs) "type") "url")
            (λ _. url-IsSound (dict_get (dict fs) "url"))
            (λ _. failed-Each (IsSound d) image_invalid))
  source-IsSound broken = failed-Each (IsSound d) uncaught
  source-IsSound _ = failed-Each (IsSound d) image_invalid

  -- An image, where there is one
  abbrev pub IsImage : Option ImageSource → Type 0
  IsImage none = Unit
  IsImage (some i) = IsSound d i

  found-IsImage :
      (r : Result ImageSource) → Each (IsSound d) r → Each IsImage (chain r (λ i. ok (some i)))
  found-IsImage r h =
      chain-Each (IsSound d) IsImage r (λ i. ok (some i)) h (λ i s. ok-Each IsImage (some i) s)

  image_source-IsImage : (fs : Fields) → Each IsImage (image_source d fs)
  unfolding image_source
  image_source-IsImage fs =
      if-elim (Each IsImage)
        (eq_str (dict_get (dict fs) "type") "image_url"
          || eq_str (dict_get (dict fs) "type") "input_image")
        (λ _. found-IsImage _ (image_url-IsSound (dict_get (dict fs) "image_url")))
        (λ _.
          if-elim (Each IsImage) (not (is_hashable (dict_get (dict fs) "type")))
            (λ _. failed-Each IsImage uncaught)
            (λ _.
              if-elim (Each IsImage) (eq_str (dict_get (dict fs) "type") "image")
                (λ _. found-IsImage _ (source-IsSound (dict_get (dict fs) "source")))
                (λ _. ok-Each IsImage none tt)))

  pub block_image-IsImage : (block : Value) → Each IsImage (block_image d block)
  unfolding block_image
  block_image-IsImage (dict fs) = image_source-IsImage fs
  block_image-IsImage broken = failed-Each IsImage uncaught
  block_image-IsImage _ = ok-Each IsImage none tt
