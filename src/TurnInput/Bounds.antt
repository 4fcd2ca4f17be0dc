-- ===== src/TurnInput/Bounds.antt =====
-- turn_input.py: what a prompt that is built holds.
use hermes_claude_agent_sdk.Common.{
  ℕ, suc, ◌+◌, ◌≤◌, String, List, [], ◌∷◌, Option, none, some, arith, leb, if-elim,
}
use hermes_claude_agent_sdk.Python.{
  Value, str, list, tuple, dict, broken, Items, nil, cons, eq_str, dict_get, attr,
}
use hermes_claude_agent_sdk.Python.Text
use hermes_claude_agent_sdk.TurnInput.Failing.{
  Result, ok, uncaught, too_many_images, images_too_large, chain, Each, chain-Each, failed-Each,
  ok-Each,
}
use hermes_claude_agent_sdk.TurnInput.Length.{IsWithin, bounded_text-IsWithin}
use hermes_claude_agent_sdk.TurnInput.Words.{bounded_text}
use hermes_claude_agent_sdk.TurnInput.Sources.{IsSound, IsImage, block_image-IsImage}
use hermes_claude_agent_sdk.TurnInput.Images.{
  ImageSource, Decoders, max_images_per_turn, max_total_image_bytes, block_image, add_image,
  block_images,
}
use hermes_claude_agent_sdk.TurnInput.{
  Prompt, nothing, plain, rich, reverse_items, text_prompt, or_question, rich_prompt,
  content_prompt, last_user, messages_prompt, build_sdk_turn_input,
}

abbrev pub number : List ImageSource → ℕ
number [] = 0
number (i ∷ is) = suc (number is)

abbrev pub bytes : List ImageSource → ℕ
bytes [] = 0
bytes (i ∷ is) = i.decoded_bytes + bytes is

abbrev pub AreSound : Decoders → List ImageSource → Type 0
AreSound d [] = Unit
AreSound d (i ∷ is) = IsSound d i × AreSound d is

-- Sound images that keep the limits, after so many images and so many bytes
abbrev AreBounded : Decoders → ℕ → ℕ → List ImageSource → Type 0
AreBounded d count total is =
    AreSound d is
    × (count + number is ≤ max_images_per_turn)
    × (total + bytes is ≤ max_total_image_bytes)

-- What a prompt may hold: a text that is not empty, of at most 63,999 characters; and in a rich turn
-- one to four sound images of at most 8 MiB together.
abbrev pub IsBounded : Decoders → Prompt → Type 0
IsBounded d nothing = Unit
IsBounded d (plain t) = (1 ≤ Text.length t) × (Text.length t ≤ 63_999)
IsBounded d (rich r) =
    ((1 ≤ Text.length r.text) × (Text.length r.text ≤ 63_999))
    × AreSound d r.images
    × (1 ≤ number r.images)
    × (number r.images ≤ max_images_per_turn)
    × (bytes r.images ≤ max_total_image_bytes)

module _ (d : Decoders) where
  add_image-AreBounded :
      (o : Option ImageSource) (count total : ℕ) (more : ℕ → ℕ → Result (List ImageSource))
      → IsImage d o
      → count ≤ max_images_per_turn
      → total ≤ max_total_image_bytes
      → ((n t : ℕ)
          → n ≤ max_images_per_turn
          → t ≤ max_total_image_bytes
          → Each (AreBounded d n t) (more n t))
      → Each (AreBounded d count total) (add_image o count total more)
  add_image-AreBounded none count total more s h k m = m count total h k
  add_image-AreBounded (some i) count total more s h k m =
      let n = count + 1 in
      let t = total + i.decoded_bytes in
      if-elim (Each (AreBounded d count total)) (leb n max_images_per_turn)
        (λ e.
          if-elim (Each (AreBounded d count total)) (leb t max_total_image_bytes)
            (λ f.
              chain-Each (AreBounded d n t) (AreBounded d count total) (more n t)
                (λ is. ok (i ∷ is)) (m n t (ground arith) (ground arith))
                (λ is (sound, few, small).
                  ok-Each (AreBounded d count total) (i ∷ is)
                    ((s, sound), omega arith, omega arith)))
            (λ _. failed-Each (AreBounded d count total) images_too_large))
        (λ _. failed-Each (AreBounded d count total) too_many_images)

  block_images-AreBounded :
      (blocks : Items) (count total : ℕ)
      → count ≤ max_images_per_turn
      → total ≤ max_total_image_bytes
      → Each (AreBounded d count total) (block_images d blocks count total)
  unfolding block_images
  block_images-AreBounded nil count total h k =
      ok-Each (AreBounded d count total) [] (tt, omega arith, omega arith)
  block_images-AreBounded (cons block blocks) count total h k =
      chain-Each (IsImage d) (AreBounded d count total) (block_image d block) _
        (block_image-IsImage d block)
        (λ o s.
          add_image-AreBounded o count total (λ n t. block_images d blocks n t) s h k
            (λ n t a b. block_images-AreBounded blocks n t a b))

  text-IsBounded : (t : Option String) → IsWithin 63_999 t → IsBounded d (text_prompt t)
  text-IsBounded none h = tt
  text-IsBounded (some t) h = h

  question-IsWithin :
      (t : Option String)
      → IsWithin 63_999 t
      → (1 ≤ Text.length (or_question t)) × (Text.length (or_question t) ≤ 63_999)
  question-IsWithin none h = (omega arith, omega arith)
  question-IsWithin (some t) h = h

  rich-IsBounded :
      (t : Option String) (is : List ImageSource)
      → IsWithin 63_999 t
      → AreBounded d 0 0 is
      → IsBounded d (rich_prompt t is)
  rich-IsBounded t [] h k = text-IsBounded t h
  rich-IsBounded t (i ∷ is) h (sound, few, small) =
      (question-IsWithin t h, sound, omega arith, omega arith, omega arith)

  blocks-IsBounded :
      (content : Value) (blocks : Items)
      → Each (IsBounded d) (
          chain
            (bounded_text content)
            (λ t. chain (block_images d blocks 0 0) (λ images. ok (rich_prompt t images))))
  blocks-IsBounded content blocks =
      chain-Each (IsWithin 63_999) (IsBounded d) (bounded_text content) _
        (bounded_text-IsWithin content)
        (λ t h.
          chain-Each (AreBounded d 0 0) (IsBounded d) (block_images d blocks 0 0) _
            (block_images-AreBounded blocks 0 0 (omega arith) (omega arith))
            (λ is k. ok-Each (IsBounded d) (rich_prompt t is) (rich-IsBounded t is h k)))

  content-IsBounded : (content : Value) → Each (IsBounded d) (content_prompt d content)
  unfolding content_prompt
  content-IsBounded (str s) =
      chain-Each (IsWithin 63_999) (IsBounded d) (bounded_text (str s)) _
        (bounded_text-IsWithin (str s))
        (λ t h. ok-Each (IsBounded d) (text_prompt t) (text-IsBounded t h))
  content-IsBounded (list blocks) = blocks-IsBounded (list blocks) blocks
  content-IsBounded (tuple blocks) = blocks-IsBounded (tuple blocks) blocks
  content-IsBounded _ = ok-Each (IsBounded d) nothing tt

  last_user-IsBounded : (messages : Items) → Each (IsBounded d) (last_user d messages)
  unfolding last_user
  last_user-IsBounded nil = ok-Each (IsBounded d) nothing tt
  last_user-IsBounded (cons (dict fs) messages) =
      if-elim (Each (IsBounded d)) (eq_str (dict_get (dict fs) "role") "user")
        (λ _. content-IsBounded (dict_get (dict fs) "content")) (λ _. last_user-IsBounded messages)
  last_user-IsBounded (cons broken messages) = failed-Each (IsBounded d) uncaught
  last_user-IsBounded (cons _ messages) = last_user-IsBounded messages

  messages-IsBounded : (messages : Value) → Each (IsBounded d) (messages_prompt d messages)
  unfolding messages_prompt
  messages-IsBounded (list messages) = last_user-IsBounded (reverse_items messages nil)
  messages-IsBounded (tuple messages) = last_user-IsBounded (reverse_items messages nil)
  messages-IsBounded _ = ok-Each (IsBounded d) nothing tt

  -- Whatever prompt is built, its text is not empty and has at most 63,999 characters; a rich turn
  -- has one to four images of at most 8 MiB together, and each of them is either the encoding of the
  -- decoded bytes of an allowed media type, 1 to 5 MiB of them, or a link over https, of at most
  -- 2,048 characters, that names its host and no credentials.
  pub build_sdk_turn_input-IsBounded :
      (request : Value) → Each (IsBounded d) (build_sdk_turn_input d request)
  unfolding build_sdk_turn_input
  build_sdk_turn_input-IsBounded request = messages-IsBounded (attr request "messages" (tuple nil))
