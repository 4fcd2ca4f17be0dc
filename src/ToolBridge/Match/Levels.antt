-- ===== src/ToolBridge/Match/Levels.antt =====
-- One level of `_matches_schema` over parts that return, and then all levels.
use hermes_claude_agent_sdk.Common.{
  and-true, if-elim, ℕ, zero, suc, ◌≡◌, inl, inr, Bool-cases, Bool, true, false, not, ◌&&◌, Option,
  some, arith, if◌then◌else◌,
}
use hermes_claude_agent_sdk.Python.{Value, null, dict, Fields, end, lookup, is_null}
use hermes_claude_agent_sdk.ToolBridge.Text.{Texts}
use hermes_claude_agent_sdk.ToolBridge.Json.{copy_plain_json, max_input_bytes}
use hermes_claude_agent_sdk.ToolBridge.Schema.{
  get_or, is_a, where_found, has_any, is_text, is_known_type, is_copied, typed_keys, valid_choice,
  valid_shape, valid_typed, valid_fields, valid_schema, has_enum, has_sound_bounds, has_known_keys,
}
use hermes_claude_agent_sdk.ToolBridge.Match.{
  scalar_match, typed_match, choice_match, fields_match, matches_schema,
}
use hermes_claude_agent_sdk.ToolBridge.Match.Total.{
  Returns, returns, and_then-Returns, in_enum-Returns,
}
use hermes_claude_agent_sdk.ToolBridge.Match.Bounds.{
  has_sound_bounds-HasBounds, has_enum-found, scalar-Returns,
}
use hermes_claude_agent_sdk.ToolBridge.Match.Parts.{choice-Returns, object-Returns, array-Returns}

-- The branch of a test that holds
taken : (b x y : Bool) → b ≡ true → (if b then x else y) ≡ true → x ≡ true
taken true x y e h = h
taken false x y e h = cc

skipped : (b x y : Bool) → b ≡ false → (if b then x else y) ≡ true → y ≡ true
skipped true x y e h = cc
skipped false x y e h = h

-- The parts that `part` accepts are tested by `test`.
module _ (part : Value → Bool) (test : Value → Value → Option Bool)
    (tests : (value schema : Value) → part schema ≡ true → Returns (test value schema)) where
  module _ (u : Texts) where
    typed-Returns :
        (kind value : Value) (schema : Fields)
        → valid_typed u part kind schema ≡ true
        → Returns (typed_match test kind value schema)
    unfolding typed_match valid_typed valid_shape
    typed-Returns kind value schema h =
        let (front, _) =
          and-true
            (where_found is_text (lookup schema "description")
              && where_found is_text (lookup schema "title")
              && has_enum schema
              && has_sound_bounds schema
              && valid_shape u part kind schema)
            _ h in
        let (more, shape) =
          and-true
            (where_found is_text (lookup schema "description")
              && where_found is_text (lookup schema "title")
              && has_enum schema
              && has_sound_bounds schema)
            _ front in
        let (texts, sound) =
          and-true
            (where_found is_text (lookup schema "description")
              && where_found is_text (lookup schema "title")
              && has_enum schema)
            _ more in
        let (_, enum) =
          and-true
            (where_found is_text (lookup schema "description")
              && where_found is_text (lookup schema "title"))
            _ texts in
        let bounds = has_sound_bounds-HasBounds schema sound in
        if-elim Returns (is_null kind) (λ _. returns true)
          (λ _.
            if-elim Returns (is_a kind "object")
              (λ e.
                object-Returns part test tests u value (get_or schema "properties" (dict end))
                  schema (taken (is_a kind "object") _ _ e shape))
              (λ e.
                if-elim Returns (is_a kind "array")
                  (λ f.
                    array-Returns part test tests value schema bounds
                      (taken (is_a kind "array") _ _ f (skipped (is_a kind "object") _ _ e shape)))
                  (λ _.
                    and_then-Returns (scalar_match kind value schema) _
                      (scalar-Returns kind value schema bounds)
                      (in_enum-Returns (lookup schema "enum") value (has_enum-found schema enum)))))

    untyped-Returns :
        (kind value : Value) (schema : Fields)
        → is_null kind ≡ true
        → Returns (typed_match test kind value schema)
    unfolding typed_match
    untyped-Returns kind value schema e =
        if-elim Returns (is_null kind) (λ _. returns true) (λ f. absurd (ground (arith, e, f)))

    kind-Returns :
        (kind value : Value) (schema : Fields)
        → (if is_null kind then not (has_any schema typed_keys) else valid_typed u part kind schema)
          ≡ true
        → Returns (typed_match test kind value schema)
    kind-Returns kind value schema h = elim (Bool-cases (is_null kind)) [
      | inl e ↦ untyped-Returns kind value schema e
      | inr e ↦ typed-Returns kind value schema (skipped (is_null kind) _ _ e h)
    ]

    fields-Returns :
        (value : Value) (schema : Fields)
        → valid_fields u part schema ≡ true
        → Returns (fields_match test value schema)
    unfolding fields_match valid_fields
    fields-Returns value schema h =
        let kind = get_or schema "type" null in
        let alternatives = get_or schema "anyOf" null in
        let (front, typed) =
          and-true
            (has_known_keys schema
              && not (is_null kind && is_null alternatives)
              && is_known_type kind
              && where_found (λ v. is_copied (copy_plain_json max_input_bytes v))
                  (lookup schema "default")
              && valid_choice part alternatives)
            _ h in
        let (_, choice) =
          and-true
            (has_known_keys schema
              && not (is_null kind && is_null alternatives)
              && is_known_type kind
              && where_found (λ v. is_copied (copy_plain_json max_input_bytes v))
                  (lookup schema "default"))
            _ front in
        and_then-Returns (choice_match test value alternatives) _
          (choice-Returns part test tests value alternatives choice)
          (kind-Returns kind value schema typed)

module _ (u : Texts) where
  matches-Returns_within :
      (n : ℕ) (value schema : Value)
      → valid_schema u n schema ≡ true
      → Returns (matches_schema n value schema)
  unfolding matches_schema valid_schema
  matches-Returns_within (suc n) value (dict schema) h =
      fields-Returns (valid_schema u n) (matches_schema n) (matches-Returns_within n) u value schema
        h
  matches-Returns_within (suc n) value _ h = cc
  matches-Returns_within zero value _ h = cc

  -- If a schema is valid within so many levels, then for every value the match within these levels
  -- has a result: it neither raises nor runs out of levels.
  pub matches_schema-returns :
      (n : ℕ) (value schema : Value)
      → valid_schema u n schema ≡ true
      → (b : Bool) × (matches_schema n value schema ≡ some b)
  unfolding Returns
  matches_schema-returns n value schema h = matches-Returns_within n value schema h
