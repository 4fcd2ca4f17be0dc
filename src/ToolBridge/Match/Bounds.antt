-- ===== src/ToolBridge/Match/Bounds.antt =====
-- A test of a valid schema's bounds, and the types whose values hold no others
use hermes_claude_agent_sdk.Common.{if-elim, ◌≡◌, Bool, true, false, ◌&&◌, arith}
use hermes_claude_agent_sdk.Python.{Value, str, Fields, lookup}
use hermes_claude_agent_sdk.Python.Text
use hermes_claude_agent_sdk.ToolBridge.Json.{copy_plain_json, max_input_bytes}
use hermes_claude_agent_sdk.ToolBridge.Schema.{
  is_finite_number, is_a, where_found, is_nonnegative_integer, is_list, in_order, has_enum,
  has_sound_bounds,
}
use hermes_claude_agent_sdk.ToolBridge.Match.{
  count_at_least, bounded_by, at_least, string_match, in_range, is_int, scalar_match,
}
use hermes_claude_agent_sdk.ToolBridge.Match.Total.{
  Returns, returns, and_then-Returns, count_at_least-Returns, count_at_most-Returns,
  at_least-Returns, at_most-Returns,
}

-- Each bound of the schema is of its type.
pub record HasBounds (schema : Fields) : Type 0 where
  pub min_length : where_found is_nonnegative_integer (lookup schema "minLength") ≡ true
  pub max_length : where_found is_nonnegative_integer (lookup schema "maxLength") ≡ true
  pub min_items : where_found is_nonnegative_integer (lookup schema "minItems") ≡ true
  pub max_items : where_found is_nonnegative_integer (lookup schema "maxItems") ≡ true
  pub low : where_found is_finite_number (lookup schema "minimum") ≡ true
  pub high : where_found is_finite_number (lookup schema "maximum") ≡ true

and-parts :
    (a b c d e f g h i : Bool)
    → (a && b && c && d && e && f && g && h && i) ≡ true
    → (a ≡ true) × (b ≡ true) × (c ≡ true) × (d ≡ true) × (g ≡ true) × (h ≡ true)
and-parts a b c d e f g h i p = ground arith

pub has_sound_bounds-HasBounds :
    (schema : Fields) → has_sound_bounds schema ≡ true → HasBounds schema
unfolding has_sound_bounds
has_sound_bounds-HasBounds schema h =
    let (a, b, c, d, e, f) =
      and-parts (where_found is_nonnegative_integer (lookup schema "minLength"))
        (where_found is_nonnegative_integer (lookup schema "maxLength"))
        (where_found is_nonnegative_integer (lookup schema "minItems"))
        (where_found is_nonnegative_integer (lookup schema "maxItems"))
        (in_order (lookup schema "minLength") (lookup schema "maxLength"))
        (in_order (lookup schema "minItems") (lookup schema "maxItems"))
        (where_found is_finite_number (lookup schema "minimum"))
        (where_found is_finite_number (lookup schema "maximum"))
        (in_order (lookup schema "minimum") (lookup schema "maximum")) h in
    record { min_length = a; max_length = b; min_items = c; max_items = d; low = e; high = f }

pub has_enum-found :
    (schema : Fields)
    → has_enum schema ≡ true
    → where_found (λ v. is_list (copy_plain_json max_input_bytes v)) (lookup schema "enum") ≡ true
unfolding has_enum
has_enum-found schema h = h

range-Returns :
    (value : Value) (schema : Fields) → HasBounds schema → Returns (in_range value schema)
range-Returns value schema h =
    and_then-Returns (bounded_by (at_least value) (lookup schema "minimum")) _
      (at_least-Returns value (lookup schema "minimum") h.low)
      (at_most-Returns value (lookup schema "maximum") h.high)

string-Returns :
    (value : Value) (schema : Fields) → HasBounds schema → Returns (string_match value schema)
string-Returns (str s) schema h =
    and_then-Returns
      (bounded_by (λ low. count_at_least low (Text.length s)) (lookup schema "minLength")) _
      (count_at_least-Returns (lookup schema "minLength") (Text.length s) h.min_length)
      (count_at_most-Returns (lookup schema "maxLength") (Text.length s) h.max_length)
string-Returns _ schema h = returns false

pub scalar-Returns :
    (kind value : Value) (schema : Fields)
    → HasBounds schema
    → Returns (scalar_match kind value schema)
unfolding scalar_match
scalar-Returns kind value schema h =
    if-elim Returns (is_a kind "string") (λ _. string-Returns value schema h)
      (λ _.
        if-elim Returns (is_a kind "number")
          (λ _.
            if-elim Returns (is_finite_number value) (λ _. range-Returns value schema h)
              (λ _. returns false))
          (λ _.
            if-elim Returns (is_a kind "integer")
              (λ _.
                if-elim Returns (is_int value) (λ _. range-Returns value schema h)
                  (λ _. returns false))
              (λ _.
                if-elim Returns (is_a kind "boolean") (λ _. returns _)
                  (λ _. if-elim Returns (is_a kind "null") (λ _. returns _) (λ _. returns true)))))
