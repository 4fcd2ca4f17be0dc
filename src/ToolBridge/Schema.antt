-- ===== src/ToolBridge/Schema.antt =====
-- tool_bridge.py: `_valid_schema` and its helpers. Its depth counts down: a schema at depth d is
-- checked with 65 - d levels left.
use hermes_claude_agent_sdk.Common.{
  ℕ, suc, ◌-◌, ◌*◌, ◌^◌, String, Bool, true, false, not, ◌&&◌, ◌||◌, List, [], ◌∷◌, Option, none,
  some, ◌==◌, ltb, leb, contains, any, if◌then◌else◌,
}
use hermes_claude_agent_sdk.Common.Int.{ℤ, pos, negsuc, abs}
use hermes_claude_agent_sdk.Python.{
  Value, null, bool, int, float, str, list, dict, Items, nil, cons, Fields, end, field, finite,
  Read, found, lookup, is_null,
}
use hermes_claude_agent_sdk.Python.Text
use hermes_claude_agent_sdk.Python.Utf8
use hermes_claude_agent_sdk.ToolBridge.Text.{Texts}
use hermes_claude_agent_sdk.ToolBridge.Json.{copy_plain_json, max_input_bytes}

-- `_SCHEMA_KEYS`
abbrev schema_keys : List String
schema_keys =
    "type" ∷ "properties" ∷ "required" ∷ "additionalProperties" ∷ "items" ∷ "enum" ∷ "default"
    ∷ "anyOf" ∷ "minLength" ∷ "maxLength" ∷ "minimum" ∷ "maximum" ∷ "minItems" ∷ "maxItems"
    ∷ "description" ∷ "title" ∷ []

-- `_SCHEMA_TYPES`
abbrev pub schema_types : List String
schema_types = "object" ∷ "array" ∷ "string" ∷ "number" ∷ "integer" ∷ "boolean" ∷ "null" ∷ []

-- The keys that a schema without a type may not have
abbrev pub typed_keys : List String
typed_keys =
    "properties" ∷ "required" ∷ "additionalProperties" ∷ "items" ∷ "minLength" ∷ "maxLength"
    ∷ "minimum" ∷ "maximum" ∷ "minItems" ∷ "maxItems" ∷ "enum" ∷ []

abbrev pub or_default : Value → Read → Value
or_default default (found v) = v
or_default default _ = default

-- `schema.get(key, default)`
unfoldable pub get_or : Fields → String → Value → Value
get_or fs key default = or_default default (lookup fs key)

abbrev pub is_found : Read → Bool
is_found (found _) = true
is_found _ = false

-- `key in schema`
unfoldable pub has : Fields → String → Bool
has fs key = is_found (lookup fs key)

abbrev pub has_any : Fields → List String → Bool
has_any fs keys = any (has fs) keys

unfoldable pub has_known_keys : Fields → Bool
has_known_keys end = true
has_known_keys (field (str k) v fs) = contains schema_keys k && has_known_keys fs
has_known_keys _ = false

-- `_valid_nonnegative_integer`
abbrev pub is_nonnegative_integer : Value → Bool
is_nonnegative_integer (int (pos n)) = leb n max_input_bytes
is_nonnegative_integer _ = false

-- `_is_finite_number`; a larger integer overflows on its way to a float.
unfoldable pub is_finite_number : Value → Bool
is_finite_number (int n) = ltb (abs n) (2 ^ 1024 - 2 ^ 970)
is_finite_number (float (finite m k)) = true
is_finite_number _ = false

abbrev less_ℤ : ℤ → ℤ → Bool
less_ℤ (pos m) (pos n) = ltb m n
less_ℤ (pos m) (negsuc n) = false
less_ℤ (negsuc m) (pos n) = true
less_ℤ (negsuc m) (negsuc n) = ltb n m

abbrev scale : ℤ → ℕ → ℤ
scale (pos m) p = pos (m * p)
scale (negsuc m) p = negsuc (suc m * p - 1)

-- `a < b` of numbers; a text or the like is not compared.
unfoldable pub number_less : Value → Value → Bool
number_less (int m) (int n) = less_ℤ m n
number_less (int m) (float (finite n k)) = less_ℤ (scale m (2 ^ k)) n
number_less (float (finite m j)) (int n) = less_ℤ m (scale n (2 ^ j))
number_less (float (finite m j)) (float (finite n k)) = less_ℤ (scale m (2 ^ k)) (scale n (2 ^ j))
number_less _ _ = false

-- A check of the value under a key that may be missing
abbrev pub where_found : (Value → Bool) → Read → Bool
where_found p (found v) = p v
where_found p _ = true

-- Two bounds, where both are there
abbrev pub in_order : Read → Read → Bool
in_order (found low) (found high) = not (number_less high low)
in_order _ _ = true

abbrev pub is_text : Value → Bool
is_text (str _) = true
is_text _ = false

abbrev pub is_copied : Option Value → Bool
is_copied none = false
is_copied (some _) = true

abbrev pub is_list : Option Value → Bool
is_list (some (list _)) = true
is_list _ = false

abbrev pub is_a : Value → String → Bool
is_a (str s) kind = s == kind
is_a _ kind = false

unfoldable pub has_sound_bounds : Fields → Bool
has_sound_bounds fs =
    where_found is_nonnegative_integer (lookup fs "minLength")
    && where_found is_nonnegative_integer (lookup fs "maxLength")
    && where_found is_nonnegative_integer (lookup fs "minItems")
    && where_found is_nonnegative_integer (lookup fs "maxItems")
    && in_order (lookup fs "minLength") (lookup fs "maxLength")
    && in_order (lookup fs "minItems") (lookup fs "maxItems")
    && where_found is_finite_number (lookup fs "minimum")
    && where_found is_finite_number (lookup fs "maximum")
    && in_order (lookup fs "minimum") (lookup fs "maximum")

-- The bounds that belong to another type
unfoldable pub has_own_bounds : Value → Fields → Bool
has_own_bounds kind fs =
    (is_a kind "string" || not (has_any fs ("minLength" ∷ "maxLength" ∷ [])))
    && (is_a kind "array" || not (has_any fs ("minItems" ∷ "maxItems" ∷ [])))
    && (is_a kind "number" || is_a kind "integer" || not (has_any fs ("minimum" ∷ "maximum" ∷ [])))

unfoldable pub has_enum : Fields → Bool
unfolding copy_plain_json
has_enum fs = where_found (λ v. is_list (copy_plain_json max_input_bytes v)) (lookup fs "enum")

abbrev pub is_known_type : Value → Bool
is_known_type null = true
is_known_type (str s) = contains schema_types s
is_known_type _ = false

-- `required`
unfoldable pub are_properties : Fields → Items → Bool
are_properties properties nil = true
are_properties properties (cons (str name) names) =
    has properties name && are_properties properties names
are_properties properties _ = false

abbrev pub is_required_of : Fields → Value → Bool
is_required_of properties (list names) = are_properties properties names
is_required_of properties _ = false

abbrev pub is_flag : Value → Bool
is_flag (bool _) = true
is_flag _ = false

-- The rest takes the check of a part.
abbrev pub valid_all : (Value → Bool) → Items → Bool
valid_all part nil = true
valid_all part (cons v vs) = part v && valid_all part vs

abbrev count : Items → ℕ
count nil = 0
count (cons x xs) = suc (count xs)

abbrev pub is_short : Items → Bool
is_short nil = false
is_short xs = leb (count xs) 16

abbrev pub valid_choice : (Value → Bool) → Value → Bool
valid_choice part null = true
valid_choice part (list children) = is_short children && valid_all part children
valid_choice part _ = false

module _ (u : Texts) where
  abbrev pub is_property_name : String → Bool
  is_property_name name =
      not (Text.is_empty name)
      && leb (Utf8.bytes name) 256
      && not (Text.any_char Utf8.is_surrogate name)
      && not (Text.any_char u.is_other name)

  unfoldable pub valid_properties : (Value → Bool) → Fields → Bool
  valid_properties part end = true
  valid_properties part (field (str name) child fs) =
      is_property_name name && part child && valid_properties part fs
  valid_properties part _ = false

  abbrev pub valid_object : (Value → Bool) → Value → Fields → Bool
  valid_object part (dict properties) fs =
      valid_properties part properties
      && is_required_of properties (get_or fs "required" (list nil))
      && is_flag (get_or fs "additionalProperties" (bool true))
  valid_object part _ fs = false

  unfoldable pub valid_shape : (Value → Bool) → Value → Fields → Bool
  unfolding valid_properties get_or
  valid_shape part kind fs =
      if is_a kind "object"
      then valid_object part (get_or fs "properties" (dict end)) fs
      else if is_a kind "array"
      then where_found part (lookup fs "items")
      else not (has_any fs ("properties" ∷ "required" ∷ "additionalProperties" ∷ []))

  unfoldable pub valid_typed : (Value → Bool) → Value → Fields → Bool
  unfolding valid_shape has_sound_bounds has_own_bounds has_enum
  valid_typed part kind fs =
      where_found is_text (lookup fs "description")
      && where_found is_text (lookup fs "title")
      && has_enum fs
      && has_sound_bounds fs
      && valid_shape part kind fs
      && has_own_bounds kind fs

  unfoldable pub valid_fields : (Value → Bool) → Fields → Bool
  unfolding valid_typed get_or has_known_keys
  valid_fields part fs =
      let kind = get_or fs "type" null in
      let alternatives = get_or fs "anyOf" null in
      has_known_keys fs
      && not (is_null kind && is_null alternatives)
      && is_known_type kind
      && where_found (λ v. is_copied (copy_plain_json max_input_bytes v)) (lookup fs "default")
      && valid_choice part alternatives
      && (if is_null kind then not (has_any fs typed_keys) else valid_typed part kind fs)

  -- `_valid_schema`, with so many levels left
  unfoldable pub valid_schema : ℕ → Value → Bool
  unfolding valid_fields
  valid_schema (suc n) (dict fs) = valid_fields (valid_schema n) fs
  valid_schema _ _ = false
