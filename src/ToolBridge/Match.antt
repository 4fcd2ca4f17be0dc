-- ===== src/ToolBridge/Match.antt =====
-- tool_bridge.py: `_matches_schema`. `none` stands for an exception, or for levels that ran out.
pub mod Total
pub mod Bounds
pub mod Parts
pub mod Levels
pub mod Enum
use hermes_claude_agent_sdk.Common.{
  ℕ, zero, suc, ◌+◌, String, Bool, true, false, not, ◌&&◌, ◌||◌, Option, none, some, ◌==◌, ltb,
  if◌then◌else◌,
}
use hermes_claude_agent_sdk.Common.Int.{ℤ, pos, negsuc}
use hermes_claude_agent_sdk.Common.Options.{bind}
use hermes_claude_agent_sdk.Python.{
  Value, null, bool, int, float, str, list, tuple, set, dict, broken, object, Items, nil, cons,
  Fields, end, field, Float, finite, Read, absent, raised, found, lookup, is_null, is_bool,
}
use hermes_claude_agent_sdk.Python.Text
use hermes_claude_agent_sdk.ToolBridge.Schema.{
  or_default, get_or, has, is_found, is_finite_number, number_less, is_a,
}

-- A test whose result may be missing, and one after it
abbrev pub and_then : Option Bool → Option Bool → Option Bool
and_then none rest = none
and_then (some true) rest = rest
and_then (some false) rest = some false

abbrev pub or_else : Option Bool → Option Bool → Option Bool
or_else none rest = none
or_else (some true) rest = some true
or_else (some false) rest = rest

-- `any(test(child) for child in children)`
unfoldable pub any_item : (Value → Option Bool) → Items → Option Bool
any_item test nil = some false
any_item test (cons x xs) = or_else (test x) (any_item test xs)

unfoldable pub all_items : (Value → Option Bool) → Items → Option Bool
all_items test nil = some true
all_items test (cons x xs) = and_then (test x) (all_items test xs)

abbrev pub count_at_least : Value → ℕ → Option Bool
count_at_least (int (pos m)) n = some (not (ltb n m))
count_at_least (int (negsuc m)) n = some true
count_at_least _ n = none

abbrev pub count_at_most : Value → ℕ → Option Bool
count_at_most (int (pos m)) n = some (not (ltb m n))
count_at_most (int (negsuc m)) n = some false
count_at_most _ n = none

-- A bound under a key that may be missing
abbrev pub bounded_by : (Value → Option Bool) → Read → Option Bool
bounded_by test (found v) = test v
bounded_by test _ = some true

abbrev pub count : Items → ℕ
count nil = 0
count (cons x xs) = suc (count xs)

abbrev pub at_least : Value → Value → Option Bool
at_least value low = if is_finite_number low then some (not (number_less value low)) else none

abbrev pub at_most : Value → Value → Option Bool
at_most value high = if is_finite_number high then some (not (number_less high value)) else none

-- `type(item) is type(value) and item == value`, of values that hold no others
unfoldable pub is_same : Value → Value → Bool
is_same null null = true
is_same (bool true) (bool true) = true
is_same (bool false) (bool false) = true
is_same (int m) (int n) = not (number_less (int m) (int n)) && not (number_less (int n) (int m))
is_same (float x) (float y) =
    is_finite_number (float x)
    && is_finite_number (float y)
    && not (number_less (float x) (float y))
    && not (number_less (float y) (float x))
is_same (str s) (str t) = s == t
is_same _ _ = false

unfoldable pub in_enum : Read → Value → Option Bool
unfolding any_item is_same
in_enum (found (list options)) value = any_item (λ option. some (is_same option value)) options
in_enum (found (tuple options)) value = any_item (λ option. some (is_same option value)) options
in_enum (found _) value = none
in_enum _ value = some true

unfoldable pub all_present : Fields → Items → Option Bool
unfolding has
all_present fs nil = some true
all_present fs (cons (str name) names) = if has fs name then all_present fs names else some false
all_present fs _ = none

abbrev pub requires : Fields → Value → Option Bool
requires fs (list names) = all_present fs names
requires fs _ = none

unfoldable pub has_no_other : Fields → Fields → Bool
unfolding has
has_no_other properties end = true
has_no_other properties (field (str name) v fs) = has properties name && has_no_other properties fs
has_no_other properties (field _ v fs) = false

abbrev pub admits_others : Value → Fields → Fields → Bool
admits_others (bool false) properties fs = has_no_other properties fs
admits_others _ properties fs = true

-- The schema of a property, where there is one
abbrev pub property_match : (Value → Value → Option Bool) → Value → Read → Option Bool
property_match test child (found schema) = test child schema
property_match test child _ = some true

unfoldable pub properties_match : (Value → Value → Option Bool) → Fields → Fields → Option Bool
properties_match test properties end = some true
properties_match test properties (field (str name) child fs) =
    and_then (property_match test child (lookup properties name))
      (properties_match test properties fs)
properties_match test properties (field _ child fs) = properties_match test properties fs

abbrev pub object_match : (Value → Value → Option Bool) → Value → Value → Fields → Option Bool
object_match test (dict fs) (dict properties) schema =
    and_then (requires fs (get_or schema "required" (list nil))) (
      and_then
        (some (admits_others (get_or schema "additionalProperties" (bool true)) properties fs))
        (properties_match test properties fs))
object_match test (dict fs) _ schema = none
object_match test _ _ schema = some false

abbrev pub items_match : (Value → Value → Option Bool) → Items → Value → Option Bool
items_match test xs null = some true
items_match test xs schema = all_items (λ x. test x schema) xs

abbrev pub array_match : (Value → Value → Option Bool) → Value → Fields → Option Bool
array_match test (list xs) schema =
    and_then (bounded_by (λ low. count_at_least low (count xs)) (lookup schema "minItems")) (
      and_then (bounded_by (λ high. count_at_most high (count xs)) (lookup schema "maxItems"))
        (items_match test xs (get_or schema "items" null)))
array_match test _ schema = some false

abbrev pub string_match : Value → Fields → Option Bool
string_match (str s) schema =
    and_then (bounded_by (λ low. count_at_least low (Text.length s)) (lookup schema "minLength"))
      (bounded_by (λ high. count_at_most high (Text.length s)) (lookup schema "maxLength"))
string_match _ schema = some false

abbrev pub in_range : Value → Fields → Option Bool
in_range value schema =
    and_then (bounded_by (at_least value) (lookup schema "minimum"))
      (bounded_by (at_most value) (lookup schema "maximum"))

abbrev pub is_int : Value → Bool
is_int (int _) = true
is_int _ = false

-- The types whose values hold no others
unfoldable pub scalar_match : Value → Value → Fields → Option Bool
unfolding get_or
scalar_match kind value schema =
    if is_a kind "string"
    then string_match value schema
    else if is_a kind "number"
    then if is_finite_number value then in_range value schema else some false
    else if is_a kind "integer"
    then if is_int value then in_range value schema else some false
    else if is_a kind "boolean"
    then some (is_bool value)
    else if is_a kind "null"
    then some (is_null value)
    else some true

unfoldable pub typed_match : (Value → Value → Option Bool) → Value → Value → Fields → Option Bool
unfolding get_or properties_match all_items scalar_match in_enum
typed_match test kind value schema =
    if is_null kind
    then some true
    else if is_a kind "object"
    then object_match test value (get_or schema "properties" (dict end)) schema
    else if is_a kind "array"
    then array_match test value schema
    else and_then (scalar_match kind value schema) (in_enum (lookup schema "enum") value)

abbrev pub choice_match : (Value → Value → Option Bool) → Value → Value → Option Bool
choice_match test value null = some true
choice_match test value (list alternatives) = any_item (test value) alternatives
choice_match test value _ = none

unfoldable pub fields_match : (Value → Value → Option Bool) → Value → Fields → Option Bool
unfolding get_or any_item typed_match
fields_match test value schema =
    and_then (choice_match test value (get_or schema "anyOf" null))
      (typed_match test (get_or schema "type" null) value schema)

-- `_matches_schema`, for schemas of so many levels
unfoldable pub matches_schema : ℕ → Value → Value → Option Bool
unfolding fields_match
matches_schema (suc n) value (dict schema) = fields_match (matches_schema n) value schema
matches_schema _ value _ = none
