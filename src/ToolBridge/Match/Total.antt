-- ===== src/ToolBridge/Match/Total.antt =====
-- A schema that `_valid_schema` accepts never makes `_matches_schema` raise or run out of levels.
use hermes_claude_agent_sdk.Common.{
  and-true, if-elim, ℕ, ◌≡◌, refl, Bool, true, false, not, Option, none, some,
}
use hermes_claude_agent_sdk.Common.Int.{pos, negsuc}
use hermes_claude_agent_sdk.Python.{
  Value, int, str, list, tuple, Items, nil, cons, Fields, Read, absent, raised, found,
}
use hermes_claude_agent_sdk.ToolBridge.Json.{copy_plain_json, max_input_bytes}
use hermes_claude_agent_sdk.ToolBridge.Json.Reference.{listed}
use hermes_claude_agent_sdk.ToolBridge.Json.Sound.{copied-Exact}
use hermes_claude_agent_sdk.ToolBridge.Schema.{
  has, is_finite_number, number_less, where_found, is_nonnegative_integer, is_list, are_properties,
  is_required_of,
}
use hermes_claude_agent_sdk.ToolBridge.Match.{
  and_then, or_else, any_item, count_at_least, count_at_most, bounded_by, at_least, at_most,
  is_same, in_enum, all_present, requires,
}

-- A test that has a result
unfoldable pub Returns : Option Bool → Type 0
Returns o = (b : Bool) × (o ≡ some b)

pub returns : (b : Bool) → Returns (some b)
unfolding Returns
returns b = (b, refl)

pub and_then-Returns : (o rest : Option Bool) → Returns o → Returns rest → Returns (and_then o rest)
unfolding Returns
and_then-Returns none rest h k = cc
and_then-Returns (some true) rest h k = k
and_then-Returns (some false) rest h k = (false, refl)

pub or_else-Returns : (o rest : Option Bool) → Returns o → Returns rest → Returns (or_else o rest)
unfolding Returns
or_else-Returns none rest h k = cc
or_else-Returns (some true) rest h k = (true, refl)
or_else-Returns (some false) rest h k = k

pub count_at_least-Returns :
    (r : Read) (n : ℕ)
    → where_found is_nonnegative_integer r ≡ true
    → Returns (bounded_by (λ low. count_at_least low n) r)
unfolding Returns
count_at_least-Returns (found (int (pos m))) n h = (_, refl)
count_at_least-Returns (found (int (negsuc m))) n h = (_, refl)
count_at_least-Returns (found _) n h = cc
count_at_least-Returns absent n h = (true, refl)
count_at_least-Returns raised n h = (true, refl)

pub count_at_most-Returns :
    (r : Read) (n : ℕ)
    → where_found is_nonnegative_integer r ≡ true
    → Returns (bounded_by (λ high. count_at_most high n) r)
unfolding Returns
count_at_most-Returns (found (int (pos m))) n h = (_, refl)
count_at_most-Returns (found (int (negsuc m))) n h = (_, refl)
count_at_most-Returns (found _) n h = cc
count_at_most-Returns absent n h = (true, refl)
count_at_most-Returns raised n h = (true, refl)

pub at_least-Returns :
    (value : Value) (r : Read)
    → where_found is_finite_number r ≡ true
    → Returns (bounded_by (at_least value) r)
unfolding Returns
at_least-Returns value (found low) h = (not (number_less value low), rw h)
at_least-Returns value absent h = (true, refl)
at_least-Returns value raised h = (true, refl)

pub at_most-Returns :
    (value : Value) (r : Read)
    → where_found is_finite_number r ≡ true
    → Returns (bounded_by (at_most value) r)
unfolding Returns
at_most-Returns value (found high) h = (not (number_less high value), rw h)
at_most-Returns value absent h = (true, refl)
at_most-Returns value raised h = (true, refl)

all_present-Returns :
    (properties fs : Fields) (names : Items)
    → are_properties properties names ≡ true
    → Returns (all_present fs names)
unfolding all_present are_properties
all_present-Returns properties fs nil h = returns true
all_present-Returns properties fs (cons (str name) names) h =
    if-elim Returns (has fs name)
      (λ _. all_present-Returns properties fs names (and-true (has properties name) _ h).1)
      (λ _. returns false)
all_present-Returns properties fs (cons _ names) h = cc

pub requires-Returns :
    (properties fs : Fields) (v : Value)
    → is_required_of properties v ≡ true
    → Returns (requires fs v)
requires-Returns properties fs (list names) h = all_present-Returns properties fs names h
requires-Returns properties fs _ h = cc

-- Options compared one by one
options-Return :
    (value : Value) (options : Items)
    → Returns (any_item (λ option. some (is_same option value)) options)
unfolding any_item
options-Return value nil = returns false
options-Return value (cons option options) =
    or_else-Returns (some (is_same option value)) _ (returns _) (options-Return value options)

listed_copy : (o : Option Value) → is_list o ≡ true → (xs : Items) × (o ≡ some (list xs))
listed_copy (some (list xs)) h = (xs, refl)
listed_copy _ h = cc

listed-list :
    (v : Value) (xs : Items)
    → list xs ≡ listed v
    → (value : Value) → Returns (in_enum (found v) value)
unfolding listed in_enum
listed-list (list ys) xs e value = options-Return value ys
listed-list (tuple ys) xs e value = options-Return value ys
listed-list _ xs e value = cc

pub in_enum-Returns :
    (r : Read) (value : Value)
    → where_found (λ v. is_list (copy_plain_json max_input_bytes v)) r ≡ true
    → Returns (in_enum r value)
unfolding in_enum
in_enum-Returns (found v) value h =
    let (xs, e) = listed_copy (copy_plain_json max_input_bytes v) h in
    listed-list v xs (copied-Exact max_input_bytes v (list xs) e).0 value
in_enum-Returns absent value h = returns true
in_enum-Returns raised value h = returns true
