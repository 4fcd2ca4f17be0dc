-- ===== src/Billing/Normalize.antt =====
-- billing.py: the canonical categories of one evidence snapshot.
use hermes_claude_agent_sdk.Common.{
  String, Bool, true, false, not, ◌&&◌, ◌||◌, List, [], ◌∷◌, ◌++◌, Option, none, some, ◌==◌, ltb,
  contains, if◌then◌else◌,
}
use hermes_claude_agent_sdk.Common.Names.{sorted_set}
use hermes_claude_agent_sdk.Python.{
  Value, null, str, list, tuple, set, Items, nil, cons, Interpreter, is_null, is_bool,
}
use hermes_claude_agent_sdk.Python.Text
use hermes_claude_agent_sdk.Billing.{
  Evidence, metered_api_key_sources, safe_overage_statuses, risky_overage_statuses,
  safe_rate_limit_types,
}

-- The texts among the members of a tuple, a list or a set.
unfoldable pub texts : Items → List String
texts nil = []
texts (cons (str s) xs) = s ∷ texts xs
texts (cons _ xs) = texts xs

unfoldable pub names_value : List String → Items
names_value [] = nil
names_value (s ∷ names) = cons (str s) (names_value names)

unfoldable pub opt_value : Option String → Value
opt_value none = null
opt_value (some s) = str s

abbrev pub known_fields : List String
known_fields = "api_key_source" ∷ "is_using_overage" ∷ "overage_status" ∷ "rate_limit_type" ∷ []

unfoldable pub keep_known : List String → List String
keep_known [] = []
keep_known (s ∷ names) =
    let rest = keep_known names in if contains known_fields s then s ∷ rest else rest

-- The names that the evidence itself declares malformed.
unfoldable pub declared_malformed : Value → List String
unfolding texts keep_known
declared_malformed (tuple xs) = keep_known (texts xs)
declared_malformed (list xs) = keep_known (texts xs)
declared_malformed (set xs) = keep_known (texts xs)
declared_malformed _ = "malformed_fields" ∷ []

abbrev named : Bool → String → List String
named bad name = if bad then name ∷ [] else []

abbrev pub canonical : (String → String) → Option String × Bool → Option String × Bool
canonical category (none, malformed) = (none, malformed)
canonical category (some text, malformed) = (some (category text), malformed)

unfoldable pub api_key_category : String → String
api_key_category text =
    if text == "none"
    then "none"
    else if contains metered_api_key_sources text
    then "metered"
    else "unknown"

unfoldable pub overage_category : String → String
overage_category text =
    if contains safe_overage_statuses text || contains risky_overage_statuses text
    then text
    else "unknown"

unfoldable pub rate_limit_category : String → String
rate_limit_category text =
    if contains safe_rate_limit_types text
    then text
    else if text == "overage"
    then text
    else "unknown"

module _ (py : Interpreter) where
  unfoldable pub bounded_signal_text : Value → Option String × Bool
  bounded_signal_text null = (none, false)
  bounded_signal_text (str value) =
      let text = py.lower (Text.strip value) in
      if Text.is_empty text || ltb 64 (Text.length text)
      then (some "unknown", true)
      else (some text, false)
  bounded_signal_text _ = (some "unknown", true)

  unfoldable pub canonical_api_key_source : Value → Option String × Bool
  canonical_api_key_source value = canonical api_key_category (bounded_signal_text value)

  unfoldable pub canonical_overage_status : Value → Option String × Bool
  canonical_overage_status value = canonical overage_category (bounded_signal_text value)

  unfoldable pub canonical_rate_limit_type : Value → Option String × Bool
  canonical_rate_limit_type value = canonical rate_limit_category (bounded_signal_text value)

  -- Set and neither `None` nor a `bool`.
  abbrev bad_overage_flag : Value → Bool
  bad_overage_flag value = not (is_null value) && not (is_bool value)

  -- The set of malformed names, before it is sorted.
  unfoldable pub malformed_names : Evidence → List String
  unfolding declared_malformed
  malformed_names evidence =
      declared_malformed evidence.malformed_fields
      ++ named (canonical_api_key_source evidence.api_key_source).1 "api_key_source"
      ++ named (bad_overage_flag evidence.is_using_overage) "is_using_overage"
      ++ named (canonical_overage_status evidence.overage_status).1 "overage_status"
      ++ named (canonical_rate_limit_type evidence.rate_limit_type).1 "rate_limit_type"

  unfoldable pub normalized_fields : Evidence → Evidence
  normalized_fields evidence = record {
    api_key_source = opt_value (canonical_api_key_source evidence.api_key_source).0;
    is_using_overage =
        if bad_overage_flag evidence.is_using_overage then null else evidence.is_using_overage;
    overage_status = opt_value (canonical_overage_status evidence.overage_status).0;
    rate_limit_type = opt_value (canonical_rate_limit_type evidence.rate_limit_type).0;
    malformed_fields = tuple nil;
  }

  -- `_normalize_evidence`
  unfoldable pub normalize_evidence : Evidence → Evidence × List String
  unfolding normalized_fields
  normalize_evidence evidence = (normalized_fields evidence, sorted_set (malformed_names evidence))
