-- ===== src/Billing/Classify.antt =====
-- billing.py: the subscription-only gate on one evidence snapshot.
pub mod Gate
pub mod Labels
pub mod Merge
use hermes_claude_agent_sdk.Common.{
  String, Bool, true, false, not, ◌&&◌, ◌||◌, List, [], ◌∷◌, Option, none, some, contains,
  if◌then◌else◌,
}
use hermes_claude_agent_sdk.Python.{
  Value, null, str, tuple, nil, Interpreter, is_mapping, is_true, is_false, eq_str,
}
use hermes_claude_agent_sdk.Billing.{
  BillingMode, subscription_included, sdk_reported_metered, unknown, BlockReason, api_key_source,
  extra_usage, overage, unknown_evidence, conflicting_evidence, Evidence, no_evidence, Decision,
  safe_overage_statuses, risky_overage_statuses, safe_rate_limit_types,
}
use hermes_claude_agent_sdk.Billing.Normalize.{normalized_fields, normalize_evidence}
use hermes_claude_agent_sdk.Billing.Extract.{Input, typed, value, read_field}

unfoldable pub coerce_evidence : Input → Option Evidence
coerce_evidence (typed evidence) = some evidence
coerce_evidence (value v) =
    if not (is_mapping v)
    then none
    else some (record {
      api_key_source = read_field v ("api_key_source" ∷ "apiKeySource" ∷ []) null;
      is_using_overage = read_field v ("is_using_overage" ∷ "isUsingOverage" ∷ []) null;
      overage_status = read_field v ("overage_status" ∷ "overageStatus" ∷ []) null;
      rate_limit_type = read_field v ("rate_limit_type" ∷ "rateLimitType" ∷ []) null;
      malformed_fields = tuple nil;
    })

-- `_blocked(reason, evidence, metered=...)`
unfoldable pub blocked : BlockReason → Evidence → Bool → Decision
blocked reason evidence metered = record {
  mode = if metered then sdk_reported_metered else unknown;
  allowed = false;
  block_reason = some reason;
  evidence = evidence;
}

-- `value in names`, for a value that may be no text
unfoldable pub among : List String → Value → Bool
among names (str s) = contains names s
among names _ = false

-- `using_overage is True or status in _RISKY_OVERAGE_STATUSES`
unfoldable pub shows_paid_use : Evidence → Bool
unfolding is_true
shows_paid_use n = is_true n.is_using_overage || among risky_overage_statuses n.overage_status

unfoldable pub contradicts_source : Evidence → Bool
unfolding eq_str shows_paid_use
contradicts_source n = eq_str n.api_key_source "none" && shows_paid_use n

unfoldable pub contradicts_status : Evidence → Bool
unfolding is_false
contradicts_status n = is_false n.is_using_overage && among risky_overage_statuses n.overage_status

unfoldable pub shows_overage_window : Evidence → Bool
unfolding eq_str is_false
shows_overage_window n = eq_str n.rate_limit_type "overage" && not (is_false n.is_using_overage)

unfoldable pub has_unknown : Evidence → Bool
unfolding eq_str
has_unknown n =
    eq_str n.api_key_source "unknown"
    || eq_str n.is_using_overage "unknown"
    || eq_str n.overage_status "unknown"
    || eq_str n.rate_limit_type "unknown"

unfoldable pub has_positive : Evidence → Bool
unfolding eq_str is_false
has_positive n =
    eq_str n.api_key_source "none"
    || is_false n.is_using_overage
    || among safe_overage_statuses n.overage_status
    || among safe_rate_limit_types n.rate_limit_type

-- The gate on normalized evidence with no malformed field.
unfoldable pub gate : Evidence → Decision
unfolding blocked
gate n =
    if contradicts_source n
    then blocked conflicting_evidence n false
    else if contradicts_status n
    then blocked conflicting_evidence n false
    else if eq_str n.api_key_source "metered"
    then blocked api_key_source n true
    else if shows_paid_use n
    then blocked extra_usage n true
    else if shows_overage_window n
    then blocked overage n true
    else if has_unknown n
    then blocked unknown_evidence n false
    else if not (has_positive n)
    then blocked unknown_evidence n false
    else record { mode = subscription_included; allowed = true; block_reason = none; evidence = n }

-- The gate as it is applied to the normalized fields and the malformed names.
abbrev pub gated : Evidence → List String → Decision
gated n [] = gate n
gated n (_ ∷ _) = blocked unknown_evidence n false

module _ (py : Interpreter) where
  unfoldable pub classify_evidence : Evidence → Decision
  unfolding normalize_evidence
  classify_evidence evidence =
      let (normalized, malformed) = normalize_evidence py evidence in gated normalized malformed

  abbrev pub classified : Option Evidence → Decision
  classified none = blocked unknown_evidence no_evidence false
  classified (some evidence) = classify_evidence evidence

  unfoldable pub classify_sdk_billing : Input → Decision
  unfolding classify_evidence
  classify_sdk_billing input = classified (coerce_evidence input)
