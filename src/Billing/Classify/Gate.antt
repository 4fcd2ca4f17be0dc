-- ===== src/Billing/Classify/Gate.antt =====
-- The gate against its promise: it lets a turn through exactly on a recognized subscription signal
-- with no signal of paid use.
pub mod Forms
use hermes_claude_agent_sdk.Common.{
  String, ◌≡◌, refl, ◌↔◌, ◌⊎◌, inl, inr, Bool, true, false, List, [], ◌∷◌, Option, none, some,
  arith, eq_iff, Bool-cases, contains,
}
use hermes_claude_agent_sdk.Python.{Value, null, bool, str, Interpreter, is_true, is_false, eq_str}
use hermes_claude_agent_sdk.Billing.{
  BillingMode, subscription_included, sdk_reported_metered, unknown, BlockReason, api_key_source,
  extra_usage, overage, unknown_evidence, Evidence, Decision, safe_overage_statuses,
  risky_overage_statuses, safe_rate_limit_types,
}
use hermes_claude_agent_sdk.Billing.Normalize.{
  normalized_fields, normalize_evidence, malformed_names,
}
use hermes_claude_agent_sdk.Billing.Classify.{
  blocked, among, contradicts_source, contradicts_status, shows_overage_window, has_unknown,
  has_positive, gate, gated, classify_evidence,
}
use Forms.{IsCanonical, normalized-IsCanonical, unlisted}
use hermes_claude_agent_sdk.Common.Names.{sorted_set}
use mathlib.Core.List.{cons≢nil}

-- What permits a turn, on normalized evidence.
pub record Permits (n : Evidence) : Type 0 where
  pub source : (n.api_key_source ≡ null) ⊎ (n.api_key_source ≡ str "none")
  pub no_overage : ¬ (n.is_using_overage ≡ bool true)
  pub status : (n.overage_status ≡ null) ⊎ (among safe_overage_statuses n.overage_status ≡ true)
  pub window :
      (n.rate_limit_type ≡ null)
      ⊎ (among safe_rate_limit_types n.rate_limit_type ≡ true)
      ⊎ ((n.rate_limit_type ≡ str "overage") × (n.is_using_overage ≡ bool false))
  pub positive :
      (n.api_key_source ≡ str "none")
      ⊎ (n.is_using_overage ≡ bool false)
      ⊎ (among safe_overage_statuses n.overage_status ≡ true)
      ⊎ (among safe_rate_limit_types n.rate_limit_type ≡ true)

module _ (n : Evidence) (canonical : IsCanonical n) where
  gate-Permits : (gate n).allowed ≡ true → Permits n
  unfolding gate among contradicts_source contradicts_status shows_overage_window has_unknown
      has_positive
  gate-Permits h = ground arith

  Permits-gate : Permits n → (gate n).allowed ≡ true
  unfolding gate among contradicts_source contradicts_status shows_overage_window has_unknown
      has_positive
  Permits-gate p = ground (arith, unlisted)

gated_iff :
    (n : Evidence) (names : List String)
    → IsCanonical n
    → ((gated n names).allowed ≡ true) ↔ ((names ≡ []) × Permits n)
unfolding blocked
gated_iff n [] canonical =
    (λ h. (refl, gate-Permits n canonical h), λ p. Permits-gate n canonical p.1)
gated_iff n (name ∷ names) canonical = (λ h. cc, λ p. absurd (cons≢nil p.0))

module _ (py : Interpreter) (e : Evidence) where
  -- A snapshot is allowed exactly if no field is malformed and the normalized fields permit it.
  pub classify_allowed_iff :
      ((classify_evidence py e).allowed ≡ true)
      ↔ (((normalize_evidence py e).1 ≡ []) × Permits (normalize_evidence py e).0)
  unfolding classify_evidence normalize_evidence
  classify_allowed_iff =
      gated_iff _ (sorted_set (malformed_names py e)) (normalized-IsCanonical py e)
