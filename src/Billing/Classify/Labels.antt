-- ===== src/Billing/Classify/Labels.antt =====
-- The labels of a decision fit together, whatever the evidence was.
use hermes_claude_agent_sdk.Common.{
  String, ◌≡◌, refl, Bool, true, false, List, [], ◌∷◌, Option, none, some, arith,
}
use hermes_claude_agent_sdk.Python.{Interpreter}
use hermes_claude_agent_sdk.Billing.{
  BillingMode, subscription_included, sdk_reported_metered, unknown, BlockReason, api_key_source,
  extra_usage, overage, unknown_evidence, conflicting_evidence, Evidence, Decision,
}
use hermes_claude_agent_sdk.Billing.Extract.{Input}
use hermes_claude_agent_sdk.Billing.Normalize.{normalize_evidence}
use hermes_claude_agent_sdk.Billing.Classify.{
  coerce_evidence, blocked, gate, gated, classified, classify_evidence, classify_sdk_billing,
}

-- The label that goes with a reason: paid use is metered, doubt is unknown, no reason is allowed.
abbrev label : Option BlockReason → BillingMode
label none = subscription_included
label (some api_key_source) = sdk_reported_metered
label (some extra_usage) = sdk_reported_metered
label (some overage) = sdk_reported_metered
label (some unknown_evidence) = unknown
label (some conflicting_evidence) = unknown

abbrev permitted : Option BlockReason → Bool
permitted none = true
permitted (some _) = false

abbrev pub IsCoherent : Decision → Type 0
IsCoherent d = (d.mode ≡ label d.block_reason) × (d.allowed ≡ permitted d.block_reason)

gate-IsCoherent : (n : Evidence) → IsCoherent (gate n)
unfolding gate
gate-IsCoherent n = ground arith

gated-IsCoherent : (n : Evidence) (names : List String) → IsCoherent (gated n names)
unfolding blocked
gated-IsCoherent n [] = gate-IsCoherent n
gated-IsCoherent n (_ ∷ _) = (refl, refl)

classified-IsCoherent : (py : Interpreter) (o : Option Evidence) → IsCoherent (classified py o)
unfolding blocked classify_evidence
classified-IsCoherent py none = (refl, refl)
classified-IsCoherent py (some e) = gated-IsCoherent _ (normalize_evidence py e).1

-- For every input a decision without a reason is allowed and labelled as subscription use; one
-- with a reason is not allowed, and is labelled metered exactly for a reason of paid use.
pub classify-IsCoherent :
    (py : Interpreter) (input : Input) → IsCoherent (classify_sdk_billing py input)
unfolding classify_sdk_billing
classify-IsCoherent py input = classified-IsCoherent py (coerce_evidence input)
