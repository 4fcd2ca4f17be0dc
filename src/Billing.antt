-- ===== src/Billing.antt =====
-- billing.py: the labels of a billing decision and the evidence that it is made from.
pub mod Env
pub mod Normalize
pub mod Extract
pub mod Classify
mod Tests
use hermes_claude_agent_sdk.Common.{String, List, [], ◌∷◌, Bool, Option}
use hermes_claude_agent_sdk.Python.{Value, null, tuple, nil}

pub data BillingMode : Type 0 where
  subscription_included sdk_reported_metered unknown : BillingMode

pub data BlockReason : Type 0 where
  api_key_source extra_usage overage unknown_evidence conflicting_evidence : BlockReason

abbrev pub metered_env_denylist : List String
metered_env_denylist =
    "ANTHROPIC_API_KEY" ∷ "ANTHROPIC_AUTH_TOKEN" ∷ "ANTHROPIC_TOKEN" ∷ "ANTHROPIC_BASE_URL"
    ∷ "CLAUDE_CODE_USE_BEDROCK" ∷ "CLAUDE_CODE_USE_VERTEX" ∷ "AWS_ACCESS_KEY_ID"
    ∷ "AWS_SECRET_ACCESS_KEY" ∷ "AWS_SESSION_TOKEN" ∷ "GOOGLE_APPLICATION_CREDENTIALS" ∷ []

abbrev pub metered_api_key_sources : List String
metered_api_key_sources =
    "anthropic_api_key" ∷ "anthropic_auth_token" ∷ "anthropic_token" ∷ "api_key" ∷ "api-key"
    ∷ "metered" ∷ []

abbrev pub safe_overage_statuses : List String
safe_overage_statuses =
    "rejected" ∷ "disabled" ∷ "not_allowed" ∷ "not-allowed" ∷ "inactive" ∷ "none" ∷ []

abbrev pub risky_overage_statuses : List String
risky_overage_statuses = "allowed" ∷ "allowed_warning" ∷ "allowed-warning" ∷ []

abbrev pub safe_rate_limit_types : List String
safe_rate_limit_types =
    "five_hour" ∷ "five-hour" ∷ "seven_day" ∷ "seven-day" ∷ "seven_day_opus" ∷ "seven_day_sonnet"
    ∷ "seven_day_overage_included" ∷ []

abbrev pub secretish_env_parts : List String
secretish_env_parts =
    "AUTH" ∷ "AUTHENTICATION" ∷ "COOKIE" ∷ "CREDENTIAL" ∷ "KEY" ∷ "OAUTH" ∷ "PASSWORD" ∷ "PRIVATE"
    ∷ "SECRET" ∷ "TOKEN" ∷ []

-- `SDKBillingEvidence`; an absent field is `null`.
pub record Evidence : Type 0 where
  pub api_key_source : Value
  pub is_using_overage : Value
  pub overage_status : Value
  pub rate_limit_type : Value
  pub malformed_fields : Value

abbrev pub no_evidence : Evidence
no_evidence = record {
  api_key_source = null;
  is_using_overage = null;
  overage_status = null;
  rate_limit_type = null;
  malformed_fields = tuple nil;
}

-- `BillingDecision`
pub record Decision : Type 0 where
  pub mode : BillingMode
  pub allowed : Bool
  pub block_reason : Option BlockReason
  pub evidence : Evidence
