-- ===== src/Billing/Tests.antt =====
-- Runs of the billing policy, and its theorems at concrete inputs.
use hermes_claude_agent_sdk.Common.{
  ◌≡◌, refl, ◌↔◌, true, false, [], ◌∷◌, some, none, eq_iff, any, contains,
}
use hermes_claude_agent_sdk.Common.Dict.{get, put}
use hermes_claude_agent_sdk.Python.{
  Value, str, dict, tuple, class_name, is_mapping, is_str, is_bool, is_null, eq_str, is_true,
  is_false, lookup, read, attr, to_list, entries, is_truthy, dict_get,
}
use hermes_claude_agent_sdk.Python.Sample.{plain, fields}
use hermes_claude_agent_sdk.Billing.{Evidence, no_evidence}
use hermes_claude_agent_sdk.Billing.Env.{
  refusal_fallback_env, refusal_fallback_value, is_metered_sdk_env_value, looks_secretish_env_key,
  plan_sdk_env_overrides, is_subscription_oauth_token, safe_env_key, bounded_env_text,
  safe_env_value, is_vector_read, is_present_vector, scrub_keys, scrub, is_configurable,
  configure_key, configure_one, configure, configured,
}
use hermes_claude_agent_sdk.Billing.Env.Child.{
  child_value, child_unmetered, plan_refuses_fallback, plan_omits_secretish,
}
use hermes_claude_agent_sdk.Billing.Normalize.{
  known_fields, names_value, normalize_evidence, texts, opt_value, keep_known, declared_malformed,
  api_key_category, overage_category, rate_limit_category, bounded_signal_text,
  canonical_api_key_source, canonical_overage_status, canonical_rate_limit_type, malformed_names,
  normalized_fields,
}
use hermes_claude_agent_sdk.Billing.Extract.{
  typed, value, evidence, listed_names, merge_evidence, extract_sdk_billing_evidence, read_field,
  has_any, event_kind, system_evidence, rate_limit_evidence, rate_limit_branch,
}
use hermes_claude_agent_sdk.Billing.Classify.{
  classify_evidence, classify_sdk_billing, coerce_evidence, blocked, among, shows_paid_use,
  contradicts_source, contradicts_status, shows_overage_window, has_unknown, has_positive, gate,
}
use hermes_claude_agent_sdk.Billing.Classify.Gate.{Permits, classify_allowed_iff}
use hermes_claude_agent_sdk.Billing.Classify.Labels.{IsCoherent, classify-IsCoherent}
use hermes_claude_agent_sdk.Billing.Classify.Merge.{malformed_persists}
use hermes_claude_agent_sdk.Common.Names.{insert, sorted_set}
use hermes_claude_agent_sdk.Python.Text
use mathlib.Core.Bool.{false≢true}

-- All the code, opened for the runs below.
billing_code : Unit {0}
unfolding is_subscription_oauth_token is_metered_sdk_env_value safe_env_key bounded_env_text
    safe_env_value looks_secretish_env_key is_vector_read is_present_vector scrub_keys scrub
    is_configurable configure_key configure_one configure configured plan_sdk_env_overrides texts
    names_value opt_value keep_known declared_malformed api_key_category overage_category
    rate_limit_category bounded_signal_text canonical_api_key_source canonical_overage_status
    canonical_rate_limit_type malformed_names normalized_fields normalize_evidence read_field
    has_any event_kind system_evidence rate_limit_evidence rate_limit_branch
    extract_sdk_billing_evidence listed_names merge_evidence coerce_evidence blocked among
    shows_paid_use contradicts_source contradicts_status shows_overage_window has_unknown
    has_positive gate classify_evidence classify_sdk_billing class_name is_mapping is_str is_bool
    is_null eq_str is_true is_false lookup read attr to_list entries is_truthy dict_get get put
    insert sorted_set Text.is_space Text.lstrip Text.rstrip Text.strip Text.any_char Text.replace
    Text.remove_char Text.split contains any
billing_code = tt

abbrev parent : Value
parent = dict (fields (("ANTHROPIC_API_KEY", str "sk-ant-api-1") ∷ ("HOME", str "/root") ∷ []))

abbrev conf : Value
conf =
    dict (fields (("ANTHROPIC_API_KEY", str "x") ∷ ("MY_TOKEN", str "y") ∷ ("LEVEL", str "3") ∷ []))

plan_run :
    plan_sdk_env_overrides plain parent conf
    ≡ (refusal_fallback_env, "1") ∷ ("ANTHROPIC_API_KEY", "") ∷ ("LEVEL", "3") ∷ []
unfolding billing_code
plan_run = refl

abbrev subscribed : Evidence
subscribed = record no_evidence { api_key_source = str " none "; rate_limit_type = str "five_hour" }

subscribed_run : (classify_evidence plain subscribed).allowed ≡ true
unfolding billing_code
subscribed_run = refl

extract_run :
    extract_sdk_billing_evidence plain (
      value (
        dict (
          fields (
            ("type", str "system-message")
            ∷ ("subtype", str "init")
            ∷ ("data", dict (fields (("apiKeySource", str "none") ∷ [])))
            ∷ []))))
    ≡ evidence (record no_evidence { api_key_source = str "none" })
unfolding billing_code
extract_run = refl

abbrev torn : Evidence
torn = record no_evidence { malformed_fields = tuple (names_value ("overage_status" ∷ [])) }

torn_lists : contains (listed_names torn.malformed_fields) "overage_status" ≡ true
unfolding billing_code
torn_lists = refl

known_status : contains known_fields "overage_status" ≡ true
unfolding billing_code
known_status = refl

child_unmetered_example :
    is_metered_sdk_env_value
      (str "ANTHROPIC_API_KEY")
      (child_value parent (plan_sdk_env_overrides plain parent conf) "ANTHROPIC_API_KEY")
    ≡ false
child_unmetered_example = child_unmetered plain parent conf "ANTHROPIC_API_KEY"

plan_refuses_fallback_example :
    get refusal_fallback_env (plan_sdk_env_overrides plain parent conf)
    ≡ some refusal_fallback_value
plan_refuses_fallback_example = plan_refuses_fallback plain parent conf

plan_omits_secretish_example : get "MY_TOKEN" (plan_sdk_env_overrides plain parent conf) ≡ none
unfolding billing_code
plan_omits_secretish_example =
    plan_omits_secretish plain parent conf "MY_TOKEN" refl refl
      (λ p. false≢true ((eq_iff "MY_TOKEN" refusal_fallback_env).1 p))

classify_allowed_iff_example : ((classify_evidence plain subscribed).allowed ≡ true) ↔ (
    ((normalize_evidence plain subscribed).1 ≡ [])
    × Permits (normalize_evidence plain subscribed).0)
classify_allowed_iff_example = classify_allowed_iff plain subscribed

classify-IsCoherent_example : IsCoherent (classify_sdk_billing plain (typed torn))
classify-IsCoherent_example = classify-IsCoherent plain (typed torn)

malformed_persists_example :
    (classify_evidence plain (merge_evidence (some torn) subscribed)).allowed ≡ false
malformed_persists_example =
    malformed_persists plain torn subscribed "overage_status" known_status torn_lists
