-- ===== src/Billing/Env.antt =====
-- billing.py: the environment overrides of the spawned SDK child.
pub mod Scrub
pub mod Child
use hermes_claude_agent_sdk.Common.{
  String, Bool, true, false, not, ◌&&◌, ◌||◌, List, [], ◌∷◌, Option, none, some, ◌==◌, starts_with,
  ltb, nat_eq, any, contains, if◌then◌else◌,
}
use hermes_claude_agent_sdk.Common.Dict.{Dict, put}
use hermes_claude_agent_sdk.Python.{
  Value, null, bool, int, float, str, dict, object, end, Read, absent, raised, found, Interpreter,
  is_mapping, is_null, eq_str, read, entries,
}
use hermes_claude_agent_sdk.Python.Text
use hermes_claude_agent_sdk.Billing.{metered_env_denylist, secretish_env_parts}

abbrev pub refusal_fallback_env : String
refusal_fallback_env = "CLAUDE_CODE_DISABLE_REFUSAL_FALLBACK"

abbrev pub refusal_fallback_value : String
refusal_fallback_value = "1"

unfoldable pub is_subscription_oauth_token : Value → Bool
is_subscription_oauth_token (str value) =
    if Text.is_empty value
    then false
    else if starts_with value "sk-ant-api"
    then false
    else if starts_with value "sk-ant-"
    then true
    else if starts_with value "eyJ"
    then true
    else starts_with value "cc-"
is_subscription_oauth_token _ = false

unfoldable pub is_metered_sdk_env_value : Value → Value → Bool
unfolding is_null eq_str is_subscription_oauth_token
is_metered_sdk_env_value (str key) value =
    if not (contains metered_env_denylist key)
    then false
    else if is_null value || eq_str value ""
    then false
    else if key == "ANTHROPIC_TOKEN"
    then not (is_subscription_oauth_token value)
    else true
is_metered_sdk_env_value _ value = false

abbrev has_nul : String → Bool
has_nul = Text.any_char (λ c. nat_eq c 0)

unfoldable pub safe_env_key : Value → Option String
safe_env_key (str value) =
    if Text.is_empty value || ltb 128 (Text.length value) || has_nul value then none else some value
safe_env_key _ = none

-- `_safe_env_value`: `refused` is its `None`, `failed` an exception of `str`.
pub data EnvText : Type 0 where
  refused failed : EnvText
  text : String → EnvText

unfoldable pub bounded_env_text : String → EnvText
bounded_env_text t = if ltb 4096 (Text.length t) || has_nul t then refused else text t

module _ (py : Interpreter) where
  unfoldable pub safe_env_value : Value → EnvText
  unfolding bounded_env_text
  safe_env_value (str s) = bounded_env_text s
  safe_env_value (bool b) = bounded_env_text (if b then "True" else "False")
  safe_env_value (int n) = elim (py.int_text n) [ none ↦ failed | some t ↦ bounded_env_text t ]
  safe_env_value (float x) = bounded_env_text (py.float_text x)
  safe_env_value _ = refused

  unfoldable pub looks_secretish_env_key : String → Bool
  looks_secretish_env_key key =
      any (λ part. not (Text.is_empty part) && contains secretish_env_parts part)
        (Text.split b'_' (Text.replace b'-' "_" (py.upper key)))

-- The value that the loop over the denylist tests; an unreadable one is a fresh `object()`.
unfoldable pub is_vector_read : String → Read → Bool
unfolding is_metered_sdk_env_value
is_vector_read key absent = false
is_vector_read key raised = is_metered_sdk_env_value (str key) (object "object" end)
is_vector_read key (found value) = is_metered_sdk_env_value (str key) value

unfoldable pub is_present_vector : Value → String → Bool
unfolding read is_vector_read
is_present_vector parent key = is_vector_read key (read parent key)

-- `for key in METERED_ENV_DENYLIST`
unfoldable pub scrub_keys : Value → List String → Dict String → Dict String
scrub_keys parent [] overrides = overrides
scrub_keys parent (key ∷ keys) overrides =
    scrub_keys parent keys
      (if is_present_vector parent key then put key "" overrides else overrides)

unfoldable pub scrub : Value → Dict String → Dict String
unfolding scrub_keys is_mapping
scrub parent overrides =
    if is_mapping parent then scrub_keys parent metered_env_denylist overrides else overrides

module _ (py : Interpreter) where
  -- The guards of the loop over the configured items.
  unfoldable pub is_configurable : String → Bool
  is_configurable key = not (
      contains metered_env_denylist key
      || key == refusal_fallback_env
      || looks_secretish_env_key py key)

  -- One round of that loop; `none` is an exception, which ends the loop.
  unfoldable pub configure_key : String → Value → Dict String → Option (Dict String)
  configure_key key raw_value overrides =
      if is_null raw_value || not (is_configurable key)
      then some overrides
      else elim (safe_env_value py raw_value) [
        | refused ↦ some overrides
        | failed ↦ none
        | text value ↦ some (put key value overrides)
      ]

  unfoldable pub configure_one : Value → Value → Dict String → Option (Dict String)
  configure_one raw_key raw_value overrides = elim (safe_env_key raw_key) [
    | none ↦ some overrides
    | some key ↦ configure_key key raw_value overrides
  ]

  unfoldable pub configure : List (Value × Value) → Dict String → Dict String
  configure [] overrides = overrides
  configure ((raw_key, raw_value) ∷ items) overrides =
      elim (configure_one raw_key raw_value overrides) [
        | none ↦ overrides
        | some next ↦ configure items next
      ]

  unfoldable pub configured : Value → Dict String → Dict String
  unfolding configure
  configured (dict fs) overrides = configure (entries fs) overrides
  configured _ overrides = overrides

  unfoldable pub plan_sdk_env_overrides : Value → Value → Dict String
  unfolding scrub configured
  plan_sdk_env_overrides parent_env configured_env =
      configured configured_env
        (scrub parent_env ((refusal_fallback_env, refusal_fallback_value) ∷ []))
