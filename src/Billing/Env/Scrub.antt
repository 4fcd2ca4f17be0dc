-- ===== src/Billing/Env/Scrub.antt =====
-- The environment plan against its promise: metered vectors are emptied, whatever is configured.
use hermes_claude_agent_sdk.Common.{
  String, ◌≡◌, refl, true, false, ◌&&◌, List, [], ◌∷◌, none, some, arith, Option-cases, inl, inr,
  ◌∙◌, eq_iff, contains, if◌then◌else◌,
}
use hermes_claude_agent_sdk.Common.Dict.{Dict, get, put, get-put}
use hermes_claude_agent_sdk.Python.{Value, dict, Interpreter, is_mapping, entries}
use hermes_claude_agent_sdk.Billing.{metered_env_denylist}
use hermes_claude_agent_sdk.Billing.Env.{
  refusal_fallback_env, refusal_fallback_value, is_present_vector, scrub_keys, scrub,
  is_configurable, configure_key, configure_one, configure, configured, plan_sdk_env_overrides,
}

pub get-scrub_keys :
    (parent : Value) (keys : List String) (d : Dict String) (k : String)
    → get k (scrub_keys parent keys d)
      ≡ (if contains keys k && is_present_vector parent k then some "" else get k d)
unfolding scrub_keys contains
get-scrub_keys parent [] d k = refl
get-scrub_keys parent (key ∷ keys) d k = ground (
  arith,
  eq_iff key k,
  get-put key k "" d,
  get-scrub_keys parent keys (if is_present_vector parent key then put key "" d else d) k,
)

module _ (py : Interpreter) where
  -- A key that the guards refuse keeps its value through one round, and so through the loop.
  get-configure_key :
      (key : String) (raw_value : Value) (d : Dict String) (k : String)
      → is_configurable py k ≡ false
      → {d' : Dict String} → configure_key py key raw_value d ≡ some d'
      → get k d' ≡ get k d
  unfolding configure_key
  get-configure_key key raw_value d k h {d'} e = grind (arith, get-put, eq_iff key k)

  get-configure_one :
      (raw_key raw_value : Value) (d : Dict String) (k : String)
      → is_configurable py k ≡ false
      → {d' : Dict String} → configure_one py raw_key raw_value d ≡ some d'
      → get k d' ≡ get k d
  unfolding configure_one
  get-configure_one raw_key raw_value d k h {d'} e =
      grind (arith, λ (key : String). get-configure_key key raw_value d k h {d' = d'})

  get-configure :
      (items : List (Value × Value)) (d : Dict String) (k : String)
      → is_configurable py k ≡ false
      → get k (configure py items d) ≡ get k d
  unfolding configure
  get-configure [] d k h = refl
  get-configure ((raw_key, raw_value) ∷ items) d k h =
      elim (Option-cases (configure_one py raw_key raw_value d)) [
        | inl stopped ↦ rw (stopped, configure)
        | inr (next, e) ↦
            rw (e, configure)
              (get-configure items next k h ∙ get-configure_one raw_key raw_value d k h e)
      ]

  get-configured :
      (conf : Value) (d : Dict String) (k : String)
      → is_configurable py k ≡ false
      → get k (configured py conf d) ≡ get k d
  unfolding configured
  get-configured (dict fs) d k h = get-configure (entries fs) d k h
  get-configured _ d k h = refl

  -- What the plan holds for a key that configuration may not set.
  pub get-plan_guarded :
      (parent conf : Value) (k : String)
      → is_configurable py k ≡ false
      → get k (plan_sdk_env_overrides py parent conf)
        ≡ get k (scrub parent ((refusal_fallback_env, refusal_fallback_value) ∷ []))
  unfolding plan_sdk_env_overrides
  get-plan_guarded parent conf k h = get-configured conf _ k h

  pub denylisted-guarded :
      (k : String) → contains metered_env_denylist k ≡ true → is_configurable py k ≡ false
  unfolding is_configurable
  denylisted-guarded k h = rw h

  pub refusal_not_denylisted : contains metered_env_denylist refusal_fallback_env ≡ false
  unfolding contains
  refusal_not_denylisted = refl

  pub get-scrub_denylisted :
      (parent : Value) (k : String)
      → contains metered_env_denylist k ≡ true
      → get k (scrub parent ((refusal_fallback_env, refusal_fallback_value) ∷ []))
        ≡ (if is_mapping parent && is_present_vector parent k then some "" else none)
  unfolding scrub get
  get-scrub_denylisted parent k h = ground (
    arith,
    get-scrub_keys parent metered_env_denylist ((refusal_fallback_env, refusal_fallback_value) ∷ [])
        k,
    eq_iff refusal_fallback_env k,
    refusal_not_denylisted,
  )
