-- ===== src/Billing/Env/Child.antt =====
-- What the child process sees: the SDK lays the plan over the environment that it inherits.
use hermes_claude_agent_sdk.Common.{
  String, ◌≡◌, sym, subst, ◌∙◌, ◌≢◌, true, false, ◌&&◌, Option, none, some, arith, eq_iff, inl, inr,
  Bool-cases, contains, if◌then◌else◌, [], ◌∷◌,
}
use hermes_claude_agent_sdk.Common.Dict.{Dict, get}
use hermes_claude_agent_sdk.Python.{
  Value, null, str, dict, broken, Read, absent, raised, found, Interpreter, is_mapping, lookup,
  read,
}
use hermes_claude_agent_sdk.Billing.{metered_env_denylist}
use hermes_claude_agent_sdk.Billing.Env.{
  refusal_fallback_env, refusal_fallback_value, is_metered_sdk_env_value, is_vector_read,
  is_present_vector, scrub, is_configurable, looks_secretish_env_key, plan_sdk_env_overrides,
}
use hermes_claude_agent_sdk.Billing.Env.Scrub.{
  get-plan_guarded, denylisted-guarded, get-scrub_denylisted, get-scrub_keys,
  refusal_not_denylisted,
}

abbrev laid_over : Option String → Read → Value
laid_over (some t) _ = str t
laid_over none (found v) = v
laid_over none _ = null

-- A variable of the child: the plan's value, or else the inherited one.
pub child_value : Value → Dict String → String → Value
child_value parent plan key = laid_over (get key plan) (read parent key)

not_listed-not_metered :
    (k : String) (v : Value)
    → contains metered_env_denylist k ≡ false
    → is_metered_sdk_env_value (str k) v ≡ false
unfolding is_metered_sdk_env_value
not_listed-not_metered k v h = rw h

empty-not_metered : (k : String) → is_metered_sdk_env_value (str k) (str "") ≡ false
unfolding is_metered_sdk_env_value
empty-not_metered k = ground arith

null-not_metered : (k : String) → is_metered_sdk_env_value (str k) null ≡ false
unfolding is_metered_sdk_env_value
null-not_metered k = ground arith

laid_over-unmetered_read :
    (r : Read) (k : String)
    → is_metered_sdk_env_value (str k) (laid_over (if is_vector_read k r then some "" else none) r)
      ≡ false
unfolding is_vector_read
laid_over-unmetered_read absent k = null-not_metered k
laid_over-unmetered_read raised k = ground (arith, empty-not_metered k, null-not_metered k)
laid_over-unmetered_read (found v) k = elim (Bool-cases (is_metered_sdk_env_value (str k) v)) [
  | inl metered ↦ rw metered (empty-not_metered k)
  | inr harmless ↦ rw harmless harmless
]

-- One variable: an emptied one carries nothing, and one that the plan leaves alone was harmless.
laid_over-unmetered :
    (parent : Value) (k : String)
    → is_metered_sdk_env_value (str k) (
        laid_over
          (if is_mapping parent && is_present_vector parent k then some "" else none)
          (read parent k))
      ≡ false
unfolding is_mapping is_present_vector read
laid_over-unmetered (dict fs) k = laid_over-unmetered_read (lookup fs k) k
laid_over-unmetered broken k = laid_over-unmetered_read raised k
laid_over-unmetered _ k = null-not_metered k

module _ (py : Interpreter) where
  -- Whatever the parent environment and the configured knobs hold, no variable of the child is a
  -- metered billing vector.
  pub child_unmetered :
      (parent conf : Value) (k : String)
      → is_metered_sdk_env_value
          (str k)
          (child_value parent (plan_sdk_env_overrides py parent conf) k)
        ≡ false
  unfolding child_value
  child_unmetered parent conf k = elim (Bool-cases (contains metered_env_denylist k)) [
    | inl listed ↦
        subst (λ o. is_metered_sdk_env_value (str k) (laid_over o (read parent k)) ≡ false)
          (sym (
            get-plan_guarded py parent conf k (denylisted-guarded py k listed)
            ∙ get-scrub_denylisted py parent k listed))
          (laid_over-unmetered parent k)
    | inr other ↦ not_listed-not_metered k _ other
  ]

  scrub-fresh :
      (parent : Value) (k : String)
      → contains metered_env_denylist k ≡ false
      → get k (scrub parent ((refusal_fallback_env, refusal_fallback_value) ∷ []))
        ≡ get k ((refusal_fallback_env, refusal_fallback_value) ∷ [])
  unfolding scrub
  scrub-fresh parent k h = ground (
    arith,
    get-scrub_keys parent metered_env_denylist ((refusal_fallback_env, refusal_fallback_value) ∷ [])
        k,
  )

  -- The child's refusal fallback is switched off, whatever is configured.
  pub plan_refuses_fallback :
      (parent conf : Value)
      → get refusal_fallback_env (plan_sdk_env_overrides py parent conf)
        ≡ some refusal_fallback_value
  unfolding is_configurable get
  plan_refuses_fallback parent conf =
      get-plan_guarded py parent conf refusal_fallback_env
        (ground (arith, refusal_not_denylisted py))
      ∙ scrub-fresh parent refusal_fallback_env (refusal_not_denylisted py)

  -- A configured key that looks like a credential is not in the plan, unless it is a scrub or the
  -- refusal switch.
  pub plan_omits_secretish :
      (parent conf : Value) (k : String)
      → looks_secretish_env_key py k ≡ true
      → contains metered_env_denylist k ≡ false
      → k ≢ refusal_fallback_env
      → get k (plan_sdk_env_overrides py parent conf) ≡ none
  unfolding is_configurable get
  plan_omits_secretish parent conf k secret listed other =
      get-plan_guarded py parent conf k (ground arith)
      ∙ scrub-fresh parent k listed
      ∙ ground (arith, eq_iff refusal_fallback_env k)
