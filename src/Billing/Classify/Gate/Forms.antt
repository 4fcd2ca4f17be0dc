-- ===== src/Billing/Classify/Gate/Forms.antt =====
-- The forms that normalization leaves: a missing field, a known category, or `unknown`.
use hermes_claude_agent_sdk.Common.{
  String, ◌≡◌, refl, ◌⊎◌, inl, inr, Bool, true, false, Option, none, some, arith, ◌==◌, eq_iff,
  Bool-cases, not, ◌&&◌, contains, contains-All, if◌then◌else◌,
}
use hermes_claude_agent_sdk.Python.{Value, null, bool, str, Interpreter, is_null, is_bool, eq_str}
use hermes_claude_agent_sdk.Billing.{
  Evidence, safe_overage_statuses, risky_overage_statuses, safe_rate_limit_types,
}
use hermes_claude_agent_sdk.Billing.Normalize.{
  opt_value, canonical, normalized_fields, bounded_signal_text, api_key_category, overage_category,
  rate_limit_category, canonical_api_key_source, canonical_overage_status,
  canonical_rate_limit_type,
}
use hermes_claude_agent_sdk.Billing.Classify.{among}

abbrev pub SourceForm : Value → Type 0
SourceForm v = (v ≡ null) ⊎ (v ≡ str "none") ⊎ (v ≡ str "metered") ⊎ (v ≡ str "unknown")

abbrev pub OverageForm : Value → Type 0
OverageForm v = (v ≡ null) ⊎ (v ≡ bool true) ⊎ (v ≡ bool false)

-- `unknown` and `overage` are in none of the lists.
pub unlisted :
    (contains safe_overage_statuses "unknown" ≡ false)
    × (contains safe_rate_limit_types "unknown" ≡ false)
    × (contains safe_rate_limit_types "overage" ≡ false)
unfolding contains
unlisted = (refl, refl, refl)

abbrev pub StatusForm : Value → Type 0
StatusForm v =
    (v ≡ null)
    ⊎ (v ≡ str "unknown")
    ⊎ ((eq_str v "unknown" ≡ false)
        × (((among safe_overage_statuses v ≡ true) × (among risky_overage_statuses v ≡ false))
            ⊎ ((among safe_overage_statuses v ≡ false) × (among risky_overage_statuses v ≡ true))))

abbrev pub WindowForm : Value → Type 0
WindowForm v =
    (v ≡ null)
    ⊎ (v ≡ str "unknown")
    ⊎ (v ≡ str "overage")
    ⊎ ((among safe_rate_limit_types v ≡ true)
        × (eq_str v "unknown" ≡ false)
        × (eq_str v "overage" ≡ false))

api_key_category-SourceForm : (t : String) → SourceForm (str (api_key_category t))
unfolding api_key_category
api_key_category-SourceForm t = ground arith

-- A risky status is no safe one, and neither is `unknown`.
risky-facts :
    (t : String)
    → contains risky_overage_statuses t ≡ true
    → (contains safe_overage_statuses t ≡ false) × ((eq_str (str t) "unknown") ≡ false)
unfolding contains eq_str
risky-facts t =
    contains-All
      (λ s. (contains safe_overage_statuses s ≡ false) × (eq_str (str s) "unknown" ≡ false))
      risky_overage_statuses t (ground arith)

safe-facts :
    (t : String)
    → contains safe_overage_statuses t ≡ true
    → (contains risky_overage_statuses t ≡ false) × ((eq_str (str t) "unknown") ≡ false)
unfolding contains eq_str
safe-facts t =
    contains-All
      (λ s. (contains risky_overage_statuses s ≡ false) × (eq_str (str s) "unknown" ≡ false))
      safe_overage_statuses t (ground arith)

window-facts :
    (t : String)
    → contains safe_rate_limit_types t ≡ true
    → (eq_str (str t) "unknown" ≡ false) × (eq_str (str t) "overage" ≡ false)
unfolding contains eq_str
window-facts t =
    contains-All (λ s. (eq_str (str s) "unknown" ≡ false) × (eq_str (str s) "overage" ≡ false))
      safe_rate_limit_types t (ground arith)

overage_category-StatusForm : (t : String) → StatusForm (str (overage_category t))
unfolding overage_category among
overage_category-StatusForm t = elim (Bool-cases (contains safe_overage_statuses t)) [
  | inl safe ↦ ground (arith, safe-facts t safe)
  | inr other ↦ elim (Bool-cases (contains risky_overage_statuses t)) [
    | inl risky ↦ ground (arith, risky-facts t risky)
    | inr neither ↦ ground arith
  ]
]

rate_limit_category-WindowForm : (t : String) → WindowForm (str (rate_limit_category t))
unfolding rate_limit_category among
rate_limit_category-WindowForm t = elim (Bool-cases (contains safe_rate_limit_types t)) [
  | inl safe ↦ ground (arith, window-facts t safe)
  | inr other ↦ elim (Bool-cases (t == "overage")) [
    | inl overage ↦ rw (other, overage) (ground (arith, eq_iff t "overage"))
    | inr neither ↦ ground arith
  ]
]

canonical-form :
    (P : Value → Type 0) (category : String → String) (r : Option String × Bool)
    → P null
    → ((t : String) → P (str (category t)))
    → P (opt_value (canonical category r).0)
unfolding opt_value
canonical-form P category (none, bad) missing known = missing
canonical-form P category (some t, bad) missing known = known t

-- Normalization leaves every field in its form.
pub record IsCanonical (n : Evidence) : Type 0 where
  pub source : SourceForm n.api_key_source
  pub using : OverageForm n.is_using_overage
  pub status : StatusForm n.overage_status
  pub window : WindowForm n.rate_limit_type

overage_flag-OverageForm :
    (v : Value) → OverageForm (if not (is_null v) && not (is_bool v) then null else v)
unfolding is_null is_bool
overage_flag-OverageForm (bool true) = inr (inl refl)
overage_flag-OverageForm (bool false) = inr (inr refl)
overage_flag-OverageForm _ = inl refl

pub normalized-IsCanonical :
    (py : Interpreter) (e : Evidence) → IsCanonical (normalized_fields py e)
unfolding normalized_fields canonical_api_key_source canonical_overage_status
    canonical_rate_limit_type
normalized-IsCanonical py e = record {
  source =
      canonical-form SourceForm api_key_category (bounded_signal_text py e.api_key_source)
        (inl refl) api_key_category-SourceForm;
  using = overage_flag-OverageForm e.is_using_overage;
  status =
      canonical-form StatusForm overage_category (bounded_signal_text py e.overage_status)
        (inl refl) overage_category-StatusForm;
  window =
      canonical-form WindowForm rate_limit_category (bounded_signal_text py e.rate_limit_type)
        (inl refl) rate_limit_category-WindowForm;
}
