-- ===== src/Projector/Provenance.antt =====
-- content_events.py: `_model_provenance`, which tells the model of a turn from the evidence.
use hermes_claude_agent_sdk.Common.{
  String, Bool, true, false, not, ◌&&◌, ◌||◌, List, [], ◌∷◌, Option, none, some, ◌==◌, contains,
  any, all, if◌then◌else◌,
}
use hermes_claude_agent_sdk.Common.Dict.{Dict, get}
use hermes_claude_agent_sdk.Python.{Interpreter}
use hermes_claude_agent_sdk.Projector.Events.{
  Resolution, unknown, ambiguous, canonicalized, mismatch, exact, reported,
}
use hermes_claude_agent_sdk.Projector.Model.{Evidence, canonical_name}

-- The effective and the canonical model, and how they were found
pub record Identity : Type 0 where
  pub effective : Option String
  pub canonical : Option String
  pub resolution : Resolution

abbrev pub unclear : Identity
unclear = record { effective = none; canonical = none; resolution = ambiguous }

-- The two names before they are compared with the selection; `none` is ambiguous evidence.
abbrev pub Names : Type 0
Names = Option (Option String × Option String)

abbrev pub is_tainted : Evidence → Bool
is_tainted e = e.usage_malformed || e.session_malformed || e.session_conflict

-- `_usage_canonical_models.get(model)`
abbrev pub canonical_in : Evidence → String → Option String
canonical_in e m = canonical_name (get m e.canonical_models)

abbrev pub is_name : String → Option String → Bool
is_name m none = false
is_name m (some n) = n == m

-- Whether exactly one entry has this canonical name
abbrev none_names : String → Dict (Option String) → Bool
none_names m [] = true
none_names m ((k, c) ∷ entries) = not (is_name m c) && none_names m entries

abbrev pub one_names : String → Dict (Option String) → Bool
one_names m [] = false
one_names m ((k, c) ∷ entries) = if is_name m c then none_names m entries else one_names m entries

-- Several models were used: the primary one must be known, and be one of them or their canonical name.
abbrev pub named_by : Evidence → String → Names
named_by e m =
    if contains e.usage_models m
    then some (some m, canonical_in e m)
    else if one_names m e.canonical_models
    then some (some m, some m)
    else none

abbrev pub by_reported : Evidence → List String → Names
by_reported e (m ∷ []) = named_by e m
by_reported e _ = none

abbrev pub among_many : Evidence → Option String → Names
among_many e (some s) = named_by e s
among_many e none = by_reported e e.reported_models

-- One model was used.
abbrev pub single : Evidence → String → Option String → Names
single e u (some s) =
    if u == s
    then some (some s, canonical_in e u)
    else if is_name s (canonical_in e u)
    then some (some s, some s)
    else none
single e u none =
    if all (λ m. m == u || is_name m (canonical_in e u)) e.reported_models
    then some (some u, canonical_in e u)
    else none

-- No model was used.
abbrev pub from_reported : List String → Names
from_reported [] = some (none, none)
from_reported (m ∷ []) = some (some m, none)
from_reported _ = none

abbrev pub without_usage : Evidence → Option String → Names
without_usage e (some s) = some (some s, none)
without_usage e none = from_reported e.reported_models

abbrev pub from_usage : Evidence → List String → Names
from_usage e [] = without_usage e e.session_model
from_usage e (u ∷ []) = single e u e.session_model
from_usage e _ = among_many e e.session_model

-- The comparison with the selection
abbrev pub compared : Option String → String → Resolution
compared none m = reported
compared (some s) m = if s == m then exact else mismatch

abbrev pub resolved : Option String → String → Option String → Resolution
resolved selected m none = compared selected m
resolved selected m (some c) = if c == m then compared selected m else canonicalized

abbrev pub identity_of : Option String → Names → Identity
identity_of selected none = unclear
identity_of selected (some (none, canonical)) = record {
  effective = none;
  canonical = canonical;
  resolution = unknown;
}
identity_of selected (some (some m, canonical)) = record {
  effective = some m;
  canonical = canonical;
  resolution = resolved selected m canonical;
}

module _ (py : Interpreter) where
  -- A model that an answer reports, but for the sentinels of a synthetic one, contradicts the session.
  abbrev is_synthetic : String → Bool
  is_synthetic m = (py.casefold m == "synthetic") || (py.casefold m == "claude-fable-synthetic")

  abbrev pub conflicts : Evidence → Option String → Bool
  conflicts e none = false
  conflicts e (some s) = any (λ m. not (m == s) && not (is_synthetic m)) e.reported_models

  -- `_model_provenance`
  unfoldable pub model_provenance : Evidence → Identity
  unfolding contains any all get
  model_provenance e =
      if is_tainted e || conflicts e e.session_model
      then unclear
      else identity_of e.selected_model (from_usage e e.usage_models)
