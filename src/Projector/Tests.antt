-- ===== src/Projector/Tests.antt =====
-- The projector's theorems on the evidence of two turns.
use hermes_claude_agent_sdk.Common.{◌≡◌, refl, String, true, List, [], ◌∷◌, none, some}
use hermes_claude_agent_sdk.Python.{
  Value, str, dict, attr, eq_str, read, lookup, is_mapping, class_name,
}
use hermes_claude_agent_sdk.Python.Text
use hermes_claude_agent_sdk.Python.Sample.{plain, fields, message}
use hermes_claude_agent_sdk.Projector.Model.{
  Evidence, begin_turn, no_evidence, observe, observe_init_model, observe_model_evidence,
  safe_model_identifier, is_model_name, note_usages,
}
use hermes_claude_agent_sdk.Projector.Provenance.{unclear, model_provenance}
use hermes_claude_agent_sdk.Projector.Gather.{Observation, turn_begins, seen, gather, IsModelName}
use hermes_claude_agent_sdk.Projector.Identity.{
  gather-unclear, Holds, gather-IsModelName, model_provenance-selection,
}

abbrev init : String → Value
init model =
    message "SystemMessage"
      (("subtype", str "init") ∷ ("data", dict (fields (("model", str model) ∷ []))) ∷ [])

abbrev result : Value
result = message "ResultMessage" (
    (
      "model_usage",
      dict (
          fields (
            ("claude-fable-5-1", dict (fields (("canonicalModel", str "claude-fable") ∷ [])))
            ∷ [])),
    )
    ∷ [])

-- Two sessions' models: the second init message contradicts the first.
abbrev tainted : Evidence
tainted = record (no_evidence (some "claude-fable-5-1")) {
  session_model = some "claude-fable-5-1";
  session_conflict = true;
}

abbrev observations : List Observation
observations = seen (init "claude-fable-5-1") ∷ turn_begins ∷ seen result ∷ []

gather-unclear_example : model_provenance plain (gather plain observations tainted) ≡ unclear
gather-unclear_example = gather-unclear plain observations tainted refl

gather-IsModelName_example :
    Holds
      (IsModelName plain)
      (model_provenance plain
        (gather plain observations (no_evidence (some "claude-fable-5-1")))).effective
gather-IsModelName_example = gather-IsModelName plain observations (some "claude-fable-5-1")

model_provenance-selection_example :
    ((model_provenance plain (record tainted { selected_model = none })).effective
      ≡ (model_provenance plain tainted).effective)
    × ((model_provenance plain (record tainted { selected_model = none })).canonical
        ≡ (model_provenance plain tainted).canonical)
model_provenance-selection_example = model_provenance-selection plain tainted none

-- The session's model is used, and its entry has another canonical name.
canonicalized_run :
    (model_provenance plain (gather plain observations (no_evidence none))).effective
    ≡ some "claude-fable-5-1"
unfolding model_provenance gather observe observe_init_model observe_model_evidence
    safe_model_identifier is_model_name note_usages class_name attr eq_str read lookup is_mapping
    Text.strip Text.any_char begin_turn
canonicalized_run = refl
