-- ===== src/Projector/Gather.antt =====
-- What the evidence of the model keeps over messages and turns.
use hermes_claude_agent_sdk.Common.{
  String, ◌≡◌, Bool, true, false, not, ◌&&◌, ◌||◌, List, [], ◌∷◌, Option, none, some, ◌==◌, ltb,
  arith, if-elim, if◌then◌else◌,
}
use hermes_claude_agent_sdk.Python.{
  Value, null, str, dict, Fields, end, field, Read, absent, raised, found, read, attr, eq_str,
  dict_get, is_mapping, class_name, Interpreter,
}
use hermes_claude_agent_sdk.Python.Text
use hermes_claude_agent_sdk.Projector.Model.{
  Evidence, is_model_name, add_name, spoil_usage, spoil_session, begin_turn, note_session,
  note_entry, safe_model_identifier, note_init, note_data, observe_init_model, canonical_of,
  note_canonical, note_usage, note_usages, note_reported, note_model_usage, observe_model_evidence,
  observe, size,
}

-- What the projector is told
pub data Observation : Type 0 where
  turn_begins : Observation
  seen : Value → Observation

unfoldable pub gather : Interpreter → List Observation → Evidence → Evidence
gather py [] e = e
gather py (turn_begins ∷ xs) e = gather py xs (begin_turn e)
gather py (seen message ∷ xs) e = gather py xs (observe py message e)

module _ (py : Interpreter) where
  -- A name that a model may have, which is not `unknown`
  abbrev pub IsModelName : String → Type 0
  IsModelName m = (is_model_name m ≡ true) × ((py.casefold m == "unknown") ≡ false)

  abbrev IsNamed : Option String → Type 0
  IsNamed none = Unit
  IsNamed (some m) = IsModelName m

  both_parts : (a b : Bool) → (a && not b) ≡ true → (a ≡ true) × (b ≡ false)
  both_parts a b h = (ground arith, ground arith)

  text-IsNamed :
      (text : String)
      → IsNamed
          (if is_model_name text && not (py.casefold text == "unknown") then some text else none)
  text-IsNamed text =
      if-elim IsNamed (is_model_name text && not (py.casefold text == "unknown"))
        (λ h. both_parts (is_model_name text) (py.casefold text == "unknown") h) (λ _. tt)

  safe_model_identifier-IsNamed : (v : Value) → IsNamed (safe_model_identifier py v)
  unfolding safe_model_identifier
  safe_model_identifier-IsNamed (str s) = text-IsNamed (Text.strip s)
  safe_model_identifier-IsNamed _ = tt

  -- A property that each change of the evidence keeps is kept by all the messages and turns.
  module _ (P : Evidence → Type 0) (begun : (e : Evidence) → P e → P (begin_turn e))
      (usage_spoilt : (e : Evidence) → P e → P (spoil_usage e))
      (session_spoilt : (e : Evidence) → P e → P (spoil_session e))
      (session_named : (m : String) (e : Evidence)
        → IsModelName m
        → P e
        → P (note_session (some m) e))
      (entered : (m : String) (c : Option String) (e : Evidence)
        → IsModelName m
        → P e
        → P (note_entry m c e))
      (answered : (m : String) (e : Evidence)
        → IsModelName m
        → P e
        → P (record e { reported_models = add_name m e.reported_models })) where
    note_session-Keeps : (o : Option String) (e : Evidence) → IsNamed o → P e → P (note_session o e)
    note_session-Keeps none e n h = session_spoilt e h
    note_session-Keeps (some m) e n h = session_named m e n h

    note_init-Keeps : (r : Read) (e : Evidence) → P e → P (note_init py r e)
    note_init-Keeps absent e h = h
    note_init-Keeps raised e h = session_spoilt e h
    note_init-Keeps (found v) e h =
        note_session-Keeps (safe_model_identifier py v) e (safe_model_identifier-IsNamed v) h

    note_data-Keeps : (v : Value) (e : Evidence) → P e → P (note_data py v e)
    note_data-Keeps v e h =
        if-elim P (is_mapping v) (λ _. note_init-Keeps (read v "model") e h)
          (λ _. session_spoilt e h)

    init-Keeps : (message : Value) (e : Evidence) → P e → P (observe_init_model py message e)
    unfolding observe_init_model
    init-Keeps message e h =
        if-elim P (eq_str (attr message "subtype" null) "init")
          (λ _. note_data-Keeps (attr message "data" null) e h) (λ _. h)

    note_canonical-Keeps :
        (m : String) (c : Option (Option String)) (e : Evidence)
        → IsModelName m
        → P e
        → P (note_canonical py m c e)
    note_canonical-Keeps m none e n h = usage_spoilt e h
    note_canonical-Keeps m (some c) e n h = entered m c e n h

    note_usage-Keeps :
        (o : Option String) (usage : Value) (e : Evidence)
        → IsNamed o
        → P e
        → P (note_usage py o usage e)
    note_usage-Keeps none usage e n h = usage_spoilt e h
    note_usage-Keeps (some m) usage e n h =
        if-elim P (is_mapping usage)
          (λ _. note_canonical-Keeps m (canonical_of py (dict_get usage "canonicalModel")) e n h)
          (λ _. usage_spoilt e h)

    note_usages-Keeps : (fs : Fields) (e : Evidence) → P e → P (note_usages py fs e)
    unfolding note_usages
    note_usages-Keeps end e h = h
    note_usages-Keeps (field k v fs) e h =
        note_usages-Keeps fs (note_usage py (safe_model_identifier py k) v e)
          (note_usage-Keeps (safe_model_identifier py k) v e (safe_model_identifier-IsNamed k) h)

    note_reported-Keeps :
        (o : Option String) (root : Bool) (e : Evidence)
        → IsNamed o
        → P e
        → P (note_reported py o root e)
    note_reported-Keeps none root e n h = h
    note_reported-Keeps (some m) root e n h = if-elim P root (λ _. answered m e n h) (λ _. h)

    note_model_usage-Keeps : (v : Value) (e : Evidence) → P e → P (note_model_usage py v e)
    note_model_usage-Keeps null e h = h
    note_model_usage-Keeps (dict fs) e h =
        if-elim P (ltb 32 (size fs)) (λ _. usage_spoilt e h) (λ _. note_usages-Keeps fs e h)
    note_model_usage-Keeps _ e h = usage_spoilt e h

    evidence-Keeps :
        (message : Value) (e : Evidence) → P e → P (observe_model_evidence py message e)
    unfolding observe_model_evidence
    evidence-Keeps message e h = note_model_usage-Keeps (attr message "model_usage" null) _ (
        note_reported-Keeps (safe_model_identifier py (attr message "model" null)) _ e
          (safe_model_identifier-IsNamed (attr message "model" null)) h)

    observe-Keeps : (message : Value) (e : Evidence) → P e → P (observe py message e)
    unfolding observe
    observe-Keeps message e h =
        if-elim P
          ((class_name message == "AssistantMessage") || (class_name message == "ResultMessage"))
          (λ _. evidence-Keeps message e h)
          (λ _.
            if-elim P (class_name message == "SystemMessage") (λ _. init-Keeps message e h)
              (λ _. h))

    pub gather-Keeps : (xs : List Observation) (e : Evidence) → P e → P (gather py xs e)
    unfolding gather
    gather-Keeps [] e h = h
    gather-Keeps (turn_begins ∷ xs) e h = gather-Keeps xs (begin_turn e) (begun e h)
    gather-Keeps (seen message ∷ xs) e h =
        gather-Keeps xs (observe py message e) (observe-Keeps message e h)
