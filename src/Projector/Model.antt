-- ===== src/Projector/Model.antt =====
-- content_events.py: the evidence of the model that `ClaudeSdkEventProjector` gathers, and what it
-- makes of it.
use hermes_claude_agent_sdk.Common.{
  ℕ, suc, String, Bool, true, false, not, ◌&&◌, ◌||◌, List, [], ◌∷◌, Option, none, some, ◌==◌, ltb,
  leb, nat_eq, contains, if◌then◌else◌,
}
use hermes_claude_agent_sdk.Common.Dict.{Dict, get, put}
use hermes_claude_agent_sdk.Python.{
  Value, null, str, dict, Fields, end, field, Read, absent, raised, found, read, attr, eq_str,
  dict_get, is_mapping, class_name, Interpreter,
}
use hermes_claude_agent_sdk.Python.Text

-- The state that `_model_provenance` reads
pub record Evidence : Type 0 where
  pub selected_model : Option String
  pub reported_models : List String
  pub usage_models : List String
  pub canonical_models : Dict (Option String)
  pub usage_malformed : Bool
  pub session_model : Option String
  pub session_malformed : Bool
  pub session_conflict : Bool

abbrev is_alphanumeric : ℕ → Bool
is_alphanumeric c =
    (leb b'A' c && leb c b'Z') || (leb b'a' c && leb c b'z') || (leb b'0' c && leb c b'9')

abbrev is_model_char : ℕ → Bool
is_model_char c =
    is_alphanumeric c
    || nat_eq c b'_'
    || nat_eq c b'.'
    || nat_eq c b':'
    || nat_eq c b'/'
    || nat_eq c b'-'

-- A text of 1 to 128 characters without control characters that `_SAFE_MODEL_IDENTIFIER` matches
unfoldable pub is_model_name : String → Bool
unfolding Text.any_char
is_model_name text =
    not (Text.is_empty text)
    && leb (Text.length text) 128
    && not (Text.any_char (λ c. ltb c 32 || nat_eq c 127) text)
    && not (Text.any_char (λ c. not (is_alphanumeric c)) (Text.take 1 text))
    && not (Text.any_char (λ c. not (is_model_char c)) text)

-- `set.add`
abbrev pub add_name : String → List String → List String
add_name name names = if contains names name then names else name ∷ names

abbrev pub spoil_usage : Evidence → Evidence
spoil_usage e = record e { usage_malformed = true }

abbrev pub spoil_session : Evidence → Evidence
spoil_session e = record e { session_malformed = true }

abbrev pub size : Fields → ℕ
size end = 0
size (field k v fs) = suc (size fs)

-- What a new projector knows
abbrev pub no_evidence : Option String → Evidence
no_evidence selected = record {
  selected_model = selected;
  reported_models = [];
  usage_models = [];
  canonical_models = [];
  usage_malformed = false;
  session_model = none;
  session_malformed = false;
  session_conflict = false;
}

-- `begin_turn`, for what is known of the model
unfoldable pub begin_turn : Evidence → Evidence
begin_turn e = record e {
  reported_models = [];
  usage_models = [];
  canonical_models = [];
  usage_malformed = false;
}

-- A model that an init message names, where the session has a model or none
abbrev pub name_session : Option String → String → Evidence → Evidence
name_session none m e = record e { session_model = some m }
name_session (some s) m e = if s == m then e else record e { session_conflict = true }

abbrev pub note_session : Option String → Evidence → Evidence
note_session none e = spoil_session e
note_session (some m) e = name_session e.session_model m e

-- `_usage_canonical_models.get(model)`, where the entry may be None
abbrev pub canonical_name : Option (Option String) → Option String
canonical_name none = none
canonical_name (some c) = c

abbrev pub clashes : Option String → Option String → Bool
clashes (some p) (some c) = not (p == c)
clashes _ _ = false

-- The entry of a model, where an earlier name is kept if this entry has none
abbrev pub entry_of : Option String → Option String → Option String
entry_of previous none = previous
entry_of previous (some c) = some c

-- A valid entry of `model_usage`
abbrev pub note_entry : String → Option String → Evidence → Evidence
note_entry m canonical e =
    let previous = canonical_name (get m e.canonical_models) in
    if clashes previous canonical then spoil_usage e else record e {
      usage_models = add_name m e.usage_models;
      canonical_models = put m (entry_of previous canonical) e.canonical_models;
    }

module _ (py : Interpreter) where
  -- `_safe_model_identifier`
  unfoldable pub safe_model_identifier : Value → Option String
  unfolding Text.strip is_model_name
  safe_model_identifier (str s) =
      let text = Text.strip s in
      if is_model_name text && not (py.casefold text == "unknown") then some text else none
  safe_model_identifier _ = none

  -- What `data.get("model", _MISSING)` gives
  abbrev pub note_init : Read → Evidence → Evidence
  note_init absent e = e
  note_init raised e = spoil_session e
  note_init (found v) e = note_session (safe_model_identifier v) e

  abbrev pub note_data : Value → Evidence → Evidence
  note_data v e = if is_mapping v then note_init (read v "model") e else spoil_session e

  -- `_observe_init_model`
  unfoldable pub observe_init_model : Value → Evidence → Evidence
  unfolding attr eq_str read is_mapping safe_model_identifier
  observe_init_model message e =
      if eq_str (attr message "subtype" null) "init"
      then note_data (attr message "data" null) e
      else e

  abbrev known : Option String → Option (Option String)
  known none = none
  known (some m) = some (some m)

  -- The canonical name of an entry; `none` is a malformed one.
  abbrev pub canonical_of : Value → Option (Option String)
  canonical_of null = some none
  canonical_of (str s) =
      if py.casefold (Text.strip s) == "unknown"
      then some none
      else known (safe_model_identifier (str s))
  canonical_of _ = none

  abbrev pub note_canonical : String → Option (Option String) → Evidence → Evidence
  note_canonical m none e = spoil_usage e
  note_canonical m (some canonical) e = note_entry m canonical e

  -- One entry of `model_usage`
  abbrev pub note_usage : Option String → Value → Evidence → Evidence
  note_usage none usage e = spoil_usage e
  note_usage (some m) usage e =
      if is_mapping usage
      then note_canonical m (canonical_of (dict_get usage "canonicalModel")) e
      else spoil_usage e

  unfoldable pub note_usages : Fields → Evidence → Evidence
  unfolding is_mapping dict_get Text.strip safe_model_identifier
  note_usages end e = e
  note_usages (field k v fs) e = note_usages fs (note_usage (safe_model_identifier k) v e)

  abbrev is_root : Value → Bool
  is_root null = true
  is_root (str s) = Text.is_empty s
  is_root _ = false

  abbrev pub note_reported : Option String → Bool → Evidence → Evidence
  note_reported none root e = e
  note_reported (some m) root e =
      if root then record e { reported_models = add_name m e.reported_models } else e

  -- `model_usage`; at most 32 entries are looked at.
  abbrev pub note_model_usage : Value → Evidence → Evidence
  note_model_usage null e = e
  note_model_usage (dict fs) e = if ltb 32 (size fs) then spoil_usage e else note_usages fs e
  note_model_usage _ e = spoil_usage e

  -- `_observe_model_evidence`
  unfoldable pub observe_model_evidence : Value → Evidence → Evidence
  unfolding attr safe_model_identifier note_usages
  observe_model_evidence message e = note_model_usage (attr message "model_usage" null) (
      note_reported (safe_model_identifier (attr message "model" null))
        (is_root (attr message "parent_tool_use_id" null)) e)

  -- What `project` does to the evidence
  unfoldable pub observe : Value → Evidence → Evidence
  unfolding class_name observe_model_evidence observe_init_model
  observe message e =
      let name = class_name message in
      if (name == "AssistantMessage") || (name == "ResultMessage")
      then observe_model_evidence message e
      else if name == "SystemMessage"
      then observe_init_model message e
      else e
