-- ===== src/Runtime/Forward.antt =====
-- runtime.py: the loop of `run_turn` over the projections of its session, and how the turn ends.
use hermes_claude_agent_sdk.Common.{
  ℕ, suc, ◌+◌, String, Bool, true, false, not, ◌&&◌, ◌||◌, List, [], ◌∷◌, ◌++◌, Option, none, some,
  ltb, leb, nat_eq, contains, if◌then◌else◌,
}
use hermes_claude_agent_sdk.Python.{Float, Value, bool}
use hermes_claude_agent_sdk.Python.Text
use hermes_claude_agent_sdk.Compaction as Compactions
use hermes_claude_agent_sdk.Session.Outcome.{TurnResult}
use hermes_claude_agent_sdk.Projector.Events.{
  Event, content, tool_request, usage, completion, compaction, Receipt, Projection, Resolution,
  unknown, ambiguous,
}
use hermes_claude_agent_sdk.Runtime.Types.{
  Phase, before_visible_output, after_visible_output, after_side_effects, Code,
  native_tool_unsupported, runtime_failed, RuntimeFailure, Provenance, Emitted, shown, failed_turn,
}
use hermes_claude_agent_sdk.Runtime.Preflight.{runtime_id}

-- What the loop keeps. The count of the bridge's calls at the start of the turn is `start`.
pub record Loop : Type 0 where
  pub start : ℕ
  pub allowed : List String
  pub emitted : List Emitted
  pub observations : List String
  pub visible : Bool
  pub cancel_sent : Bool
  pub poll_failed : Bool
  pub cancels : ℕ
  pub provenance : Provenance

abbrev pub no_provenance : Provenance
no_provenance = record {
  effective_model = "unknown";
  canonical_model = "unknown";
  model_resolution = unknown;
}

-- The phase of a failure, at so many calls of the host
unfoldable pub phase_at : ℕ → Loop → Phase
phase_at executions l =
    if ltb l.start executions
    then after_side_effects
    else if l.visible
    then after_visible_output
    else before_visible_output

abbrev pub failure : Code → Phase → Bool → RuntimeFailure
failure code phase retryable = record {
  code = code;
  phase = phase;
  replay_safe = false;
  retryable = retryable;
}

abbrev is_name_char : ℕ → Bool
is_name_char c =
    (leb b'A' c && leb c b'Z')
    || (leb b'a' c && leb c b'z')
    || (leb b'0' c && leb c b'9')
    || nat_eq c b'_'
    || nat_eq c b'.'
    || nat_eq c b':'
    || nat_eq c b'-'

-- `_safe_tool_observation_name`
unfoldable pub observed_name : String → Option String
unfolding Text.strip Text.any_char
observed_name value =
    let name = Text.strip value in
    if not (Text.is_empty name)
      && leb (Text.length name) 128
      && not (Text.any_char (λ c. not (is_name_char c)) name)
    then some name
    else none

abbrev pub is_among : List String → Option String → Bool
is_among names none = false
is_among names (some name) = contains names name

-- The session is cancelled, once.
abbrev pub cancel_session : Loop → Loop
cancel_session l = record l { cancel_sent = true; cancels = l.cancels + 1 }

-- A poll of the host
abbrev pub answer_poll : Option Value → Loop → Loop
answer_poll (some (bool true)) l = cancel_session l
answer_poll (some (bool false)) l = l
answer_poll _ l = record (cancel_session l) { poll_failed = true }

unfoldable pub poll : Option Value → Loop → Loop
poll answer l = if l.cancel_sent then l else answer_poll answer l

abbrev or_unknown : Option String → String
or_unknown none = "unknown"
or_unknown (some s) = if Text.is_empty s then "unknown" else s

abbrev is_ambiguous : Resolution → Bool
is_ambiguous ambiguous = true
is_ambiguous _ = false

abbrev pub provenance_of : Projection → Provenance
provenance_of p =
    if is_ambiguous p.model_resolution
    then record {
      effective_model = "unknown";
      canonical_model = "unknown";
      model_resolution = ambiguous;
    }
    else record {
      effective_model = or_unknown p.effective_model;
      canonical_model = or_unknown p.canonical_model;
      model_resolution = p.model_resolution;
    }

-- The identity of the model, from the projection of a result
unfoldable pub note_result : Projection → Loop → Loop
note_result p l = if p.is_result then record l { provenance = provenance_of p } else l

-- Whether a tool is requested that the server of the host does not have
unfoldable pub has_foreign_tool : List String → List Event → Bool
unfolding observed_name
has_foreign_tool allowed [] = false
has_foreign_tool allowed (tool_request id name args ∷ events) =
    not (is_among allowed (observed_name name)) || has_foreign_tool allowed events
has_foreign_tool allowed (_ ∷ events) = has_foreign_tool allowed events

abbrev pub count : List String → ℕ
count [] = 0
count (s ∷ names) = suc (count names)

abbrev pub observed : Option String → List String → List String
observed none names = names
observed (some name) names = if ltb (count names) 64 then names ++ name ∷ [] else names

-- The receipt that the host is given
abbrev pub host_receipt : Option String → Receipt → Receipt
host_receipt correlation r = record r {
  runtime_id = runtime_id;
  provider = "anthropic";
  billing_mode = "subscription_included";
  cost_status = "included";
  replay_safe = false;
  correlation_id = correlation;
}

abbrev pub emit : Event → Loop → Loop
emit e l = record l { emitted = l.emitted ++ shown e ∷ [] }

-- One event of a projection, for a turn of this correlation
unfoldable pub forward : Option String → Event → Loop → Loop
unfolding observed_name
forward correlation (completion fields) l = l
forward correlation (tool_request id name args) l = record l {
  observations = observed (observed_name name) l.observations;
}
forward correlation (usage r) l = emit (usage (host_receipt correlation r)) l
forward correlation (content s) l = emit (content s) (record l { visible = true })
forward correlation (compaction phase bound) l = emit (compaction phase bound) l

unfoldable pub forward_all : Option String → List Event → Loop → Loop
unfolding forward
forward_all correlation [] l = l
forward_all correlation (e ∷ events) l = forward_all correlation events (forward correlation e l)

-- The end of a turn: what is still emitted, and the cancels of the session
abbrev pub add : Emitted → Loop → Loop
add e l = record l { emitted = l.emitted ++ e ∷ [] }

abbrev pub add_cancel : Loop → Loop
add_cancel l = record l { cancels = l.cancels + 1 }

-- The handler of an exception, before the turn's terminal event
unfoldable pub fail_unexpectedly : ℕ → Loop → Loop
unfolding phase_at
fail_unexpectedly executions l =
    add_cancel (add (failed_turn (failure runtime_failed (phase_at executions l) false)) l)

-- The session is cancelled for a tool that is not the host's; the turn may raise while it is awaited.
abbrev pub settle_foreign : Option TurnResult → ℕ → Phase → Loop → Loop
settle_foreign none executions phase l = fail_unexpectedly executions l
settle_foreign (some r) executions phase l =
    add (failed_turn (failure native_tool_unsupported phase false)) l

unfoldable pub stop_foreign : Option TurnResult → ℕ → ℕ → Loop → Loop
unfolding fail_unexpectedly phase_at
stop_foreign outcome executions at_end l =
    settle_foreign outcome at_end (phase_at executions l) (add_cancel l)

-- The bound of a watchdog is a detail of its own event alone.
abbrev bound_of : Compactions.Phase → Option Float → Option Float
bound_of Compactions.watchdog bound = bound
bound_of _ bound = none

-- `on_compaction_event`: the projection that is queued for an event of the compaction
abbrev pub compaction_projection : Compactions.Event → Projection
compaction_projection e = record {
  events = compaction e.phase (bound_of e.phase e.bound) ∷ [];
  tool_results = [];
  is_tool_iteration = false;
  final_text = none;
  is_result = false;
  selected_model = none;
  effective_model = none;
  canonical_model = none;
  model_resolution = unknown;
}
