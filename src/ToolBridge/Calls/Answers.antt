-- ===== src/ToolBridge/Calls/Answers.antt =====
-- What a call answers.
use hermes_claude_agent_sdk.Common.{
  ◌*◌, ◌≤◌, String, ◌≡◌, refl, inl, inr, subst, sym, Bool-cases, Bool, true, false, List, [], ◌∷◌,
  Option, none, some, arith, ◌==◌, if-elim,
}
use hermes_claude_agent_sdk.Common.Options.{bind-some, some-inj, bind}
use hermes_claude_agent_sdk.Python.{Value, str, dict}
use hermes_claude_agent_sdk.Python.Utf8
use hermes_claude_agent_sdk.ToolBridge.Text.{
  Texts, bounded_text, is_safe_identifier, bounded_text-bytes,
}
use hermes_claude_agent_sdk.ToolBridge.Json.{copy_plain_json}
use hermes_claude_agent_sdk.ToolBridge.Match.Levels.{matches_schema-returns}
use hermes_claude_agent_sdk.ToolBridge.Schema.{valid_schema}
use hermes_claude_agent_sdk.ToolBridge.Normalize.{Definition, max_levels}
use hermes_claude_agent_sdk.ToolBridge.{
  Printer, CallOutcome, answered, rejected, interrupted, broken_off, HostAnswer, raises,
  is_cancelled, no_awaitable, returns, Host, Bridge, max_identifier, find, probed, result_text,
  copied_text, or_unsupported, max_result_bytes, finish_call, answer_call, execute, gate_call,
  match_call, copied_call, known_call, handle_tool_call,
}

-- Each definition's schema is a valid one.
abbrev pub HasSchemas : Texts → List Definition → Type 0
HasSchemas u [] = Unit
HasSchemas u (d ∷ ds) = (valid_schema u max_levels d.input_schema ≡ true) × HasSchemas u ds

-- An answer carries the correlations and a text of at most 65,536 bytes; no other exception than
-- the bridge's own leaves the call.
abbrev pub IsProper : HostAnswer → String → Option String → CallOutcome → Type 0
IsProper a id c (answered r) =
    (r.request_id ≡ id) × (r.correlation_id ≡ c) × (Utf8.bytes r.text ≤ max_result_bytes)
IsProper a id c (rejected e) = Unit
IsProper a id c interrupted = a ≡ is_cancelled
IsProper a id c broken_off = ⊥

module _ (u : Texts) (json : Printer) where
  unsupported-IsShort :
      (o : Option (String × Bool))
      → ((r : String × Bool) → o ≡ some r → Utf8.bytes r.0 ≤ max_result_bytes)
      → Utf8.bytes (or_unsupported u json o).0 ≤ max_result_bytes
  unfolding Utf8.bytes Utf8.width
  unsupported-IsShort none h = omega arith
  unsupported-IsShort (some r) h = h r refl

  copied_text-IsShort :
      (copied : Value) (r : String × Bool)
      → copied_text u json copied ≡ some r
      → Utf8.bytes r.0 ≤ max_result_bytes
  unfolding copied_text
  copied_text-IsShort copied r h =
      let (words, _, h1) = bind-some _ _ r h in
      let (short, e, h2) = bind-some (bounded_text u words max_result_bytes true) _ r h1 in
      subst (λ (q : String × Bool). Utf8.bytes q.0 ≤ max_result_bytes) (some-inj _ r h2)
        (bounded_text-bytes u words max_result_bytes true short e)

  result_text-IsShort : (value : Value) → Utf8.bytes (result_text u json value).0 ≤ max_result_bytes
  unfolding result_text
  result_text-IsShort value =
      let copied = copy_plain_json (max_result_bytes * 4) value in
      unsupported-IsShort (bind copied (copied_text u json)) (λ r h.
        let (v, _, e) = bind-some copied (copied_text u json) r h in copied_text-IsShort v r e)

  finish-IsProper :
      (o : Option Bool) (value : Value) (id tool : String) (b : Bridge)
      → IsProper (returns value) id b.correlation_id (finish_call u json o value id tool b)
  unfolding finish_call Utf8.bytes Utf8.width
  finish-IsProper none value id tool b = tt
  finish-IsProper (some true) value id tool b = (refl, refl, omega arith)
  finish-IsProper (some false) value id tool b = (refl, refl, result_text-IsShort value)

  answer-IsProper :
      (a : HostAnswer) (after : Option Value) (id tool : String) (b : Bridge)
      → IsProper a id b.correlation_id (answer_call u json a after id tool b)
  unfolding answer_call Utf8.bytes Utf8.width
  answer-IsProper raises after id tool b = (refl, refl, omega arith)
  answer-IsProper no_awaitable after id tool b = (refl, refl, omega arith)
  answer-IsProper is_cancelled after id tool b = refl
  answer-IsProper (returns value) after id tool b = finish-IsProper (probed after) value id tool b

  gate-IsProper :
      (o : Option Bool) (host : Host) (id tool : String) (copied : Value) (b : Bridge)
      → IsProper host.answer id b.correlation_id (gate_call u json o host id tool copied b).1
  unfolding gate_call execute
  gate-IsProper none host id tool copied b = tt
  gate-IsProper (some true) host id tool copied b = tt
  gate-IsProper (some false) host id tool copied b =
      answer-IsProper host.answer host.after id tool b

  match-IsProper :
      (o : Option Bool) (host : Host) (id tool : String) (copied : Value) (b : Bridge) (r : Bool)
      → o ≡ some r
      → IsProper host.answer id b.correlation_id (match_call u json o host id tool copied b).1
  unfolding match_call
  match-IsProper none host id tool copied b r e = cc
  match-IsProper (some false) host id tool copied b r e = tt
  match-IsProper (some true) host id tool copied b r e = gate-IsProper _ host id tool copied b

  copied-IsProper :
      (o : Option Value) (schema : Value) (host : Host) (id tool : String) (b : Bridge)
      → valid_schema u max_levels schema ≡ true
      → IsProper host.answer id b.correlation_id (copied_call u json o schema host id tool b).1
  unfolding copied_call
  copied-IsProper (some (dict fs)) schema host id tool b v =
      let (r, e) = matches_schema-returns u max_levels (dict fs) schema v in
      match-IsProper _ host id tool (dict fs) b r e
  copied-IsProper none schema host id tool b v = tt
  copied-IsProper (some _) schema host id tool b v = tt

  find-HasSchemas :
      (tool : String) (ds : List Definition) (d : Definition)
      → HasSchemas u ds
      → find tool ds ≡ some d
      → valid_schema u max_levels d.input_schema ≡ true
  unfolding find
  find-HasSchemas tool [] d v h = cc
  find-HasSchemas tool (e ∷ ds) d v h = elim (Bool-cases (e.name == tool)) [
    | inl same ↦
        subst (λ (x : Definition). valid_schema u max_levels x.input_schema ≡ true)
          (some-inj e d (rw same at h)) v.0
    | inr other ↦ find-HasSchemas tool ds d v.1 (rw other at h)
  ]

  known-IsProper :
      (o : Option Definition) (args : Value) (host : Host) (id tool : String) (b : Bridge)
      → HasSchemas u b.definitions
      → o ≡ find tool b.definitions
      → IsProper host.answer id b.correlation_id (known_call u json o args host id tool b).1
  unfolding known_call
  known-IsProper none args host id tool b v e = tt
  known-IsProper (some d) args host id tool b v e =
      copied-IsProper _ d.input_schema host id tool b
        (find-HasSchemas tool b.definitions d v (sym e))

  -- On a bridge whose schemas are valid, a call with a text as its correlation is rejected with one
  -- of the bridge's codes, is interrupted because the host's tool is cancelled, or is answered with that correlation,
  -- the turn's correlation, and a text of at most 65,536 bytes. It never fails in another way.
  pub handle_tool_call-IsProper :
      (id : String) (tool args : Value) (host : Host) (b : Bridge)
      → HasSchemas u b.definitions
      → IsProper host.answer id b.correlation_id
          (handle_tool_call u json (str id) tool args host b).1
  unfolding handle_tool_call
  handle_tool_call-IsProper id (str tool) args host b v =
      if-elim (λ (r : Bridge × CallOutcome). IsProper host.answer id b.correlation_id r.1)
        (is_safe_identifier id max_identifier)
        (λ _. known-IsProper (find tool b.definitions) args host id tool b v refl) (λ _. tt)
  handle_tool_call-IsProper id _ args host b v =
      if-elim (λ (r : Bridge × CallOutcome). IsProper host.answer id b.correlation_id r.1)
        (is_safe_identifier id max_identifier) (λ _. tt) (λ _. tt)
