-- ===== src/ToolBridge/Calls.antt =====
-- One call of a tool: when it reaches the host.
pub mod Answers
pub mod Valid
use hermes_claude_agent_sdk.Common.{
  ℕ, ◌+◌, ◌*◌, ◌≤◌, String, ◌≡◌, refl, ◌≢◌, ◌⊎◌, inl, inr, subst, sym, Bool-cases, Option-cases,
  Bool, true, false, not, ◌&&◌, List, [], ◌∷◌, ◌++◌, Option, none, some, arith, ◌==◌, if◌then◌else◌,
  if-elim, leb,
}
use hermes_claude_agent_sdk.Common.Options.{bind-some, some-inj, bind}
use hermes_claude_agent_sdk.Python.{Value, null, bool, str, dict}
use hermes_claude_agent_sdk.Python.Utf8
use hermes_claude_agent_sdk.ToolBridge.Text.{
  Texts, bounded_text, is_safe_identifier, bounded_text-bytes,
}
use hermes_claude_agent_sdk.ToolBridge.Json.{copy_plain_json, max_input_bytes}
use hermes_claude_agent_sdk.ToolBridge.Match.{matches_schema}
use hermes_claude_agent_sdk.ToolBridge.Normalize.{Definition, max_levels}
use hermes_claude_agent_sdk.ToolBridge.{
  Printer, CallResult, RequestError, CallOutcome, answered, rejected, interrupted, broken_off,
  HostCall, HostAnswer, raises, is_cancelled, no_awaitable, returns, Host, Bridge, max_identifier,
  find, probed, result_text, copied_text, or_unsupported, max_result_bytes, finish_call,
  answer_call, execute, gate_call, match_call, copied_call, known_call, handle_tool_call,
}

-- A call that may reach the host of this bridge: a safe correlation, a tool that is exposed, and
-- arguments that were copied within their bounds and match the tool's schema.
pub record IsAdmitted (b : Bridge) (args : Value) (c : HostCall) : Type 0 where
  pub definition : Definition
  pub safe : is_safe_identifier c.request_id max_identifier ≡ true
  pub exposed : find c.name b.definitions ≡ some definition
  pub copied : copy_plain_json max_input_bytes args ≡ some c.arguments
  pub matching : matches_schema max_levels c.arguments definition.input_schema ≡ some true

-- Either nothing was done, or the host was called once, with an admitted call, while it answered
-- that nothing is cancelled.
abbrev pub IsOnce : Host → Value → Bridge → Bridge → Type 0
IsOnce host args b b' =
    (b' ≡ b)
    ⊎ ((c : HostCall) × IsAdmitted b args c
        × (probed host.before ≡ some false)
        × (b'.executed ≡ b.executed ++ c ∷ [])
        × (b'.host_executions ≡ b.host_executions + 1))

module _ (u : Texts) (json : Printer) where
  gate-IsOnce :
      (o : Option Bool) (host : Host) (id tool : String) (copied args : Value) (b : Bridge)
      (d : Definition)
      → o ≡ probed host.before
      → is_safe_identifier id max_identifier ≡ true
      → find tool b.definitions ≡ some d
      → copy_plain_json max_input_bytes args ≡ some copied
      → matches_schema max_levels copied d.input_schema ≡ some true
      → IsOnce host args b (gate_call u json o host id tool copied b).0
  unfolding gate_call execute
  gate-IsOnce none host id tool copied args b d o s f c m = inl refl
  gate-IsOnce (some true) host id tool copied args b d o s f c m = inl refl
  gate-IsOnce (some false) host id tool copied args b d o s f c m = inr (
    record { name = tool; arguments = copied; request_id = id },
    record { definition = d; safe = s; exposed = f; copied = c; matching = m },
    sym o,
    refl,
    refl,
  )

  match-IsOnce :
      (o : Option Bool) (host : Host) (id tool : String) (copied args : Value) (b : Bridge)
      (d : Definition)
      → o ≡ matches_schema max_levels copied d.input_schema
      → is_safe_identifier id max_identifier ≡ true
      → find tool b.definitions ≡ some d
      → copy_plain_json max_input_bytes args ≡ some copied
      → IsOnce host args b (match_call u json o host id tool copied b).0
  unfolding match_call
  match-IsOnce none host id tool copied args b d o s f c = inl refl
  match-IsOnce (some false) host id tool copied args b d o s f c = inl refl
  match-IsOnce (some true) host id tool copied args b d o s f c =
      gate-IsOnce (probed host.before) host id tool copied args b d refl s f c (sym o)

  copied-IsOnce :
      (o : Option Value) (host : Host) (id tool : String) (args : Value) (b : Bridge)
      (d : Definition)
      → o ≡ copy_plain_json max_input_bytes args
      → is_safe_identifier id max_identifier ≡ true
      → find tool b.definitions ≡ some d
      → IsOnce host args b (copied_call u json o d.input_schema host id tool b).0
  unfolding copied_call
  copied-IsOnce (some (dict fs)) host id tool args b d o s f =
      match-IsOnce _ host id tool (dict fs) args b d refl s f (sym o)
  copied-IsOnce none host id tool args b d o s f = inl refl
  copied-IsOnce (some _) host id tool args b d o s f = inl refl

  known-IsOnce :
      (o : Option Definition) (host : Host) (id tool : String) (args : Value) (b : Bridge)
      → o ≡ find tool b.definitions
      → is_safe_identifier id max_identifier ≡ true
      → IsOnce host args b (known_call u json o args host id tool b).0
  unfolding known_call
  known-IsOnce none host id tool args b o s = inl refl
  known-IsOnce (some d) host id tool args b o s =
      copied-IsOnce _ host id tool args b d refl s (sym o)

  -- A call leaves the bridge as it is, or it called the host exactly once: with a safe correlation,
  -- for a tool that the bridge exposes, with the bounded copy of arguments that match its schema,
  -- and only if the host had said that nothing is cancelled.
  pub handle_tool_call-IsOnce :
      (id tool args : Value) (host : Host) (b : Bridge)
      → IsOnce host args b (handle_tool_call u json id tool args host b).0
  unfolding handle_tool_call
  handle_tool_call-IsOnce (str id) (str tool) args host b =
      if-elim (λ (r : Bridge × CallOutcome). IsOnce host args b r.0)
        (is_safe_identifier id max_identifier)
        (λ safe. known-IsOnce (find tool b.definitions) host id tool args b refl safe)
        (λ _. inl refl)
  handle_tool_call-IsOnce (str id) _ args host b =
      if-elim (λ (r : Bridge × CallOutcome). IsOnce host args b r.0)
        (is_safe_identifier id max_identifier) (λ _. inl refl) (λ _. inl refl)
  handle_tool_call-IsOnce _ tool args host b = inl refl
