-- ===== src/Session/Turn.antt =====
-- `run_turn`, from one await to the next: its beginning and its ends. Session/Handle.antt has what
-- lies between. The host's callbacks are taken to return.
use hermes_claude_agent_sdk.Common.{
  ℕ, String, Bool, true, false, not, [], ◌∷◌, ◌++◌, Option, none, some, if◌then◌else◌,
}
use hermes_claude_agent_sdk.Python.{Value}
use hermes_claude_agent_sdk.Python.Text
use hermes_claude_agent_sdk.Billing.{Decision, Evidence}
use hermes_claude_agent_sdk.Compaction.{Tracker, bind, end_turn}
use hermes_claude_agent_sdk.Session.{Session, connect, query, call, close, interrupt_client}
use hermes_claude_agent_sdk.Session.Outcome.{
  Outcome, timed_out, ErrorCode, sdk_native_tool_unsupported, sdk_post_terminal_output,
  sdk_start_failed, sdk_turn_timeout, sdk_turn_failed, invalid_prompt, session_closed, TurnResult,
  result,
}

-- The local variables of the loop.
pub record Locals : Type 0 where
  pub evidence : Option Evidence
  pub final_text : Option String
  pub external_session_id : Option String

abbrev no_locals : Locals
no_locals = record { evidence = none; final_text = none; external_session_id = none }

-- Where the turn task stands. `settling` is the one scheduling point after the result was
-- projected; `retiring` and `leaving` wait for the client's interrupt, inside the `try` block and
-- before it; `crashed` is an exception that leaves `run_turn`.
pub data Turn : Type 0 where
  idle crashed : Turn
  waiting : Locals → Turn
  settling : Locals → Decision → Value → Turn
  retiring leaving done : TurnResult → Turn

abbrev pub failure : ErrorCode → Locals → TurnResult
failure code l = record (result Outcome.failed (some code)) {
  final_text = l.final_text;
  external_session_id = l.external_session_id;
}

-- The `finally` block.
unfoldable pub finish_turn : Bool → TurnResult → Session → Session × Turn
finish_turn completed r s = (
  record s {
    inbox = none;
    terminal_seen = false;
    indexes = [];
    compaction = end_turn completed s.compaction;
  },
  done r,
)

-- An end of the turn that retires the client first; once it is interrupted, it is closed.
unfoldable pub retire_turn : TurnResult → Session → Session × Turn
retire_turn r s = (interrupt_client s, retiring r)

-- `except Exception`
abbrev pub fail_turn : Locals → Session → Session × Turn
fail_turn l s = retire_turn (failure sdk_turn_failed l) s

-- The prompt, by what `run_turn` tests of it: blank text, other text, or a rich input.
pub data Prompt : Type 0 where
  words : String → Prompt
  rich : Prompt

abbrev pub is_prompt : Prompt → Bool
is_prompt (words s) = not (Text.is_empty (Text.strip s))
is_prompt rich = true

-- How the SDK answers `query`.
pub data Answer : Type 0 where
  answered late raised : Answer

-- The query of a turn whose inbox is open.
unfoldable pub send_query : Answer → Session → Session × Turn
unfolding retire_turn
send_query answered s = (call query s, waiting no_locals)
send_query late s = retire_turn (result timed_out (some sdk_turn_timeout)) (call query s)
send_query raised s = fail_turn no_locals (call query s)

-- `bind` may refuse the callbacks.
unfoldable pub bound_turn : Option Tracker → Answer → Session → Session × Turn
unfolding send_query
bound_turn none reply s = (s, crashed)
bound_turn (some t) reply s = send_query reply (record s { compaction = t })

-- From the open client to the query. The callbacks are numbers; the watchdog's is the turn's own.
unfoldable pub open_turn : Option ℕ → Answer → Session → Session × Turn
unfolding bound_turn
open_turn on_event reply s =
    if s.cancel_requested
    then (s, done (result Outcome.cancelled none))
    else let s' : Session = record s { inbox = some []; terminal_seen = false; indexes = [] } in
      bound_turn (bind on_event (some 0) s.compaction) reply s'

-- What becomes of a new client: it connects or not, or it could not even be made.
pub data Connection : Type 0 where
  connected refused unbuilt : Connection

abbrev pub attempted : Session → Session
attempted s = record s { client = true; calls = s.calls ++ connect ∷ [] }

abbrev pub start_failure : TurnResult
start_failure = result Outcome.failed (some sdk_start_failed)

-- `start` without a client, and the turn after it; a client that does not connect is closed.
unfoldable pub start : Connection → Option ℕ → Answer → Session → Session × Turn
unfolding open_turn
start connected on_event reply s =
    open_turn on_event reply (record (attempted s) { reading = true })
start refused on_event reply s = (close (attempted s), done start_failure)
start unbuilt on_event reply s = (s, done start_failure)

-- A turn on a session that is not closed and saw nothing out of turn.
unfoldable pub start_turn : Option ℕ → Connection → Answer → Session → Session × Turn
unfolding start
start_turn on_event connection reply s =
    if s.client then open_turn on_event reply s else start connection on_event reply s

-- `run_turn` up to its first wait for the inbox.
unfoldable pub begin_turn : Prompt → Option ℕ → Connection → Answer → Session → Session × Turn
unfolding start_turn
begin_turn prompt on_event connection reply s =
    if not (is_prompt prompt)
    then (s, done (result Outcome.failed (some invalid_prompt)))
    else if s.closed
    then (s, done (result Outcome.closed (some session_closed)))
    else if s.post_native
    then (
      interrupt_client (record s { post_native = false; post_output = false }),
      leaving (result Outcome.failed (some sdk_native_tool_unsupported)),
    )
    else if s.post_output
    then (
      interrupt_client (record s { post_output = false }),
      leaving (result Outcome.failed (some sdk_post_terminal_output)),
    )
    else start_turn on_event connection reply s
