-- ===== src/Session.antt =====
-- sdk_session.py: the state of one `SDKSession`, its reader, and the ways in which it closes. What
-- each task does between two awaits is one step; Session/Turn.antt and Session/Handle.antt have
-- the steps of a turn.
pub mod Outcome
pub mod Text
pub mod Turn
pub mod Handle
pub mod World
pub mod Calls
pub mod Release
mod Tests
use hermes_claude_agent_sdk.Common.{
  ℕ, suc, ◌-◌, String, Bool, true, false, List, [], ◌∷◌, ◌++◌, Option, none, some, ◌==◌, ltb,
  if◌then◌else◌,
}
use hermes_claude_agent_sdk.Python.{Value, class_name}
use hermes_claude_agent_sdk.Billing.{Decision}
use hermes_claude_agent_sdk.Compaction.{Tracker, expire, end_turn}
use hermes_claude_agent_sdk.Guard.{Indexes, violation, clean, raises, zero_native_violation}

-- What the turn's inbox holds: SDK messages and the markers.
pub data Item : Type 0 where
  message : Value → Item
  stream_ended : Bool → Item
  watchdog_expired post_terminal_output native_tool_violation cancelled : Item

-- The calls of the SDK client.
pub data SdkCall : Type 0 where
  connect query interrupt disconnect : SdkCall

-- What the host's callbacks are given.
pub data Shown : Type 0 where
  decided : Decision → Shown
  projected : Value → Shown

-- The object. `cancelling` counts the cancels that wait for the client's interrupt; `client` says
-- whether there is one, `reading` whether the reader still runs; the
-- logs `calls` and `shown` are in order of time.
pub record Session : Type 0 where
  pub allowed_tools : List String
  pub closed : Bool
  pub cancel_requested : Bool
  pub cancelling : ℕ
  pub client : Bool
  pub reading : Bool
  pub inbox : Option (List Item)
  pub terminal_seen : Bool
  pub post_output : Bool
  pub post_native : Bool
  pub indexes : Indexes
  pub compaction : Tracker
  pub calls : List SdkCall
  pub shown : List Shown

abbrev pub enqueue : Item → Option (List Item) → Option (List Item)
enqueue item none = none
enqueue item (some items) = some (items ++ item ∷ [])

abbrev pub has_inbox : Option (List Item) → Bool
has_inbox none = false
has_inbox (some _) = true

abbrev pub call : SdkCall → Session → Session
call c s = record s { calls = s.calls ++ c ∷ [] }

-- The body of `_reader_loop` for one message that the guard lets through.
pub deliver : Value → Session → Session
deliver v s =
    if has_inbox s.inbox
    then if s.terminal_seen
      then record s { inbox = enqueue post_terminal_output s.inbox }
      else record s {
        inbox = enqueue (message v) s.inbox;
        terminal_seen = class_name v == "ResultMessage";
      }
    else record s { post_output = true }

pub deliver_violation : Session → Session
deliver_violation s =
    if has_inbox s.inbox
    then record s { inbox = enqueue native_tool_violation s.inbox }
    else record s { post_native = true }

-- The end of the stream, or its failure.
pub end_stream : Bool → Session → Session
end_stream failed s = record s { reading = false; inbox = enqueue (stream_ended failed) s.inbox }

-- One message of `receive_messages`.
pub read_message : Value → Session → Session
unfolding deliver deliver_violation end_stream
read_message v s =
    let (verdict, indexes) = zero_native_violation s.allowed_tools v s.indexes in
    let s' : Session = record s { indexes = indexes } in
    elim verdict [
      | violation ↦ deliver_violation s'
      | clean ↦ deliver v s'
      | raises ↦ end_stream true s'
    ]

-- `close`
pub close : Session → Session
close s = if s.closed then s else record s {
  closed = true;
  compaction = end_turn false s.compaction;
  inbox = enqueue cancelled s.inbox;
  client = false;
  reading = false;
  calls = s.calls ++ (if s.client then disconnect ∷ [] else []);
}

-- `_interrupt_then_close` up to its wait for the interrupt; `close` comes after that.
pub interrupt_client : Session → Session
interrupt_client s = if s.client then call interrupt s else s

-- `cancel` up to that wait
pub cancel : Session → Session
unfolding interrupt_client
cancel s =
    if s.closed
    then s
    else interrupt_client (record s {
      cancel_requested = true;
      inbox = enqueue cancelled s.inbox;
      cancelling = suc s.cancelling;
    })

-- One of the cancels that wait goes on.
pub finish_cancel : Session → Session
unfolding close
finish_cancel s =
    if ltb 0 s.cancelling then close (record s { cancelling = s.cancelling - 1 }) else s

-- The watchdog task fires: its notice goes to the inbox of the turn that bound it.
pub fire_watchdog : Session → Session
fire_watchdog s =
    let (t, fired) = expire s.compaction in
    if fired
    then record s {
      compaction = t;
      inbox = elim s.compaction.on_watchdog [
        | none ↦ s.inbox
        | some _ ↦ enqueue watchdog_expired s.inbox
      ];
    }
    else s
