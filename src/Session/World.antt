-- ===== src/Session/World.antt =====
-- A session and its turn under any interleaving: the host, the SDK's stream, the compaction hook,
-- the clock and the turn task move in any order. A move that its task cannot make changes nothing.
use hermes_claude_agent_sdk.Common.{
  String, Bool, true, false, List, [], ◌∷◌, Option, none, some, if◌then◌else◌,
}
use hermes_claude_agent_sdk.Common.{ℕ}
use hermes_claude_agent_sdk.Python.{Value, Interpreter}
use hermes_claude_agent_sdk.Compaction.{Tracker, is_active}
use hermes_claude_agent_sdk.Compaction.Message.{on_pre_compact}
use hermes_claude_agent_sdk.Session.{
  Session, Item, close, cancel, finish_cancel, read_message, end_stream, fire_watchdog,
}
use hermes_claude_agent_sdk.Session.Outcome.{timed_out, sdk_turn_timeout, result}
use hermes_claude_agent_sdk.Session.Turn.{
  Locals, Turn, idle, waiting, settling, retiring, leaving, done, Prompt, Answer, Connection,
  begin_turn, retire_turn, finish_turn,
}
use hermes_claude_agent_sdk.Session.Handle.{handle_item, settle_turn}

pub record World : Type 0 where
  pub session : Session
  pub turn : Turn

-- `__init__`, with the tracker of its compaction
abbrev pub fresh : List String → Tracker → World
fresh tools tracker = record {
  session = record {
    allowed_tools = tools;
    closed = false;
    cancel_requested = false;
    cancelling = 0;
    client = false;
    reading = false;
    inbox = none;
    terminal_seen = false;
    post_output = false;
    post_native = false;
    indexes = [];
    compaction = tracker;
    calls = [];
    shown = [];
  };
  turn = idle;
}

pub data Move : Type 0 where
  begins : Prompt → Option ℕ → Connection → Answer → Move
  reads compacts : Value → Move
  ends_stream : Bool → Move
  watchdog_fires deadline_passes resumes cancels cancel_resumes closes : Move

abbrev pair_world : Session × Turn → World
pair_world (s, t) = record { session = s; turn = t }

abbrev on_session : (Session → Session) → World → World
on_session f w = record w { session = f w.session }

-- The turn lock is free.
abbrev pub is_free : Turn → Bool
is_free (waiting _) = false
is_free (settling _ _ _) = false
is_free (retiring _) = false
is_free (leaving _) = false
is_free _ = true

-- The turn task takes the next item, if there is one.
unfoldable pub take_item : Interpreter → Option (List Item) → Locals → Session → Session × Turn
unfolding handle_item
take_item py (some (item ∷ items)) l s = handle_item py item l (record s { inbox = some items })
take_item py _ l s = (s, waiting l)

abbrev items_of : Option (List Item) → List Item
items_of none = []
items_of (some items) = items

unfoldable pub resume : Interpreter → Turn → Session → Session × Turn
unfolding take_item settle_turn finish_turn
resume py (waiting l) s = take_item py s.inbox l s
resume py (settling l d v) s = settle_turn (items_of s.inbox) l d v s
resume py (retiring r) s = finish_turn false r (close s)
resume py (leaving r) s = (close s, done r)
resume py t s = (s, t)

-- The deadline ends a wait for an empty inbox, unless a compaction suspends it.
unfoldable pub time_out : Option (List Item) → Locals → Session → Session × Turn
unfolding retire_turn is_active
time_out (some []) l s =
    if is_active s.compaction
    then (s, waiting l)
    else retire_turn (result timed_out (some sdk_turn_timeout)) s
time_out _ l s = (s, waiting l)

unfoldable pub pass_deadline : Turn → Session → Session × Turn
unfolding time_out
pass_deadline (waiting l) s = time_out s.inbox l s
pass_deadline t s = (s, t)

module _ (py : Interpreter) where
  unfoldable pub step : World → Move → World
  unfolding resume pass_deadline begin_turn on_pre_compact read_message end_stream
  step w (begins prompt on_event connection answer) =
      if is_free w.turn
      then pair_world (begin_turn prompt on_event connection answer w.session)
      else w
  step w (reads v) = if w.session.reading then on_session (read_message v) w else w
  step w (ends_stream bad) = if w.session.reading then on_session (end_stream bad) w else w
  step w (compacts input) =
      on_session (λ s. record s { compaction = on_pre_compact input s.compaction }) w
  step w watchdog_fires = on_session fire_watchdog w
  step w deadline_passes = pair_world (pass_deadline w.turn w.session)
  step w resumes = pair_world (resume py w.turn w.session)
  step w cancels = on_session cancel w
  step w cancel_resumes = on_session finish_cancel w
  step w closes = on_session close w

  unfoldable pub run : World → List Move → World
  run w [] = w
  run w (m ∷ ms) = run (step w m) ms

  -- What every move keeps holds after any moves.
  pub run_induction {ℓ} :
      (P : World → Type ℓ)
      → ((w : World) (m : Move) → P w → P (step w m))
      → (w : World) (ms : List Move) → P w
      → P (run w ms)
  unfolding run
  run_induction P keeps w [] h = h
  run_induction P keeps w (m ∷ ms) h = run_induction P keeps (step w m) ms (keeps w m h)
