-- ===== src/Compaction.antt =====
-- compaction.py: `NativeCompactionLifecycle`. Each method that takes the transition lock is one
-- step, for no other transition runs while it holds the lock. A callback is known by a number, and
-- what is emitted is logged with the callback that it went to.
pub mod Message
pub mod Lifecycle
pub mod Turns
mod Tests
use hermes_claude_agent_sdk.Common.{
  ℕ, zero, suc, ◌-◌, ◌*◌, ◌^◌, Bool, true, false, ◌&&◌, List, [], ◌∷◌, ◌++◌, Option, none, some,
  ltb, leb, if◌then◌else◌,
}
use hermes_claude_agent_sdk.Common.Int.{pos}
use hermes_claude_agent_sdk.Python.{Value, Float, finite, eq_str}

pub data Trigger : Type 0 where
  auto manual : Trigger

pub data Phase : Type 0 where
  started completed failed watchdog : Phase

-- `SessionCompactionEvent`; `bound` is set on a watchdog event alone.
pub record Event : Type 0 where
  pub phase : Phase
  pub trigger : Trigger
  pub bound : Option Float

-- What reaches the host: an event at the `on_event` callback, or a call of `on_watchdog`.
pub data Notice : Type 0 where
  event : ℕ → Event → Notice
  expired : ℕ → Notice

-- The object. The bound is in seconds; the watchdog task is there (`true`) or not.
pub record Tracker : Type 0 where
  pub watchdog_bound : Float
  pub on_event : Option ℕ
  pub on_watchdog : Option ℕ
  pub active_depth : ℕ
  pub active_trigger : Trigger
  pub watchdog_task : Bool
  pub notices : List Notice

pub trigger_of : Value → Trigger
unfolding eq_str
trigger_of value = if eq_str value "manual" then manual else auto

-- A finite number of seconds, above 0 and at most a day
unfoldable pub is_watchdog_bound : Float → Bool
is_watchdog_bound (finite (pos m) k) = ltb 0 m && leb m (86_400 * 2 ^ k)
is_watchdog_bound _ = false

-- `__init__`; `none` is its `ValueError`.
unfoldable pub create : Float → Option Tracker
unfolding is_watchdog_bound
create bound =
    if is_watchdog_bound bound
    then some (record {
      watchdog_bound = bound;
      on_event = none;
      on_watchdog = none;
      active_depth = 0;
      active_trigger = auto;
      watchdog_task = false;
      notices = [];
    })
    else none

-- `active`
unfoldable pub is_active : Tracker → Bool
is_active t = ltb 0 t.active_depth

abbrev pub notice_event : Option ℕ → Event → List Notice
notice_event none e = []
notice_event (some callback) e = event callback e ∷ []

abbrev pub notice_watchdog : Option ℕ → List Notice
notice_watchdog none = []
notice_watchdog (some callback) = expired callback ∷ []

-- `_emit`, whose callback may fail unnoticed
emit : Event → Tracker → Tracker
emit e t = record t { notices = t.notices ++ notice_event t.on_event e }

pub notify_watchdog : Tracker → Tracker
notify_watchdog t = record t { notices = t.notices ++ notice_watchdog t.on_watchdog }

-- `_finish`: the pending watchdog task is cancelled, or is the one that runs this.
pub finish : Event → Tracker → Tracker
unfolding emit
finish e t = emit e (record t { active_depth = 0; watchdog_task = false })

-- `bind`; `none` is its `RuntimeError`.
pub bind : Option ℕ → Option ℕ → Tracker → Option Tracker
unfolding is_active
bind on_event on_watchdog t =
    if is_active t then none else some (record t { on_event = on_event; on_watchdog = on_watchdog })

unfoldable pub start : Trigger → Tracker → Tracker
unfolding emit
start trigger t =
    if ltb 0 t.active_depth
    then record t { active_depth = suc t.active_depth }
    else emit (record { phase = started; trigger = trigger; bound = none })
        (record t { active_depth = 1; active_trigger = trigger; watchdog_task = true })

-- `complete` on an active tracker, once the depth is down to `rest`
pub complete_to : ℕ → Trigger → Tracker → Tracker × Bool
unfolding finish
complete_to rest trigger t = if ltb 0 rest then (record t { active_depth = rest }, false) else (
  finish (record { phase = completed; trigger = trigger; bound = none })
      (record t { active_depth = rest }),
  true,
)

pub complete : Trigger → Tracker → Tracker × Bool
unfolding is_active complete_to
complete trigger t = if is_active t then complete_to (t.active_depth - 1) trigger t else (t, false)

pub expire : Tracker → Tracker × Bool
unfolding is_active finish notify_watchdog
expire t =
    if is_active t
    then (
      notify_watchdog (
          finish
            (record { phase = watchdog; trigger = t.active_trigger; bound = some t.watchdog_bound })
            t),
      true,
    )
    else (t, false)

-- `end_turn`, before it clears the callbacks
pub close_active : Bool → Tracker → Tracker
unfolding is_active finish
close_active is_completed t =
    if is_active t
    then finish
        (record {
          phase = if is_completed then completed else failed;
          trigger = t.active_trigger;
          bound = none;
        })
        t
    else t

pub end_turn : Bool → Tracker → Tracker
unfolding close_active
end_turn is_completed t = record (close_active is_completed t) {
  on_event = none;
  on_watchdog = none;
}
