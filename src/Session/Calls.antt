-- ===== src/Session/Calls.antt =====
-- The client's life: connected once, queried only until it is interrupted, and left alone for good
-- after it was disconnected.
pub mod Moves
pub mod Runs
use hermes_claude_agent_sdk.Common.{
  ◌≡◌, refl, ◌⊎◌, inl, inr, ◌∙◌, ap, Bool, true, false, List, [], ◌∷◌, ◌++◌, ◌||◌, ltb, Option,
  none, some, arith, append-nil, if-elim, if◌then◌else◌,
}
use hermes_claude_agent_sdk.Python.{Value, Interpreter}
use hermes_claude_agent_sdk.Compaction.{Tracker}
use hermes_claude_agent_sdk.Session.{
  Session, Item, SdkCall, connect, query, interrupt, disconnect, call, enqueue, cancelled, close,
  interrupt_client, finish_cancel, cancel, deliver, deliver_violation, end_stream, read_message,
  fire_watchdog,
}
use hermes_claude_agent_sdk.Session.Turn.{
  Locals, Turn, retiring, leaving, Prompt, Answer, begin_turn, retire_turn, finish_turn,
}
use hermes_claude_agent_sdk.Session.Handle.{handle_item, settle_turn}

pub data Life : Type 0 where
  unborn opened interrupted gone : Life

-- The calls that each stage of the client allows.
live : Life → SdkCall → Option Life
live unborn connect = some opened
live opened query = some opened
live opened interrupt = some interrupted
live opened disconnect = some gone
live interrupted interrupt = some interrupted
live interrupted disconnect = some gone
live _ _ = none

pub history : Option Life → List SdkCall → Option Life
unfolding live
history none cs = none
history (some x) [] = some x
history (some x) (c ∷ cs) = history (live x c) cs

history-append :
    (o : Option Life) (cs ds : List SdkCall) → history o (cs ++ ds) ≡ history (history o cs) ds
unfolding history
history-append none cs [] = refl
history-append none cs (_ ∷ _) = refl
history-append (some x) [] ds = refl
history-append (some x) (c ∷ cs) ds = history-append (live x c) cs ds

-- A client that is there was not interrupted, or is no longer used for queries.
abbrev IsLive : Bool → List SdkCall → Type 0
IsLive excused cs =
    (history (some unborn) cs ≡ some opened)
    ⊎ ((history (some unborn) cs ≡ some interrupted) × (excused ≡ true))

-- The calls so far fit the client's stage; a closed session has no client.
abbrev pub IsOrderedBy : Bool → Bool → List SdkCall → Bool → Type 0
IsOrderedBy true true cs excused = ⊥
IsOrderedBy true false cs excused = IsLive excused cs
IsOrderedBy false false cs excused = history (some unborn) cs ≡ some unborn
IsOrderedBy false true cs excused =
    (history (some unborn) cs ≡ some unborn) ⊎ (history (some unborn) cs ≡ some gone)

-- The turn waits for the interrupt of the client.
abbrev pub is_ending : Turn → Bool
is_ending (retiring r) = true
is_ending (leaving r) = true
is_ending _ = false

abbrev pub is_excused : Turn → Session → Bool
is_excused t s = is_ending t || s.cancel_requested

abbrev pub IsOrderedIf : Bool → Session → Type 0
IsOrderedIf excused s = IsOrderedBy s.client s.closed s.calls excused

abbrev pub IsOrdered : Turn → Session → Type 0
IsOrdered t s = IsOrderedIf (is_excused t s) s

after :
    (x : Life) (cs ds : List SdkCall)
    → history (some unborn) cs ≡ some x
    → history (some unborn) (cs ++ ds) ≡ history (some x) ds
after x cs ds h = history-append (some unborn) cs ds ∙ ap (λ o. history o ds) h

-- An excuse that holds does no harm.
pub excused-IsOrderedBy :
    (client closed : Bool) (cs : List SdkCall) (x y : Bool)
    → y ≡ true
    → IsOrderedBy client closed cs x
    → IsOrderedBy client closed cs y
excused-IsOrderedBy true true cs x y e h = h
excused-IsOrderedBy true false cs x y e (inl h) = inl h
excused-IsOrderedBy true false cs x y e (inr (h, k)) = inr (h, e)
excused-IsOrderedBy false false cs x y e h = h
excused-IsOrderedBy false true cs x y e h = h

pub close-ordered :
    (client closed : Bool) (cs : List SdkCall) (x y : Bool)
    → IsOrderedBy client closed cs x
    → IsOrderedBy false true (cs ++ (if client then disconnect ∷ [] else [])) y
unfolding history
close-ordered true true cs x y h = absurd h
close-ordered true false cs x y (inl h) = inr (after opened cs _ h)
close-ordered true false cs x y (inr (h, k)) = inr (after interrupted cs _ h)
close-ordered false false cs x y h = rw append-nil (inl h)
close-ordered false true cs x y h = rw append-nil h

pub query-ordered :
    (client closed : Bool) (cs : List SdkCall) (x : Bool)
    → IsOrderedBy client closed cs x
    → client ≡ true
    → x ≡ false
    → IsOrderedBy client closed (cs ++ query ∷ []) x
unfolding history
query-ordered true true cs x h e f = absurd h
query-ordered true false cs x (inl h) e f = inl (after opened cs _ h)
query-ordered true false cs x (inr (h, k)) e f = absurd (ground arith)
query-ordered false _ cs x h e f = absurd (ground arith)

pub connect-ordered :
    (client closed : Bool) (cs : List SdkCall) (x : Bool)
    → IsOrderedBy client closed cs x
    → client ≡ false
    → closed ≡ false
    → IsOrderedBy true closed (cs ++ connect ∷ []) x
unfolding history
connect-ordered false false cs x h e shut = inl (after unborn cs _ h)
connect-ordered true _ cs x h e shut = absurd (ground arith)
connect-ordered false true cs x h e shut = absurd (ground arith)

interrupt-ordered :
    (client closed : Bool) (cs : List SdkCall) (x y : Bool)
    → IsOrderedBy client closed cs x
    → client ≡ true
    → y ≡ true
    → IsOrderedBy client closed (cs ++ interrupt ∷ []) y
unfolding history
interrupt-ordered true true cs x y h e f = absurd h
interrupt-ordered true false cs x y (inl h) e f = inr (after opened cs _ h, f)
interrupt-ordered true false cs x y (inr (h, k)) e f = inr (after interrupted cs _ h, f)
interrupt-ordered false _ cs x y h e f = absurd (ground arith)

-- A closed session needs no excuse.
closed-ordered :
    (client closed : Bool) (cs : List SdkCall) (x y : Bool)
    → closed ≡ true
    → IsOrderedBy client closed cs x
    → IsOrderedBy client closed cs y
closed-ordered true true cs x y e h = h
closed-ordered false true cs x y e h = h
closed-ordered _ false cs x y e h = absurd (ground arith)

pub close-IsOrdered : (s : Session) (x y : Bool) → IsOrderedIf x s → IsOrderedIf y (close s)
unfolding close
close-IsOrdered s x y h =
    if-elim (IsOrderedIf y) s.closed (λ e. closed-ordered s.client s.closed s.calls x y e h)
      (λ _. close-ordered s.client s.closed s.calls x y h)

pub interrupt-IsOrdered :
    (s : Session) (x y : Bool) → y ≡ true → IsOrderedIf x s → IsOrderedIf y (interrupt_client s)
unfolding interrupt_client
interrupt-IsOrdered s x y f h =
    if-elim (IsOrderedIf y) s.client (λ e. interrupt-ordered s.client s.closed s.calls x y h e f)
      (λ _. excused-IsOrderedBy s.client s.closed s.calls x y f h)

or-true : (b : Bool) → (b || true) ≡ true
or-true true = refl
or-true false = refl

pub cancel-IsOrdered : (t : Turn) (s : Session) → IsOrdered t s → IsOrdered t (cancel s)
unfolding cancel interrupt_client
cancel-IsOrdered t s h =
    if-elim (IsOrdered t) s.closed (λ _. h)
      (λ _.
        if-elim (IsOrdered t) s.client
          (λ e.
            interrupt-ordered s.client s.closed s.calls (is_excused t s) _ h e
              (or-true (is_ending t)))
          (λ _.
            excused-IsOrderedBy s.client s.closed s.calls (is_excused t s) _ (or-true (is_ending t))
              h))

pub finish_cancel-IsOrdered :
    (t : Turn) (s : Session) → IsOrdered t s → IsOrdered t (finish_cancel s)
unfolding finish_cancel close
finish_cancel-IsOrdered t s h =
    if-elim (IsOrdered t) (ltb 0 s.cancelling)
      (λ _.
        if-elim (IsOrdered t) s.closed (λ _. h)
          (λ _. close-ordered s.client s.closed s.calls (is_excused t s) (is_excused t s) h))
      (λ _. h)
