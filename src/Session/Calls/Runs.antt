-- ===== src/Session/Calls/Runs.antt =====
-- The beginning of a turn, each move of the world, and whole runs keep the client's life in order.
use hermes_claude_agent_sdk.Common.{
  ◌≡◌, refl, true, false, not, List, [], ◌∷◌, Option, none, some, String, ℕ, if-elim,
}
use hermes_claude_agent_sdk.Python.{Interpreter}
use hermes_claude_agent_sdk.Compaction.{Tracker, bind, is_active}
use hermes_claude_agent_sdk.Session.{
  Session, Item, query, call, close, interrupt_client, end_stream,
}
use hermes_claude_agent_sdk.Session.Outcome.{TurnResult}
use hermes_claude_agent_sdk.Session.Turn.{
  Locals, Turn, waiting, settling, done, idle, crashed, Prompt, is_prompt, Answer, answered, late,
  raised, begin_turn, start_turn, start, open_turn, send_query, attempted, bound_turn, Connection,
  connected, refused, unbuilt, retiring, leaving, finish_turn,
}
use hermes_claude_agent_sdk.Session.Handle.{settle_turn}
use hermes_claude_agent_sdk.Session.World.{
  World, fresh, Move, begins, reads, compacts, ends_stream, watchdog_fires, deadline_passes,
  resumes, cancels, cancel_resumes, closes, step, run, run_induction, is_free, take_item, resume,
  time_out, pass_deadline,
}
use hermes_claude_agent_sdk.Session.Calls.{
  history, IsOrdered, is_excused, connect-ordered, query-ordered, close-IsOrdered,
  interrupt-IsOrdered, cancel-IsOrdered, finish_cancel-IsOrdered,
}
use hermes_claude_agent_sdk.Session.Calls.Moves.{
  Leaves, leaves, left, IsCalm, close-IsCalm, read-IsOrdered, fire-IsOrdered, retire-IsOrdered,
  item-IsOrdered, settle-IsOrdered,
}

-- A query of a client that was not cancelled
queried :
    (s : Session) → IsCalm s → s.client ≡ true → s.cancel_requested ≡ false → IsCalm (call query s)
queried s h e f = query-ordered s.client s.closed s.calls s.cancel_requested h e f

send-IsOrdered :
    (a : Answer) (s : Session)
    → IsCalm s
    → s.client ≡ true
    → s.cancel_requested ≡ false
    → Leaves (send_query a s)
unfolding send_query
send-IsOrdered answered s h e f = leaves _ _ (queried s h e f)
send-IsOrdered late s h e f = retire-IsOrdered _ (call query s) (queried s h e f)
send-IsOrdered raised s h e f = retire-IsOrdered _ (call query s) (queried s h e f)

bound-IsOrdered :
    (o : Option Tracker) (a : Answer) (s : Session)
    → IsCalm s
    → s.client ≡ true
    → s.cancel_requested ≡ false
    → Leaves (bound_turn o a s)
unfolding bound_turn
bound-IsOrdered none a s h e f = leaves _ _ h
bound-IsOrdered (some t) a s h e f = send-IsOrdered a (record s { compaction = t }) h e f

open-IsOrdered :
    (on_event : Option ℕ) (a : Answer) (s : Session)
    → IsCalm s
    → s.client ≡ true
    → Leaves (open_turn on_event a s)
unfolding open_turn
open-IsOrdered on_event a s h e =
    let s' : Session = record s { inbox = some []; terminal_seen = false; indexes = [] } in
    if-elim Leaves s.cancel_requested (λ _. leaves _ _ h)
      (λ f. bound-IsOrdered (bind on_event (some 0) s.compaction) a s' h e f)

connection-IsOrdered :
    (c : Connection) (on_event : Option ℕ) (a : Answer) (s : Session)
    → IsCalm s
    → s.client ≡ false
    → s.closed ≡ false
    → Leaves (start c on_event a s)
unfolding start
connection-IsOrdered connected on_event a s h lacks shut =
    open-IsOrdered on_event a (record (attempted s) { reading = true })
      (connect-ordered s.client s.closed s.calls s.cancel_requested h lacks shut) refl
connection-IsOrdered refused on_event a s h lacks shut = leaves _ _ (
    close-IsCalm (attempted s)
      (connect-ordered s.client s.closed s.calls s.cancel_requested h lacks shut))
connection-IsOrdered unbuilt on_event a s h lacks shut = leaves _ _ h

start-IsOrdered :
    (on_event : Option ℕ) (c : Connection) (a : Answer) (s : Session)
    → IsCalm s
    → s.closed ≡ false
    → Leaves (start_turn on_event c a s)
unfolding start_turn
start-IsOrdered on_event c a s h shut =
    if-elim Leaves s.client (λ has. open-IsOrdered on_event a s h has)
      (λ lacks. connection-IsOrdered c on_event a s h lacks shut)

-- The client is interrupted before the turn ends.
leave-IsOrdered : (r : TurnResult) (s : Session) → IsCalm s → Leaves (interrupt_client s, leaving r)
leave-IsOrdered r s h = leaves _ _ (interrupt-IsOrdered s s.cancel_requested true refl h)

begin-IsOrdered :
    (p : Prompt) (on_event : Option ℕ) (c : Connection) (a : Answer) (s : Session)
    → IsCalm s
    → Leaves (begin_turn p on_event c a s)
unfolding begin_turn
begin-IsOrdered p on_event c a s h =
    if-elim Leaves (not (is_prompt p)) (λ _. leaves _ _ h)
      (λ _.
        if-elim Leaves s.closed (λ _. leaves _ _ h)
          (λ shut.
            if-elim Leaves s.post_native
              (λ _. leave-IsOrdered _ (record s { post_native = false; post_output = false }) h)
              (λ _.
                if-elim Leaves s.post_output
                  (λ _. leave-IsOrdered _ (record s { post_output = false }) h)
                  (λ _. start-IsOrdered on_event c a s h shut))))

time_out-IsOrdered :
    (items : Option (List Item)) (l : Locals) (s : Session) → IsCalm s → Leaves (time_out items l s)
unfolding time_out
time_out-IsOrdered (some []) l s h =
    if-elim Leaves (is_active s.compaction) (λ _. leaves _ _ h) (λ _. retire-IsOrdered _ s h)
time_out-IsOrdered (some (_ ∷ _)) l s h = leaves _ _ h
time_out-IsOrdered none l s h = leaves _ _ h

deadline-IsOrdered : (t : Turn) (s : Session) → IsOrdered t s → Leaves (pass_deadline t s)
unfolding pass_deadline
deadline-IsOrdered (waiting l) s h = time_out-IsOrdered s.inbox l s h
deadline-IsOrdered (settling l d v) s h = leaves _ _ h
deadline-IsOrdered (retiring r) s h = leaves _ _ h
deadline-IsOrdered (leaving r) s h = leaves _ _ h
deadline-IsOrdered (done _) s h = leaves _ _ h
deadline-IsOrdered idle s h = leaves _ _ h
deadline-IsOrdered crashed s h = leaves _ _ h

free-IsCalm : (t : Turn) (s : Session) → is_free t ≡ true → IsOrdered t s → IsCalm s
free-IsCalm (retiring r) s e h = cc
free-IsCalm (leaving r) s e h = cc
free-IsCalm (waiting l) s e h = h
free-IsCalm (settling l d v) s e h = h
free-IsCalm (done r) s e h = h
free-IsCalm idle s e h = h
free-IsCalm crashed s e h = h

abbrev pub IsOrderedWorld : World → Type 0
IsOrderedWorld w = IsOrdered w.turn w.session

module _ (py : Interpreter) where
  take-IsOrdered :
      (items : Option (List Item)) (l : Locals) (s : Session)
      → IsCalm s
      → Leaves (take_item py items l s)
  unfolding take_item
  take-IsOrdered (some (item ∷ items)) l s h =
      item-IsOrdered py item l (record s { inbox = some items }) h
  take-IsOrdered (some []) l s h = leaves _ _ h
  take-IsOrdered none l s h = leaves _ _ h

  resume-IsOrdered : (t : Turn) (s : Session) → IsOrdered t s → Leaves (resume py t s)
  unfolding resume take_item settle_turn finish_turn
  resume-IsOrdered (waiting l) s h = take-IsOrdered s.inbox l s h
  resume-IsOrdered (settling l d v) s h = settle-IsOrdered _ l d v s h
  resume-IsOrdered (retiring r) s h =
      leaves _ _ (close-IsOrdered s true (close s).cancel_requested h)
  resume-IsOrdered (leaving r) s h =
      leaves _ _ (close-IsOrdered s true (close s).cancel_requested h)
  resume-IsOrdered (done _) s h = leaves _ _ h
  resume-IsOrdered idle s h = leaves _ _ h
  resume-IsOrdered crashed s h = leaves _ _ h

  close_beside-IsOrdered : (t : Turn) (s : Session) → IsOrdered t s → IsOrdered t (close s)
  close_beside-IsOrdered t s h = close-IsOrdered s (is_excused t s) (is_excused t (close s)) h

  step-IsOrdered : (w : World) (m : Move) → IsOrderedWorld w → IsOrderedWorld (step py w m)
  unfolding step end_stream
  step-IsOrdered w (begins p e c a) h =
      if-elim IsOrderedWorld (is_free w.turn)
        (λ free. left _ (begin-IsOrdered p e c a w.session (free-IsCalm w.turn w.session free h)))
        (λ _. h)
  step-IsOrdered w (reads v) h =
      if-elim IsOrderedWorld w.session.reading (λ _. read-IsOrdered w.turn v w.session h) (λ _. h)
  step-IsOrdered w (ends_stream b) h = if-elim IsOrderedWorld w.session.reading (λ _. h) (λ _. h)
  step-IsOrdered w (compacts v) h = h
  step-IsOrdered w watchdog_fires h = fire-IsOrdered w.turn w.session h
  step-IsOrdered w deadline_passes h = left _ (deadline-IsOrdered w.turn w.session h)
  step-IsOrdered w resumes h = left _ (resume-IsOrdered w.turn w.session h)
  step-IsOrdered w cancels h = cancel-IsOrdered w.turn w.session h
  step-IsOrdered w cancel_resumes h = finish_cancel-IsOrdered w.turn w.session h
  step-IsOrdered w closes h = close_beside-IsOrdered w.turn w.session h

  -- After any moves on a fresh session, its SDK client was connected at most once and first; each
  -- query fell between that and the first interrupt or the disconnect; the interrupts, of which
  -- there may be several, came before the disconnect; and nothing was called after it. A session
  -- that is not closed never had a client, or has one that was not interrupted unless a cancel was
  -- asked for or the turn is retiring it; and a closed session has none.
  pub run-IsOrdered :
      (tools : List String) (tracker : Tracker) (ms : List Move)
      → IsOrderedWorld (run py (fresh tools tracker) ms)
  unfolding history
  run-IsOrdered tools tracker ms =
      run_induction py IsOrderedWorld step-IsOrdered (fresh tools tracker) ms refl
