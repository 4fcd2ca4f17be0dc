-- ===== src/Session/Release/Runs.antt =====
-- Whole runs of the session: what was shown and what the turns returned.
use hermes_claude_agent_sdk.Common.{
  refl, suc, ◌-◌, ltb, true, false, List, [], ◌∷◌, Option, none, some, String, if-elim,
}
use hermes_claude_agent_sdk.Python.{Value, Interpreter}
use hermes_claude_agent_sdk.Compaction.{Tracker, expire, is_active}
use hermes_claude_agent_sdk.Guard.{Verdict, violation, clean, raises, zero_native_violation}
use hermes_claude_agent_sdk.Session.{
  Session, Item, cancelled, enqueue, close, has_inbox, cancel, finish_cancel, deliver,
  deliver_violation, end_stream, read_message, fire_watchdog,
}
use hermes_claude_agent_sdk.Session.Turn.{
  Locals, Turn, idle, crashed, waiting, settling, retiring, leaving, done, finish_turn,
}
use hermes_claude_agent_sdk.Session.Handle.{settle_turn}
use hermes_claude_agent_sdk.Session.World.{
  World, fresh, Move, begins, reads, compacts, ends_stream, watchdog_fires, deadline_passes,
  resumes, cancels, cancel_resumes, closes, step, run, run_induction, is_free, resume, time_out,
  pass_deadline,
}
use hermes_claude_agent_sdk.Session.Release.{
  view, IsGuarded, IsHonest, IsHonest-closed, IsSafe, safe, close-IsSafe, interrupt-IsSafe,
  retire-IsSafe,
}
use hermes_claude_agent_sdk.Session.Release.Moves.{take-IsSafe, settle-IsSafe, begin-IsSafe}

-- A session that is asked to cancel
abbrev cancelling_by : Session → Session
cancelling_by s = record s {
  cancel_requested = true;
  inbox = enqueue cancelled s.inbox;
  cancelling = suc s.cancelling;
}

-- The session that the reader leaves beside the turn `t`.
module _ (t : Turn) where
  deliver-IsSafe : (v : Value) (s : Session) → IsSafe (s, t) → IsSafe (deliver v s, t)
  unfolding deliver
  deliver-IsSafe v s h =
      if-elim (λ x. IsSafe (x, t)) (has_inbox s.inbox)
        (λ _.
          if-elim (λ x. IsSafe (x, t)) s.terminal_seen (λ _. safe _ _ h.guarded h.honest)
            (λ _. safe _ _ h.guarded h.honest))
        (λ _. safe _ _ h.guarded h.honest)

  violation-IsSafe : (s : Session) → IsSafe (s, t) → IsSafe (deliver_violation s, t)
  unfolding deliver_violation
  violation-IsSafe s h =
      if-elim (λ x. IsSafe (x, t)) (has_inbox s.inbox) (λ _. safe _ _ h.guarded h.honest)
        (λ _. safe _ _ h.guarded h.honest)

  read-IsSafe : (v : Value) (s : Session) → IsSafe (s, t) → IsSafe (read_message v s, t)
  unfolding read_message end_stream
  read-IsSafe v s h =
      let r = zero_native_violation s.allowed_tools v s.indexes in
      let u : Session = record s { indexes = r.1 } in
      let k : IsSafe (u, t) = safe _ _ h.guarded h.honest in
      elim r.0
        as (λ (x : Verdict). IsSafe (
          (elim x [
            | violation ↦ deliver_violation u
            | clean ↦ deliver v u
            | raises ↦ end_stream true u
          ]),
          t,
        )) [
          | violation ↦ violation-IsSafe u k
          | clean ↦ deliver-IsSafe v u k
          | raises ↦ safe _ _ h.guarded h.honest
        ]

  fire-IsSafe : (s : Session) → IsSafe (s, t) → IsSafe (fire_watchdog s, t)
  unfolding fire_watchdog
  fire-IsSafe s h =
      if-elim (λ x. IsSafe (x, t)) (expire s.compaction).1 (λ _. safe _ _ h.guarded h.honest)
        (λ _. h)

  shut-IsSafe : (s : Session) → IsSafe (s, t) → IsSafe (close s, t)
  shut-IsSafe s h = close-IsSafe s t h.guarded (IsHonest-closed t s.closed h.honest)

  cancel-IsSafe : (s : Session) → IsSafe (s, t) → IsSafe (cancel s, t)
  unfolding cancel
  cancel-IsSafe s h =
      if-elim (λ x. IsSafe (x, t)) s.closed (λ _. h)
        (λ _. interrupt-IsSafe (cancelling_by s) t h.guarded h.honest)

  finish_cancel-IsSafe : (s : Session) → IsSafe (s, t) → IsSafe (finish_cancel s, t)
  unfolding finish_cancel
  finish_cancel-IsSafe s h =
      if-elim (λ x. IsSafe (x, t)) (ltb 0 s.cancelling)
        (λ _.
          close-IsSafe (record s { cancelling = s.cancelling - 1 }) t h.guarded
            (IsHonest-closed t s.closed h.honest))
        (λ _. h)

time_out-IsSafe :
    (items : Option (List Item)) (l : Locals) (s : Session)
    → IsGuarded s.shown
    → IsSafe (time_out items l s)
unfolding time_out
time_out-IsSafe (some []) l s g =
    if-elim IsSafe (is_active s.compaction) (λ _. safe _ _ g tt) (λ _. retire-IsSafe _ s g refl)
time_out-IsSafe (some (_ ∷ _)) l s g = safe _ _ g tt
time_out-IsSafe none l s g = safe _ _ g tt

deadline-IsSafe : (t : Turn) (s : Session) → IsSafe (s, t) → IsSafe (pass_deadline t s)
unfolding pass_deadline
deadline-IsSafe (waiting l) s h = time_out-IsSafe s.inbox l s h.guarded
deadline-IsSafe (settling l d v) s h = h
deadline-IsSafe (done _) s h = h
deadline-IsSafe (retiring _) s h = h
deadline-IsSafe (leaving _) s h = h
deadline-IsSafe idle s h = h
deadline-IsSafe crashed s h = h

module _ (py : Interpreter) where
  resume-IsSafe : (t : Turn) (s : Session) → IsSafe (s, t) → IsSafe (resume py t s)
  unfolding resume settle_turn finish_turn
  resume-IsSafe (waiting l) s h = take-IsSafe py s.inbox l s h.guarded
  resume-IsSafe (settling l d v) s h = settle-IsSafe _ l d v s h.honest h.guarded
  resume-IsSafe (done _) s h = h
  resume-IsSafe (retiring r) s h =
      let k = close-IsSafe s (done r) h.guarded h.honest in safe _ _ k.guarded k.honest
  resume-IsSafe (leaving r) s h = close-IsSafe s (done r) h.guarded h.honest
  resume-IsSafe idle s h = h
  resume-IsSafe crashed s h = h

  abbrev IsSafeWorld : World → Type 0
  IsSafeWorld w = IsSafe (w.session, w.turn)

  step-IsSafe : (w : World) (m : Move) → IsSafeWorld w → IsSafeWorld (step py w m)
  unfolding step end_stream
  step-IsSafe w (begins p e c a) h =
      if-elim IsSafeWorld (is_free w.turn) (λ _. begin-IsSafe p e c a w.session h.guarded) (λ _. h)
  step-IsSafe w (reads v) h =
      if-elim IsSafeWorld w.session.reading (λ _. read-IsSafe w.turn v w.session h) (λ _. h)
  step-IsSafe w (ends_stream b) h =
      if-elim IsSafeWorld w.session.reading (λ _. safe _ _ h.guarded h.honest) (λ _. h)
  step-IsSafe w (compacts v) h = safe _ _ h.guarded h.honest
  step-IsSafe w watchdog_fires h = fire-IsSafe w.turn w.session h
  step-IsSafe w deadline_passes h = deadline-IsSafe w.turn w.session h
  step-IsSafe w resumes h = resume-IsSafe w.turn w.session h
  step-IsSafe w cancels h = cancel-IsSafe w.turn w.session h
  step-IsSafe w cancel_resumes h = finish_cancel-IsSafe w.turn w.session h
  step-IsSafe w closes h = shut-IsSafe w.turn w.session h

  run-IsSafe :
      (tools : List String) (tracker : Tracker) (ms : List Move)
      → IsSafeWorld (run py (fresh tools tracker) ms)
  unfolding view
  run-IsSafe tools tracker ms =
      run_induction py IsSafeWorld step-IsSafe (fresh tools tracker) ms (safe _ _ (false, refl) tt)

  -- After any moves on a fresh session, under any interleaving, each ResultMessage that the host
  -- was shown came right after a billing decision that allows.
  pub shown-IsGuarded :
      (tools : List String) (tracker : Tracker) (ms : List Move)
      → IsGuarded (run py (fresh tools tracker) ms).session.shown
  shown-IsGuarded tools tracker ms = (run-IsSafe tools tracker ms).guarded

  -- After any moves on a fresh session, a turn that ended as complete carries a billing decision
  -- that allows, one that ended as billing_blocked or timed_out leaves the session closed, and one
  -- that is between projection and settling holds a decision that allows.
  pub result-IsHonest :
      (tools : List String) (tracker : Tracker) (ms : List Move)
      → IsHonest
          (run py (fresh tools tracker) ms).turn
          (run py (fresh tools tracker) ms).session.closed
  result-IsHonest tools tracker ms = (run-IsSafe tools tracker ms).honest
