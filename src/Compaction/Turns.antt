-- ===== src/Compaction/Turns.antt =====
-- Whole histories of the lifecycle: the host's view stays in order, nested compactions end once,
-- and the end of a turn closes what is open.
use hermes_claude_agent_sdk.Common.{
  ℕ, zero, suc, ◌≡◌, refl, ap, Bool, true, false, List, [], ◌∷◌, none, some, arith,
}
use hermes_claude_agent_sdk.Python.{Float}
use hermes_claude_agent_sdk.Compaction.{Trigger, Tracker, create, is_active, complete, end_turn}
use hermes_claude_agent_sdk.Compaction.Lifecycle.{
  Call, binds, starts, completes, expires, ends_turn, step, run, watch, IsOrderly, bind-IsOrderly,
  start-IsOrderly, complete-IsOrderly, expire-IsOrderly, close_active-IsOrderly, end_turn-IsOrderly,
}

create-IsOrderly : (bound : Float) (t : Tracker) → create bound ≡ some t → IsOrderly t
unfolding create watch is_active
create-IsOrderly bound t h = ground arith

step-IsOrderly : (t : Tracker) (c : Call) → IsOrderly t → IsOrderly (step t c)
unfolding step
step-IsOrderly t (binds e w) v = bind-IsOrderly e w t v
step-IsOrderly t (starts g) v = start-IsOrderly g t v
step-IsOrderly t (completes g) v = complete-IsOrderly g t v
step-IsOrderly t expires v = expire-IsOrderly t v
step-IsOrderly t (ends_turn c) v = end_turn-IsOrderly c t v

run-IsOrderly_from : (t : Tracker) (cs : List Call) → IsOrderly t → IsOrderly (run t cs)
unfolding run
run-IsOrderly_from t [] v = v
run-IsOrderly_from t (c ∷ cs) v = run-IsOrderly_from (step t c) cs (step-IsOrderly t c v)

-- After any calls on a fresh tracker, the watchdog task is there exactly while a compaction is
-- active; and in the notices each start is followed by one end at the same callback before the
-- next start, the open one being that of the active compaction.
pub run-IsOrderly :
    (bound : Float) (t : Tracker) (cs : List Call) → create bound ≡ some t → IsOrderly (run t cs)
run-IsOrderly bound t cs h = run-IsOrderly_from t cs (create-IsOrderly bound t h)

-- What the end of a turn leaves.
pub record IsClosed (t : Tracker) : Type 0 where
  pub idle : is_active t ≡ false
  pub unguarded : t.watchdog_task ≡ false
  pub silent : (t.on_event ≡ none) × (t.on_watchdog ≡ none)
  pub ended : watch (some none) t.notices ≡ some none

-- After any calls, the end of the turn leaves no compaction active, no watchdog, no callback, and
-- every compaction that the host saw start has ended.
pub end_turn-IsClosed :
    (bound : Float) (t : Tracker) (cs : List Call) (completed : Bool)
    → create bound ≡ some t
    → IsClosed (end_turn completed (run t cs))
unfolding end_turn is_active
end_turn-IsClosed bound t cs completed h =
    ground (arith, close_active-IsOrderly completed (run t cs) (run-IsOrderly bound t cs h))

-- `n` boundaries in a row
pub boundaries : ℕ → Trigger → Tracker → Tracker
boundaries zero g t = t
boundaries (suc n) g t = boundaries n g (complete g t).0

inner_boundary :
    (n : ℕ) (g : Trigger) (t : Tracker)
    → t.active_depth ≡ suc (suc n)
    → complete g t ≡ (record t { active_depth = suc n }, false)
unfolding complete is_active
inner_boundary n g t h = ground arith

-- Inside a compaction that was entered n + 1 times, n boundaries are silent and leave depth 1, and
-- the next one ends it.
pub nested_boundaries :
    (n : ℕ) (g : Trigger) (t : Tracker)
    → t.active_depth ≡ suc n
    → (boundaries n g t ≡ record t { active_depth = 1 })
      × ((complete g (boundaries n g t)).1 ≡ true)
      × ((complete g (boundaries n g t)).0.active_depth ≡ 0)
unfolding boundaries
nested_boundaries zero g t h = unfold complete is_active in ground arith
nested_boundaries (suc n) g t h =
    let u : Tracker = record t { active_depth = suc n } in
    let inner : (complete g t).0 ≡ u = ap (λ (r : Tracker × Bool). r.0) (inner_boundary n g t h) in
    rw inner (nested_boundaries n g u refl)
