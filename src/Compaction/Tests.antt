-- ===== src/Compaction/Tests.antt =====
-- The lifecycle's theorems at concrete calls.
use hermes_claude_agent_sdk.Common.{◌≡◌, refl, true, false, List, [], ◌∷◌, some, none}
use hermes_claude_agent_sdk.Common.Int.{pos}
use hermes_claude_agent_sdk.Python.{finite}
use hermes_claude_agent_sdk.Compaction.{
  auto, manual, Tracker, create, is_watchdog_bound, complete, end_turn,
}
use hermes_claude_agent_sdk.Compaction.Lifecycle.{
  Call, binds, starts, completes, expires, ends_turn, run, IsOrderly,
}
use hermes_claude_agent_sdk.Compaction.Turns.{
  IsClosed, run-IsOrderly, end_turn-IsClosed, boundaries, nested_boundaries,
}

abbrev tracker : Tracker
tracker = record {
  watchdog_bound = finite (pos 300) 0;
  on_event = none;
  on_watchdog = none;
  active_depth = 0;
  active_trigger = auto;
  watchdog_task = false;
  notices = [];
}

tracker-created : create (finite (pos 300) 0) ≡ some tracker
unfolding create is_watchdog_bound
tracker-created = refl

-- A turn with nested compactions, the second of which outlives its bound.
abbrev calls : List Call
calls =
    binds (some 1) (some 0)
    ∷ starts auto
    ∷ starts manual
    ∷ completes auto
    ∷ completes auto
    ∷ starts manual
    ∷ expires
    ∷ ends_turn true
    ∷ []

run-IsOrderly_example : IsOrderly (run tracker calls)
run-IsOrderly_example = run-IsOrderly (finite (pos 300) 0) tracker calls tracker-created

end_turn-IsClosed_example :
    IsClosed (end_turn true (run tracker (binds (some 1) none ∷ starts auto ∷ [])))
end_turn-IsClosed_example =
    end_turn-IsClosed (finite (pos 300) 0) tracker (binds (some 1) none ∷ starts auto ∷ []) true
      tracker-created

abbrev nested : Tracker
nested = record tracker { active_depth = 3; on_event = some 1; watchdog_task = true }

nested_boundaries_example :
    (boundaries 2 auto nested ≡ record nested { active_depth = 1 })
    × ((complete auto (boundaries 2 auto nested)).1 ≡ true)
    × ((complete auto (boundaries 2 auto nested)).0.active_depth ≡ 0)
nested_boundaries_example = nested_boundaries 2 auto nested refl
