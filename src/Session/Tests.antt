-- ===== src/Session/Tests.antt =====
-- The session's theorems on a run of one turn.
use hermes_claude_agent_sdk.Common.{String, false, List, [], ◌∷◌, none, some}
use hermes_claude_agent_sdk.Common.Int.{pos}
use hermes_claude_agent_sdk.Python.{Value, finite, str, dict}
use hermes_claude_agent_sdk.Python.Sample.{plain, fields, message}
use hermes_claude_agent_sdk.Compaction.{auto, Tracker}
use hermes_claude_agent_sdk.Session.Turn.{connected, words, answered}
use hermes_claude_agent_sdk.Session.World.{
  fresh, Move, begins, reads, compacts, resumes, cancels, cancel_resumes, closes, run,
}
use hermes_claude_agent_sdk.Session.Calls.Runs.{IsOrderedWorld}
use hermes_claude_agent_sdk.Session.Calls.Runs.{run-IsOrdered}
use hermes_claude_agent_sdk.Session.Release.{IsGuarded, IsHonest}
use hermes_claude_agent_sdk.Session.Release.Runs.{shown-IsGuarded, result-IsHonest}

abbrev tracker : Tracker
tracker = record {
  watchdog_bound = finite (pos 300) 0;
  on_event = none;
  on_watchdog = none;
  active_depth = 0;
  active_trigger = auto;
  watchdog_task = false;
  notices = [];
}

abbrev tools : List String
tools = "mcp__hermes__read" ∷ []

abbrev init : Value
init =
    message "SystemMessage"
      (("subtype", str "init") ∷ ("data", dict (fields (("apiKeySource", str "none") ∷ []))) ∷ [])

abbrev limit : Value
limit =
    message "RateLimitEvent"
      (("rate_limit_info", dict (fields (("rate_limit_type", str "five_hour") ∷ []))) ∷ [])

abbrev answer : Value
answer = message "ResultMessage" (("result", str "done") ∷ ("session_id", str "s1") ∷ [])

-- A compaction in the turn, the result, and two cancels and a close that come before the turn settled.
abbrev moves : List Move
moves =
    begins (words "hello") (some 1) connected answered
    ∷ reads init
    ∷ reads limit
    ∷ compacts (dict (fields (("trigger", str "manual") ∷ [])))
    ∷ reads answer
    ∷ resumes
    ∷ resumes
    ∷ resumes
    ∷ cancels
    ∷ cancels
    ∷ closes
    ∷ cancel_resumes
    ∷ resumes
    ∷ []

run-IsOrdered_example : IsOrderedWorld (run plain (fresh tools tracker) moves)
run-IsOrdered_example = run-IsOrdered plain tools tracker moves

shown-IsGuarded_example : IsGuarded (run plain (fresh tools tracker) moves).session.shown
shown-IsGuarded_example = shown-IsGuarded plain tools tracker moves

result-IsHonest_example :
    IsHonest
      (run plain (fresh tools tracker) moves).turn
      (run plain (fresh tools tracker) moves).session.closed
result-IsHonest_example = result-IsHonest plain tools tracker moves
