-- ===== src/Python/Sample.antt =====
-- A concrete interpreter for the tests, whose texts are lower-case ASCII but for two names of
-- classes, and short builders.
use hermes_claude_agent_sdk.Common.{String, some, List, [], ◌∷◌, ◌==◌, if◌then◌else◌}
use hermes_claude_agent_sdk.Python.{Value, str, object, Fields, end, field, Interpreter}

abbrev lowered : String → String
lowered s =
    if s == "SystemMessage"
    then "systemmessage"
    else if s == "RateLimitEvent"
    then "ratelimitevent"
    else s

abbrev pub plain : Interpreter
plain = record {
  lower = lowered;
  upper = λ s. s;
  casefold = λ s. s;
  int_text = λ n. some "7";
  float_text = λ x. "0.5";
}

abbrev pub fields : List (String × Value) → Fields
fields [] = end
fields ((k, v) ∷ rest) = field (str k) v (fields rest)

abbrev pub message : String → List (String × Value) → Value
message name attributes = object name (fields attributes)
