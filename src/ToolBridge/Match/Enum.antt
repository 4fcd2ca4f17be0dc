-- ===== src/ToolBridge/Match/Enum.antt =====
-- `enum` in a schema of an object or of an array.
use hermes_claude_agent_sdk.Common.{
  ℕ, suc, ◌≡◌, refl, Bool, true, false, ◌||◌, ◌==◌, Option, if◌then◌else◌, ap,
}
use hermes_claude_agent_sdk.Python.{
  Value, null, str, Fields, field, dict, list, lookup, eq_str, is_null,
}
use hermes_claude_agent_sdk.ToolBridge.Schema.{get_or, is_a}
use hermes_claude_agent_sdk.ToolBridge.Match.{
  matches_schema, fields_match, typed_match, scalar_match, and_then, choice_match, object_match,
  array_match,
}

-- A schema whose type is object or array
abbrev pub IsContainer : Fields → Type 0
IsContainer fs =
    (is_a (get_or fs "type" null) "object" || is_a (get_or fs "type" null) "array") ≡ true

-- A third branch that is not reached
either-branch :
    (a b : Bool) (x x' y y' z z' : Option Bool)
    → x ≡ x'
    → y ≡ y'
    → (a || b) ≡ true
    → (if a then x else if b then y else z) ≡ (if a then x' else if b then y' else z')
either-branch true b x x' y y' z z' p q h = p
either-branch false true x x' y y' z z' p q h = q
either-branch false false x x' y y' z z' p q h = cc

object_match-enum :
    (test : Value → Value → Option Bool) (value properties choices : Value) (fs : Fields)
    → object_match test value properties (field (str "enum") choices fs)
      ≡ object_match test value properties fs
unfolding get_or lookup eq_str
object_match-enum test (dict vs) (dict ps) choices fs = refl
object_match-enum test (dict vs) _ choices fs = refl
object_match-enum test _ properties choices fs = refl

array_match-enum :
    (test : Value → Value → Option Bool) (value choices : Value) (fs : Fields)
    → array_match test value (field (str "enum") choices fs) ≡ array_match test value fs
unfolding get_or lookup eq_str
array_match-enum test (list xs) choices fs = refl
array_match-enum test _ choices fs = refl

typed_match-enum :
    (test : Value → Value → Option Bool) (kind value choices : Value) (fs : Fields)
    → (is_a kind "object" || is_a kind "array") ≡ true
    → typed_match test kind value (field (str "enum") choices fs) ≡ typed_match test kind value fs
unfolding typed_match get_or lookup eq_str is_null scalar_match
typed_match-enum test (str s) value choices fs h =
    either-branch (s == "object") (s == "array") _ _ _ _ _ _
      (object_match-enum test value _ choices fs) (array_match-enum test value choices fs) h
typed_match-enum test null value choices fs h = refl
typed_match-enum test _ value choices fs h = cc

-- An `enum` that is added to a schema of an object or of an array changes no match.
pub matches_schema-enum :
    (n : ℕ) (value choices : Value) (fs : Fields)
    → IsContainer fs
    → matches_schema (suc n) value (dict (field (str "enum") choices fs))
      ≡ matches_schema (suc n) value (dict fs)
unfolding matches_schema fields_match typed_match get_or lookup eq_str
matches_schema-enum n value choices fs h =
    ap (and_then (choice_match (matches_schema n) value (get_or fs "anyOf" null)))
      (typed_match-enum (matches_schema n) (get_or fs "type" null) value choices fs h)
