-- ===== src/ToolBridge/Match/Parts.antt =====
-- The parts of an object, of an array and of a choice
use hermes_claude_agent_sdk.Common.{
  and-true, if-elim, String, ◌≡◌, refl, Bool, true, false, ◌&&◌, Option, some, ◌==◌,
}
use hermes_claude_agent_sdk.Python.{
  Value, null, bool, str, list, dict, Items, nil, cons, Fields, end, field, Read, absent, raised,
  found, lookup, eq_str,
}
use hermes_claude_agent_sdk.ToolBridge.Text.{Texts}
use hermes_claude_agent_sdk.ToolBridge.Schema.{
  get_or, where_found, is_short, is_required_of, valid_properties, is_property_name, or_default,
  valid_all, valid_choice, valid_object,
}
use hermes_claude_agent_sdk.ToolBridge.Match.{
  any_item, all_items, count_at_least, count_at_most, bounded_by, count, requires, admits_others,
  property_match, properties_match, object_match, items_match, array_match, choice_match,
}
use hermes_claude_agent_sdk.ToolBridge.Match.Total.{
  Returns, returns, and_then-Returns, or_else-Returns, count_at_least-Returns,
  count_at_most-Returns, requires-Returns,
}
use hermes_claude_agent_sdk.ToolBridge.Match.Bounds.{HasBounds}

-- The parts that `part` accepts are tested by `test`.
module _ (part : Value → Bool) (test : Value → Value → Option Bool)
    (tests : (value schema : Value) → part schema ≡ true → Returns (test value schema)) where
  any_item-Returns :
      (value : Value) (children : Items)
      → valid_all part children ≡ true
      → Returns (any_item (test value) children)
  unfolding any_item
  any_item-Returns value nil h = returns false
  any_item-Returns value (cons child children) h =
      let (now, later) = and-true (part child) (valid_all part children) h in
      or_else-Returns (test value child) _ (tests value child now)
        (any_item-Returns value children later)

  pub choice-Returns :
      (value alternatives : Value)
      → valid_choice part alternatives ≡ true
      → Returns (choice_match test value alternatives)
  choice-Returns value null h = returns true
  choice-Returns value (list children) h =
      any_item-Returns value children (and-true (is_short children) _ h).1
  choice-Returns value _ h = cc

  all_items-Returns :
      (schema : Value) (xs : Items)
      → part schema ≡ true
      → Returns (all_items (λ x. test x schema) xs)
  unfolding all_items
  all_items-Returns schema nil h = returns true
  all_items-Returns schema (cons x xs) h =
      and_then-Returns (test x schema) _ (tests x schema h) (all_items-Returns schema xs h)

  items-Returns :
      (xs : Items) (r : Read)
      → where_found part r ≡ true
      → Returns (items_match test xs (or_default null r))
  items-Returns xs (found null) h = returns true
  items-Returns xs (found schema) h = all_items-Returns schema xs h
  items-Returns xs absent h = returns true
  items-Returns xs raised h = returns true

  module _ (u : Texts) where
    lookup-part :
        (properties : Fields) (name : String)
        → valid_properties u part properties ≡ true
        → where_found part (lookup properties name) ≡ true
    unfolding valid_properties lookup eq_str
    lookup-part end name h = refl
    lookup-part (field (str key) child fs) name h =
        let (front, later) = and-true (is_property_name u key && part child) _ h in
        let (_, now) = and-true (is_property_name u key) (part child) front in
        if-elim (λ r. where_found part r ≡ true) (key == name) (λ _. now)
          (λ _. lookup-part fs name later)
    lookup-part (field _ child fs) name h = cc

    property-Returns :
        (child : Value) (r : Read)
        → where_found part r ≡ true
        → Returns (property_match test child r)
    property-Returns child (found schema) h = tests child schema h
    property-Returns child absent h = returns true
    property-Returns child raised h = returns true

    properties-Returns :
        (properties fs : Fields)
        → valid_properties u part properties ≡ true
        → Returns (properties_match test properties fs)
    unfolding properties_match
    properties-Returns properties end h = returns true
    properties-Returns properties (field (str name) child fs) h =
        and_then-Returns (property_match test child (lookup properties name)) _
          (property-Returns child (lookup properties name) (lookup-part properties name h))
          (properties-Returns properties fs h)
    properties-Returns properties (field _ child fs) h = properties-Returns properties fs h

    pub object-Returns :
        (value properties : Value) (schema : Fields)
        → valid_object u part properties schema ≡ true
        → Returns (object_match test value properties schema)
    object-Returns (dict fs) (dict properties) schema h =
        let (front, _) =
          and-true
            (valid_properties u part properties
              && is_required_of properties (get_or schema "required" (list nil)))
            _ h in
        let (parts, names) = and-true (valid_properties u part properties) _ front in
        and_then-Returns (requires fs (get_or schema "required" (list nil))) _
          (requires-Returns properties fs (get_or schema "required" (list nil)) names)
          (and_then-Returns
            (some (admits_others (get_or schema "additionalProperties" (bool true)) properties fs))
            _ (returns _) (properties-Returns properties fs parts))
    object-Returns (dict fs) _ schema h = cc
    object-Returns _ properties schema h = returns false

  pub array-Returns :
      (value : Value) (schema : Fields)
      → HasBounds schema
      → where_found part (lookup schema "items") ≡ true
      → Returns (array_match test value schema)
  unfolding get_or
  array-Returns (list xs) schema h k =
      and_then-Returns
        (bounded_by (λ low. count_at_least low (count xs)) (lookup schema "minItems")) _
        (count_at_least-Returns (lookup schema "minItems") (count xs) h.min_items)
        (and_then-Returns
          (bounded_by (λ high. count_at_most high (count xs)) (lookup schema "maxItems")) _
          (count_at_most-Returns (lookup schema "maxItems") (count xs) h.max_items)
          (items-Returns xs (lookup schema "items") k))
  array-Returns _ schema h k = returns false
