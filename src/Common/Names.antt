-- ===== src/Common/Names.antt =====
-- Sorted sets of names, `tuple(sorted(set(names)))`, and sorted items, `sorted(d.items())`.
use mathlib.Core.Bool.{Bool}
use mathlib.Core.List.{List, [], ◌∷◌}
use Prim.Native.String.{String, compare}
use text.Mathlib.Text.{◌==◌, is_lt}
use hermes_claude_agent_sdk.Common.Tests.{if◌then◌else◌}

unfoldable pub less : String → String → Bool
less s t = is_lt (compare s t)

unfoldable pub insert : String → List String → List String
unfolding less
insert s [] = s ∷ []
insert s (t ∷ names) =
    if s == t then t ∷ names else if less s t then s ∷ t ∷ names else t ∷ insert s names

unfoldable pub sorted_set : List String → List String
unfolding insert
sorted_set [] = []
sorted_set (s ∷ names) = insert s (sorted_set names)

insert_item : String × String → List (String × String) → List (String × String)
unfolding less
insert_item item [] = item ∷ []
insert_item item (next ∷ items) =
    if less item.0 next.0 then item ∷ next ∷ items else next ∷ insert_item item items

-- The keys are different, so the values do not count.
unfoldable pub sorted_items : List (String × String) → List (String × String)
unfolding insert_item
sorted_items [] = []
sorted_items (item ∷ items) = insert_item item (sorted_items items)
