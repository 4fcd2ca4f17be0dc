-- ===== src/ToolBridge/Calls/Valid.antt =====
-- Every bridge that can be created, and its turns, has valid schemas.
use hermes_claude_agent_sdk.Common.{
  contains, and-true, String, ◌≡◌, refl, subst, true, false, ◌&&◌, List, [], ◌∷◌, some, if-elim,
}
use hermes_claude_agent_sdk.Common.Options.{check-some, bind-some, some-inj}
use hermes_claude_agent_sdk.Python.{Value, str}
use hermes_claude_agent_sdk.ToolBridge.Text.{Texts, bounded_text}
use hermes_claude_agent_sdk.ToolBridge.Json.{copy_plain_json, max_input_bytes}
use hermes_claude_agent_sdk.ToolBridge.Normalize.{
  Definition, max_levels, normalize_parts, normalize_tool_schema, normalize_tool_schemas,
  spec_parts, collect, insert, sort, is_object_schema,
}
use hermes_claude_agent_sdk.ToolBridge.Schema.{valid_schema}
use hermes_claude_agent_sdk.ToolBridge.Calls.Answers.{HasSchemas}
use hermes_claude_agent_sdk.Common.Names.{less}
use hermes_claude_agent_sdk.ToolBridge.{
  Bridge, create, without, excluded_names, checked_correlation,
}

module _ (u : Texts) where
  parts-valid :
      (name description schema : Value) (d : Definition)
      → normalize_parts u name description schema ≡ some d
      → valid_schema u max_levels d.input_schema ≡ true
  unfolding normalize_parts
  parts-valid (str name) description schema d h =
      let (_, h1) = check-some _ _ d h in
      let (words, _, h2) = bind-some _ _ d h1 in
      let (short, _, h3) = bind-some (bounded_text u words 4_096 false) _ d h2 in
      let (copied, _, h4) = bind-some (copy_plain_json max_input_bytes schema) _ d h3 in
      let (ok, h5) =
        check-some (valid_schema u max_levels copied && is_object_schema copied) _ d h4 in
      subst (λ (x : Definition). valid_schema u max_levels x.input_schema ≡ true) (some-inj _ d h5)
        (and-true (valid_schema u max_levels copied) _ ok).0
  parts-valid _ description schema d h = cc

  normalized-valid :
      (spec : Value) (d : Definition)
      → normalize_tool_schema u spec ≡ some d
      → valid_schema u max_levels d.input_schema ≡ true
  unfolding normalize_tool_schema
  normalized-valid spec d h =
      let (parts, _, h1) = bind-some (spec_parts spec) _ d h in
      parts-valid parts.0 parts.1 parts.2 d h1

  collect-HasSchemas :
      (specs : List Value) (found_so_far ds : List Definition)
      → HasSchemas u found_so_far
      → collect u specs found_so_far ≡ some ds
      → HasSchemas u ds
  unfolding collect
  collect-HasSchemas [] found_so_far ds v h = subst (HasSchemas u) (some-inj found_so_far ds h) v
  collect-HasSchemas (spec ∷ specs) found_so_far ds v h =
      let (d, e, h1) = bind-some (normalize_tool_schema u spec) _ ds h in
      let (_, h2) = check-some _ _ ds h1 in
      collect-HasSchemas specs (d ∷ found_so_far) ds (normalized-valid spec d e, v) h2

  insert-HasSchemas :
      (d : Definition) (ds : List Definition)
      → valid_schema u max_levels d.input_schema ≡ true
      → HasSchemas u ds
      → HasSchemas u (insert d ds)
  unfolding insert
  insert-HasSchemas d [] e v = (e, tt)
  insert-HasSchemas d (c ∷ ds) e v =
      if-elim (HasSchemas u) (less d.name c.name) (λ _. (e, v))
        (λ _. (v.0, insert-HasSchemas d ds e v.1))

  sort-HasSchemas : (ds : List Definition) → HasSchemas u ds → HasSchemas u (sort ds)
  unfolding sort
  sort-HasSchemas [] v = tt
  sort-HasSchemas (d ∷ ds) v = insert-HasSchemas d (sort ds) v.0 (sort-HasSchemas ds v.1)

  -- No name is an excluded one.
  abbrev pub Avoids : List String → List Definition → Type 0
  Avoids names [] = Unit
  Avoids names (d ∷ ds) = (contains names d.name ≡ false) × Avoids names ds

  without-HasSchemas :
      (names : List String) (ds : List Definition)
      → HasSchemas u ds
      → HasSchemas u (without names ds) × Avoids names (without names ds)
  unfolding without
  without-HasSchemas names [] v = (tt, tt)
  without-HasSchemas names (d ∷ ds) v =
      let (h, k) = without-HasSchemas names ds v.1 in
      if-elim (λ x. HasSchemas u x × Avoids names x) (contains names d.name) (λ _. (h, k))
        (λ e. ((v.0, h), (e, k)))

  -- A bridge that can be created has only tools whose schemas are valid, and none of the excluded
  -- ones; no call was made on it yet.
  pub create-HasSchemas :
      (schemas correlation : Value) (excluded : List Value) (b : Bridge)
      → create u schemas excluded correlation ≡ some b
      → HasSchemas u b.definitions
        × ((names : List String) × (excluded_names excluded ≡ some names)
            × Avoids names b.definitions)
        × (b.executed ≡ [])
  unfolding create normalize_tool_schemas
  create-HasSchemas schemas correlation excluded b h =
      let (c, _, h1) = bind-some (checked_correlation correlation) _ b h in
      let (names, named, h2) = bind-some (excluded_names excluded) _ b h1 in
      let (ds, e, h3) = bind-some _ _ b h2 in
      let (items, _, e1) = bind-some _ _ ds e in
      let (all_found, e2, e3) = bind-some (collect u items []) _ ds e1 in
      let valid =
        subst (HasSchemas u) (some-inj (sort all_found) ds e3)
          (sort-HasSchemas all_found (collect-HasSchemas items [] all_found tt e2)) in
      let (v, a) = without-HasSchemas names ds valid in
      subst
        (λ (x : Bridge).
          HasSchemas u x.definitions
          × ((names : List String) × (excluded_names excluded ≡ some names)
              × Avoids names x.definitions)
          × (x.executed ≡ []))
        (some-inj _ b h3) (v, (names, named, a), refl)
