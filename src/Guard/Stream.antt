-- ===== src/Guard/Stream.antt =====
-- Partial stream events: every index that the guard remembers belongs to an admitted tool.
use hermes_claude_agent_sdk.Common.{
  ℕ, String, ◌≡◌, true, List, [], ◌∷◌, Option, none, some, arith, contains, inl, inr, Bool-cases,
  if-elim, not, ◌||◌,
}
use hermes_claude_agent_sdk.Python.{Value, null, is_mapping, attr}
use hermes_claude_agent_sdk.Guard.{
  Indexes, put, pop, Verdict, mapping_value, is_map, or_null, set_index, pop_index, admit_tool,
  block_part, delta_part, boundary_part, or_else, stream_tool_violation, zero_native_violation,
  has_hash, is_native_type, is_text,
}

module _ (allowed : List String) where
  -- Every remembered name is one of the allowed names.
  abbrev pub IsAdmitted : Indexes → Type 0
  IsAdmitted [] = Unit
  IsAdmitted ((i, name) ∷ m) = (contains allowed name ≡ true) × IsAdmitted m

  put-IsAdmitted :
      (i : ℕ) (name : String) (m : Indexes)
      → contains allowed name ≡ true
      → IsAdmitted m
      → IsAdmitted (put i name m)
  unfolding put
  put-IsAdmitted i name [] h v = (h, tt)
  put-IsAdmitted i name ((j, old) ∷ m) h v = ground (arith, put-IsAdmitted i name m h v.1)

  pop-IsAdmitted : (i : ℕ) (m : Indexes) → IsAdmitted m → IsAdmitted (pop i m)
  unfolding pop
  pop-IsAdmitted i [] v = v
  pop-IsAdmitted i ((j, name) ∷ m) v = ground (arith, pop-IsAdmitted i m v.1)

  set_index-IsAdmitted :
      (index : Option ℕ) (name : String) (m : Indexes)
      → contains allowed name ≡ true
      → IsAdmitted m
      → IsAdmitted (set_index index name m)
  set_index-IsAdmitted none name m h v = v
  set_index-IsAdmitted (some i) name m h v = put-IsAdmitted i name m h v

  pop_index-IsAdmitted :
      (index : Option ℕ) (m : Indexes) → IsAdmitted m → IsAdmitted (pop_index index m)
  pop_index-IsAdmitted none m v = v
  pop_index-IsAdmitted (some i) m v = pop-IsAdmitted i m v

  admit_tool-IsAdmitted :
      (name : Option Value) (index : Option ℕ) (m : Indexes)
      → IsAdmitted m
      → IsAdmitted (admit_tool allowed name index m).1
  unfolding admit_tool
  admit_tool-IsAdmitted (some (Value.str name)) index m v =
      elim (Bool-cases (contains allowed name)) [
        | inl known ↦ rw known (set_index-IsAdmitted index name m known v)
        | inr other ↦ rw other v
      ]
  admit_tool-IsAdmitted _ index m v = v

  -- What a part leaves, if it decides.
  abbrev LeavesAdmitted : Option (Verdict × Indexes) → Type 0
  LeavesAdmitted none = Unit
  LeavesAdmitted (some r) = IsAdmitted r.1

  block_part-admits :
      (block : Option Value) (index : Option ℕ) (m : Indexes)
      → IsAdmitted m
      → LeavesAdmitted (block_part allowed block index m)
  unfolding block_part
  block_part-admits block index m v =
      let kind = mapping_value (or_null block) ("type" ∷ []) in
      if-elim LeavesAdmitted (not (is_map block)) (λ _. tt)
        (λ _.
          if-elim LeavesAdmitted (not (has_hash kind)) (λ _. v)
            (λ _.
              if-elim LeavesAdmitted (is_native_type kind) (λ _. v)
                (λ _.
                  if-elim LeavesAdmitted (is_text kind "tool_use")
                    (λ _.
                      admit_tool-IsAdmitted (mapping_value (or_null block) ("name" ∷ [])) index m v)
                    (λ _. tt))))

  delta_part-admits :
      (delta : Option Value) (index : Option ℕ) (m : Indexes)
      → IsAdmitted m
      → LeavesAdmitted (delta_part allowed delta index m)
  unfolding delta_part
  delta_part-admits delta index m v =
      let kind = mapping_value (or_null delta) ("type" ∷ []) in
      if-elim LeavesAdmitted (not (is_map delta)) (λ _. tt)
        (λ _.
          if-elim LeavesAdmitted (not (has_hash kind)) (λ _. v)
            (λ _.
              if-elim LeavesAdmitted (is_native_type kind) (λ _. v)
                (λ _.
                  if-elim LeavesAdmitted (is_text kind "tool_use" || is_text kind "tool_use_delta")
                    (λ _.
                      admit_tool-IsAdmitted (mapping_value (or_null delta) ("name" ∷ [])) index m v)
                    (λ _.
                      if-elim LeavesAdmitted (is_text kind "input_json_delta") (λ _. v)
                        (λ _. tt)))))

  boundary_part-admits :
      (kind block : Option Value) (index : Option ℕ) (m : Indexes)
      → IsAdmitted m
      → IsAdmitted (boundary_part kind block index m).1
  unfolding boundary_part
  boundary_part-admits kind block index m v = ground (arith, pop_index-IsAdmitted index m v)

  or_else-admits :
      (o : Option (Verdict × Indexes)) (r : Verdict × Indexes)
      → LeavesAdmitted o
      → IsAdmitted r.1
      → IsAdmitted (or_else o r).1
  or_else-admits none r h v = v
  or_else-admits (some _) r h v = h

  stream-admits :
      (message : Value) (m : Indexes)
      → IsAdmitted m
      → IsAdmitted (stream_tool_violation allowed message m).1
  unfolding stream_tool_violation
  stream-admits message m v = elim (Bool-cases (is_mapping (attr message "event" null))) [
    | inl mapping ↦ rw mapping (
        or_else-admits _ _ (block_part-admits _ _ m v)
          (or_else-admits _ _ (delta_part-admits _ _ m v) (boundary_part-admits _ _ _ m v)))
    | inr other ↦ rw other v
  ]

  -- If the remembered indexes belong to allowed tools, they still do after any message.
  pub guard-IsAdmitted :
      (message : Value) (m : Indexes)
      → IsAdmitted m
      → IsAdmitted (zero_native_violation allowed message m).1
  unfolding zero_native_violation
  guard-IsAdmitted message m v = ground (arith, stream-admits message m v)
