-- ===== src/Guard/Content.antt =====
-- Typed messages: what the guard proves of the blocks that it reads, and how many it reads.
use hermes_claude_agent_sdk.Common.{
  String, ◌≡◌, ◌≢◌, ◌↔◌, refl, true, false, List, [], ◌∷◌, arith, eq_iff, contains, take, inl, inr,
  Bool-cases, All, if-elim, ◌||◌, ◌==◌,
}
use hermes_claude_agent_sdk.Python.{Value, null, str, class_name, is_null, attr}
use hermes_claude_agent_sdk.Guard.{
  Indexes, clean, is_violating_tool, is_violating_block, is_foreign, scan_blocks, sequence,
  max_blocks, zero_native_violation,
}

is_null-eq : (v : Value) → is_null v ≡ true → v ≡ null
unfolding is_null
is_null-eq null h = refl
is_null-eq _ h = cc

-- A block that stays inside the Hermes boundary.
pub record IsHermesBlock (allowed : List String) (block : Value) : Type 0 where
  pub no_server_use : class_name block ≢ "ServerToolUseBlock"
  pub no_server_result : class_name block ≢ "ServerToolResultBlock"
  pub admitted :
      class_name block ≡ "ToolUseBlock"
      → (tool : String) × (attr block "name" null ≡ str tool)
        × (contains allowed tool ≡ true)
        × (attr block "parent_tool_use_id" null ≡ null)

not_equal : (s t : String) → s ≢ t → (s == t) ≡ false
not_equal s t other = elim (Bool-cases (s == t)) [
  | inl h ↦ absurd (other ((eq_iff s t).0 h))
  | inr h ↦ h
]

server_name :
    (name : String)
    → (name == "ServerToolUseBlock" || name == "ServerToolResultBlock") ≡ true
    → name ≢ "ServerToolUseBlock"
    → name ≢ "ServerToolResultBlock"
    → ⊥
server_name name e no_use no_result = elim (Bool-cases (name == "ServerToolUseBlock")) [
  | inl h ↦ no_use ((eq_iff name "ServerToolUseBlock").0 h)
  | inr h ↦ no_result ((eq_iff name "ServerToolResultBlock").0 (ground (arith, e, h)))
]

module _ (allowed : List String) where
  tool_block :
      (name parent : Value)
      → is_violating_tool allowed name parent ≡ false
      → (tool : String) × (name ≡ str tool) × (contains allowed tool ≡ true) × (parent ≡ null)
  unfolding is_violating_tool
  tool_block (str tool) parent h = (tool, refl, ground arith, is_null-eq parent (ground arith))
  tool_block _ parent h = cc

  accepted-IsHermesBlock :
      (block : Value) → is_violating_block allowed block ≡ false → IsHermesBlock allowed block
  unfolding is_violating_block
  accepted-IsHermesBlock block h = record {
    no_server_use = λ e. ground (arith, eq_iff (class_name block) "ServerToolUseBlock");
    no_server_result = λ e. ground (arith, eq_iff (class_name block) "ServerToolResultBlock");
    admitted = λ e.
        tool_block (attr block "name" null) (attr block "parent_tool_use_id" null)
          (ground (arith, eq_iff (class_name block) "ToolUseBlock"));
  }

  scan_blocks-All :
      (blocks : List Value)
      → scan_blocks allowed blocks ≡ clean
      → All (IsHermesBlock allowed) blocks
  unfolding scan_blocks
  scan_blocks-All [] h = tt
  scan_blocks-All (b ∷ bs) h = elim (Bool-cases (is_violating_block allowed b)) [
    | inl bad ↦ ground arith
    | inr good ↦ (accepted-IsHermesBlock b good, scan_blocks-All bs (ground arith))
  ]

  native-parent :
      (message : Value) → is_foreign message ≡ false → attr message "parent_tool_use_id" null ≡ null
  unfolding is_foreign
  native-parent message h = is_null-eq _ (ground arith)

  -- A message other than a stream event that passes has no parent tool use, and each of its first
  -- 32 blocks stays inside the Hermes boundary.
  pub clean_message :
      (message : Value) (m : Indexes)
      → class_name message ≢ "StreamEvent"
      → (zero_native_violation allowed message m).0 ≡ clean
      → (attr message "parent_tool_use_id" null ≡ null)
        × All (IsHermesBlock allowed) (take max_blocks (sequence (attr message "content" null)))
  unfolding zero_native_violation
  clean_message message m other h = elim (Bool-cases (is_foreign message)) [
    | inl foreign ↦ ground arith
    | inr native ↦ (
      native-parent message native,
      scan_blocks-All _ (ground (arith, eq_iff (class_name message) "StreamEvent")),
    )
  ]

  tool_accepted :
      (name parent : Value) (tool : String)
      → name ≡ str tool
      → contains allowed tool ≡ true
      → parent ≡ null
      → is_violating_tool allowed name parent ≡ false
  unfolding is_violating_tool is_null
  tool_accepted name parent tool named known free = rw (named, known, free) refl

  IsHermesBlock-accepted :
      (block : Value) → IsHermesBlock allowed block → is_violating_block allowed block ≡ false
  unfolding is_violating_block
  IsHermesBlock-accepted block h =
      if-elim (λ b. b ≡ false)
        (class_name block == "ServerToolUseBlock" || class_name block == "ServerToolResultBlock")
        (λ e. absurd (server_name (class_name block) e h.no_server_use h.no_server_result))
        (λ _.
          if-elim (λ b. b ≡ false) (class_name block == "ToolUseBlock")
            (λ e.
              let (tool, named, known, free) =
                h.admitted ((eq_iff (class_name block) "ToolUseBlock").0 e) in
              tool_accepted (attr block "name" null) (attr block "parent_tool_use_id" null) tool
                named known free)
            (λ _. refl))

  All-scan_blocks :
      (blocks : List Value)
      → All (IsHermesBlock allowed) blocks
      → scan_blocks allowed blocks ≡ clean
  unfolding scan_blocks
  All-scan_blocks [] h = refl
  All-scan_blocks (b ∷ bs) (h, hs) = rw (IsHermesBlock-accepted b h) (All-scan_blocks bs hs)

  -- A message other than a stream event passes exactly if the message as a whole is not foreign
  -- and each of its first 32 blocks stays inside the Hermes boundary; the later ones do not count.
  pub clean_message_iff :
      (message : Value) (m : Indexes)
      → class_name message ≢ "StreamEvent"
      → (zero_native_violation allowed message m).0 ≡ clean ↔ (
          (is_foreign message ≡ false)
          × All (IsHermesBlock allowed) (take max_blocks (sequence (attr message "content" null))))
  unfolding zero_native_violation
  clean_message_iff message m other = elim (Bool-cases (is_foreign message)) [
    | inl foreign ↦ (λ h. ground arith, λ h. ground (arith, h.0))
    | inr native ↦ (
      λ h. (native, scan_blocks-All _ (ground (arith, eq_iff (class_name message) "StreamEvent"))),
      λ h.
          let typed = not_equal (class_name message) "StreamEvent" other in
          rw (native, typed) (All-scan_blocks _ h.1),
    )
  ]
