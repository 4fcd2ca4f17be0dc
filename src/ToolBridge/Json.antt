-- ===== src/ToolBridge/Json.antt =====
-- tool_bridge.py: `_copy_plain_json`. A value of the model is a tree, so it holds no cycle.
pub mod Reference
pub mod Sound
pub mod Complete
pub mod Exactly
use hermes_claude_agent_sdk.Common.{
  ℕ, suc, ◌+◌, ◌*◌, ◌^◌, String, Bool, true, false, ◌&&◌, Option, none, some, leb, if◌then◌else◌,
}
use hermes_claude_agent_sdk.Common.Int.{ℤ, pos, negsuc}
use hermes_claude_agent_sdk.Common.Options.{check, bind}
use hermes_claude_agent_sdk.Python.{
  Value, null, bool, int, float, str, list, tuple, set, dict, broken, object, Items, nil, cons,
  Fields, end, field, Float, finite,
}
use hermes_claude_agent_sdk.Python.Utf8

abbrev pub max_depth : ℕ
max_depth = 64

abbrev pub max_nodes : ℕ
max_nodes = 10_000

-- `_MAX_INPUT_UTF8_BYTES`
abbrev pub max_input_bytes : ℕ
max_input_bytes = 65_536

-- `bit_length() <= _MAX_RESULT_UTF8_BYTES * 8`
unfoldable pub is_bounded_int : ℤ → Bool
is_bounded_int (pos n) = leb (n + 1) (2 ^ 524_288)
is_bounded_int (negsuc n) = leb (n + 2) (2 ^ 524_288)

-- What a copy returns: the value, and the nodes and the bytes counted so far.
abbrev pub Copied : Type 0 → Type 0
Copied A = Option (A × ℕ × ℕ)

-- One more node, at this depth
unfoldable pub enter : ℕ → ℕ → Option ℕ
unfolding check
enter depth nodes = check (leb (nodes + 1) max_nodes && leb depth max_depth) (some (nodes + 1))

-- The input bytes are limited to `limit`.
module _ (limit : ℕ) where
  unfoldable pub spend : String → ℕ → Option ℕ
  unfolding check bind
  spend s bytes = bind (Utf8.size s) (λ n. check (leb (bytes + n) limit) (some (bytes + n)))

  unfoldable pub copy_text : ℕ → String → ℕ → ℕ → Copied String
  unfolding enter spend bind
  copy_text depth s nodes bytes =
      bind (enter depth nodes) (λ n. bind (spend s bytes) (λ b. some (s, n, b)))

  -- A value that is kept as it is
  unfoldable pub copy_leaf : ℕ → Value → ℕ → ℕ → Copied Value
  unfolding enter bind
  copy_leaf depth v nodes bytes = bind (enter depth nodes) (λ n. some (v, n, bytes))

  unfoldable mutual
    unfolding bind check enter copy_text copy_leaf

    -- `copy`
    pub copy : ℕ → Value → ℕ → ℕ → Copied Value
    copy depth null nodes bytes = copy_leaf depth null nodes bytes
    copy depth (bool b) nodes bytes = copy_leaf depth (bool b) nodes bytes
    copy depth (int n) nodes bytes = check (is_bounded_int n) (copy_leaf depth (int n) nodes bytes)
    copy depth (float (finite m k)) nodes bytes = copy_leaf depth (float (finite m k)) nodes bytes
    copy depth (str s) nodes bytes =
        bind (copy_text depth s nodes bytes) (λ (t, n, b). some (str t, n, b))
    copy depth (list xs) nodes bytes =
        bind (enter depth nodes)
          (λ n. bind (copy_items (suc depth) xs n bytes) (λ (ys, m, b). some (list ys, m, b)))
    copy depth (tuple xs) nodes bytes =
        bind (enter depth nodes)
          (λ n. bind (copy_items (suc depth) xs n bytes) (λ (ys, m, b). some (list ys, m, b)))
    copy depth (dict fs) nodes bytes =
        bind (enter depth nodes)
          (λ n. bind (copy_fields (suc depth) fs n bytes) (λ (gs, m, b). some (dict gs, m, b)))
    copy depth _ nodes bytes = none

    pub copy_items : ℕ → Items → ℕ → ℕ → Copied Items
    copy_items depth nil nodes bytes = some (nil, nodes, bytes)
    copy_items depth (cons x xs) nodes bytes =
        bind (copy depth x nodes bytes)
          (λ (y, n, b). bind (copy_items depth xs n b) (λ (ys, m, c). some (cons y ys, m, c)))

    pub copy_fields : ℕ → Fields → ℕ → ℕ → Copied Fields
    copy_fields depth end nodes bytes = some (end, nodes, bytes)
    copy_fields depth (field (str k) v fs) nodes bytes =
        bind (copy_text depth k nodes bytes) (λ (key, n, b). bind (copy depth v n b) (λ (w, m, c).
          bind (copy_fields depth fs m c) (λ (gs, p, d). some (field (str key) w gs, p, d))))
    copy_fields depth _ nodes bytes = none

-- `_copy_plain_json`; `none` is its `_INVALID`.
unfoldable pub copy_plain_json : ℕ → Value → Option Value
unfolding copy bind
copy_plain_json limit v = bind (copy limit 0 v 0 0) (λ (w, n, b). some w)
