-- ===== src/ToolBridge/Json/Reference.antt =====
-- What `_copy_plain_json` admits, said without its counters: the shape and the depth of a value,
-- its nodes and the bytes of its texts; and the value that it returns.
use hermes_claude_agent_sdk.Common.{ℕ, suc, ◌+◌, String, Bool, true, false, not, ◌&&◌, leb}
use hermes_claude_agent_sdk.Python.{
  Value, null, bool, int, float, str, list, tuple, dict, Items, nil, cons, Fields, end, field,
  finite,
}
use hermes_claude_agent_sdk.Python.Text
use hermes_claude_agent_sdk.Python.Utf8
use hermes_claude_agent_sdk.ToolBridge.Json.{max_depth, is_bounded_int}

abbrev pub is_encodable : String → Bool
is_encodable s = not (Text.any_char Utf8.is_surrogate s)

unfoldable mutual
  -- Plain JSON at this depth, no part of it deeper than the limit; a tuple counts as a list.
  pub is_plain : ℕ → Value → Bool
  is_plain d null = leb d max_depth
  is_plain d (bool b) = leb d max_depth
  is_plain d (int n) = leb d max_depth && is_bounded_int n
  is_plain d (float (finite m k)) = leb d max_depth
  is_plain d (str s) = leb d max_depth && is_encodable s
  is_plain d (list xs) = leb d max_depth && is_plain_items (suc d) xs
  is_plain d (tuple xs) = leb d max_depth && is_plain_items (suc d) xs
  is_plain d (dict fs) = leb d max_depth && is_plain_fields (suc d) fs
  is_plain d _ = false

  pub is_plain_items : ℕ → Items → Bool
  is_plain_items d nil = true
  is_plain_items d (cons x xs) = is_plain d x && is_plain_items d xs

  pub is_plain_fields : ℕ → Fields → Bool
  is_plain_fields d end = true
  is_plain_fields d (field (str k) v fs) =
      leb d max_depth && is_encodable k && is_plain d v && is_plain_fields d fs
  is_plain_fields d _ = false

unfoldable mutual
  pub nodes : Value → ℕ
  nodes (list xs) = 1 + nodes_items xs
  nodes (tuple xs) = 1 + nodes_items xs
  nodes (dict fs) = 1 + nodes_fields fs
  nodes _ = 1

  pub nodes_items : Items → ℕ
  nodes_items nil = 0
  nodes_items (cons x xs) = nodes x + nodes_items xs

  pub nodes_fields : Fields → ℕ
  nodes_fields end = 0
  nodes_fields (field k v fs) = 1 + nodes v + nodes_fields fs

unfoldable mutual
  pub text_bytes : Value → ℕ
  text_bytes (str s) = Utf8.bytes s
  text_bytes (list xs) = text_bytes_items xs
  text_bytes (tuple xs) = text_bytes_items xs
  text_bytes (dict fs) = text_bytes_fields fs
  text_bytes _ = 0

  pub text_bytes_items : Items → ℕ
  text_bytes_items nil = 0
  text_bytes_items (cons x xs) = text_bytes x + text_bytes_items xs

  pub text_bytes_fields : Fields → ℕ
  text_bytes_fields end = 0
  text_bytes_fields (field k v fs) = text_bytes k + text_bytes v + text_bytes_fields fs

unfoldable mutual
  -- The value with each tuple as a list
  pub listed : Value → Value
  listed (list xs) = list (listed_items xs)
  listed (tuple xs) = list (listed_items xs)
  listed (dict fs) = dict (listed_fields fs)
  listed v = v

  pub listed_items : Items → Items
  listed_items nil = nil
  listed_items (cons x xs) = cons (listed x) (listed_items xs)

  pub listed_fields : Fields → Fields
  listed_fields end = end
  listed_fields (field k v fs) = field k (listed v) (listed_fields fs)
