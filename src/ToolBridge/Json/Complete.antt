-- ===== src/ToolBridge/Json/Complete.antt =====
-- When a copy succeeds.
use hermes_claude_agent_sdk.Common.{
  and-true, ℕ, suc, ◌+◌, ◌≤◌, ◌≡◌, String, true, ◌&&◌, some, arith, leb,
}
use hermes_claude_agent_sdk.Common.Options.{check, bind}
use hermes_claude_agent_sdk.Python.{
  Value, null, bool, int, float, str, list, tuple, set, dict, broken, object, Items, nil, cons,
  Fields, end, field, finite, infinite, nan,
}
use hermes_claude_agent_sdk.Python.Utf8
use hermes_claude_agent_sdk.ToolBridge.Json.{
  max_depth, max_nodes, enter, spend, copy_text, copy_leaf, copy, copy_items, copy_fields,
  copy_plain_json,
}
use hermes_claude_agent_sdk.ToolBridge.Json.Reference.{
  is_encodable, is_plain, is_plain_items, is_plain_fields, nodes, nodes_items, nodes_fields,
  text_bytes, text_bytes_items, text_bytes_fields, listed, listed_items, listed_fields,
}

module _ (limit : ℕ) where
  enters : (d n : ℕ) → n + 1 ≤ max_nodes → leb d max_depth ≡ true → enter d n ≡ some (n + 1)
  unfolding enter check
  enters d n h e = ground arith

  leaf-copies :
      (d : ℕ) (v : Value) (n b : ℕ)
      → n + 1 ≤ max_nodes
      → leb d max_depth ≡ true
      → copy_leaf limit d v n b ≡ some (v, n + 1, b + 0)
  unfolding copy_leaf bind
  leaf-copies d v n b h e = ground (arith, enters d n)

  text-copies :
      (d : ℕ) (s : String) (n b : ℕ)
      → n + 1 ≤ max_nodes
      → b + Utf8.bytes s ≤ limit
      → leb d max_depth ≡ true
      → is_encodable s ≡ true
      → copy_text limit d s n b ≡ some (s, n + 1, b + Utf8.bytes s)
  unfolding copy_text spend Utf8.size bind check
  text-copies d s n b h l e f = ground (arith, enters d n)

  mutual
    unfolding copy is_plain nodes text_bytes listed bind check

    copies :
        (d : ℕ) (v : Value) (n b : ℕ)
        → n + nodes v ≤ max_nodes
        → b + text_bytes v ≤ limit
        → is_plain d v ≡ true
        → copy limit d v n b ≡ some (listed v, n + nodes v, b + text_bytes v)
    copies d null n b h l e = leaf-copies d null n b h e
    copies d (bool x) n b h l e = leaf-copies d (bool x) n b h e
    copies d (int x) n b h l e = ground (arith, leaf-copies d (int x) n b)
    copies d (float (finite m k)) n b h l e = leaf-copies d (float (finite m k)) n b h e
    copies d (float infinite) n b h l e = cc
    copies d (float nan) n b h l e = cc
    copies d (str s) n b h l e = ground (arith, text-copies d s n b)
    copies d (list xs) n b h l e = ground (arith, enters d n, items-copy (suc d) xs (n + 1) b)
    copies d (tuple xs) n b h l e = ground (arith, enters d n, items-copy (suc d) xs (n + 1) b)
    copies d (dict fs) n b h l e = ground (arith, enters d n, fields-copy (suc d) fs (n + 1) b)
    copies d (set xs) n b h l e = cc
    copies d broken n b h l e = cc
    copies d (object name fs) n b h l e = cc

    items-copy :
        (d : ℕ) (xs : Items) (n b : ℕ)
        → n + nodes_items xs ≤ max_nodes
        → b + text_bytes_items xs ≤ limit
        → is_plain_items d xs ≡ true
        → copy_items limit d xs n b
          ≡ some (listed_items xs, n + nodes_items xs, b + text_bytes_items xs)
    items-copy d nil n b h l e = ground arith
    items-copy d (cons x xs) n b h l e =
        let (first, rest) = and-true (is_plain d x) (is_plain_items d xs) e in
        let now = copies d x n b (omega arith) (omega arith) first in
        let later =
          items-copy d xs (n + nodes x) (b + text_bytes x) (omega arith) (omega arith) rest in
        rw (now, later) (ground arith)

    fields-copy :
        (d : ℕ) (fs : Fields) (n b : ℕ)
        → n + nodes_fields fs ≤ max_nodes
        → b + text_bytes_fields fs ≤ limit
        → is_plain_fields d fs ≡ true
        → copy_fields limit d fs n b
          ≡ some (listed_fields fs, n + nodes_fields fs, b + text_bytes_fields fs)
    fields-copy d end n b h l e = ground arith
    fields-copy d (field (str s) v fs) n b h l e =
        let (abc, rest) =
          and-true (leb d max_depth && is_encodable s && is_plain d v) (is_plain_fields d fs) e in
        let (ab, here) = and-true (leb d max_depth && is_encodable s) (is_plain d v) abc in
        let (deep, clean) = and-true (leb d max_depth) (is_encodable s) ab in
        let key = text-copies d s n b (omega arith) (omega arith) deep clean in
        let now = copies d v (n + 1) (b + Utf8.bytes s) (omega arith) (omega arith) here in
        let later =
          fields-copy d fs (n + 1 + nodes v) (b + Utf8.bytes s + text_bytes v) (omega arith)
            (omega arith) rest in
        rw (key, now, later) (ground arith)
    fields-copy d (field _ v fs) n b h l e = cc

  pub copies-plain :
      (v : Value)
      → is_plain 0 v ≡ true
      → nodes v ≤ max_nodes
      → text_bytes v ≤ limit
      → copy_plain_json limit v ≡ some (listed v)
  unfolding copy_plain_json bind
  copies-plain v e h l = ground (arith, copies 0 v 0 0)
