-- ===== src/ToolBridge/Json/Exactly.antt =====
-- `_copy_plain_json` against its reference, and copies of copies.
use hermes_claude_agent_sdk.Common.{
  ℕ, suc, ◌≤◌, ◌≡◌, refl, ◌↔◌, true, some, arith, ap, sym, ◌∙◌, subst,
}
use hermes_claude_agent_sdk.Python.{
  Value, null, bool, int, float, str, list, tuple, set, dict, broken, object, Items, nil, cons,
  Fields, end, field,
}
use hermes_claude_agent_sdk.ToolBridge.Json.{max_nodes, copy_plain_json}
use hermes_claude_agent_sdk.ToolBridge.Json.Reference.{
  is_plain, is_plain_items, is_plain_fields, nodes, nodes_items, nodes_fields, text_bytes,
  text_bytes_items, text_bytes_fields, listed, listed_items, listed_fields,
}
use hermes_claude_agent_sdk.ToolBridge.Json.Sound.{copied-Exact}
use hermes_claude_agent_sdk.ToolBridge.Json.Complete.{copies-plain}

-- The value may be copied: plain JSON within the bounds on depth, nodes and bytes.
pub record IsCopyable (limit : ℕ) (v : Value) : Type 0 where
  pub plain : is_plain 0 v ≡ true
  pub few : nodes v ≤ max_nodes
  pub short : text_bytes v ≤ limit

-- The copy succeeds exactly for plain JSON of at most 10,000 nodes, of depth 64 at most, whose
-- texts have at most `limit` bytes; and it returns that value, with each tuple as a list.
pub copy_plain_json_iff :
    (limit : ℕ) (v w : Value)
    → (copy_plain_json limit v ≡ some w) ↔ (IsCopyable limit v × (w ≡ listed v))
copy_plain_json_iff limit v w = (
  λ h.
      let (e, plain, few, short) = copied-Exact limit v w h in
      (record { plain = plain; few = few; short = short }, e),
  λ (k, e). copies-plain limit v k.plain k.few k.short ∙ ap some (sym e),
)

-- Nothing that is measured tells a list from a tuple.
mutual
  unfolding is_plain nodes text_bytes listed

  Same-listed :
      (d : ℕ) (v : Value)
      → (is_plain d (listed v) ≡ is_plain d v)
        × (nodes (listed v) ≡ nodes v)
        × (text_bytes (listed v) ≡ text_bytes v)
        × (listed (listed v) ≡ listed v)
  Same-listed d (list xs) = ground (arith, Same-listed_items (suc d) xs)
  Same-listed d (tuple xs) = ground (arith, Same-listed_items (suc d) xs)
  Same-listed d (dict fs) = ground (arith, Same-listed_fields (suc d) fs)
  Same-listed d null = (refl, refl, refl, refl)
  Same-listed d (bool b) = (refl, refl, refl, refl)
  Same-listed d (int n) = (refl, refl, refl, refl)
  Same-listed d (float x) = (refl, refl, refl, refl)
  Same-listed d (str s) = (refl, refl, refl, refl)
  Same-listed d (set xs) = (refl, refl, refl, refl)
  Same-listed d broken = (refl, refl, refl, refl)
  Same-listed d (object name fs) = (refl, refl, refl, refl)

  Same-listed_items :
      (d : ℕ) (xs : Items)
      → (is_plain_items d (listed_items xs) ≡ is_plain_items d xs)
        × (nodes_items (listed_items xs) ≡ nodes_items xs)
        × (text_bytes_items (listed_items xs) ≡ text_bytes_items xs)
        × (listed_items (listed_items xs) ≡ listed_items xs)
  Same-listed_items d nil = (refl, refl, refl, refl)
  Same-listed_items d (cons x xs) = ground (arith, Same-listed d x, Same-listed_items d xs)

  Same-listed_fields :
      (d : ℕ) (fs : Fields)
      → (is_plain_fields d (listed_fields fs) ≡ is_plain_fields d fs)
        × (nodes_fields (listed_fields fs) ≡ nodes_fields fs)
        × (text_bytes_fields (listed_fields fs) ≡ text_bytes_fields fs)
        × (listed_fields (listed_fields fs) ≡ listed_fields fs)
  Same-listed_fields d end = (refl, refl, refl, refl)
  Same-listed_fields d (field (str k) v fs) =
      ground (arith, Same-listed d v, Same-listed_fields d fs)
  Same-listed_fields d (field k v fs) = ground (arith, Same-listed d v, Same-listed_fields d fs)

-- A copy is copied to itself, under the same limit.
pub copy-copy :
    (limit : ℕ) (v w : Value) → copy_plain_json limit v ≡ some w → copy_plain_json limit w ≡ some w
copy-copy limit v w h =
    let (e, plain, few, short) = copied-Exact limit v w h in
    let (p, n, b, l) = Same-listed 0 v in
    subst (λ x. copy_plain_json limit x ≡ some x) (sym e)
      (copies-plain limit (listed v) (p ∙ plain) (subst (λ k. k ≤ max_nodes) (sym n) few)
          (subst (λ k. k ≤ limit) (sym b) short)
        ∙ ap some l)
