-- ===== src/ToolBridge/Json/Sound.antt =====
-- What a copy that succeeds says of the value.
use hermes_claude_agent_sdk.Common.{
  ℕ, suc, ◌+◌, ◌≤◌, ◌≡◌, String, Bool, true, ◌&&◌, some, arith, leb,
}
use hermes_claude_agent_sdk.Common.Options.{check, bind, bind-some, check-some}
use hermes_claude_agent_sdk.Python.{
  Value, null, bool, int, float, str, list, tuple, set, dict, broken, object, Items, nil, cons,
  Fields, end, field, finite, infinite, nan,
}
use hermes_claude_agent_sdk.Python.Utf8
use hermes_claude_agent_sdk.ToolBridge.Json.{
  max_depth, max_nodes, is_bounded_int, enter, spend, copy_text, copy_leaf, copy, copy_items,
  copy_fields, copy_plain_json,
}
use hermes_claude_agent_sdk.ToolBridge.Json.Reference.{
  is_encodable, is_plain, is_plain_items, is_plain_fields, nodes, nodes_items, nodes_fields,
  text_bytes, text_bytes_items, text_bytes_fields, listed, listed_items, listed_fields,
}

-- From the counters `n` and `b` on, a part of so many nodes and bytes was copied as `w`.
pub record Exact {ℓ} {A : Type ℓ} (limit n b count size : ℕ) (shape : Bool) (w : A) (r : A × ℕ × ℕ)
    : Type ℓ where
  pub plain : shape ≡ true
  pub value : r.0 ≡ w
  pub counted : r.1 ≡ n + count
  pub spent : r.2 ≡ b + size
  pub bounded : n ≤ max_nodes → r.1 ≤ max_nodes
  pub within : b ≤ limit → r.2 ≤ limit

module _ (limit : ℕ) where
  enter_sound :
      (d n m : ℕ) → enter d n ≡ some m → (m ≡ n + 1) × (m ≤ max_nodes) × (leb d max_depth ≡ true)
  unfolding enter check
  enter_sound d n m h = ground arith

  spend_sound :
      (s : String) (b c : ℕ)
      → spend limit s b ≡ some c
      → (c ≡ b + Utf8.bytes s) × (c ≤ limit) × (is_encodable s ≡ true)
  unfolding spend Utf8.size check bind
  spend_sound s b c h = ground arith

  leaf_sound :
      (d : ℕ) (v : Value) (n b : ℕ) (r : Value × ℕ × ℕ)
      → copy_leaf limit d v n b ≡ some r
      → Exact limit n b 1 0 (leb d max_depth) v r
  unfolding copy_leaf
  leaf_sound d v n b r h =
      let (m, e, h1) = bind-some (enter d n) _ r h in let k = enter_sound d n m e in ground arith

  text_sound :
      (d : ℕ) (s : String) (n b : ℕ) (r : String × ℕ × ℕ)
      → copy_text limit d s n b ≡ some r
      → Exact limit n b 1 (Utf8.bytes s) (leb d max_depth && is_encodable s) s r
  unfolding copy_text
  text_sound d s n b r h =
      let (m, e, h1) = bind-some (enter d n) _ r h in
      let (c, f, h2) = bind-some (spend limit s b) _ r h1 in
      let k = enter_sound d n m e in let l = spend_sound s b c f in ground arith

  abbrev Sound : ℕ → Value → ℕ → ℕ → Value × ℕ × ℕ → Type 0
  Sound d v n b r = Exact limit n b (nodes v) (text_bytes v) (is_plain d v) (listed v) r

  mutual
    unfolding copy is_plain nodes text_bytes listed

    copies_exactly :
        (d : ℕ) (v : Value) (n b : ℕ) (r : Value × ℕ × ℕ)
        → copy limit d v n b ≡ some r
        → Sound d v n b r
    copies_exactly d null n b r h = leaf_sound d null n b r h
    copies_exactly d (bool x) n b r h = leaf_sound d (bool x) n b r h
    copies_exactly d (int x) n b r h =
        let (small, e) = check-some (is_bounded_int x) _ r h in
        let k = leaf_sound d (int x) n b r e in ground arith
    copies_exactly d (float (finite m k)) n b r h = leaf_sound d (float (finite m k)) n b r h
    copies_exactly d (float infinite) n b r h = cc
    copies_exactly d (float nan) n b r h = cc
    copies_exactly d (str s) n b r h =
        let (q, e, h1) = bind-some (copy_text limit d s n b) _ r h in
        let k = text_sound d s n b q e in ground arith
    copies_exactly d (list xs) n b r h =
        let (m, e, h1) = bind-some (enter d n) _ r h in
        let (q, f, h2) = bind-some (copy_items limit (suc d) xs m b) _ r h1 in
        let k = enter_sound d n m e in let l = items_sound (suc d) xs m b q f in ground arith
    copies_exactly d (tuple xs) n b r h =
        let (m, e, h1) = bind-some (enter d n) _ r h in
        let (q, f, h2) = bind-some (copy_items limit (suc d) xs m b) _ r h1 in
        let k = enter_sound d n m e in let l = items_sound (suc d) xs m b q f in ground arith
    copies_exactly d (dict fs) n b r h =
        let (m, e, h1) = bind-some (enter d n) _ r h in
        let (q, f, h2) = bind-some (copy_fields limit (suc d) fs m b) _ r h1 in
        let k = enter_sound d n m e in let l = fields_sound (suc d) fs m b q f in ground arith
    copies_exactly d (set xs) n b r h = cc
    copies_exactly d broken n b r h = cc
    copies_exactly d (object name fs) n b r h = cc

    items_sound :
        (d : ℕ) (xs : Items) (n b : ℕ) (r : Items × ℕ × ℕ)
        → copy_items limit d xs n b ≡ some r
        → Exact limit n b
            (nodes_items xs)
            (text_bytes_items xs)
            (is_plain_items d xs)
            (listed_items xs)
            r
    items_sound d nil n b r h = ground arith
    items_sound d (cons x xs) n b r h =
        let (p, e, h1) = bind-some (copy limit d x n b) _ r h in
        let (q, f, h2) = bind-some (copy_items limit d xs p.1 p.2) _ r h1 in
        let k = copies_exactly d x n b p e in let l = items_sound d xs p.1 p.2 q f in ground arith

    fields_sound :
        (d : ℕ) (fs : Fields) (n b : ℕ) (r : Fields × ℕ × ℕ)
        → copy_fields limit d fs n b ≡ some r
        → Exact limit n b
            (nodes_fields fs)
            (text_bytes_fields fs)
            (is_plain_fields d fs)
            (listed_fields fs)
            r
    fields_sound d end n b r h = ground arith
    fields_sound d (field (str s) v fs) n b r h =
        let (o, e, h1) = bind-some (copy_text limit d s n b) _ r h in
        let (p, f, h2) = bind-some (copy limit d v o.1 o.2) _ r h1 in
        let (q, g, h3) = bind-some (copy_fields limit d fs p.1 p.2) _ r h2 in
        let j = text_sound d s n b o e in
        let k = copies_exactly d v o.1 o.2 p f in
        let l = fields_sound d fs p.1 p.2 q g in ground arith
    fields_sound d (field _ v fs) n b r h = cc

  -- A copy that succeeds is the value with its tuples as lists; and the value was plain.
  pub copied-Exact :
      (v w : Value)
      → copy_plain_json limit v ≡ some w
      → (w ≡ listed v) × (is_plain 0 v ≡ true) × (nodes v ≤ max_nodes) × (text_bytes v ≤ limit)
  unfolding copy_plain_json
  copied-Exact v w h =
      let (r, e, h1) = bind-some (copy limit 0 v 0 0) _ w h in
      let k = copies_exactly 0 v 0 0 r e in ground arith
