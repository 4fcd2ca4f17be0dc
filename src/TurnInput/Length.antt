-- ===== src/TurnInput/Length.antt =====
-- turn_input.py: how long a text of `_bounded_text` can be.
use hermes_claude_agent_sdk.Common.{
  ℕ, zero, suc, ◌+◌, ◌-◌, ◌*◌, ◌≤◌, String, ◌≡◌, List, [], ◌∷◌, Option, none, some, arith, leb,
  if-elim, code, ◌&&◌,
}
use hermes_claude_agent_sdk.Python.{
  Value, str, list, tuple, dict, Items, nil, cons, eq_str, dict_get,
}
use hermes_claude_agent_sdk.Python.Text
use hermes_claude_agent_sdk.Session.Text.{join_lines}
use hermes_claude_agent_sdk.TurnInput.Failing.{Result, ok, chain, Each, chain-Each, ok-Each}
use hermes_claude_agent_sdk.TurnInput.Words.{
  max_turn_text, if_nonempty, add_part, block_text, stripped, text_parts, cut, bounded_text,
}

length-append : (s t : String) → Text.length (Text.append s t) ≡ Text.length s + Text.length t
unfolding Text.append
length-append String.[] t = omega arith
length-append (String.◌∷◌ c s) t = let h = length-append s t in omega arith

length-lstrip : (s : String) → Text.length (Text.lstrip s) ≤ Text.length s
unfolding Text.lstrip
length-lstrip String.[] = omega arith
length-lstrip (String.◌∷◌ c s) =
    let h = length-lstrip s in
    if-elim (λ t. Text.length t ≤ suc (Text.length s)) (Text.is_space (code c)) (λ _. omega arith)
      (λ _. omega arith)

length-rstrip : (s : String) → Text.length (Text.rstrip s) ≤ Text.length s
unfolding Text.rstrip
length-rstrip String.[] = omega arith
length-rstrip (String.◌∷◌ c s) =
    let h = length-rstrip s in
    if-elim (λ t. Text.length t ≤ suc (Text.length s))
      (Text.is_space (code c) && Text.is_empty (Text.rstrip s)) (λ _. omega arith)
      (λ _. omega arith)

length-strip : (s : String) → Text.length (Text.strip s) ≤ Text.length s
unfolding Text.strip
length-strip s = let h = length-rstrip (Text.lstrip s) in let k = length-lstrip s in omega arith

length-take : (n : ℕ) (s : String) → Text.length (Text.take n s) ≤ n
length-take zero s = omega arith
length-take (suc n) String.[] = omega arith
length-take (suc n) (String.◌∷◌ c s) = let h = length-take n s in omega arith

take-nonempty : (n : ℕ) (s : String) → 1 ≤ n → 1 ≤ Text.length s → 1 ≤ Text.length (Text.take n s)
take-nonempty zero s h k = h
take-nonempty (suc n) String.[] h k = k
take-nonempty (suc n) (String.◌∷◌ c s) h k = omega arith

-- The characters of the parts, none of which is empty
abbrev total : List String → ℕ
total [] = 0
total (part ∷ parts) = Text.length part + total parts

abbrev AreNonempty : List String → Type 0
AreNonempty [] = Unit
AreNonempty (part ∷ parts) = (1 ≤ Text.length part) × AreNonempty parts

length-join_lines :
    (parts : List String) → AreNonempty parts → Text.length (join_lines parts) ≤ 2 * total parts - 1
unfolding join_lines
length-join_lines [] h = omega arith
length-join_lines (part ∷ []) h = ground (arith, h)
length-join_lines (part ∷ next ∷ parts) (h, k) = ground (
  arith,
  h,
  k,
  length-join_lines (next ∷ parts) k,
  length-append part (String.◌∷◌ "\n" (join_lines (next ∷ parts))),
)

-- A text that is there has a character.
abbrev IsText : Option String → Type 0
IsText none = Unit
IsText (some t) = 1 ≤ Text.length t

if_nonempty-IsText : (t : String) → IsText (if_nonempty t)
if_nonempty-IsText String.[] = tt
if_nonempty-IsText (String.◌∷◌ c t) = omega arith

stripped-IsText : (v : Value) → IsText (stripped v)
unfolding stripped
stripped-IsText (str s) = if_nonempty-IsText (Text.strip s)
stripped-IsText _ = tt

block_text-IsText : (block : Value) → Each IsText (block_text block)
unfolding block_text Each
block_text-IsText (dict fs) =
    if-elim (Each IsText) (eq_str (dict_get (dict fs) "type") "text")
      (λ _. stripped-IsText (dict_get (dict fs) "text")) (λ _. tt)
block_text-IsText _ = tt

-- The parts after so many characters
abbrev Fits : ℕ → List String → Type 0
Fits used parts = AreNonempty parts × (total parts + used ≤ max_turn_text)

add_part-Fits :
    (t : Option String) (used : ℕ) (more : ℕ → Result (List String))
    → used ≤ max_turn_text
    → IsText t
    → ((n : ℕ) → n ≤ max_turn_text → Each (Fits n) (more n))
    → Each (Fits used) (add_part t used more)
add_part-Fits none used more h k m = m used h
add_part-Fits (some t) used more h k m =
    let part = Text.take (max_turn_text - used) t in
    let n = used + Text.length part in
    let room = length-take (max_turn_text - used) t in
    if-elim (Each (Fits used)) (leb max_turn_text used)
      (λ _. ok-Each (Fits used) [] (tt, omega arith))
      (λ e.
        chain-Each (Fits n) (Fits used) (more n) (λ parts. ok (part ∷ parts)) (m n (omega arith))
          (λ parts (full, sum).
            ok-Each (Fits used) (part ∷ parts)
              ((take-nonempty (max_turn_text - used) t (ground arith) k, full), omega arith)))

text_parts-Fits :
    (blocks : Items) (used : ℕ) → used ≤ max_turn_text → Each (Fits used) (text_parts blocks used)
unfolding text_parts
text_parts-Fits nil used h = ok-Each (Fits used) [] (tt, omega arith)
text_parts-Fits (cons block blocks) used h =
    chain-Each IsText (Fits used) (block_text block) _ (block_text-IsText block) (λ t k.
      add_part-Fits t used (λ n. text_parts blocks n) h k (λ n l. text_parts-Fits blocks n l))

-- A text is not empty and has at most so many characters.
abbrev pub IsWithin : ℕ → Option String → Type 0
IsWithin limit none = Unit
IsWithin limit (some t) = (1 ≤ Text.length t) × (Text.length t ≤ limit)

nonempty-IsWithin :
    (limit : ℕ) (t : String) → Text.length t ≤ limit → IsWithin limit (if_nonempty t)
nonempty-IsWithin limit String.[] h = tt
nonempty-IsWithin limit (String.◌∷◌ c t) h = (omega arith, h)

cut-IsWithin : (t : Option String) → IsText t → IsWithin 63_999 (cut t)
cut-IsWithin none h = tt
cut-IsWithin (some t) h =
    let k = length-take max_turn_text t in
    (take-nonempty max_turn_text t (omega arith) h, omega arith)

joined-IsWithin :
    (blocks : Items)
    → Each
        (IsWithin 63_999)
        (chain (text_parts blocks 0) (λ parts. ok (if_nonempty (Text.strip (join_lines parts)))))
joined-IsWithin blocks =
    chain-Each (Fits 0) (IsWithin 63_999) (text_parts blocks 0) _
      (text_parts-Fits blocks 0 (omega arith))
      (λ parts (full, sum).
        let h = length-join_lines parts full in
        let k = length-strip (join_lines parts) in
        ok-Each (IsWithin 63_999) _ (nonempty-IsWithin 63_999 _ (omega arith)))

-- The text of a content is not empty, and has at most 63,999 characters: 32,000 of its blocks, and
-- the line ends between them.
pub bounded_text-IsWithin : (content : Value) → Each (IsWithin 63_999) (bounded_text content)
unfolding bounded_text
bounded_text-IsWithin (str s) =
    ok-Each (IsWithin 63_999) _ (cut-IsWithin _ (if_nonempty-IsText (Text.strip s)))
bounded_text-IsWithin (list blocks) = joined-IsWithin blocks
bounded_text-IsWithin (tuple blocks) = joined-IsWithin blocks
bounded_text-IsWithin _ = ok-Each (IsWithin 63_999) none tt
