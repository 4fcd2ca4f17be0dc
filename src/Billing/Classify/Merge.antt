-- ===== src/Billing/Classify/Merge.antt =====
-- A known field that evidence lists as malformed blocks: merging later evidence cannot undo it.
use hermes_claude_agent_sdk.Common.{
  String, ◌≡◌, refl, ◌∙◌, ap, true, false, ◌||◌, List, [], ◌∷◌, ◌++◌, some, arith, ◌==◌, eq_iff,
  contains, Bool-cases, inl, inr,
}
use hermes_claude_agent_sdk.Common.Names.{insert, sorted_set}
use hermes_claude_agent_sdk.Python.{Interpreter}
use hermes_claude_agent_sdk.Billing.{Evidence}
use hermes_claude_agent_sdk.Billing.Normalize.{
  texts, names_value, known_fields, keep_known, malformed_names,
}
use hermes_claude_agent_sdk.Billing.Extract.{listed_names, merge_evidence}
use hermes_claude_agent_sdk.Billing.Classify.{blocked, gated, classify_evidence}

contains-cons :
    (x : String) (xs : List String) (s : String) → contains (x ∷ xs) s ≡ (x == s || contains xs s)
unfolding contains
contains-cons x xs s = refl

contains-append :
    (xs ys : List String) (s : String) → contains (xs ++ ys) s ≡ (contains xs s || contains ys s)
unfolding contains
contains-append [] ys s = refl
contains-append (x ∷ xs) ys s = ground (arith, contains-append xs ys s)

contains-insert :
    (t : String) (xs : List String) (s : String)
    → contains (insert t xs) s ≡ (t == s || contains xs s)
unfolding contains insert
contains-insert t [] s = refl
contains-insert t (x ∷ xs) s = ground (arith, eq_iff t x, contains-insert t xs s)

contains-sorted_set : (xs : List String) (s : String) → contains (sorted_set xs) s ≡ contains xs s
unfolding contains sorted_set
contains-sorted_set [] s = refl
contains-sorted_set (x ∷ xs) s =
    ground (arith, contains-insert x (sorted_set xs) s, contains-sorted_set xs s)

texts-names_value : (xs : List String) → texts (names_value xs) ≡ xs
unfolding texts names_value
texts-names_value [] = refl
texts-names_value (x ∷ xs) = ap (λ (r : List String). x ∷ r) (texts-names_value xs)

contains-keep_known :
    (xs : List String) (s : String)
    → contains known_fields s ≡ true
    → contains xs s ≡ true
    → contains (keep_known xs) s ≡ true
unfolding keep_known
contains-keep_known [] s known h = h
contains-keep_known (x ∷ xs) s known h = elim (Bool-cases (contains known_fields x)) [
  | inl kept ↦ rw kept (
      contains-cons x (keep_known xs) s
      ∙ ground (arith, contains-cons x xs s, contains-keep_known xs s known))
  | inr dropped ↦ elim (Bool-cases (x == s)) [
    | inl same ↦ cc (dropped, known, ap (contains known_fields) ((eq_iff x s).0 same))
    | inr other ↦ rw dropped (ground (arith, contains-cons x xs s, contains-keep_known xs s known))
  ]
]

-- A set that has a member is not the empty list of names.
gated-member :
    (n : Evidence) (names : List String) (s : String)
    → contains names s ≡ true
    → (gated n names).allowed ≡ false
unfolding contains blocked
gated-member n [] s h = cc
gated-member n (_ ∷ _) s h = refl

contains-union :
    (xs ys : List String) (s : String)
    → contains xs s ≡ true
    → contains (sorted_set (xs ++ ys)) s ≡ true
contains-union xs ys s h =
    contains-sorted_set (xs ++ ys) s ∙ ground (arith, contains-append xs ys s)

module _ (py : Interpreter) where
  malformed_names-merge :
      (current update : Evidence) (s : String)
      → contains known_fields s ≡ true
      → contains (listed_names current.malformed_fields) s ≡ true
      → contains (malformed_names py (merge_evidence (some current) update)) s ≡ true
  unfolding malformed_names merge_evidence
  malformed_names-merge current update s known h =
      simp (contains-append, texts-names_value)
        (rw
          (contains-keep_known _ s known (
            contains-union (listed_names current.malformed_fields)
              (listed_names update.malformed_fields) s h))
          refl)

  -- Once a known field is listed as malformed, the merge with any later snapshot is blocked.
  pub malformed_persists :
      (current update : Evidence) (s : String)
      → contains known_fields s ≡ true
      → contains (listed_names current.malformed_fields) s ≡ true
      → (classify_evidence py (merge_evidence (some current) update)).allowed ≡ false
  unfolding classify_evidence
  malformed_persists current update s known h =
      gated-member _ _ s (contains-sorted_set _ s ∙ malformed_names-merge current update s known h)
