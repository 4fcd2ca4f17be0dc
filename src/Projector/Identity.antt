-- ===== src/Projector/Identity.antt =====
-- Where the model of a turn comes from.
use hermes_claude_agent_sdk.Common.{
  String, ◌≡◌, refl, inl, inr, Bool, true, ◌||◌, List, [], ◌∷◌, Option, none, some, ◌==◌, contains,
  all, All, Bool-cases, arith, if-elim,
}
use hermes_claude_agent_sdk.Python.{Interpreter}
use hermes_claude_agent_sdk.Common.Dict.{get}
use hermes_claude_agent_sdk.Projector.Model.{
  Evidence, add_name, begin_turn, no_evidence, name_session, note_entry, clashes, canonical_name,
}
use hermes_claude_agent_sdk.Projector.Provenance.{
  Identity, unclear, Names, is_tainted, canonical_in, named_by, by_reported, among_many, single,
  from_reported, without_usage, from_usage, identity_of, conflicts, model_provenance, one_names,
  is_name,
}
use hermes_claude_agent_sdk.Projector.Gather.{Observation, gather, IsModelName, gather-Keeps}

-- The session's own evidence is malformed or contradicts itself.
abbrev pub IsTainted : Evidence → Type 0
IsTainted e = (e.session_malformed || e.session_conflict) ≡ true

either-true : (a b : Bool) → b ≡ true → (a || b) ≡ true
either-true a b h = ground arith

named-IsTainted :
    (o : Option String) (m : String) (e : Evidence) → IsTainted e → IsTainted (name_session o m e)
named-IsTainted none m e h = h
named-IsTainted (some s) m e h =
    if-elim IsTainted (s == m) (λ _. h) (λ _. either-true e.session_malformed true refl)

entry-IsTainted :
    (m : String) (c : Option String) (e : Evidence) → IsTainted e → IsTainted (note_entry m c e)
entry-IsTainted m c e h =
    if-elim IsTainted (clashes (canonical_name (get m e.canonical_models)) c) (λ _. h) (λ _. h)

tainted_true : (u a b c : Bool) → (a || b) ≡ true → (u || a || b || c) ≡ true
tainted_true u a b c h = ground arith

tainted-unclear : (py : Interpreter) (e : Evidence) → IsTainted e → model_provenance py e ≡ unclear
unfolding model_provenance
tainted-unclear py e h =
    let sure =
      tainted_true e.usage_malformed e.session_malformed e.session_conflict
        (conflicts py e e.session_model) h in
    rw sure refl

-- Once an init message is malformed, or names another model than the one before, the model is
-- ambiguous for good: no later message and no new turn changes that.
pub gather-unclear :
    (py : Interpreter) (xs : List Observation) (e : Evidence)
    → (e.session_malformed || e.session_conflict) ≡ true
    → model_provenance py (gather py xs e) ≡ unclear
unfolding begin_turn
gather-unclear py xs e h = tainted-unclear py (gather py xs e) (
    gather-Keeps py IsTainted (λ e h. h) (λ e h. h) (λ e h. refl)
      (λ m e n h. named-IsTainted e.session_model m e h) (λ m c e n h. entry-IsTainted m c e h)
      (λ m e n h. h) xs e h)

-- A property of the name, where there is one
abbrev pub Holds {ℓ} : (String → Type ℓ) → Option String → Type ℓ
Holds Q none = Unit
Holds Q (some m) = Q m

abbrev HoldsOf {ℓ} : (String → Type ℓ) → Names → Type ℓ
HoldsOf Q none = Unit
HoldsOf Q (some (effective, canonical)) = Holds Q effective

module _ (Q : String → Type 0) (e : Evidence) where
  named_by-HoldsOf : (m : String) → Q m → HoldsOf Q (named_by e m)
  named_by-HoldsOf m q =
      if-elim (HoldsOf Q) (contains e.usage_models m) (λ _. q)
        (λ _. if-elim (HoldsOf Q) (one_names m e.canonical_models) (λ _. q) (λ _. tt))

  by_reported-HoldsOf : (ms : List String) → All Q ms → HoldsOf Q (by_reported e ms)
  by_reported-HoldsOf [] q = tt
  by_reported-HoldsOf (m ∷ []) q = named_by-HoldsOf m q.0
  by_reported-HoldsOf (m ∷ n ∷ ms) q = tt

  among_many-HoldsOf :
      (o : Option String) → Holds Q o → All Q e.reported_models → HoldsOf Q (among_many e o)
  among_many-HoldsOf (some s) q qs = named_by-HoldsOf s q
  among_many-HoldsOf none q qs = by_reported-HoldsOf e.reported_models qs

  single-HoldsOf : (u : String) (o : Option String) → Q u → Holds Q o → HoldsOf Q (single e u o)
  single-HoldsOf u (some s) qu q =
      if-elim (HoldsOf Q) (u == s) (λ _. q)
        (λ _. if-elim (HoldsOf Q) (is_name s (canonical_in e u)) (λ _. q) (λ _. tt))
  single-HoldsOf u none qu q =
      if-elim (HoldsOf Q) (all (λ m. m == u || is_name m (canonical_in e u)) e.reported_models)
        (λ _. qu) (λ _. tt)

  from_reported-HoldsOf : (ms : List String) → All Q ms → HoldsOf Q (from_reported ms)
  from_reported-HoldsOf [] q = tt
  from_reported-HoldsOf (m ∷ []) q = q.0
  from_reported-HoldsOf (m ∷ n ∷ ms) q = tt

  without_usage-HoldsOf :
      (o : Option String) → Holds Q o → All Q e.reported_models → HoldsOf Q (without_usage e o)
  without_usage-HoldsOf (some s) q qs = q
  without_usage-HoldsOf none q qs = from_reported-HoldsOf e.reported_models qs

  from_usage-HoldsOf :
      (us : List String)
      → All Q us
      → Holds Q e.session_model
      → All Q e.reported_models
      → HoldsOf Q (from_usage e us)
  from_usage-HoldsOf [] q s r = without_usage-HoldsOf e.session_model s r
  from_usage-HoldsOf (u ∷ []) q s r = single-HoldsOf u e.session_model q.0 s
  from_usage-HoldsOf (u ∷ v ∷ us) q s r = among_many-HoldsOf e.session_model s r

identity-Holds :
    (Q : String → Type 0) (selected : Option String) (names : Names)
    → HoldsOf Q names
    → Holds Q (identity_of selected names).effective
identity-Holds Q selected none q = tt
identity-Holds Q selected (some (none, c)) q = tt
identity-Holds Q selected (some (some m, c)) q = q

-- Every name of the evidence has the property.
abbrev IsOf : (String → Type 0) → Evidence → Type 0
IsOf Q e = All Q e.usage_models × Holds Q e.session_model × All Q e.reported_models

provenance-Holds :
    (py : Interpreter) (Q : String → Type 0) (e : Evidence)
    → IsOf Q e
    → Holds Q (model_provenance py e).effective
unfolding model_provenance
provenance-Holds py Q e (u, s, r) =
    if-elim (λ (x : Identity). Holds Q x.effective) (is_tainted e || conflicts py e e.session_model)
      (λ _. tt)
      (λ _.
        identity-Holds Q e.selected_model (from_usage e e.usage_models)
          (from_usage-HoldsOf Q e e.usage_models u s r))

add-All :
    (Q : String → Type 0) (m : String) (ms : List String) → Q m → All Q ms → All Q (add_name m ms)
add-All Q m ms q qs = if-elim (All Q) (contains ms m) (λ _. qs) (λ _. (q, qs))

named-IsOf :
    (Q : String → Type 0) (o : Option String) (m : String) (e : Evidence)
    → Q m
    → IsOf Q e
    → IsOf Q (name_session o m e)
named-IsOf Q none m e q (u, s, r) = (u, q, r)
named-IsOf Q (some t) m e q h = if-elim (IsOf Q) (t == m) (λ _. h) (λ _. h)

entry-IsOf :
    (Q : String → Type 0) (m : String) (c : Option String) (e : Evidence)
    → Q m
    → IsOf Q e
    → IsOf Q (note_entry m c e)
entry-IsOf Q m c e q (u, s, r) =
    if-elim (IsOf Q) (clashes (canonical_name (get m e.canonical_models)) c) (λ _. (u, s, r))
      (λ _. (add-All Q m e.usage_models q u, s, r))

-- After any messages and turns of a new projector, whatever was selected, the effective model is
-- absent or a valid name of 1 to 128 characters that is not `unknown`.
pub gather-IsModelName :
    (py : Interpreter) (xs : List Observation) (selected : Option String)
    → Holds (IsModelName py) (model_provenance py (gather py xs (no_evidence selected))).effective
unfolding begin_turn
gather-IsModelName py xs selected =
    let Q = IsModelName py in
    provenance-Holds py Q (gather py xs (no_evidence selected)) (
      gather-Keeps py (IsOf Q) (λ e (u, s, r). (tt, s, tt)) (λ e h. h) (λ e h. h)
        (λ m e q h. named-IsOf Q e.session_model m e q h) (λ m c e q h. entry-IsOf Q m c e q h)
        (λ m e q (u, s, r). (u, s, add-All Q m e.reported_models q r)) xs (no_evidence selected)
        (tt, tt, tt))

names-selection :
    (s t : Option String) (names : Names)
    → ((identity_of s names).effective ≡ (identity_of t names).effective)
      × ((identity_of s names).canonical ≡ (identity_of t names).canonical)
names-selection s t none = (refl, refl)
names-selection s t (some (none, c)) = (refl, refl)
names-selection s t (some (some m, c)) = (refl, refl)

-- The model that was selected has no part in which model is effective or canonical.
pub model_provenance-selection :
    (py : Interpreter) (e : Evidence) (selected : Option String)
    → ((model_provenance py (record e { selected_model = selected })).effective
        ≡ (model_provenance py e).effective)
      × ((model_provenance py (record e { selected_model = selected })).canonical
          ≡ (model_provenance py e).canonical)
unfolding model_provenance
model_provenance-selection py e selected =
    elim (Bool-cases (is_tainted e || conflicts py e e.session_model)) [
      | inl h ↦ rw h (refl, refl)
      | inr h ↦ rw h (names-selection selected e.selected_model (from_usage e e.usage_models))
    ]
