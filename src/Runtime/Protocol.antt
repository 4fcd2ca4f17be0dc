-- ===== src/Runtime/Protocol.antt =====
-- What the host may be told in one turn, as an observer of what is yielded.
use hermes_claude_agent_sdk.Common.{
  ◌≡◌, refl, sym, ap, ◌∙◌, subst, ◌⊎◌, inl, Bool, true, false, ◌||◌, List, [], ◌∷◌, ◌++◌, arith,
  All,
}
use hermes_claude_agent_sdk.Projector.Events.{content, tool_request, usage, completion, Receipt}
use hermes_claude_agent_sdk.Runtime.Types.{
  Phase, preflight, before_visible_output, after_visible_output, after_side_effects, Emitted, shown,
  state_saved, completed, cancelled_turn, failed_turn,
}
use hermes_claude_agent_sdk.Runtime.Preflight.{runtime_id}
use hermes_claude_agent_sdk.Runtime.Forward.{Loop}

-- The stages of a turn: events, then a state that is saved for a completion, then one terminal event.
pub data Stage : Type 0 where
  running saved over broken : Stage

abbrev pub advance : Stage → Emitted → Stage
advance running (shown e) = running
advance running (state_saved id) = saved
advance running (completed c) = over
advance running cancelled_turn = over
advance running (failed_turn f) = over
advance saved (completed c) = over
advance _ _ = broken

unfoldable pub stage : Stage → List Emitted → Stage
stage s [] = s
stage s (x ∷ xs) = stage (advance s x) xs

-- Exactly one terminal event, and it is the last; nothing else follows a state that is saved.
abbrev pub IsTurn : List Emitted → Type 0
IsTurn xs = stage running xs ≡ over

-- Whether content was shown, and whether the turn was completed
abbrev pub shows_content : Emitted → Bool
shows_content (shown (content s)) = true
shows_content _ = false

abbrev pub is_completed : Emitted → Bool
is_completed (completed c) = true
is_completed _ = false

unfoldable pub has_content : List Emitted → Bool
has_content [] = false
has_content (x ∷ xs) = shows_content x || has_content xs

unfoldable pub has_completed : List Emitted → Bool
has_completed [] = false
has_completed (x ∷ xs) = is_completed x || has_completed xs

-- A receipt on the subscription
abbrev pub IsIncluded : Receipt → Type 0
IsIncluded r =
    (r.runtime_id ≡ runtime_id)
    × (r.provider ≡ "anthropic")
    × (r.billing_mode ≡ "subscription_included")
    × (r.cost_status ≡ "included")
    × (r.replay_safe ≡ false)

-- No request of a tool and no completion of the SDK is passed on, and every receipt is included.
abbrev pub IsHostEvent : Emitted → Type 0
IsHostEvent (shown (tool_request id name args)) = ⊥
IsHostEvent (shown (completion fields)) = ⊥
IsHostEvent (shown (usage r)) = IsIncluded r
IsHostEvent _ = Unit

-- What the phase of a failure says of the content that was shown before
abbrev pub IsToldAt : Bool → Phase → Type 0
IsToldAt seen before_visible_output = seen ≡ false
IsToldAt seen after_visible_output = seen ≡ true
IsToldAt seen after_side_effects = Unit
IsToldAt seen preflight = seen ≡ false

abbrev pub IsTold : Bool → Emitted → Type 0
IsTold seen (failed_turn f) = IsToldAt seen f.phase × (f.replay_safe ≡ true → f.phase ≡ preflight)
IsTold seen _ = Unit

stage-append : (s : Stage) (xs ys : List Emitted) → stage s (xs ++ ys) ≡ stage (stage s xs) ys
unfolding stage
stage-append s [] ys = refl
stage-append s (x ∷ xs) ys = stage-append (advance s x) xs ys

pub has_content-append :
    (xs ys : List Emitted) → has_content (xs ++ ys) ≡ (has_content xs || has_content ys)
unfolding has_content
has_content-append [] ys = refl
has_content-append (x ∷ xs) ys = ground (arith, has_content-append xs ys)

has_completed-append :
    (xs ys : List Emitted) → has_completed (xs ++ ys) ≡ (has_completed xs || has_completed ys)
unfolding has_completed
has_completed-append [] ys = refl
has_completed-append (x ∷ xs) ys = ground (arith, has_completed-append xs ys)

All-snoc {ℓ} :
    (P : Emitted → Type ℓ) (xs : List Emitted) (x : Emitted) → All P xs → P x → All P (xs ++ x ∷ [])
All-snoc P [] x h k = (k, tt)
All-snoc P (y ∷ xs) x (h, hs) k = (h, All-snoc P xs x hs k)

-- No failure was told yet.
abbrev pub IsUntold : Emitted → Type 0
IsUntold (failed_turn f) = ⊥
IsUntold _ = Unit

pub untold-IsTold : (seen : Bool) (xs : List Emitted) → All IsUntold xs → All (IsTold seen) xs
untold-IsTold seen [] h = tt
untold-IsTold seen (shown e ∷ xs) (h, hs) = (tt, untold-IsTold seen xs hs)
untold-IsTold seen (state_saved id ∷ xs) (h, hs) = (tt, untold-IsTold seen xs hs)
untold-IsTold seen (completed c ∷ xs) (h, hs) = (tt, untold-IsTold seen xs hs)
untold-IsTold seen (cancelled_turn ∷ xs) (h, hs) = (tt, untold-IsTold seen xs hs)
untold-IsTold seen (failed_turn f ∷ xs) (h, hs) = absurd h

-- What was yielded before the end, at a stage
pub record IsYielded (s : Stage) (xs : List Emitted) : Type 0 where
  pub going : stage running xs ≡ s
  pub served : All IsHostEvent xs
  pub untold : All IsUntold xs
  pub uncompleted : has_completed xs ≡ false

-- The turn is under way: nothing but events was yielded, and the flag of the loop is right.
abbrev pub IsUnderway : Loop → Type 0
IsUnderway l = IsYielded running l.emitted × (l.visible ≡ has_content l.emitted)

-- The turn is over, unless its end was lost; `Earned` is what a completion wants.
pub record IsOver (Lost Earned : Type 0) (xs : List Emitted) : Type 0 where
  pub ended : IsTurn xs ⊎ Lost
  pub served : All IsHostEvent xs
  pub told : All (IsTold (has_content xs)) xs
  pub earned : has_completed xs ≡ true → Earned

pub next-IsYielded :
    (s : Stage) (xs : List Emitted) (x : Emitted)
    → IsYielded s xs
    → IsHostEvent x
    → IsUntold x
    → is_completed x ≡ false
    → IsYielded (advance s x) (xs ++ x ∷ [])
unfolding stage has_completed
next-IsYielded s xs x h served untold plain = record {
  going = stage-append running xs (x ∷ []) ∙ ap (λ t. advance t x) h.going;
  served = All-snoc IsHostEvent xs x h.served served;
  untold = All-snoc IsUntold xs x h.untold untold;
  uncompleted = has_completed-append xs (x ∷ []) ∙ ground (arith, h.uncompleted, plain);
}

pub terminal-IsOver :
    (Lost Earned : Type 0) (s : Stage) (xs : List Emitted) (x : Emitted)
    → IsYielded s xs
    → advance s x ≡ over
    → IsHostEvent x
    → shows_content x ≡ false
    → IsTold (has_content xs) x
    → (is_completed x ≡ true → Earned)
    → IsOver Lost Earned (xs ++ x ∷ [])
unfolding stage has_completed has_content
terminal-IsOver Lost Earned s xs x h last served plain told earned =
    let same : has_content (xs ++ x ∷ []) ≡ has_content xs =
      has_content-append xs (x ∷ []) ∙ ground (arith, plain) in
    record {
      ended = inl (stage-append running xs (x ∷ []) ∙ ap (λ t. advance t x) h.going ∙ last);
      served = All-snoc IsHostEvent xs x h.served served;
      told =
          subst (λ b. All (IsTold b) (xs ++ x ∷ [])) (sym same)
            (All-snoc (IsTold (has_content xs)) xs x (untold-IsTold (has_content xs) xs h.untold)
              told);
      earned = λ e. earned (ground (arith, h.uncompleted, e, has_completed-append xs (x ∷ [])));
    }
