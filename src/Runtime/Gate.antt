-- ===== src/Runtime/Gate.antt =====
-- What must hold before a turn touches the host, the session or the bridge.
use hermes_claude_agent_sdk.Common.{
  String, ◌≡◌, refl, ◌⊎◌, inl, inr, Bool, true, false, Bool-cases, [], Option, none, some, if-elim,
}
use hermes_claude_agent_sdk.Runtime.Types.{Input, Platform, Runtime, RuntimeFailure}
use hermes_claude_agent_sdk.Runtime.Preflight.{
  resume_id, check_auth, is_model_compatible, is_declared, check_state, checked_resume,
  check_preflight, is_request, consume_preflight,
}
use hermes_claude_agent_sdk.Runtime.{after_preflight, run_turn}

-- The object as it is once the preflight of an earlier request is dropped
abbrev pub reset : Runtime → Runtime
reset r = record r { observations = []; preflight_request = none }

-- The checks of the preflight that read no state
abbrev pub IsReady : Input → Type 0
IsReady i =
    (is_declared i.request ≡ true)
    × (is_model_compatible i.model_check ≡ true)
    × (check_auth i.auth ≡ true)

abbrev IsUntouched : Runtime → Option (Option RuntimeFailure × Runtime) → Type 0
IsUntouched r none = Unit
IsUntouched r (some (none, checked)) = ⊥
IsUntouched r (some (some f, checked)) = checked ≡ reset r

check_state-IsUntouched :
    (ok : Bool) (i : Input) (r : Runtime)
    → is_declared i.request ≡ true
    → IsReady i ⊎ IsUntouched r (some (check_state ok i (reset r)))
unfolding check_state
check_state-IsUntouched false i r d = inr refl
check_state-IsUntouched true i r d = elim (Bool-cases (is_model_compatible i.model_check)) [
  | inr e ↦ inr (rw e refl)
  | inl e ↦ elim (Bool-cases (check_auth i.auth)) [
    | inl f ↦ inl (d, e, f)
    | inr f ↦ inr (rw (e, f) refl)
  ]
]

resume-IsUntouched :
    (o : Option (Option String × Bool)) (i : Input) (r : Runtime)
    → is_declared i.request ≡ true
    → IsReady i ⊎ IsUntouched r (checked_resume o i (reset r))
unfolding checked_resume
resume-IsUntouched none i r d = inr tt
resume-IsUntouched (some (id, ok)) i r d = check_state-IsUntouched ok i r d

check_preflight-IsUntouched :
    (i : Input) (r : Runtime) → IsReady i ⊎ IsUntouched r (check_preflight i (reset r))
unfolding check_preflight
check_preflight-IsUntouched i r =
    if-elim (λ o. IsReady i ⊎ IsUntouched r o) (is_declared i.request)
      (λ d. resume-IsUntouched (resume_id i.request.session_state) i r d) (λ _. inr refl)

after_preflight-IsUntouched :
    (e : Platform) (i : Input) (r : Runtime) (o : Option (Option RuntimeFailure × Runtime))
    → IsUntouched r o
    → (after_preflight e o i (reset r)).runtime ≡ reset r
unfolding after_preflight
after_preflight-IsUntouched e i r none h = refl
after_preflight-IsUntouched e i r (some (some f, checked)) h = h
after_preflight-IsUntouched e i r (some (none, checked)) h = absurd h

-- A turn changes nothing of the object but its observations and a stale preflight, unless this very
-- request passed the preflight before, or now its selection is declared, its model compatible and
-- the authentication that of a subscription.
pub run_turn-IsReady :
    (e : Platform) (i : Input) (r : Runtime)
    → (is_request i.request.identity r.preflight_request ≡ true)
      ⊎ (IsReady i ⊎ ((run_turn e i r).runtime ≡ reset r))
unfolding run_turn consume_preflight
run_turn-IsReady e i r = elim (Bool-cases (is_request i.request.identity r.preflight_request)) [
  | inl h ↦ inl h
  | inr h ↦ inr (elim (check_preflight-IsUntouched i r) [
    | inl k ↦ inl k
    | inr k ↦ inr (rw h (after_preflight-IsUntouched e i r (check_preflight i (reset r)) k))
  ])
]
