-- ===== src/Compaction/Lifecycle.antt =====
-- What the host sees of compaction: each started one ends once, at the callback that saw it start.
use hermes_claude_agent_sdk.Common.{
  ap, ℕ, ◌≡◌, refl, Bool, true, false, List, [], ◌∷◌, ◌++◌, Option, none, some, arith, nat_eq,
  append-nil, ◌-◌, inl, inr, Bool-cases, if◌then◌else◌, ◌∙◌,
}
use hermes_claude_agent_sdk.Compaction.{
  Trigger, Phase, started, completed, Event, Notice, event, expired, notice_event, notice_watchdog,
  Tracker, is_active, finish, notify_watchdog, bind, start, complete_to, complete, expire,
  close_active, end_turn,
}

-- The calls that move the lifecycle. A refused `bind` changes nothing.
pub data Call : Type 0 where
  binds : Option ℕ → Option ℕ → Call
  starts completes : Trigger → Call
  expires : Call
  ends_turn : Bool → Call

abbrev or_unchanged : Tracker → Option Tracker → Tracker
or_unchanged t none = t
or_unchanged t (some u) = u

unfoldable pub step : Tracker → Call → Tracker
step t (binds e w) = or_unchanged t (bind e w t)
step t (starts g) = start g t
step t (completes g) = (complete g t).0
step t expires = (expire t).0
step t (ends_turn c) = end_turn c t

unfoldable pub run : Tracker → List Call → Tracker
run t [] = t
run t (c ∷ cs) = run (step t c) cs

abbrev is_start : Phase → Bool
is_start started = true
is_start _ = false

-- An observer: `some callback` while a compaction that this callback saw start is open, and
-- failure on a start inside an open one, on an end elsewhere, and on a watchdog call in between.
observe : Option ℕ → Notice → Option (Option ℕ)
observe none (event c e) = if is_start e.phase then some (some c) else none
observe (some d) (event c e) =
    if is_start e.phase then none else if nat_eq c d then some none else none
observe none (expired c) = some none
observe (some _) (expired c) = none

unfoldable pub watch : Option (Option ℕ) → List Notice → Option (Option ℕ)
unfolding observe
watch none ns = none
watch (some o) [] = some o
watch (some o) (n ∷ ns) = watch (observe o n) ns

abbrev pub open_at : Tracker → Option ℕ
open_at t = if is_active t then t.on_event else none

-- The watchdog runs exactly while a compaction is active, and the host's view is in order.
pub record IsOrderly (t : Tracker) : Type 0 where
  pub guarded : t.watchdog_task ≡ is_active t
  pub seen : watch (some none) t.notices ≡ some (open_at t)

watch-append :
    (o : Option (Option ℕ)) (ns ms : List Notice) → watch o (ns ++ ms) ≡ watch (watch o ns) ms
unfolding watch observe
watch-append none ns [] = refl
watch-append none ns (_ ∷ _) = refl
watch-append (some o) [] ms = refl
watch-append (some o) (n ∷ ns) ms = watch-append (observe o n) ns ms

watch-seen :
    (o : Option ℕ) (ns ms : List Notice)
    → watch (some none) ns ≡ some o
    → watch (some none) (ns ++ ms) ≡ watch (some o) ms
watch-seen o ns ms h = watch-append (some none) ns ms ∙ ap (λ s. watch s ms) h

watch-start :
    (o : Option ℕ) (ns : List Notice) (e : Event)
    → is_start e.phase ≡ true
    → watch (some none) ns ≡ some none
    → watch (some none) (ns ++ notice_event o e) ≡ some o
unfolding watch observe
watch-start none ns e s h = rw append-nil h
watch-start (some c) ns e s h = watch-seen none ns _ h ∙ rw (s, watch, observe) refl

watch-end :
    (o : Option ℕ) (ns : List Notice) (e : Event)
    → is_start e.phase ≡ false
    → watch (some none) ns ≡ some o
    → watch (some none) (ns ++ notice_event o e) ≡ some none
unfolding watch observe
watch-end none ns e s h = rw append-nil h
watch-end (some c) ns e s h = watch-seen (some c) ns _ h ∙ rw (s, watch, observe) (ground arith)

watch-watchdog :
    (o : Option ℕ) (ns : List Notice)
    → watch (some none) ns ≡ some none
    → watch (some none) (ns ++ notice_watchdog o) ≡ some none
unfolding watch observe
watch-watchdog none ns h = rw append-nil h
watch-watchdog (some c) ns h = watch-seen none ns _ h

pub bind-IsOrderly :
    (e w : Option ℕ) (t : Tracker) → IsOrderly t → IsOrderly (or_unchanged t (bind e w t))
unfolding bind
bind-IsOrderly e w t v = ground arith

pub start-IsOrderly : (g : Trigger) (t : Tracker) → IsOrderly t → IsOrderly (start g t)
unfolding start is_active
start-IsOrderly g t v = ground (
  arith,
  watch-start t.on_event t.notices (record { phase = started; trigger = g; bound = none }),
)

-- A finished compaction, whatever the active depth was.
finish-IsOrderly :
    (e : Event) (t : Tracker)
    → is_start e.phase ≡ false
    → watch (some none) t.notices ≡ some t.on_event
    → IsOrderly (finish e t)
unfolding finish is_active
finish-IsOrderly e t s h = record { guarded = refl; seen = watch-end t.on_event t.notices e s h }

complete_to-IsOrderly :
    (n : ℕ) (g : Trigger) (t : Tracker)
    → is_active t ≡ true
    → IsOrderly t
    → IsOrderly (complete_to n g t).0
unfolding complete_to is_active
complete_to-IsOrderly n g t active v = ground (
  arith,
  watch-end t.on_event t.notices (record { phase = completed; trigger = g; bound = none }) refl,
)

pub complete-IsOrderly : (g : Trigger) (t : Tracker) → IsOrderly t → IsOrderly (complete g t).0
unfolding complete
complete-IsOrderly g t v = elim (Bool-cases (is_active t)) [
  | inl active ↦ rw active (complete_to-IsOrderly (t.active_depth - 1) g t active v)
  | inr idle ↦ rw idle v
]

seen-active :
    (t : Tracker) → is_active t ≡ true → IsOrderly t → watch (some none) t.notices ≡ some t.on_event
seen-active t active v = v.seen ∙ rw active

pub expire-IsOrderly : (t : Tracker) → IsOrderly t → IsOrderly (expire t).0
unfolding expire finish notify_watchdog is_active
expire-IsOrderly t v = elim (Bool-cases (is_active t)) [
  | inl active ↦ rw active (record {
    guarded = refl;
    seen =
        watch-watchdog t.on_watchdog _
          (watch-end t.on_event t.notices _ refl (seen-active t active v));
  })
  | inr idle ↦ rw idle v
]

pub close_active-IsOrderly :
    (c : Bool) (t : Tracker)
    → IsOrderly t
    → IsOrderly (close_active c t) × (is_active (close_active c t) ≡ false)
unfolding close_active
close_active-IsOrderly c t v = elim (Bool-cases (is_active t)) [
  | inl active ↦ rw active (finish-IsOrderly _ t (ground arith) (seen-active t active v), refl)
  | inr idle ↦ rw idle (v, idle)
]

pub end_turn-IsOrderly : (c : Bool) (t : Tracker) → IsOrderly t → IsOrderly (end_turn c t)
unfolding end_turn is_active
end_turn-IsOrderly c t v = ground (arith, close_active-IsOrderly c t v)
