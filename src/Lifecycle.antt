-- ===== src/Lifecycle.antt =====
-- crates/homemagic-domain/src/lifecycle.rs, the enrollment lifecycle of a device and its
-- availability. Instants are nanoseconds since the earliest representable instant.
mod Trace
mod Reachability
mod Examples
use homemagic.Prelude.{
  if◌then◌else◌, Result, ok, err, Text, text_beq, ℕ, ◌≡◌, ◌↔◌, Bool, true, false, ◌&&◌, Option,
  none, some, List, [], ◌∷◌, arith,
}

pub data DeviceLifecycle : Type 0 where
  candidate enrolled stale removed : DeviceLifecycle

pub data LifecycleTrigger : Type 0 where
  enroll mark_stale rediscover remove : LifecycleTrigger

pub record LifecycleTransitionError : Type 0 where
  pub current : DeviceLifecycle
  pub trigger : LifecycleTrigger

-- DeviceLifecycle::transition
unfoldable pub transition :
    DeviceLifecycle → LifecycleTrigger → Result DeviceLifecycle LifecycleTransitionError
transition candidate enroll = ok enrolled
transition enrolled rediscover = ok enrolled
transition stale rediscover = ok enrolled
transition removed rediscover = ok enrolled
transition candidate remove = ok removed
transition enrolled remove = ok removed
transition stale remove = ok removed
transition enrolled mark_stale = ok stale
transition s t = err (record { current = s; trigger = t })

pub data AvailabilityState : Type 0 where
  unknown online degraded offline sleeping : AvailabilityState

unfoldable pub availability_state_beq : AvailabilityState → AvailabilityState → Bool
availability_state_beq unknown unknown = true
availability_state_beq online online = true
availability_state_beq degraded degraded = true
availability_state_beq offline offline = true
availability_state_beq sleeping sleeping = true
availability_state_beq _ _ = false

pub availability_state_beq_iff :
    (a b : AvailabilityState) → (availability_state_beq a b ≡ true) ↔ (a ≡ b)
unfolding availability_state_beq
availability_state_beq_iff a b = ground arith

pub record Availability : Type 0 where
  pub state : AvailabilityState
  pub since : ℕ
  pub reason : Option Text

-- `==` on `Option<String>`.
unfoldable pub reason_beq : Option Text → Option Text → Bool
reason_beq none none = true
reason_beq (some a) (some b) = text_beq a b
reason_beq _ _ = false

-- Availability::unknown
unfoldable pub unknown_at : ℕ → Availability
unknown_at at = record { state = unknown; since = at; reason = none }

-- Availability::transition
unfoldable pub change_availability :
    Availability → AvailabilityState → ℕ → Option Text → Availability
unfolding availability_state_beq reason_beq
change_availability a state at reason =
    if availability_state_beq a.state state && reason_beq a.reason reason
    then a
    else record { state = state; since = at; reason = reason }

-- A history of triggers, of which the refused ones leave the lifecycle as it is.
unfoldable pub apply_trigger : DeviceLifecycle → LifecycleTrigger → DeviceLifecycle
unfolding transition
apply_trigger s t = elim (transition s t) [ ok s' ↦ s' | err _ ↦ s ]

unfoldable pub run : DeviceLifecycle → List LifecycleTrigger → DeviceLifecycle
run s [] = s
run s (t ∷ ts) = run (apply_trigger s t) ts
