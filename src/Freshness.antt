-- ===== src/Freshness.antt =====
-- crates/homemagic-domain/src/lifecycle.rs, FreshnessPolicy. Thresholds are signed 64-bit seconds,
-- and instants are nanoseconds since the earliest representable instant.
mod Thresholds
mod Examples
use homemagic.Prelude.{
  if◌then◌else◌, ℤ, pos, leb_ℤ, Result, ok, err, ℕ, ◌-◌, ◌/◌, ◌||◌, Option, none, some,
}
use homemagic.Lifecycle.{AvailabilityState, availability_state_beq}

pub record FreshnessPolicy : Type 0 where
  pub stale_after_seconds : ℤ
  pub offline_after_seconds : ℤ

pub data FreshnessPolicyError : Type 0 where
  freshness_policy_error : FreshnessPolicyError

pub data FreshnessState : Type 0 where
  unknown fresh stale offline sleeping : FreshnessState

-- FreshnessPolicy::default
abbrev pub default_policy : FreshnessPolicy
default_policy = record { stale_after_seconds = pos 120; offline_after_seconds = pos 300 }

-- FreshnessPolicy::new
unfoldable pub new : ℤ → ℤ → Result FreshnessPolicy FreshnessPolicyError
new stale_after offline_after =
    if leb_ℤ stale_after (pos 0) || leb_ℤ offline_after stale_after
    then err freshness_policy_error
    else ok (record { stale_after_seconds = stale_after; offline_after_seconds = offline_after })

abbrev pub nanos_per_second : ℕ
nanos_per_second = 1000000000

-- `now.signed_duration_since(last).num_seconds().max(0)`: whole seconds, rounded towards zero.
abbrev pub elapsed_seconds : ℕ → ℕ → ℕ
elapsed_seconds now last = (now - last) / nanos_per_second

-- The part of FreshnessPolicy::evaluate that compares the age of a success to the thresholds.
unfoldable pub classify : FreshnessPolicy → ℕ → FreshnessState
classify p elapsed =
    if leb_ℤ p.offline_after_seconds (pos elapsed)
    then offline
    else if leb_ℤ p.stale_after_seconds (pos elapsed)
    then stale
    else fresh

-- FreshnessPolicy::evaluate
unfoldable pub evaluate : FreshnessPolicy → Option ℕ → AvailabilityState → ℕ → FreshnessState
unfolding classify availability_state_beq
evaluate p none availability now =
    if availability_state_beq availability AvailabilityState.sleeping
    then sleeping
    else if availability_state_beq availability AvailabilityState.offline
    then offline
    else unknown
evaluate p (some last) availability now =
    if availability_state_beq availability AvailabilityState.sleeping
    then sleeping
    else classify p (elapsed_seconds now last)

-- FreshnessPolicy::stale_at and ::offline_at, over `DateTime::checked_add_signed`, which is none
-- where the sum is not representable.
module _ (checked_add_seconds : ℕ → ℤ → Option ℕ) where
  unfoldable pub stale_at : FreshnessPolicy → Option ℕ → Option ℕ
  stale_at p none = none
  stale_at p (some at) = checked_add_seconds at p.stale_after_seconds

  unfoldable pub offline_at : FreshnessPolicy → Option ℕ → Option ℕ
  offline_at p none = none
  offline_at p (some at) = checked_add_seconds at p.offline_after_seconds
