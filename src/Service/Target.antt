-- ===== src/Service/Target.antt =====
-- crates/homemagic-application/src/command_service.rs: the functions that compare a command to the
-- durable record of its device.
use homemagic.Prelude.{
  if◌then◌else◌, filter, any, find, find_map, Result, ◌>>◌, require, map_err, lookup, Text, text_eq,
  nat_eq, text, ◌==◌, ℕ, Bool, true, false, ◌||◌, not, Option, none, some, List, [],
}
use homemagic.Capability.{RiskClass, comfort, mechanical, security, CapabilityDescriptor, new}
use homemagic.Capability.Snapshot.{CapabilitySnapshot}
use homemagic.Command.{
  set, toggle, open_fully, close_fully, stop, go_to, CommandPayload, on_off, level, position,
  access_control, CommandErrorCode, capability_mismatch, stale_observation, unsupported_constraint,
  ExpectedObservation, validate, CommandAggregate,
}
use homemagic.Device.{DeviceRecord, freshness_at}
use homemagic.Freshness.{FreshnessPolicy}
use homemagic.Observation.{descriptor_beq}
use homemagic.Policy.{ConstraintState, is_available, is_fresh}
use homemagic.Service.{CommandServiceError, invalid_descriptor}

-- The name and the risk that `requested_descriptor` gives a payload.
unfoldable pub requested_name : CommandPayload → Text × RiskClass
requested_name (on_off _) = (text "on_off", comfort)
requested_name (level _) = (text "level", comfort)
requested_name (position _) = (text "position", mechanical)
requested_name (access_control _) = (text "access_control", security)

module _ {B : Type 0} where
  unfoldable pub requested_descriptor :
      CommandPayload → Result CapabilityDescriptor (CommandServiceError B)
  unfolding requested_name new
  requested_descriptor payload =
      let (name, risk) = requested_name payload in
      map_err (λ _. invalid_descriptor) (new name 1 risk)

abbrev pub is_toggle : CommandPayload → Bool
is_toggle (on_off toggle) = true
is_toggle (on_off (set on)) = false
is_toggle (level _) = false
is_toggle (position _) = false
is_toggle (access_control _) = false

abbrev pub is_go_to : CommandPayload → Bool
is_go_to (position (go_to percent)) = true
is_go_to (position open_fully) = false
is_go_to (position close_fully) = false
is_go_to (position stop) = false
is_go_to (on_off _) = false
is_go_to (level _) = false
is_go_to (access_control _) = false

-- `expected.is_some_and(|expected| expected.observed_at != …)`
abbrev pub is_outdated : Option ExpectedObservation → ℕ → Bool
is_outdated none observed_at = false
is_outdated (some expected) observed_at = not (expected.observed_at == observed_at)

-- `Option::map_or_else` of a switched state to the payload that sets it.
abbrev pub switch_to : CommandPayload → Option Bool → CommandPayload
switch_to payload none = payload
switch_to payload (some on) = on_off (set on)

module _ {F : Type 0} where
  -- The patterns of the two functions below.
  abbrev pub opposite : CapabilitySnapshot F → Option Bool
  opposite (CapabilitySnapshot.on_off on _) = some (not on)
  opposite _ = none

  abbrev pub has_percent : CapabilitySnapshot F → Bool
  has_percent (CapabilitySnapshot.position (some percent) _ _) = true
  has_percent _ = false

module _ {F J : Type 0} where
  -- The endpoint's reported on/off state, negated.
  abbrev pub opposite_state : Text → DeviceRecord (CapabilitySnapshot F) J → Option Bool
  opposite_state endpoint_id device =
      elim (find (λ e. e.id == endpoint_id) device.snapshot.endpoints) [
        | none ↦ none
        | some endpoint ↦ find_map opposite endpoint.capabilities
      ]

  unfoldable pub effective_payload :
      CommandPayload
      → Text
      → DeviceRecord (CapabilitySnapshot F) J
      → FreshnessPolicy
      → ℕ
      → CommandPayload
  unfolding freshness_at
  effective_payload payload endpoint_id device freshness now =
      if not (is_toggle payload) || not (is_fresh (freshness_at device freshness now))
      then payload
      else switch_to payload (opposite_state endpoint_id device)

  unfoldable pub constraint_state :
      CommandPayload → Text → DeviceRecord (CapabilitySnapshot F) J → ConstraintState
  constraint_state payload endpoint_id device =
      let calibrated =
        any (λ e. any has_percent e.capabilities)
          (filter (λ e. e.id == endpoint_id) device.snapshot.endpoints) in
      if not (is_go_to payload)
      then ConstraintState.available
      else if calibrated
      then ConstraintState.available
      else ConstraintState.unavailable

  -- The look-up of the descriptors of an endpoint.
  abbrev pub offered : Text → DeviceRecord (CapabilitySnapshot F) J → List CapabilityDescriptor
  offered endpoint_id device = elim (lookup endpoint_id device.capability_descriptors) [
    | none ↦ []
    | some descriptors ↦ descriptors
  ]

  unfoldable pub validate_target :
      CommandAggregate
      → DeviceRecord (CapabilitySnapshot F) J
      → ℕ
      → Result (Unit {0}) CommandErrorCode
  unfolding validate constraint_state
  validate_target command device now =
      let e = command.envelope in
      validate e now
      >> require (any (λ d. descriptor_beq d e.capability) (offered e.endpoint_id device))
          capability_mismatch
      >> require (not (is_outdated e.expected device.snapshot.observed_at)) stale_observation
      >> require (not (is_toggle e.payload)) stale_observation
      >> require (is_available (constraint_state e.payload e.endpoint_id device))
          unsupported_constraint
