-- ===== src/Command/Examples.antt =====
-- Commands at concrete inputs.
use homemagic.Capability.{comfort, CapabilityDescriptor}
use homemagic.Prelude.{ok, text, ℕ, ◌≤◌, ◌<◌, ◌≡◌, refl, ◌↔◌, false, none, some, List, [], ◌∷◌}
use homemagic.Command.{
  level, CommandEnvelope, validate, CommandState, validated, dispatched, confirmed, failed,
  CommandAggregate, receive, transition,
}
use homemagic.Command.Validation.{InRange, capability_name, validate_iff}
use homemagic.Command.Versions.{
  attempt, attempts, accepted_one, accepted, depth, attempts-version, ValidatedThenDispatched,
  dispatch_needs_validation,
}

abbrev dimmer : CapabilityDescriptor
dimmer = record { name = text "level"; version = 1; risk = comfort }

abbrev dim : CommandEnvelope
dim = record {
  id = 1;
  actor_id = 7;
  device_id = 20;
  endpoint_id = text "main";
  capability = dimmer;
  payload = level (record { percent = 40; transition_ms = some 500 });
  idempotency_key = text "dim-1";
  deadline = 100;
  expected = none;
  dry_run = false;
  correlation_id = 9;
  causation_event_id = none;
  automation_causation = none;
  received_at = 10;
}

validate_iff_example : (validate dim 50 ≡ ok tt) ↔ (
    (50 < dim.deadline)
    × (dim.capability.name ≡ capability_name dim.payload)
    × (dim.capability.version ≡ 1)
    × InRange dim.payload)
validate_iff_example = validate_iff dim 50

abbrev happy : List (CommandState × ℕ)
happy = (validated, 11) ∷ (validated, 12) ∷ (dispatched, 13) ∷ (confirmed, 14) ∷ (failed, 15) ∷ []

happy_ends : (attempts (receive dim) happy).state ≡ confirmed
unfolding attempts attempt transition receive
happy_ends = refl

happy_accepted : accepted (receive dim) happy ≡ 3
unfolding accepted accepted_one attempt transition receive
happy_accepted = refl

attempts-version_example :
    ((attempts (receive dim) happy).version ≡ accepted (receive dim) happy)
    × ((attempts (receive dim) happy).version ≤ depth (attempts (receive dim) happy).state)
    × ((attempts (receive dim) happy).version ≤ 4)
attempts-version_example = attempts-version dim happy

dispatch_needs_validation_example : ValidatedThenDispatched happy
unfolding attempts attempt transition receive
dispatch_needs_validation_example = dispatch_needs_validation dim happy refl

abbrev validated_dim : CommandAggregate
validated_dim = record {
  envelope = dim;
  state = validated;
  version = 1;
  policy = none;
  acknowledgement = none;
  confirmation = none;
  failure = none;
  updated_at = 11;
}
