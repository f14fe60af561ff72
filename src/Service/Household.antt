-- ===== src/Service/Household.antt =====
-- The devices, the residents and the commands of a house with a lamp and a door lock.
use homemagic.Prelude.{text, ℕ, true, false, none, some, List, [], ◌∷◌}
use homemagic.Actor.{Actor, user, execute, installation, ActorGrant, approve_unlock, capability}
use homemagic.Capability.{comfort, security}
use homemagic.Capability.Snapshot.{CapabilitySnapshot}
use homemagic.Command.{
  CommandPayload, unlock, lock, CommandEnvelope, CommandAggregate, CommandState, validated, set,
  toggle,
}
use homemagic.Device.{DeviceSnapshot, DeviceRecord}
use homemagic.Lifecycle.{DeviceLifecycle, AvailabilityState}
use homemagic.Service.Boundary.{CommandRequest}

abbrev pub snapshot : ℕ → List (CapabilitySnapshot ℕ) → DeviceSnapshot (CapabilitySnapshot ℕ) ℕ
snapshot id capabilities = record {
  id = id;
  native_id = text "main";
  integration = text "test";
  name = text "Device";
  manufacturer = text "Test";
  model = text "Fixture";
  network = [];
  endpoints = record { id = text "main"; name = none; capabilities = capabilities } ∷ [];
  observed_at = 10;
  vendor_data = [];
}

abbrev pub lamp : DeviceRecord (CapabilitySnapshot ℕ) ℕ
lamp = record {
  installation_id = 1;
  integration_id = 3;
  snapshot = snapshot 20 (CapabilitySnapshot.on_off true comfort ∷ []);
  lifecycle = DeviceLifecycle.enrolled;
  availability = record { state = AvailabilityState.online; since = 10; reason = none };
  timestamps = record { first_seen = 1; last_seen = 10; last_success = some 10 };
  aliases = [];
  spaces = [];
  capability_descriptors =
      (text "main", record { name = text "on_off"; version = 1; risk = comfort } ∷ []) ∷ [];
}

abbrev pub door : DeviceRecord (CapabilitySnapshot ℕ) ℕ
door = record lamp {
  snapshot = snapshot 21 (CapabilitySnapshot.access_control (some true) ∷ []);
  capability_descriptors =
      (text "main", record { name = text "access_control"; version = 1; risk = security } ∷ [])
      ∷ [];
}

abbrev pub resident : ℕ → Actor
resident id = record {
  id = id;
  installation_id = 1;
  kind = user;
  name = text "Resident";
  enabled = true;
  created_at = 0;
}

abbrev pub grants : ℕ → List ActorGrant
grants id =
    record {
      id = 50;
      actor_id = id;
      actions = execute ∷ [];
      scope = installation 1;
      maximum_risk = comfort;
      enabled = true;
    }
    ∷ record {
      id = 51;
      actor_id = id;
      actions = execute ∷ approve_unlock ∷ [];
      scope = capability 21 (text "main") (text "access_control.v1");
      maximum_risk = security;
      enabled = true;
    }
    ∷ []

-- The reversal of the lamp's state.
abbrev pub reverse_lamp : CommandRequest
reverse_lamp = record {
  device_id = 20;
  endpoint_id = text "main";
  payload = CommandPayload.on_off toggle;
  idempotency_key = text "lamp-1";
  deadline = 100;
  expected = none;
  dry_run = false;
  correlation_id = 9;
  causation_event_id = none;
  automation_causation = none;
}

abbrev pub switch_off : CommandEnvelope
switch_off = record {
  id = 12;
  actor_id = 7;
  device_id = 20;
  endpoint_id = text "main";
  capability = record { name = text "on_off"; version = 1; risk = comfort };
  payload = CommandPayload.on_off (set false);
  idempotency_key = text "lamp-1";
  deadline = 100;
  expected = none;
  dry_run = false;
  correlation_id = 9;
  causation_event_id = none;
  automation_causation = none;
  received_at = 12;
}

abbrev pub open_door : CommandEnvelope
open_door = record switch_off {
  id = 30;
  device_id = 21;
  capability = record { name = text "access_control"; version = 1; risk = security };
  payload = CommandPayload.access_control unlock;
}

-- The door is to be locked, with the command that has the slot of the door lock.
abbrev pub lock_door : CommandEnvelope
lock_door = record open_door { payload = CommandPayload.access_control lock }

abbrev pub in_state : CommandEnvelope → CommandState → CommandAggregate
in_state envelope state = record {
  envelope = envelope;
  state = state;
  version = 1;
  policy = none;
  acknowledgement = none;
  confirmation = none;
  failure = none;
  updated_at = 12;
}

abbrev pub page : List CommandAggregate
page = in_state switch_off validated ∷ in_state open_door CommandState.dispatched ∷ []
