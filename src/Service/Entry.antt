-- ===== src/Service/Entry.antt =====
-- crates/homemagic-application/src/command_service.rs: the operations by which an actor requests a
-- command, reads its commands and cancels one; canonical hashes are also of ports.rs.
use homemagic.Prelude.{
  ltb, leb, if◌then◌else◌, length, any, all, find, Result, ok, err, give, await, Text, text_eq,
  nat_eq, ◌==◌, ℕ, ◌+◌, ◌/◌, ◌%◌, max, min, Bool, true, false, ◌&&◌, ◌||◌, not, Option, none, some,
  List, [], ◌∷◌,
}
use homemagic.Actor.{Actor}
use homemagic.Capability.{CapabilityDescriptor, schema}
use homemagic.Capability.Snapshot.{CapabilitySnapshot}
use homemagic.Command.{
  CommandEnvelope, payload_schema, CommandAggregate, CommandState, received, validated, cancelled,
  is_terminal, receive,
}
use homemagic.Device.{DeviceRecord}
use homemagic.Service.{
  ◌>>=◌, call, CommandAuditRecord, CommandServiceError, command_not_found, actor_mismatch,
  not_cancellable, canonical_serialization, invalid_descriptor, idempotency_conflict, repository,
  Run, transition, audit as audit_entry,
}
use homemagic.Service.Boundary.{
  CommandCreateOutcome, created, existing_equivalent, conflict, CommandRequest, CanonicalRequest,
  CommandService, from_result, from_option, load_device, publish,
}
use homemagic.Service.Target.{requested_descriptor, effective_payload, offered}
use homemagic.Service.Request.{continue_received}

-- The characters of a digest; of the tests of CanonicalRequestHash::new, the first two.
abbrev pub is_hex_digit : ℕ → Bool
is_hex_digit c = (leb 48 c && leb c 57) || (leb 65 c && leb c 70) || (leb 97 c && leb c 102)

abbrev pub is_uppercase : ℕ → Bool
is_uppercase c = leb 65 c && leb c 90

abbrev pub hex_digit : ℕ → ℕ
hex_digit n = if ltb n 10 then 48 + n else 87 + n

unfoldable pub hex : List ℕ → Text
hex [] = []
hex (byte ∷ bytes) = hex_digit (byte / 16) ∷ hex_digit (byte % 16) ∷ hex bytes

module _ {B : Type 0} where
  -- CanonicalRequestHash::new with the error that `canonical_hash` makes of its own.
  unfoldable pub check_hash : Text → Result Text (CommandServiceError B)
  check_hash value =
      if not (length value == 64) || not (all is_hex_digit value) || any is_uppercase value
      then err invalid_descriptor
      else ok value

  -- The commands of another actor are no answer.
  unfoldable pub owned_by :
      ℕ → Option CommandAggregate → Result (Option CommandAggregate) (CommandServiceError B)
  owned_by actor_id none = ok none
  owned_by actor_id (some c) =
      if not (c.envelope.actor_id == actor_id) then err actor_mismatch else ok (some c)

-- `limit.clamp(1, 256)`
abbrev pub page_size : ℕ → ℕ
page_size limit = min (max limit 1) 256

abbrev pub is_cancellable : CommandState → Bool
is_cancellable received = true
is_cancellable validated = true
is_cancellable _ = false

abbrev pub canonical_request : ℕ → CommandRequest → CanonicalRequest
canonical_request actor_id request = record {
  actor_id = actor_id;
  device_id = request.device_id;
  endpoint_id = request.endpoint_id;
  payload = request.payload;
  deadline = request.deadline;
  expected = request.expected;
  dry_run = request.dry_run;
}

module _ {F J : Type 0} where
  -- The descriptor that the device offers for the payload, or else the requested one.
  unfoldable pub chosen_descriptor :
      CommandRequest
      → DeviceRecord (CapabilitySnapshot F) J
      → CapabilityDescriptor
      → CapabilityDescriptor
  chosen_descriptor request device fallback =
      elim (find (λ d. schema d == payload_schema request.payload)
        (offered request.endpoint_id device)) [ none ↦ fallback | some descriptor ↦ descriptor ]

module _ {W B F J : Type 0} (service : CommandService W B F J) where
  -- `canonical_hash` for the answer of the encoder.
  unfoldable pub hash_encoded : Result (List ℕ) B → Result Text (CommandServiceError B)
  unfolding check_hash hex
  hash_encoded (ok encoded) = check_hash (hex (service.stores.digest encoded))
  hash_encoded (err e) = err (canonical_serialization e)

  unfoldable pub canonical_hash : ℕ → CommandRequest → Result Text (CommandServiceError B)
  unfolding hash_encoded
  canonical_hash actor_id request =
      hash_encoded (service.stores.to_vec (canonical_request actor_id request))

  -- The envelope that `execute` makes.
  unfoldable pub envelope_of :
      ℕ
      → ℕ
      → CommandRequest
      → DeviceRecord (CapabilitySnapshot F) J
      → CapabilityDescriptor
      → ℕ
      → CommandEnvelope
  unfolding effective_payload chosen_descriptor
  envelope_of id actor_id request device fallback now = record {
    id = id;
    actor_id = actor_id;
    device_id = request.device_id;
    endpoint_id = request.endpoint_id;
    capability = chosen_descriptor request device fallback;
    payload = effective_payload request.payload request.endpoint_id device service.freshness now;
    idempotency_key = request.idempotency_key;
    deadline = request.deadline;
    expected = request.expected;
    dry_run = request.dry_run;
    correlation_id = request.correlation_id;
    causation_event_id = request.causation_event_id;
    automation_causation = request.automation_causation;
    received_at = now;
  }

  -- The match on the answer of `create_command`, with the call behind it.
  unfoldable pub continue_created :
      CommandAggregate
      → CommandAuditRecord
      → DeviceRecord (CapabilitySnapshot F) J
      → ℕ
      → ℕ
      → CommandCreateOutcome
      → Run W B CommandAggregate
  unfolding publish continue_received
  continue_created command receipt device actor_id now (existing_equivalent existing) =
      give existing
  continue_created command receipt device actor_id now (conflict existing) =
      from_result (err (idempotency_conflict existing))
  continue_created command receipt device actor_id now (created c) = do
    _ ← publish service receipt
    continue_received service command device actor_id now

  -- `execute` from the creation of the command on.
  unfoldable pub create :
      CommandAggregate
      → CommandRequest
      → DeviceRecord (CapabilitySnapshot F) J
      → ℕ
      → ℕ
      → Run W B CommandAggregate
  unfolding canonical_hash continue_created audit_entry
  create command request device actor_id now = do
    request_hash ← from_result (canonical_hash actor_id request)
    id ← call service.services.new_audit_id
    let receipt = audit_entry id command none
    outcome ← await repository (service.stores.create_command command request_hash receipt)
    continue_created command receipt device actor_id now outcome

  -- CommandService::execute
  unfoldable pub execute : Actor → CommandRequest → ℕ → Run W B CommandAggregate
  unfolding load_device requested_descriptor envelope_of receive create
  execute actor request now = do
    device ← load_device service request.device_id
    fallback ← from_result (requested_descriptor request.payload)
    id ← call service.stores.new_command_id
    create (receive (envelope_of id actor.id request device fallback now)) request device actor.id
        now

  -- CommandService::get
  unfoldable pub get : ℕ → ℕ → Run W B (Option CommandAggregate)
  unfolding owned_by
  get actor_id command_id = do
    found ← await repository (service.stores.command command_id)
    from_result (owned_by actor_id found)

  -- CommandService::list
  unfoldable pub list : ℕ → ℕ → Run W B (List CommandAggregate)
  list actor_id limit = await repository (service.stores.actor_commands actor_id (page_size limit))

  -- CommandService::audit
  unfoldable pub audit : ℕ → ℕ → Option ℕ → ℕ → Run W B (List CommandAuditRecord)
  unfolding get
  audit actor_id command_id after_sequence limit = do
    found ← get actor_id command_id
    _ ← from_option command_not_found found
    await repository (service.stores.command_audit command_id after_sequence (page_size limit))

  -- `cancel` for the command that was found.
  unfoldable pub cancel_found : CommandAggregate → ℕ → Run W B CommandAggregate
  unfolding transition is_terminal
  cancel_found command now =
      if is_terminal command || not (is_cancellable command.state)
      then from_result (err not_cancellable)
      else transition service.services command cancelled now

  -- CommandService::cancel
  unfoldable pub cancel : ℕ → ℕ → ℕ → Run W B CommandAggregate
  unfolding get cancel_found
  cancel actor_id command_id now = do
    found ← get actor_id command_id
    command ← from_option command_not_found found
    cancel_found command now
