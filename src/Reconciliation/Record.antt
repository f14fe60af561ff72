-- ===== src/Reconciliation/Record.antt =====
-- crates/homemagic-application/src/reconciliation.rs: a candidate and the record of its device.
use homemagic.Prelude.{
  if◌then◌else◌, length, Result, ok, ◌>>=◌, map_err, ℕ, suc, min, none, some, List, [], ◌∷◌, ◌++◌,
}
use homemagic.Lifecycle.{
  DeviceLifecycle, candidate, enrolled, LifecycleTrigger, enroll, rediscover, AvailabilityState,
  unknown, online, availability_state_beq, change_availability,
}
use homemagic.Timestamps.{record_seen, record_success}
use homemagic.Event.{CausationMetadata, lifecycle_changed, availability_changed, DomainEvent}
use homemagic.Device.{
  DiscoveryCandidate, DeviceRecord, replace_snapshot, transition as transition_record,
  candidate as candidate_record,
}
use homemagic.Reconciliation.{Library, ReconciliationError, refused_transition, refused_timestamp}

module _ {P J : Type 0} (lib : Library P J) where
  -- lifecycle_event
  unfoldable pub lifecycle_event :
      ℕ → DeviceRecord P J → DeviceLifecycle → LifecycleTrigger → CausationMetadata → DomainEvent
  lifecycle_event n r from trigger causation = record {
    id = lib.event_id n;
    device_id = some r.snapshot.id;
    occurred_at = r.snapshot.observed_at;
    causation = causation;
    kind = lifecycle_changed from r.lifecycle trigger;
  }

  -- availability_event
  unfoldable pub availability_event :
      ℕ → DeviceRecord P J → AvailabilityState → CausationMetadata → DomainEvent
  availability_event n r from causation = record {
    id = lib.event_id n;
    device_id = some r.snapshot.id;
    occurred_at = r.snapshot.observed_at;
    causation = causation;
    kind = availability_changed from r.availability.state r.availability.reason;
  }

  -- The parts of update_record that see to the enrollment.
  unfoldable pub enroll_with :
      LifecycleTrigger
      → DeviceRecord P J
      → CausationMetadata
      → List DomainEvent
      → Result (DeviceRecord P J × List DomainEvent) ReconciliationError
  unfolding transition_record lifecycle_event
  enroll_with trigger r causation events = do
    r' ← map_err refused_transition (transition_record r trigger)
    ok (r', events ++ lifecycle_event (length events) r' r.lifecycle trigger causation ∷ [])

  unfoldable pub enroll_again :
      DeviceRecord P J
      → CausationMetadata
      → List DomainEvent
      → Result (DeviceRecord P J × List DomainEvent) ReconciliationError
  unfolding enroll_with
  enroll_again r causation events = elim r.lifecycle [
    | enrolled ↦ ok (r, events)
    | candidate ↦ enroll_with enroll r causation events
    | _ ↦ enroll_with rediscover r causation events
  ]

  -- The part of update_record that sees to the availability.
  unfoldable pub bring_online :
      DeviceRecord P J → CausationMetadata → List DomainEvent → DeviceRecord P J × List DomainEvent
  unfolding change_availability availability_state_beq availability_event
  bring_online r causation events =
      let availability = change_availability r.availability online r.snapshot.observed_at none in
      let r' = record r { availability = availability } in
      if availability_state_beq r.availability.state availability.state
      then (r', events)
      else (r', events ++ availability_event (length events) r' r.availability.state causation ∷ [])

  -- update_record
  unfoldable pub update_record :
      DeviceRecord P J
      → DiscoveryCandidate P J
      → CausationMetadata
      → List DomainEvent
      → Result (DeviceRecord P J × List DomainEvent) ReconciliationError
  unfolding replace_snapshot record_seen record_success enroll_again bring_online
  update_record r c causation events = do
    seen ← map_err refused_timestamp (record_seen r.timestamps c.discovered_at)
    let replaced = replace_snapshot lib.descriptor r c.snapshot
    read ← map_err refused_timestamp (record_success seen replaced.snapshot.observed_at)
    (r', events') ← enroll_again (record replaced { timestamps = read }) causation events
    ok (bring_online r' causation events')

  -- The branch for a candidate that is not known.
  unfoldable pub enroll_new :
      DiscoveryCandidate P J
      → CausationMetadata
      → List DomainEvent
      → Result (DeviceRecord P J × List DomainEvent) ReconciliationError
  unfolding candidate_record transition_record record_success change_availability lifecycle_event
      availability_event
  enroll_new c causation events = do
    let first_seen = min c.discovered_at c.snapshot.observed_at
    let r = candidate_record lib.descriptor c.installation_id c.integration_id c.snapshot first_seen
    r' ← map_err refused_transition (transition_record r enroll)
    read ← map_err refused_timestamp (record_success r'.timestamps r'.snapshot.observed_at)
    let availability = change_availability r'.availability online r'.snapshot.observed_at none
    let r'' = record r' { timestamps = read; availability = availability }
    ok (
      r'',
      events
          ++ lifecycle_event (length events) r'' candidate enroll causation
            ∷ availability_event (suc (length events)) r'' unknown causation
            ∷ [],
    )
