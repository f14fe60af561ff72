-- ===== src/Reconciliation/Examples.antt =====
-- A reconciliation of two candidates with one kept record.
use homemagic.Prelude.{
  length, All, ok, err, Text, text, ℕ, ◌+◌, ◌*◌, ◌≡◌, refl, false, none, some, [], ◌∷◌, arith,
}
use homemagic.Lifecycle.{
  enrolled, stale, rediscover, unknown, online, availability_state_beq, unknown_at,
  change_availability,
}
use homemagic.Timestamps.{TimestampError, first_seen_at, record_seen, record_success}
use homemagic.Repository.{insert_by}
use homemagic.Repository.Upserts.{find, find_last}
use homemagic.Capability.{CapabilityDescriptor}
use homemagic.Device.{
  collect_endpoints, DeviceSnapshot, DiscoveryCandidate, DeviceRecord, replace_snapshot,
  transition as transition_record,
}
use homemagic.Reconciliation.{
  Library, refused_timestamp, ReconciliationOutcome, system_causation, native_get, collect_records,
  collect_index, start,
}
use homemagic.Reconciliation.Record.{
  lifecycle_event, availability_event, enroll_with, enroll_again, bring_online, update_record,
}
use homemagic.Reconciliation.Rounds.{
  collision, collide, update_known, meet_known, meet, round, rounds, reconcile,
}
use homemagic.Reconciliation.Renewal.{IsKept}
use homemagic.Reconciliation.Linked.{IsDerived}
use homemagic.Reconciliation.Outcome.{reconcile-accounts}
use homemagic.Reconciliation.Presence.{IsReported, reconcile-IsReported}
use homemagic.Reconciliation.Settings.{reconcile-IsKept}
use homemagic.Reconciliation.Failures.{reconcile_error}

abbrev Value : Type 0
Value = ℕ

abbrev numbered : Library CapabilityDescriptor Value
numbered = record {
  from_integration = λ i n. i * 10 + length n;
  descriptor = λ d. d;
  record_beq = λ a b. false;
  event_id = λ n. 100 + n;
  repair_id = λ n. 200 + n;
}

abbrev relay_at : ℕ → Text → DeviceSnapshot CapabilityDescriptor Value
relay_at at name = record {
  id = 35;
  native_id = text "relay";
  integration = text "test";
  name = name;
  manufacturer = text "Test";
  model = text "Fixture";
  network = [];
  endpoints = [];
  observed_at = at;
  vendor_data = [];
}

abbrev stale_relay : DeviceRecord CapabilityDescriptor Value
stale_relay = record {
  installation_id = 1;
  integration_id = 3;
  snapshot = relay_at 10 (text "Relay");
  lifecycle = stale;
  availability = unknown_at 10;
  timestamps = first_seen_at 10;
  aliases = text "Desk" ∷ [];
  spaces = 7 ∷ [];
  capability_descriptors = [];
}

abbrev seen_again : ℕ → DiscoveryCandidate CapabilityDescriptor Value
seen_again at = record {
  installation_id = 1;
  integration_id = 3;
  snapshot = relay_at at (text "Renamed");
  discovered_at = at;
  repairs = [];
}

abbrev impostor : DiscoveryCandidate CapabilityDescriptor Value
impostor = record {
  installation_id = 1;
  integration_id = 4;
  snapshot = relay_at 22 (text "Other");
  discovered_at = 22;
  repairs = [];
}

abbrev returned_relay : DeviceRecord CapabilityDescriptor Value
returned_relay = record {
  installation_id = 1;
  integration_id = 3;
  snapshot = relay_at 20 (text "Renamed");
  lifecycle = enrolled;
  availability = record { state = online; since = 20; reason = none };
  timestamps = record { first_seen = 10; last_seen = 20; last_success = some 20 };
  aliases = text "Desk" ∷ [];
  spaces = 7 ∷ [];
  capability_descriptors = [];
}

abbrev returned : ReconciliationOutcome CapabilityDescriptor Value
returned = record {
  devices = returned_relay ∷ [];
  events =
      lifecycle_event numbered 0 returned_relay stale rediscover (system_causation 1)
      ∷ availability_event numbered 1 returned_relay unknown (system_causation 1)
      ∷ [];
  repairs = collision numbered 0 impostor 45 ∷ [];
  accepted = 1;
}

returned_lem : reconcile numbered 1 (stale_relay ∷ []) (seen_again 20 ∷ impostor ∷ []) ≡ ok returned
unfolding collect_endpoints reconcile start collect_records collect_index insert_by rounds round
    meet native_get find meet_known update_known update_record replace_snapshot record_seen
    record_success enroll_again enroll_with transition_record bring_online change_availability
    availability_state_beq collide collision unknown_at first_seen_at
returned_lem = refl

reconcile-accounts_example : 1 + 1 ≡ 2 + 0
reconcile-accounts_example =
    reconcile-accounts numbered 1 (stale_relay ∷ []) (seen_again 20 ∷ impostor ∷ []) returned
      returned_lem

reconcile-IsReported_example :
    Unit {0} × All (IsReported numbered (seen_again 20 ∷ impostor ∷ [])) (returned_relay ∷ [])
reconcile-IsReported_example =
    reconcile-IsReported numbered 1 (stale_relay ∷ []) (seen_again 20 ∷ impostor ∷ []) returned
      returned_lem

stale_relay-IsDerived : All (IsDerived numbered) (stale_relay ∷ [])
stale_relay-IsDerived = (refl, tt)

reconcile-IsKept_example :
    All (λ r. r.snapshot.id ≡ 35 → IsKept stale_relay r) (returned_relay ∷ [])
unfolding find_last
reconcile-IsKept_example =
    reconcile-IsKept numbered stale_relay 1 (stale_relay ∷ []) (seen_again 20 ∷ impostor ∷ [])
      returned stale_relay-IsDerived refl
      ((λ g e. (refl, refl)), ((λ g e. absurd (ground arith)), tt)) returned_lem

too_early_lem :
    reconcile numbered 1 (stale_relay ∷ []) (seen_again 9 ∷ [])
    ≡ err (refused_timestamp (record { first_seen = 10; attempted = 9 }))
unfolding collect_endpoints reconcile start collect_records collect_index insert_by rounds round
    meet native_get find meet_known update_known update_record record_seen first_seen_at
too_early_lem = refl

reconcile_error_example :
    (t : TimestampError) × (refused_timestamp (record { first_seen = 10; attempted = 9 })
      ≡ refused_timestamp t)
reconcile_error_example =
    reconcile_error numbered 1 (stale_relay ∷ []) (seen_again 9 ∷ []) _ stale_relay-IsDerived
      too_early_lem
