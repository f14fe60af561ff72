-- ===== src/Device.antt =====
-- crates/homemagic-domain/src/device.rs: discovered snapshots and durable device records. A
-- capability is a type P with its descriptor, and a JSON value a type J.
use homemagic.Capability.{CapabilityDescriptor}
use homemagic.Lifecycle.{
  Availability, DeviceLifecycle, LifecycleTrigger, LifecycleTransitionError, unknown_at,
  transition as change_lifecycle,
}
use homemagic.Timestamps.{DeviceTimestamps, first_seen_at}
use homemagic.Freshness.{FreshnessPolicy, FreshnessState, evaluate}
use homemagic.Repair.{RepairRecord}
use homemagic.Prelude.{Result, ok, ◌>>=◌, insert_sorted, Text, ℕ, Option, List, [], ◌∷◌, map}

pub record EndpointSnapshot (P : Type 0) : Type 0 where
  pub id : Text
  pub name : Option Text
  pub capabilities : List P

pub record NetworkLocation : Type 0 where
  pub host : Text
  pub port : ℕ

pub record DeviceSnapshot (P J : Type 0) : Type 0 where
  pub id : ℕ
  pub native_id : Text
  pub integration : Text
  pub name : Text
  pub manufacturer : Text
  pub model : Text
  pub network : List NetworkLocation
  pub endpoints : List (EndpointSnapshot P)
  pub observed_at : ℕ
  pub vendor_data : List (Text × J)

pub record DiscoveryCandidate (P J : Type 0) : Type 0 where
  pub installation_id : ℕ
  pub integration_id : ℕ
  pub snapshot : DeviceSnapshot P J
  pub discovered_at : ℕ
  pub repairs : List RepairRecord

pub record DeviceRecord (P J : Type 0) : Type 0 where
  pub installation_id : ℕ
  pub integration_id : ℕ
  pub snapshot : DeviceSnapshot P J
  pub lifecycle : DeviceLifecycle
  pub availability : Availability
  pub timestamps : DeviceTimestamps
  pub aliases : List Text
  pub spaces : List ℕ
  pub capability_descriptors : List (Text × List CapabilityDescriptor)

module _ {P : Type 0} (descriptor : P → CapabilityDescriptor) where
  -- The collection of the endpoints into a map.
  unfoldable pub collect_endpoints :
      List (EndpointSnapshot P)
      → List (Text × List CapabilityDescriptor)
      → List (Text × List CapabilityDescriptor)
  collect_endpoints [] m = m
  collect_endpoints (e ∷ es) m =
      collect_endpoints es (insert_sorted e.id (map descriptor e.capabilities) m)

module _ {P J : Type 0} (descriptor : P → CapabilityDescriptor) where
  unfoldable pub descriptors : DeviceSnapshot P J → List (Text × List CapabilityDescriptor)
  descriptors s = collect_endpoints descriptor s.endpoints []

  -- DeviceRecord::candidate
  unfoldable pub candidate : ℕ → ℕ → DeviceSnapshot P J → ℕ → DeviceRecord P J
  unfolding descriptors
  candidate installation_id integration_id snapshot first_seen = record {
    installation_id = installation_id;
    integration_id = integration_id;
    snapshot = snapshot;
    lifecycle = DeviceLifecycle.candidate;
    availability = unknown_at first_seen;
    timestamps = first_seen_at first_seen;
    aliases = [];
    spaces = [];
    capability_descriptors = descriptors snapshot;
  }

  -- DeviceRecord::replace_snapshot
  unfoldable pub replace_snapshot : DeviceRecord P J → DeviceSnapshot P J → DeviceRecord P J
  unfolding descriptors
  replace_snapshot r snapshot =
      let kept = record snapshot { id = r.snapshot.id } in
      record r { snapshot = kept; capability_descriptors = descriptors kept }

module _ {P J : Type 0} where
  -- DeviceRecord::transition
  unfoldable pub transition :
      DeviceRecord P J → LifecycleTrigger → Result (DeviceRecord P J) LifecycleTransitionError
  unfolding change_lifecycle
  transition r trigger = do
    lifecycle ← change_lifecycle r.lifecycle trigger
    ok (record r { lifecycle = lifecycle })

  -- DeviceRecord::freshness_at
  unfoldable pub freshness_at : DeviceRecord P J → FreshnessPolicy → ℕ → FreshnessState
  freshness_at r policy now = evaluate policy r.timestamps.last_success r.availability.state now
