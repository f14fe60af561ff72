-- ===== src/Reconciliation.antt =====
-- crates/homemagic-application/src/reconciliation.rs: discovered candidates against the device
-- records that are kept. The derived identity of a device, the equality of records and the fresh
-- identities are parameters; the maps are lists of entries. The loop's variables are one state.
mod Record
mod Rounds
mod Steps
mod Renewal
mod Outcome
mod Index
mod Linked
mod Failures
mod Settings
mod Presence
mod Examples
use homemagic.Prelude.{
  nat_beq, if◌then◌else◌, Text, text_beq, text, ℕ, Bool, ◌&&◌, Option, none, some, List, [], ◌∷◌,
}
use homemagic.Capability.{CapabilityDescriptor}
use homemagic.Lifecycle.{LifecycleTransitionError}
use homemagic.Timestamps.{TimestampError}
use homemagic.Repair.{RepairRecord}
use homemagic.Repository.{insert_by}
use homemagic.Event.{CausationMetadata, DomainEvent}
use homemagic.Device.{DeviceRecord}

-- What the loop calls: DeviceId::from_integration, the descriptor of a capability, `==` on records,
-- and EventId::new and RepairId::new, whose n-th calls give the n-th identity.
pub record Library (P J : Type 0) : Type 0 where
  pub from_integration : ℕ → Text → ℕ
  pub descriptor : P → CapabilityDescriptor
  pub record_beq : DeviceRecord P J → DeviceRecord P J → Bool
  pub event_id : ℕ → ℕ
  pub repair_id : ℕ → ℕ

-- The sources of ApplicationError::DomainInvariant.
pub data ReconciliationError : Type 0 where
  missing_device : ReconciliationError
  refused_transition : LifecycleTransitionError → ReconciliationError
  refused_timestamp : TimestampError → ReconciliationError

pub record ReconciliationOutcome (P J : Type 0) : Type 0 where
  pub devices : List (DeviceRecord P J)
  pub events : List DomainEvent
  pub repairs : List RepairRecord
  pub accepted : ℕ

-- The variables of the loop over the candidates.
pub record Progress (P J : Type 0) : Type 0 where
  pub records : List (ℕ × DeviceRecord P J)
  pub native_index : List ((ℕ × Text) × ℕ)
  pub changed : List (ℕ × DeviceRecord P J)
  pub events : List DomainEvent
  pub repairs : List RepairRecord
  pub accepted : ℕ

abbrev pub system_causation : ℕ → CausationMetadata
system_causation correlation_id = record {
  correlation_id = correlation_id;
  causation_event_id = none;
  actor = some (text "system:discovery");
  automation = none;
}

-- BTreeMap::get of the index; an entry in front replaces a later one.
unfoldable pub native_get : ℕ → Text → List ((ℕ × Text) × ℕ) → Option ℕ
native_get i n [] = none
native_get i n (((j, m), id) ∷ index) =
    if nat_beq j i && text_beq m n then some id else native_get i n index

module _ {P J : Type 0} where
  -- A map from identities to records, in increasing order.
  abbrev pub insert_record :
      DeviceRecord P J → List (ℕ × DeviceRecord P J) → List (ℕ × DeviceRecord P J)
  insert_record r m = insert_by (λ e. e.0) (r.snapshot.id, r) m

  -- `existing.into_iter().map(...).collect()`
  unfoldable pub collect_records :
      List (DeviceRecord P J) → List (ℕ × DeviceRecord P J) → List (ℕ × DeviceRecord P J)
  collect_records [] m = m
  collect_records (r ∷ rs) m = collect_records rs (insert_record r m)

  -- `records.values().map(...).collect()`
  unfoldable pub collect_index :
      List (ℕ × DeviceRecord P J) → List ((ℕ × Text) × ℕ) → List ((ℕ × Text) × ℕ)
  collect_index [] index = index
  collect_index ((_, r) ∷ m) index =
      collect_index m (((r.integration_id, r.snapshot.native_id), r.snapshot.id) ∷ index)

  unfoldable pub start : List (DeviceRecord P J) → Progress P J
  unfolding collect_records collect_index
  start existing =
      let records = collect_records existing [] in
      record {
        records = records;
        native_index = collect_index records [];
        changed = [];
        events = [];
        repairs = [];
        accepted = 0;
      }
