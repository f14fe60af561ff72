-- ===== src/Observation.antt =====
-- crates/homemagic-domain/src/observation.rs: capability observations, merged field by field. The
-- JSON values are a type with a decidable equality, and identities numbers that only are compared.
mod Merge
mod Partial
mod Examples
use homemagic.Capability.{CapabilityDescriptor, rank}
use homemagic.Prelude.{
  leb, nat_beq, if◌then◌else◌, is_empty, Result, ok, err, lookup, insert_sorted, PartialEq, ◌==◌,
  nat_eq, Text, text_eq, ℕ, max, Bool, true, false, ◌&&◌, ◌||◌, not, Option, none, some, List, [],
  ◌∷◌,
}

pub record ObservedValue (V : Type 0) : Type 0 where
  pub value : V
  pub observed_at : ℕ

pub data ObservationSourceKind : Type 0 where
  full_status notification event refresh_fallback : ObservationSourceKind

pub record ObservationSource : Type 0 where
  pub integration_id : ℕ
  pub kind : ObservationSourceKind
  pub sequence : Option ℕ

pub record CapabilityObservation (V : Type 0) : Type 0 where
  pub device_id : ℕ
  pub endpoint_id : Text
  pub capability : CapabilityDescriptor
  pub values : List (Text × ObservedValue V)
  pub received_at : ℕ
  pub source : ObservationSource

pub data ObservationMergeError : Type 0 where
  target_mismatch : ObservationMergeError

-- `==` on capability descriptors.
unfoldable pub descriptor_beq : CapabilityDescriptor → CapabilityDescriptor → Bool
descriptor_beq a b =
    a.name == b.name && a.version == b.version && nat_beq (rank a.risk) (rank b.risk)

module _ {V : Type 0} ⦃e : PartialEq V⦄ where
  -- `==` on observed values, and on an optional one.
  unfoldable pub value_beq : ObservedValue V → ObservedValue V → Bool
  value_beq a b = a.value == b.value && nat_beq a.observed_at b.observed_at

  unfoldable pub is_value : Option (ObservedValue V) → ObservedValue V → Bool
  unfolding value_beq
  is_value none v = false
  is_value (some u) v = value_beq u v

  -- `existing.is_none_or(|existing| incoming.observed_at >= existing.observed_at)`
  unfoldable pub should_replace : Option (ObservedValue V) → ObservedValue V → Bool
  should_replace none incoming = true
  should_replace (some existing) incoming = leb existing.observed_at incoming.observed_at

  -- One round of the loop: the new values, and whether the field counts as changed.
  unfoldable pub merge_field :
      List (Text × ObservedValue V) → Text → ObservedValue V → List (Text × ObservedValue V) × Bool
  unfolding should_replace is_value
  merge_field values field incoming =
      let existing = lookup field values in
      if should_replace existing incoming
      then (insert_sorted field incoming values, not (is_value existing incoming))
      else (values, false)

  -- The loop over the fields of the patch.
  unfoldable pub merge_fields :
      List (Text × ObservedValue V)
      → List (Text × ObservedValue V)
      → List (Text × ObservedValue V) × List Text
  unfolding merge_field
  merge_fields values [] = (values, [])
  merge_fields values ((field, incoming) ∷ rest) =
      let (values', changed) = merge_field values field incoming in
      let (merged, fields) = merge_fields values' rest in
      (merged, if changed then field ∷ fields else fields)

  -- CapabilityObservation::merge_partial
  unfoldable pub merge_partial :
      CapabilityObservation V
      → CapabilityObservation V
      → Result (CapabilityObservation V × List Text) ObservationMergeError
  unfolding descriptor_beq merge_fields
  merge_partial self patch =
      let (values, changed) = merge_fields self.values patch.values in
      if not (self.device_id == patch.device_id)
        || not (self.endpoint_id == patch.endpoint_id)
        || not (descriptor_beq self.capability patch.capability)
        || not (self.source.integration_id == patch.source.integration_id)
      then err target_mismatch
      else if is_empty changed
      then ok (record self { values = values }, changed)
      else ok (
        record self {
          values = values;
          received_at = max self.received_at patch.received_at;
          source = patch.source;
        },
        changed,
      )
