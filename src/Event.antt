-- ===== src/Event.antt =====
-- crates/homemagic-domain/src/event.rs: domain events with their causes.
use homemagic.Prelude.{Text, ℕ, Option, List}
use homemagic.Capability.{CapabilityDescriptor}
use homemagic.Lifecycle.{DeviceLifecycle, LifecycleTrigger, AvailabilityState}
use homemagic.Command.{AutomationCausation, CommandState}
use homemagic.Matter.Operation.{MatterOperationKind, MatterOperationPhase}
use homemagic.Automation.{AutomationVersionState, AutomationOperationalState, AutomationRunState}

pub record CausationMetadata : Type 0 where
  pub correlation_id : ℕ
  pub causation_event_id : Option ℕ
  pub actor : Option Text
  pub automation : Option AutomationCausation

pub data MatterOperationTransitionEventSchema : Type 0 where
  v1 : MatterOperationTransitionEventSchema

-- The fields of a payload in the order of the source.
pub data DomainEventKind : Type 0 where
  lifecycle_changed : DeviceLifecycle → DeviceLifecycle → LifecycleTrigger → DomainEventKind
  availability_changed : AvailabilityState → AvailabilityState → Option Text → DomainEventKind
  observation_changed : Text → CapabilityDescriptor → List Text → DomainEventKind
  device_event : Text → Text → DomainEventKind
  repair_changed : ℕ → DomainEventKind
  metadata_changed : List Text → DomainEventKind
  command_transitioned :
      ℕ → Option CommandState → CommandState → ℕ → Option Text → Option Text → DomainEventKind
  matter_operation_transitioned :
      MatterOperationTransitionEventSchema
      → ℕ
      → MatterOperationKind
      → Option MatterOperationPhase
      → MatterOperationPhase
      → ℕ
      → DomainEventKind
  automation_version_transitioned :
      ℕ → ℕ → Option AutomationVersionState → AutomationVersionState → DomainEventKind
  automation_operational_transitioned :
      ℕ → Option ℕ → AutomationOperationalState → AutomationOperationalState → ℕ → DomainEventKind
  automation_run_transitioned :
      ℕ → ℕ → ℕ → Option AutomationRunState → AutomationRunState → ℕ → DomainEventKind

pub record DomainEvent : Type 0 where
  pub id : ℕ
  pub device_id : Option ℕ
  pub occurred_at : ℕ
  pub causation : CausationMetadata
  pub kind : DomainEventKind
