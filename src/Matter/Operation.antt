-- ===== src/Matter/Operation.antt =====
-- crates/homemagic-domain/src/matter/operation.rs: the durable Matter controller operation and its
-- phases. Revisions are 64-bit, and identities numbers that only are compared.
mod Phases
mod Persisted
mod Examples
use homemagic.Prelude.{
  ltb, nat_beq, if◌then◌else◌, Result, ok, err, ◌>>=◌, ◌>>◌, require, ℕ, ◌+◌, Bool, true, false,
  ◌&&◌, ◌||◌, not, Option, none, some,
}

pub data MatterOperationKind : Type 0 where
  create_fabric commission_node cancel_commissioning remove_node : MatterOperationKind
  export_fabric restore_fabric repair_subscription : MatterOperationKind

pub data MatterOperationPhase : Type 0 where
  requested creating_fabric validating_setup discovering : MatterOperationPhase
  establishing_session commissioning projecting subscribing : MatterOperationPhase
  cancelling removing_node cleaning_secrets exporting : MatterOperationPhase
  restoring loading_fabric reading_gap completed : MatterOperationPhase
  cancelled failed repair_required : MatterOperationPhase

-- MatterOperationPhase::is_terminal
unfoldable pub is_terminal : MatterOperationPhase → Bool
is_terminal completed = true
is_terminal cancelled = true
is_terminal failed = true
is_terminal repair_required = true
is_terminal _ = false

pub data MatterOperationTarget : Type 0 where
  fabric : ℕ → MatterOperationTarget
  operation : ℕ → ℕ → MatterOperationTarget
  node : ℕ → ℕ → MatterOperationTarget

pub record MatterOperation : Type 0 where
  pub id : ℕ
  pub kind : MatterOperationKind
  pub target : MatterOperationTarget
  pub phase : MatterOperationPhase
  pub revision : ℕ
  pub created_at : ℕ
  pub updated_at : ℕ

pub data MatterOperationTransitionError : Type 0 where
  time_moved_backwards already_terminal : MatterOperationTransitionError
  invalid_phase :
      MatterOperationKind
      → MatterOperationPhase
      → MatterOperationPhase
      → MatterOperationTransitionError
  revision_exhausted zero_revision requested_revision_mismatch : MatterOperationTransitionError
  phase_revision_mismatch : MatterOperationTransitionError
  invalid_persisted_phase :
      MatterOperationKind → MatterOperationPhase → MatterOperationTransitionError

-- MatterOperation::new, with the fresh identity as an argument.
unfoldable pub new : ℕ → MatterOperationKind → MatterOperationTarget → ℕ → MatterOperation
new id kind target created_at = record {
  id = id;
  kind = kind;
  target = target;
  phase = requested;
  revision = 1;
  created_at = created_at;
  updated_at = created_at;
}

abbrev pub is_requested : MatterOperationPhase → Bool
is_requested requested = true
is_requested _ = false

-- phase_allowed: the phases of each kind.
unfoldable pub phase_of_kind : MatterOperationKind → MatterOperationPhase → Bool
phase_of_kind create_fabric creating_fabric = true
phase_of_kind commission_node validating_setup = true
phase_of_kind commission_node discovering = true
phase_of_kind commission_node establishing_session = true
phase_of_kind commission_node commissioning = true
phase_of_kind commission_node projecting = true
phase_of_kind commission_node subscribing = true
phase_of_kind cancel_commissioning cancelling = true
phase_of_kind remove_node removing_node = true
phase_of_kind remove_node cleaning_secrets = true
phase_of_kind export_fabric exporting = true
phase_of_kind restore_fabric restoring = true
phase_of_kind restore_fabric loading_fabric = true
phase_of_kind repair_subscription reading_gap = true
phase_of_kind repair_subscription subscribing = true
phase_of_kind _ _ = false

unfoldable pub phase_allowed : MatterOperationKind → MatterOperationPhase → Bool
unfolding is_terminal phase_of_kind
phase_allowed kind phase =
    if is_terminal phase || is_requested phase then true else phase_of_kind kind phase

unfoldable pub valid_create_fabric_transition : MatterOperationPhase → MatterOperationPhase → Bool
valid_create_fabric_transition requested creating_fabric = true
valid_create_fabric_transition creating_fabric completed = true
valid_create_fabric_transition _ _ = false

unfoldable pub valid_commission_transition : MatterOperationPhase → MatterOperationPhase → Bool
valid_commission_transition requested validating_setup = true
valid_commission_transition validating_setup discovering = true
valid_commission_transition discovering establishing_session = true
valid_commission_transition establishing_session commissioning = true
valid_commission_transition commissioning projecting = true
valid_commission_transition projecting subscribing = true
valid_commission_transition subscribing completed = true
valid_commission_transition _ _ = false

unfoldable pub valid_cancel_transition : MatterOperationPhase → MatterOperationPhase → Bool
valid_cancel_transition requested cancelling = true
valid_cancel_transition cancelling completed = true
valid_cancel_transition _ _ = false

unfoldable pub valid_remove_transition : MatterOperationPhase → MatterOperationPhase → Bool
valid_remove_transition requested removing_node = true
valid_remove_transition removing_node cleaning_secrets = true
valid_remove_transition cleaning_secrets completed = true
valid_remove_transition _ _ = false

unfoldable pub valid_export_transition : MatterOperationPhase → MatterOperationPhase → Bool
valid_export_transition requested exporting = true
valid_export_transition exporting completed = true
valid_export_transition _ _ = false

unfoldable pub valid_restore_transition : MatterOperationPhase → MatterOperationPhase → Bool
valid_restore_transition requested restoring = true
valid_restore_transition restoring loading_fabric = true
valid_restore_transition loading_fabric completed = true
valid_restore_transition _ _ = false

unfoldable pub valid_subscription_transition : MatterOperationPhase → MatterOperationPhase → Bool
valid_subscription_transition requested reading_gap = true
valid_subscription_transition reading_gap subscribing = true
valid_subscription_transition subscribing completed = true
valid_subscription_transition _ _ = false

-- The `match kind` of valid_transition.
unfoldable pub valid_step : MatterOperationKind → MatterOperationPhase → MatterOperationPhase → Bool
unfolding valid_create_fabric_transition valid_commission_transition valid_cancel_transition
    valid_remove_transition valid_export_transition valid_restore_transition
    valid_subscription_transition
valid_step create_fabric from to = valid_create_fabric_transition from to
valid_step commission_node from to = valid_commission_transition from to
valid_step cancel_commissioning from to = valid_cancel_transition from to
valid_step remove_node from to = valid_remove_transition from to
valid_step export_fabric from to = valid_export_transition from to
valid_step restore_fabric from to = valid_restore_transition from to
valid_step repair_subscription from to = valid_subscription_transition from to

abbrev pub is_cancellable : MatterOperationKind → Bool
is_cancellable commission_node = true
is_cancellable cancel_commissioning = true
is_cancellable _ = false

-- valid_transition
unfoldable pub valid_transition :
    MatterOperationKind → MatterOperationPhase → MatterOperationPhase → Bool
unfolding valid_step
valid_transition kind from failed = true
valid_transition kind from repair_required = true
valid_transition kind from cancelled = is_cancellable kind
valid_transition kind from to = valid_step kind from to

abbrev pub u64_max : ℕ
u64_max = 0xFFFF_FFFF_FFFF_FFFF

-- u64::checked_add(1)
abbrev pub checked_suc : ℕ → Option ℕ
checked_suc n = if ltb n u64_max then some (n + 1) else none

abbrev pub ok_or {ℓ κ} : {A : Type ℓ} {E : Type κ} → Option A → E → Result A E
ok_or none e = err e
ok_or (some a) e = ok a

-- MatterOperation::transition
unfoldable pub transition :
    MatterOperation
    → MatterOperationPhase
    → ℕ
    → Result MatterOperation MatterOperationTransitionError
transition o next at = do
  require (not (ltb at o.updated_at)) time_moved_backwards
  require (not (is_terminal o.phase)) already_terminal
  require (valid_transition o.kind o.phase next) (invalid_phase o.kind o.phase next)
  revision ← ok_or (checked_suc o.revision) revision_exhausted
  ok (record o { revision = revision; phase = next; updated_at = at })

-- MatterOperation::validate_persisted
unfoldable pub validate_persisted :
    MatterOperation → Result (Unit {0}) MatterOperationTransitionError
validate_persisted o = do
  require (not (nat_beq o.revision 0)) zero_revision
  require (not (ltb o.updated_at o.created_at)) time_moved_backwards
  require (not (is_requested o.phase && not (nat_beq o.revision 1))) requested_revision_mismatch
  require (not (not (is_requested o.phase) && ltb o.revision 2)) phase_revision_mismatch
  require (phase_allowed o.kind o.phase) (invalid_persisted_phase o.kind o.phase)
