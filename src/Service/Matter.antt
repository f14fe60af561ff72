-- ===== src/Service/Matter.antt =====
-- crates/homemagic-application/src/matter_commands.rs: the dispatch control of Matter projections, with
-- the data that it stores, from crates/homemagic-application/src/matter_repository.rs, and
-- `advance_matter_desired_state` of matter_projection.rs. The repositories are an interface over the
-- state W, in which each awaited call is one step; B is a boxed error, and the two functions that box
-- an error are parameters. Sums of an instant and a duration are taken to be representable.
pub mod Registration
pub mod Admission
pub mod Registering
pub mod Admitting
pub mod Committed
pub mod Unlocking
pub mod Contract
use homemagic.Prelude.{
  Result, ok, err, map_err, Call, chain, Text, ℕ, Bool, true, false, Option, none, some,
}
use homemagic.Command.{
  CommandAggregate, CommandPayload, AccessControlCommand, lock, unlock, set, toggle, level,
  position, access_control,
}
use homemagic.Matter.State.{
  MatterProjectedState, MatterDesiredState, MatterStateValue, locked, unlocked, MatterConvergence,
  MatterStateError, new,
}
use homemagic.Service.{CommandAuditRecord}

pub record StoredMatterProjection : Type 0 where
  pub installation_id : ℕ
  pub fabric_id : ℕ
  pub node_id : ℕ
  pub endpoint_number : ℕ
  pub projection_id : ℕ
  pub device_id : ℕ
  pub endpoint_id : Text
  pub capability_schema : Text
  pub projection_revision : ℕ
  pub state : MatterProjectedState
  pub revision : ℕ
  pub updated_at : ℕ

pub record MatterDesiredCommandSlot : Type 0 where
  pub projection_id : ℕ
  pub desired_revision : ℕ
  pub command_id : ℕ
  pub dispatched_at : Option ℕ
  pub updated_at : ℕ

pub record MatterSupersededCommand : Type 0 where
  pub command : CommandAggregate
  pub expected_version : ℕ
  pub audit : CommandAuditRecord

pub record MatterDesiredStateWrite : Type 0 where
  pub slot : MatterDesiredCommandSlot
  pub projection : StoredMatterProjection
  pub superseded : Option MatterSupersededCommand

pub record MatterDispatchWrite : Type 0 where
  pub projection_id : ℕ
  pub command : CommandAggregate
  pub expected_version : ℕ
  pub audit : CommandAuditRecord
  pub dispatched_at : ℕ

pub record MatterUnlockAuthorization : Type 0 where
  pub id : ℕ
  pub command_id : ℕ
  pub canonical_request_hash : Text
  pub requesting_actor_id : ℕ
  pub approving_actor_id : ℕ
  pub projection_id : ℕ
  pub device_id : ℕ
  pub endpoint_id : Text
  pub capability_schema : Text
  pub action : AccessControlCommand
  pub desired_revision : ℕ
  pub policy_revision : ℕ
  pub issued_at : ℕ
  pub expires_at : ℕ
  pub consumed_at : Option ℕ

pub data MatterUnlockConsumption : Type 0 where
  consumed not_found already_consumed expired binding_mismatch : MatterUnlockConsumption

pub data MatterCommandControlError : Type 0 where
  revision_exhausted prior_command_missing prior_command_not_cancellable : MatterCommandControlError
  desired_slot_missing invalid_dispatch_transition registration_failed : MatterCommandControlError
  unsupported_desired_state invalid_unlock_approval : MatterCommandControlError
  unlock_approval_expired unlock_approval_rejected : MatterCommandControlError

-- What the control calls of MatterRepository and of CommandRepository, AuditId::new and
-- MatterUnlockAuthorizationId::new, and the boxing of errors.
pub record MatterStores (W B : Type 0) : Type 0 where
  pub matter_projection_for_target :
      ℕ → Text → Text → W → Result (Option StoredMatterProjection) B × W
  pub matter_desired_slot : ℕ → W → Result (Option MatterDesiredCommandSlot) B × W
  pub replace_matter_desired_state : MatterDesiredStateWrite → W → Result (Unit {0}) B × W
  pub record_matter_dispatch : MatterDispatchWrite → W → Result (Unit {0}) B × W
  pub create_unlock_authorization : MatterUnlockAuthorization → W → Result (Unit {0}) B × W
  pub authorize_and_record_unlock_dispatch :
      ℕ → MatterDispatchWrite → W → Result MatterUnlockConsumption B × W
  pub command : ℕ → W → Result (Option CommandAggregate) B × W
  pub command_request_hash : ℕ → W → Result (Option Text) B × W
  pub new_audit_id : W → ℕ × W
  pub new_authorization_id : W → ℕ × W
  pub of_control : MatterCommandControlError → B
  pub of_state : MatterStateError → B

unfoldable pub is_replaceable : CommandPayload → Bool
is_replaceable (CommandPayload.on_off (set on)) = true
is_replaceable (CommandPayload.on_off toggle) = false
is_replaceable (access_control lock) = true
is_replaceable (access_control unlock) = true
is_replaceable (level _) = false
is_replaceable (position _) = false

unfoldable pub desired_value : CommandPayload → Option MatterStateValue
desired_value (CommandPayload.on_off (set on)) = some (MatterStateValue.on_off on)
desired_value (access_control lock) = some (MatterStateValue.lock locked)
desired_value (access_control unlock) = some (MatterStateValue.lock unlocked)
desired_value (CommandPayload.on_off toggle) = none
desired_value (level _) = none
desired_value (position _) = none

unfoldable pub advance_matter_desired_state :
    MatterProjectedState → MatterDesiredState → Result MatterProjectedState MatterStateError
unfolding new
advance_matter_desired_state state desired =
    new state.projection_id (some desired) state.reported state.confirmed_revision state.freshness
      MatterConvergence.pending state.uncertainty

module _ {W B A C : Type 0} where
  infixl 5 ◌>>=◌
  abbrev pub ◌>>=◌ : Call W B A → (A → Call W B C) → Call W B C
  m >>= f = chain m f

module _ {W B A : Type 0} where
  -- `.ok_or(missing)?` on the answer of a call, and on a value.
  abbrev pub some_or : B → Result (Option A) B × W → Result A B × W
  some_or missing (ok (some a), w) = (ok a, w)
  some_or missing (ok none, w) = (err missing, w)
  some_or missing (err e, w) = (err e, w)

  abbrev pub required : B → (W → Result (Option A) B × W) → Call W B A
  required missing m = λ w. some_or missing (m w)

  -- `map_err(f)?` on a value.
  abbrev pub attempt : {E : Type 0} → (E → B) → Result A E → Call W B A
  attempt f r = λ w. (map_err f r, w)

  abbrev pub fail_with : B → Call W B A
  fail_with e = λ w. (err e, w)

  abbrev pub fresh_id : (W → A × W) → Call W B A
  fresh_id m = λ w. let (a, w') = m w in (ok a, w')
