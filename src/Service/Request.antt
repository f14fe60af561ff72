-- ===== src/Service/Request.antt =====
-- crates/homemagic-application/src/command_service.rs: what becomes of a received command up to its
-- dispatch. The permit of a device slot is a value that the function owns, and is dropped with its
-- scope.
use homemagic.Prelude.{
  leb, if◌then◌else◌, Result, ok, err, give, await, ℕ, not, Option, none, some, scoped,
}
use homemagic.Actor.{Actor, execute}
use homemagic.Capability.{schema}
use homemagic.Capability.Snapshot.{CapabilitySnapshot}
use homemagic.Command.{CommandAggregate, validated, dispatched, CommandErrorCode, policy_denied}
use homemagic.Device.{DeviceRecord, freshness_at}
use homemagic.Freshness.{FreshnessPolicy}
use homemagic.Limits.{CommandLimitCapacities}
use homemagic.Policy.{PolicyInput, evaluate}
use homemagic.Service.{
  ◌>>=◌, call, Run, repository, transition, reject, timeout, dispatch_committed, CommandAuditRecord,
}
use homemagic.Service.Boundary.{
  ActorSecurity, DesiredStateRegistration, managed, MatterDispatchAdmission, committed, superseded,
  awaiting_unlock_authorization, CommandDispatchControl, CommandService, load_security, publish,
}
use homemagic.Service.Target.{constraint_state, validate_target}

module _ {F J : Type 0} where
  -- The `PolicyInput` of a command that is to be executed.
  unfoldable pub policy_input :
      Actor
      → CommandAggregate
      → DeviceRecord (CapabilitySnapshot F) J
      → FreshnessPolicy
      → CommandLimitCapacities
      → ℕ
      → PolicyInput
  unfolding freshness_at constraint_state
  policy_input actor command device freshness capacities now = record {
    actor = actor;
    action = execute;
    device_id = command.envelope.device_id;
    endpoint_id = command.envelope.endpoint_id;
    schema = schema command.envelope.capability;
    risk = command.envelope.capability.risk;
    spaces = device.spaces;
    freshness = freshness_at device freshness now;
    constraint = constraint_state command.envelope.payload command.envelope.endpoint_id device;
    rate_capacity = capacities.rate;
    device_capacity = capacities.device;
    dry_run = command.envelope.dry_run;
    evaluated_at = now;
  }

module _ {W B F J : Type 0} (service : CommandService W B F J) where
  -- `CommandLimitCapacities::permit`, which an acquisition may have given: its drop releases the slot.
  abbrev pub drop_permit : CommandLimitCapacities → ℕ → W → W
  drop_permit capacities device_id w =
      if capacities.permit then service.stores.release device_id w else w

  -- The transition to dispatched without a dispatch control, or for a target that it leaves alone.
  unfoldable pub dispatch_directly : CommandAggregate → ℕ → Run W B CommandAggregate
  unfolding transition dispatch_committed
  dispatch_directly command now = do
    dispatched_command ← transition service.services command dispatched now
    dispatch_committed service.services dispatched_command

  -- `self.publish(&audit).await?; self.dispatch_committed(dispatched).await`
  unfoldable pub dispatch_admitted :
      CommandAggregate → CommandAuditRecord → Run W B CommandAggregate
  unfolding publish dispatch_committed
  dispatch_admitted command entry = do
    _ ← publish service entry
    dispatch_committed service.services command

  -- The match on the answer of `register_desired`.
  unfoldable pub publish_superseded : DesiredStateRegistration → Run W B (Unit {0})
  unfolding publish
  publish_superseded DesiredStateRegistration.unmanaged = give tt
  publish_superseded (managed projection revision none) = give tt
  publish_superseded (managed projection revision (some entry)) = publish service entry

  -- The match on the answer of `commit_dispatch`.
  unfoldable pub follow_admission :
      CommandAggregate → ℕ → MatterDispatchAdmission → Run W B CommandAggregate
  unfolding dispatch_directly dispatch_admitted
  follow_admission command now MatterDispatchAdmission.unmanaged = dispatch_directly command now
  follow_admission command now (committed d entry) = dispatch_admitted d entry
  follow_admission command now (superseded durable) = give durable
  follow_admission command now awaiting_unlock_authorization = give command

  -- The part of `dispatch` behind the check of the deadline.
  unfoldable pub dispatch_controlled :
      Option (CommandDispatchControl W B) → CommandAggregate → ℕ → Run W B CommandAggregate
  unfolding publish_superseded follow_admission
  dispatch_controlled none command now = dispatch_directly command now
  dispatch_controlled (some control) command now = do
    registration ← await repository (control.register_desired command now)
    _ ← publish_superseded registration
    admission ← await repository (control.commit_dispatch command now)
    follow_admission command now admission

  -- CommandService::dispatch; its permit is dropped by the caller below.
  unfoldable pub dispatch : CommandAggregate → ℕ → Run W B CommandAggregate
  unfolding timeout dispatch_controlled
  dispatch command now =
      if leb command.envelope.deadline now
      then timeout service.services command now
      else dispatch_controlled service.dispatch_control command now

  -- `continue_received` from the transition to validated on.
  unfoldable pub admit : CommandAggregate → ℕ → Run W B CommandAggregate
  unfolding transition dispatch
  admit command now = do
    validated_command ← transition service.services command validated now
    if validated_command.envelope.dry_run
        then give validated_command
        else dispatch validated_command now

  -- `continue_received` from the evaluation of the policy on.
  unfoldable pub decide :
      CommandAggregate
      → DeviceRecord (CapabilitySnapshot F) J
      → ActorSecurity
      → ℕ
      → CommandLimitCapacities
      → Run W B CommandAggregate
  unfolding evaluate policy_input reject admit
  decide command device security now capacities =
      let decision =
        evaluate (policy_input security.actor command device service.freshness capacities now)
          security.grants in
      let decided = record command { policy = some decision } in
      if not decision.allowed
      then reject service.services decided policy_denied now (some decision)
      else admit decided now

  -- `continue_received` behind the validation of the target.
  unfoldable pub authorize :
      CommandAggregate → DeviceRecord (CapabilitySnapshot F) J → ℕ → ℕ → Run W B CommandAggregate
  unfolding load_security decide
  authorize command device actor_id now = do
    security ← load_security service actor_id
    capacities ← call (service.stores.try_acquire security.actor.id command.envelope.device_id now)
    scoped (drop_permit capacities command.envelope.device_id)
        (decide command device security now capacities)

  unfoldable pub continue_validated :
      CommandAggregate
      → DeviceRecord (CapabilitySnapshot F) J
      → ℕ
      → ℕ
      → Result (Unit {0}) CommandErrorCode
      → Run W B CommandAggregate
  unfolding reject authorize
  continue_validated command device actor_id now (err code) =
      reject service.services command code now none
  continue_validated command device actor_id now (ok valid) = authorize command device actor_id now

  -- CommandService::continue_received
  unfoldable pub continue_received :
      CommandAggregate → DeviceRecord (CapabilitySnapshot F) J → ℕ → ℕ → Run W B CommandAggregate
  unfolding continue_validated validate_target
  continue_received command device actor_id now =
      continue_validated command device actor_id now (validate_target command device now)
