-- ===== src/Service/Recovery.antt =====
-- crates/homemagic-application/src/command_service.rs: the recovery of commands after a restart and
-- the interactive approval of an unlock.
use homemagic.Prelude.{
  leb, if◌then◌else◌, length, err, give, await, ℕ, Bool, true, false, ◌||◌, not, some, List, [],
  ◌∷◌, scoped,
}
use homemagic.Actor.{Actor, approve_unlock as ApproveUnlock}
use homemagic.Capability.{security as Security, schema}
use homemagic.Capability.Snapshot.{CapabilitySnapshot}
use homemagic.Command.{
  CommandPayload, CommandAggregate, CommandState, received, validated, dispatched, acknowledged,
  policy_denied, is_validated, access_control, unlock, lock, on_off, level, position,
}
use homemagic.Device.{DeviceRecord, freshness_at}
use homemagic.Freshness.{FreshnessPolicy}
use homemagic.Limits.{CommandLimitCapacities}
use homemagic.Policy.{ConstraintState, CapacityState, PolicyInput, PolicyDecision, evaluate}
use homemagic.Service.{
  ◌>>=◌, call, command_not_found, unlock_not_pending, unlock_approval_denied,
  unlock_approval_unavailable, repository, Run, reject, timeout, confirm,
}
use homemagic.Service.Boundary.{
  ActorSecurity, MatterDispatchAdmission, committed, superseded, awaiting_unlock_authorization,
  CommandService, lookup_or, from_result, from_option, load_device, load_security,
}
use homemagic.Service.Request.{
  policy_input, drop_permit, dispatch, dispatch_admitted, continue_received,
}

module _ {W B A : Type 0} where
  -- A call of which only the errors count.
  abbrev pub ignoring : Run W B A → Run W B (Unit {0})
  ignoring m = m >>= λ _. give tt

abbrev pub is_unlock : CommandPayload → Bool
is_unlock (access_control unlock) = true
is_unlock (access_control lock) = false
is_unlock (on_off _) = false
is_unlock (level _) = false
is_unlock (position _) = false

module _ {F J : Type 0} where
  -- The `PolicyInput` of an approval.
  unfoldable pub approval_input :
      Actor
      → CommandAggregate
      → DeviceRecord (CapabilitySnapshot F) J
      → FreshnessPolicy
      → ℕ
      → PolicyInput
  unfolding freshness_at
  approval_input actor command device freshness now = record {
    actor = actor;
    action = ApproveUnlock;
    device_id = command.envelope.device_id;
    endpoint_id = command.envelope.endpoint_id;
    schema = schema command.envelope.capability;
    risk = Security;
    spaces = device.spaces;
    freshness = freshness_at device freshness now;
    constraint = ConstraintState.available;
    rate_capacity = CapacityState.available;
    device_capacity = CapacityState.available;
    dry_run = false;
    evaluated_at = now;
  }

module _ {W B F J : Type 0} (service : CommandService W B F J) where
  -- The arm for a received command whose deadline has not passed.
  unfoldable pub resume_received : CommandAggregate → ℕ → Run W B CommandAggregate
  unfolding load_device load_security continue_received
  resume_received command now = do
    device ← load_device service command.envelope.device_id
    security ← load_security service command.envelope.actor_id
    continue_received service command device security.actor.id now

  -- The arm for a validated command, from the evaluation of the policy on.
  unfoldable pub redecide :
      CommandAggregate
      → DeviceRecord (CapabilitySnapshot F) J
      → ActorSecurity
      → ℕ
      → CommandLimitCapacities
      → Run W B CommandAggregate
  unfolding evaluate policy_input dispatch reject
  redecide command device security now capacities =
      let decision =
        evaluate (policy_input security.actor command device service.freshness capacities now)
          security.grants in
      if decision.allowed
      then dispatch service command now
      else reject service.services command policy_denied now (some decision)

  -- The arm for a validated command whose deadline has not passed.
  unfoldable pub resume_validated : CommandAggregate → ℕ → Run W B CommandAggregate
  unfolding load_device load_security redecide
  resume_validated command now = do
    device ← load_device service command.envelope.device_id
    security ← load_security service command.envelope.actor_id
    capacities ←
        call (service.stores.try_acquire command.envelope.actor_id command.envelope.device_id now)
    scoped (drop_permit service capacities command.envelope.device_id)
        (redecide command device security now capacities)

  -- `if command.envelope.deadline <= now { self.timeout(…) } else { … }`
  unfoldable pub in_time_or :
      CommandAggregate → ℕ → Run W B CommandAggregate → Run W B CommandAggregate
  unfolding timeout
  in_time_or command now m =
      if leb command.envelope.deadline now then timeout service.services command now else m

  -- The match of `recover_one`.
  unfoldable pub recover_in : CommandState → CommandAggregate → ℕ → Run W B (Unit {0})
  unfolding in_time_or resume_received resume_validated confirm
  recover_in received command now = ignoring (in_time_or command now (resume_received command now))
  recover_in validated command now =
      ignoring (in_time_or command now (resume_validated command now))
  recover_in dispatched command now = ignoring (confirm service.services command now)
  recover_in acknowledged command now = ignoring (confirm service.services command now)
  recover_in _ command now = give tt

  -- CommandService::recover_one
  unfoldable pub recover_one : CommandAggregate → ℕ → Run W B (Unit {0})
  unfolding recover_in
  recover_one command now = recover_in command.state command now

  -- The loop of `recover`.
  unfoldable pub recover_each : List CommandAggregate → ℕ → Run W B (Unit {0})
  unfolding recover_one
  recover_each [] now = give tt
  recover_each (command ∷ commands) now = do _ ← recover_one command now; recover_each commands now

  -- CommandService::recover
  unfoldable pub recover : ℕ → Run W B ℕ
  unfolding recover_each
  recover now = do
    commands ← await repository (service.stores.recoverable_commands 256)
    _ ← recover_each commands now
    give (length commands)

  -- The match on the answer of `authorize_unlock`.
  unfoldable pub follow_approval : MatterDispatchAdmission → Run W B CommandAggregate
  unfolding dispatch_admitted
  follow_approval (committed command entry) = dispatch_admitted service command entry
  follow_approval (superseded durable) = give durable
  follow_approval MatterDispatchAdmission.unmanaged = from_result (err unlock_approval_unavailable)
  follow_approval awaiting_unlock_authorization = from_result (err unlock_approval_unavailable)

  -- `approve_unlock` for an approval that is allowed.
  unfoldable pub authorize_approved :
      CommandAggregate → Actor → PolicyDecision → ℕ → Run W B CommandAggregate
  unfolding follow_approval
  authorize_approved command approver approval now = do
    control ← from_option unlock_approval_unavailable service.dispatch_control
    admission ← await repository (control.authorize_unlock approver command approval now)
    follow_approval admission

  -- `approve_unlock` from the evaluation of the policy on.
  unfoldable pub approve_on :
      CommandAggregate
      → ActorSecurity
      → DeviceRecord (CapabilitySnapshot F) J
      → ℕ
      → Run W B CommandAggregate
  unfolding evaluate approval_input authorize_approved
  approve_on command security device now =
      let approval =
        evaluate (approval_input security.actor command device service.freshness now)
          security.grants in
      if not approval.allowed
      then from_result (err unlock_approval_denied)
      else authorize_approved command security.actor approval now

  -- `approve_unlock` for a pending command.
  unfoldable pub approve_pending : Actor → CommandAggregate → ℕ → Run W B CommandAggregate
  unfolding load_security load_device approve_on
  approve_pending approver command now = do
    security ← load_security service approver.id
    device ← load_device service command.envelope.device_id
    approve_on command security device now

  -- `approve_unlock` for the command that was found.
  unfoldable pub approve_found : Actor → CommandAggregate → ℕ → Run W B CommandAggregate
  unfolding approve_pending
  approve_found approver command now =
      if not (is_validated command.state)
        || leb command.envelope.deadline now
        || not (is_unlock command.envelope.payload)
      then from_result (err unlock_not_pending)
      else approve_pending approver command now

  -- CommandService::approve_unlock
  unfoldable pub approve_unlock : Actor → ℕ → ℕ → Run W B CommandAggregate
  unfolding approve_found
  approve_unlock approver command_id now = do
    command ← lookup_or command_not_found (service.stores.command command_id)
    approve_found approver command now
