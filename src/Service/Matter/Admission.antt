-- ===== src/Service/Matter/Admission.antt =====
-- crates/homemagic-application/src/matter_commands.rs: the decision at the dispatch of a command and
-- the authorization of an unlock.
use homemagic.Prelude.{
  leb, if◌then◌else◌, Call, give, Text, text_eq, nat_eq, ◌==◌, ℕ, ◌+◌, min, ◌||◌, not, Option, none,
  some,
}
use homemagic.Actor.{Actor}
use homemagic.Capability.{schema}
use homemagic.Command.{CommandAggregate, unlock, dispatched, transition as change_state}
use homemagic.Policy.{PolicyDecision}
use homemagic.Service.{audit as command_audit}
use homemagic.Service.Boundary.{
  CommandDispatchControl, MatterDispatchAdmission, committed, superseded,
  awaiting_unlock_authorization,
}
use homemagic.Service.Matter.{
  ◌>>=◌, StoredMatterProjection, MatterDesiredCommandSlot, MatterDispatchWrite,
  MatterUnlockAuthorization, MatterUnlockConsumption, consumed, prior_command_missing,
  desired_slot_missing, invalid_dispatch_transition, invalid_unlock_approval,
  unlock_approval_expired, unlock_approval_rejected, MatterStores, required, attempt, fail_with,
  fresh_id,
}
use homemagic.Service.Matter.Registration.{projection_for, register_desired}
use homemagic.Service.Recovery.{is_unlock}

module _ {W B : Type 0} (stores : MatterStores W B) where
  -- The durable command, which a newer desired state has superseded.
  unfoldable pub superseded_durable : CommandAggregate → Call W B MatterDispatchAdmission
  superseded_durable command = do
    durable ←
        required (stores.of_control prior_command_missing) (stores.command command.envelope.id)
    give (superseded durable)

  -- The transition to dispatched, with its audit.
  unfoldable pub dispatch_write :
      CommandAggregate → StoredMatterProjection → ℕ → Call W B MatterDispatchWrite
  unfolding command_audit
  dispatch_write command projection now = do
    dispatched_command ←
        attempt (λ _. stores.of_control invalid_dispatch_transition)
          (change_state command dispatched now)
    id ← fresh_id stores.new_audit_id
    give (record {
      projection_id = projection.projection_id;
      command = dispatched_command;
      expected_version = command.version;
      audit = command_audit id dispatched_command (some command.state);
      dispatched_at = now;
    })

  -- `commit_dispatch` for a command that has the slot and is no unlock.
  unfoldable pub commit :
      CommandAggregate → StoredMatterProjection → ℕ → Call W B MatterDispatchAdmission
  unfolding dispatch_write
  commit command projection now = do
    write ← dispatch_write command projection now
    _ ← stores.record_matter_dispatch write
    give (committed write.command write.audit)

  unfoldable pub commit_slot :
      CommandAggregate
      → StoredMatterProjection
      → MatterDesiredCommandSlot
      → ℕ
      → Call W B MatterDispatchAdmission
  unfolding superseded_durable commit
  commit_slot command projection slot now =
      if not (slot.command_id == command.envelope.id)
      then superseded_durable command
      else if is_unlock command.envelope.payload
      then give awaiting_unlock_authorization
      else commit command projection now

  unfoldable pub commit_for :
      CommandAggregate → ℕ → Option StoredMatterProjection → Call W B MatterDispatchAdmission
  unfolding commit_slot
  commit_for command now none = give MatterDispatchAdmission.unmanaged
  commit_for command now (some projection) = do
    slot ←
        required (stores.of_control desired_slot_missing)
          (stores.matter_desired_slot projection.projection_id)
    commit_slot command projection slot now

  -- CommandDispatchControl::commit_dispatch of the control.
  unfoldable pub commit_dispatch : CommandAggregate → ℕ → Call W B MatterDispatchAdmission
  unfolding projection_for commit_for
  commit_dispatch command now = do
    projection ← projection_for stores command
    commit_for command now projection

  -- The match on the answer of `authorize_and_record_unlock_dispatch`.
  unfoldable pub consume :
      MatterDispatchWrite → MatterUnlockConsumption → Call W B MatterDispatchAdmission
  consume write consumed = give (committed write.command write.audit)
  consume write _ = fail_with (stores.of_control unlock_approval_rejected)

  -- The authorization that is stored.
  unfoldable pub authorization :
      ℕ
      → Text
      → Actor
      → CommandAggregate
      → StoredMatterProjection
      → MatterDesiredCommandSlot
      → PolicyDecision
      → ℕ
      → ℕ
      → MatterUnlockAuthorization
  unfolding schema
  authorization id request_hash approver command projection slot approval now expires_at = record {
    id = id;
    command_id = command.envelope.id;
    canonical_request_hash = request_hash;
    requesting_actor_id = command.envelope.actor_id;
    approving_actor_id = approver.id;
    projection_id = projection.projection_id;
    device_id = command.envelope.device_id;
    endpoint_id = command.envelope.endpoint_id;
    capability_schema = schema command.envelope.capability;
    action = unlock;
    desired_revision = slot.desired_revision;
    policy_revision = approval.policy_version;
    issued_at = now;
    expires_at = expires_at;
    consumed_at = none;
  }

  -- `authorize_unlock` from the identity of the authorization on.
  unfoldable pub authorize_until :
      Text
      → Actor
      → CommandAggregate
      → StoredMatterProjection
      → MatterDesiredCommandSlot
      → PolicyDecision
      → ℕ
      → ℕ
      → Call W B MatterDispatchAdmission
  unfolding authorization dispatch_write consume
  authorize_until request_hash approver command projection slot approval now expires_at = do
    id ← fresh_id stores.new_authorization_id
    _ ←
        stores.create_unlock_authorization
          (authorization id request_hash approver command projection slot approval now expires_at)
    write ← dispatch_write command projection now
    outcome ← stores.authorize_and_record_unlock_dispatch id write
    consume write outcome

  -- `std::cmp::min(now + TimeDelta::seconds(60), command.envelope.deadline)`, in nanoseconds.
  abbrev pub expiry : CommandAggregate → ℕ → ℕ
  expiry command now = min (now + 60000000000) command.envelope.deadline

  -- `authorize_unlock` for a command that has the slot.
  unfoldable pub authorize_owner :
      Actor
      → CommandAggregate
      → StoredMatterProjection
      → MatterDesiredCommandSlot
      → PolicyDecision
      → ℕ
      → Call W B MatterDispatchAdmission
  unfolding authorize_until
  authorize_owner approver command projection slot approval now = do
    request_hash ←
        required (stores.of_control prior_command_missing)
          (stores.command_request_hash command.envelope.id)
    if leb (expiry command now) now
        then fail_with (stores.of_control unlock_approval_expired)
        else authorize_until request_hash approver command projection slot approval now
            (expiry command now)

  -- `authorize_unlock` for an allowed approval of an unlock.
  unfoldable pub authorize_allowed :
      Actor → CommandAggregate → PolicyDecision → ℕ → Call W B MatterDispatchAdmission
  unfolding projection_for superseded_durable authorize_owner
  authorize_allowed approver command approval now = do
    projection ← required (stores.of_control desired_slot_missing) (projection_for stores command)
    slot ←
        required (stores.of_control desired_slot_missing)
          (stores.matter_desired_slot projection.projection_id)
    if not (slot.command_id == command.envelope.id)
        then superseded_durable command
        else authorize_owner approver command projection slot approval now

  -- CommandDispatchControl::authorize_unlock of the control.
  unfoldable pub authorize_unlock :
      Actor → CommandAggregate → PolicyDecision → ℕ → Call W B MatterDispatchAdmission
  unfolding authorize_allowed
  authorize_unlock approver command approval now =
      if not approval.allowed || not (is_unlock command.envelope.payload)
      then fail_with (stores.of_control invalid_unlock_approval)
      else authorize_allowed approver command approval now

  -- The control as the service uses it.
  unfoldable pub matter_control : CommandDispatchControl W B
  matter_control = record {
    register_desired = register_desired stores;
    commit_dispatch = commit_dispatch;
    authorize_unlock = authorize_unlock;
  }
