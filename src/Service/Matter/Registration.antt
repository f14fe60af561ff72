-- ===== src/Service/Matter/Registration.antt =====
-- crates/homemagic-application/src/matter_commands.rs: the registration of a command as the desired
-- state of a projection.
use homemagic.Prelude.{
  leb, if◌then◌else◌, Result, ok, err, Call, give, text_eq, nat_eq, ◌==◌, ℕ, zero, suc, ◌+◌, not,
  Option, none, some,
}
use homemagic.Capability.{schema}
use homemagic.Command.{
  CommandAggregate, cancelled, superseded_before_dispatch, u64_max, transition as change_state,
}
use homemagic.Matter.State.{MatterDesiredState, new_revision, new_desired}
use homemagic.Service.{CommandAuditRecord, audit as command_audit}
use homemagic.Service.Boundary.{DesiredStateRegistration, managed}
use homemagic.Service.Matter.{
  ◌>>=◌, StoredMatterProjection, MatterDesiredCommandSlot, MatterSupersededCommand,
  revision_exhausted, prior_command_missing, prior_command_not_cancellable, registration_failed,
  unsupported_desired_state, MatterStores, is_replaceable, desired_value,
  advance_matter_desired_state, required, attempt, fresh_id,
}

-- `checked_add(1)` on 64-bit numbers.
abbrev pub checked_suc : ℕ → Option ℕ
checked_suc n = if leb u64_max n then none else some (n + 1)

-- `current.map_or(Ok(1), |slot| slot.desired_revision.checked_add(1)…)`
abbrev pub next_revision : Option MatterDesiredCommandSlot → Option ℕ
next_revision none = some 1
next_revision (some slot) = checked_suc slot.desired_revision

abbrev pub audit_of : Option MatterSupersededCommand → Option CommandAuditRecord
audit_of none = none
audit_of (some item) = some item.audit

-- `.ok_or(missing)` of a value.
abbrev pub or_missing : {A E : Type 0} → E → Option A → Result A E
or_missing e none = err e
or_missing e (some a) = ok a

abbrev pub superseded_prior : CommandAggregate → CommandAggregate
superseded_prior prior = record prior {
  failure = some (record { code = superseded_before_dispatch; detail = none });
}

module _ {W B : Type 0} (stores : MatterStores W B) where
  -- MatterCommandDispatchControl::projection_for
  unfoldable pub projection_for : CommandAggregate → Call W B (Option StoredMatterProjection)
  unfolding is_replaceable schema
  projection_for command =
      let e = command.envelope in
      if not (is_replaceable e.payload)
      then give none
      else stores.matter_projection_for_target e.device_id e.endpoint_id (schema e.capability)

  -- The desired state that a command asks for.
  unfoldable pub desired_state : ℕ → CommandAggregate → ℕ → Call W B MatterDesiredState
  unfolding desired_value new_desired
  desired_state desired_revision command now = do
    revision ← attempt stores.of_state (new_revision desired_revision)
    value ←
        attempt stores.of_control
          (or_missing unsupported_desired_state (desired_value command.envelope.payload))
    attempt stores.of_state (new_desired revision value now)

  -- The arm of `superseded` for a slot that is not dispatched.
  unfoldable pub cancel_prior :
      MatterDesiredCommandSlot → ℕ → Call W B (Option MatterSupersededCommand)
  unfolding command_audit
  cancel_prior slot now = do
    prior ← required (stores.of_control prior_command_missing) (stores.command slot.command_id)
    cancelled_prior ←
        attempt (λ _. stores.of_control prior_command_not_cancellable)
          (change_state (superseded_prior prior) cancelled now)
    id ← fresh_id stores.new_audit_id
    give (
        some (record {
          command = cancelled_prior;
          expected_version = prior.version;
          audit = command_audit id cancelled_prior (some prior.state);
        }))

  -- `match &current { … }`
  unfoldable pub supersede_slot :
      Option ℕ → MatterDesiredCommandSlot → ℕ → Call W B (Option MatterSupersededCommand)
  unfolding cancel_prior
  supersede_slot none slot now = cancel_prior slot now
  supersede_slot (some dispatched_at) slot now = give none

  unfoldable pub supersede :
      Option MatterDesiredCommandSlot → ℕ → Call W B (Option MatterSupersededCommand)
  unfolding supersede_slot
  supersede none now = give none
  supersede (some slot) now = supersede_slot slot.dispatched_at slot now

  -- `register_once` from the new revision on.
  unfoldable pub advance :
      CommandAggregate
      → ℕ
      → StoredMatterProjection
      → Option MatterDesiredCommandSlot
      → Call W B DesiredStateRegistration
  unfolding desired_state advance_matter_desired_state supersede
  advance command now projection current = do
    desired_revision ←
        attempt stores.of_control (or_missing revision_exhausted (next_revision current))
    desired ← desired_state desired_revision command now
    state ← attempt stores.of_state (advance_matter_desired_state projection.state desired)
    revision ←
        attempt stores.of_control (or_missing revision_exhausted (checked_suc projection.revision))
    older ← supersede current now
    _ ← stores.replace_matter_desired_state (record {
      slot = record {
        projection_id = projection.projection_id;
        desired_revision = desired_revision;
        command_id = command.envelope.id;
        dispatched_at = none;
        updated_at = now;
      };
      projection = record projection { state = state; revision = revision; updated_at = now };
      superseded = older;
    })
    give (managed projection.projection_id desired_revision (audit_of older))

  -- The early return for a slot that the command has already.
  unfoldable pub register_slot :
      CommandAggregate
      → ℕ
      → StoredMatterProjection
      → Option MatterDesiredCommandSlot
      → Call W B DesiredStateRegistration
  unfolding advance
  register_slot command now projection none = advance command now projection none
  register_slot command now projection (some current) =
      if current.command_id == command.envelope.id
      then give (managed projection.projection_id current.desired_revision none)
      else advance command now projection (some current)

  -- `let Some(projection) = … else { return … }`
  unfoldable pub register_for :
      CommandAggregate → ℕ → Option StoredMatterProjection → Call W B DesiredStateRegistration
  unfolding register_slot
  register_for command now none = give DesiredStateRegistration.unmanaged
  register_for command now (some projection) = do
    current ← stores.matter_desired_slot projection.projection_id
    register_slot command now projection current

  -- MatterCommandDispatchControl::register_once
  unfoldable pub register_once : CommandAggregate → ℕ → Call W B DesiredStateRegistration
  unfolding projection_for register_for
  register_once command now = do
    projection ← projection_for command
    register_for command now projection

  -- What the loop ends with when no attempt is left.
  abbrev pub last_error_or : Option B → B
  last_error_or none = stores.of_control registration_failed
  last_error_or (some e) = e

  -- One round of the loop, with the later ones behind it.
  abbrev pub or_retry : {A : Type 0} → Result A B × W → (B → W → Result A B × W) → Result A B × W
  or_retry (ok a, w) retry = (ok a, w)
  or_retry (err e, w) retry = retry e w

  unfoldable pub register_attempts :
      ℕ → Option B → CommandAggregate → ℕ → Call W B DesiredStateRegistration
  unfolding register_once
  register_attempts zero last command now w = (err (last_error_or last), w)
  register_attempts (suc n) last command now w =
      or_retry (register_once command now w) (λ e. register_attempts n (some e) command now)

  -- CommandDispatchControl::register_desired of the control.
  unfoldable pub register_desired : CommandAggregate → ℕ → Call W B DesiredStateRegistration
  unfolding register_attempts
  register_desired command now = register_attempts 4 none command now
