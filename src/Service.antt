-- ===== src/Service.antt =====
-- crates/homemagic-application/src/command_service.rs: what the command service does with a command
-- from its dispatch to the adapter on, and how it rejects a command or times it out. The services
-- that it calls are an interface over a state W, in which each call that is awaited is one step;
-- B is their error. An error drops the local command, so that only the result carries it.
mod Target
mod Boundary
mod Request
mod Entry
mod Recovery
mod Valid
mod Kept
mod Slots
mod Handed
mod Dispatching
mod Clearance
mod Execution
mod Recovered
mod HandedOver
mod Approval
mod Ownership
mod Matter
mod Projection
mod Household
mod House
mod Runs
mod Outcomes
mod Examples
use homemagic.Policy.{PolicyDecision}
use homemagic.Command.{
  CommandEnvelope, CommandAggregate, CommandState, rejected, dispatched, acknowledged, confirmed,
  failed, timed_out, CommandFailure, CommandErrorCode, deadline_exceeded, AdapterAcknowledgement,
  ObservedConfirmation, transition as change_state,
}
use homemagic.Prelude.{
  Call, chain, give, await, Result, ok, err, ℕ, Option, some, ◌>>◌, leb, if◌then◌else◌, none,
}

pub record CommandAuditRecord : Type 0 where
  pub id : ℕ
  pub command_id : ℕ
  pub sequence : ℕ
  pub from : Option CommandState
  pub to : CommandState
  pub actor_id : ℕ
  pub policy : Option PolicyDecision
  pub failure : Option CommandFailure
  pub acknowledgement : Option AdapterAcknowledgement
  pub confirmation : Option ObservedConfirmation
  pub correlation_id : ℕ
  pub causation_event_id : Option ℕ
  pub occurred_at : ℕ

-- command_audit of crates/homemagic-application/src/matter_commands.rs, with the fresh identity as
-- an argument.
unfoldable pub audit : ℕ → CommandAggregate → Option CommandState → CommandAuditRecord
audit id command from = record {
  id = id;
  command_id = command.envelope.id;
  sequence = command.version;
  from = from;
  to = command.state;
  actor_id = command.envelope.actor_id;
  policy = command.policy;
  failure = command.failure;
  acknowledgement = command.acknowledgement;
  confirmation = command.confirmation;
  correlation_id = command.envelope.correlation_id;
  causation_event_id = command.envelope.causation_event_id;
  occurred_at = command.updated_at;
}

pub data CommandConfirmationOutcome : Type 0 where
  confirmed_by : ObservedConfirmation → CommandConfirmationOutcome
  pending : CommandConfirmationOutcome
  failed_by : CommandFailure → CommandConfirmationOutcome

pub data CommandServiceError (B : Type 0) : Type 0 where
  device_not_found command_not_found actor_not_found actor_mismatch : CommandServiceError B
  not_cancellable : CommandServiceError B
  idempotency_conflict : ℕ → CommandServiceError B
  repository audit_publication confirmation canonical_serialization : B → CommandServiceError B
  invalid_descriptor invalid_transition unlock_approval_unavailable : CommandServiceError B
  unlock_not_pending unlock_approval_denied : CommandServiceError B

-- CommandRepository::transition_command, CommandAuditSink::publish, CommandDispatcher::dispatch,
-- CommandConfirmation::confirm, the clock and AuditId::new
pub record Services (W B : Type 0) : Type 0 where
  pub transition_command : CommandAggregate → ℕ → CommandAuditRecord → W → Result (Unit {0}) B × W
  pub publish : CommandAuditRecord → W → Result (Unit {0}) B × W
  pub send : CommandEnvelope → W → Result AdapterAcknowledgement CommandFailure × W
  pub observe : CommandAggregate → W → Result CommandConfirmationOutcome B × W
  pub now : W → ℕ × W
  pub new_audit_id : W → ℕ × W

abbrev pub Run : Type 0 → Type 0 → Type 0 → Type 0
Run W B A = Call W (CommandServiceError B) A

module _ {W B A C : Type 0} where
  infixl 5 ◌>>=◌
  abbrev pub ◌>>=◌ : Run W B A → (A → Run W B C) → Run W B C
  m >>= f = chain m f

module _ {W B A : Type 0} where
  -- A call that does not fail.
  abbrev pub call : (W → A × W) → Run W B A
  call m = λ w. let (a, w') = m w in (ok a, w')

module _ {W B : Type 0} (services : Services W B) where
  -- The calls of CommandService::transition, which store the changed command and publish its audit.
  unfoldable pub store : CommandAggregate → CommandAggregate → Run W B CommandAggregate
  unfolding audit
  store command changed = do
    id ← call services.new_audit_id
    let entry = audit id changed (some command.state)
    _ ← await repository (services.transition_command changed command.version entry)
    _ ← await audit_publication (services.publish entry)
    give changed

  -- CommandService::transition
  unfoldable pub transition : CommandAggregate → CommandState → ℕ → Run W B CommandAggregate
  unfolding store
  transition command next now = do
    changed ← await (λ _. invalid_transition) (λ w. (change_state command next now, w))
    store command changed

  -- CommandService::reject
  unfoldable pub reject :
      CommandAggregate → CommandErrorCode → ℕ → Option PolicyDecision → Run W B CommandAggregate
  reject command code now policy =
      let command' : CommandAggregate = elim policy [
        | none ↦ command
        | some p ↦ record command { policy = some p }
      ] in
      transition (record command' { failure = some (record { code = code; detail = none }) })
        rejected now

  -- CommandService::timeout
  unfoldable pub timeout : CommandAggregate → ℕ → Run W B CommandAggregate
  timeout command now =
      transition
        (record command { failure = some (record { code = deadline_exceeded; detail = none }) })
        timed_out now

  -- The match of CommandService::confirm.
  unfoldable pub settle :
      CommandAggregate → ℕ → CommandConfirmationOutcome → Run W B CommandAggregate
  unfolding timeout
  settle command now (confirmed_by c) =
      transition (record command { confirmation = some c }) confirmed now
  settle command now (failed_by f) = transition (record command { failure = some f }) failed now
  settle command now pending =
      if leb command.envelope.deadline now then timeout command now else give command

  -- CommandService::confirm
  unfoldable pub confirm : CommandAggregate → ℕ → Run W B CommandAggregate
  unfolding settle
  confirm command now = do
    outcome ← await confirmation (services.observe command)
    settle command now outcome

  -- The branches of dispatch_committed.
  unfoldable pub acknowledge_in_time : CommandAggregate → ℕ → Run W B CommandAggregate
  unfolding confirm
  acknowledge_in_time command after_dispatch = do
    acknowledged_command ← transition command acknowledged after_dispatch
    at ← call services.now
    confirm acknowledged_command at

  unfoldable pub acknowledge : CommandAggregate → AdapterAcknowledgement → Run W B CommandAggregate
  unfolding timeout
  acknowledge command acknowledgement = do
    after_dispatch ← call services.now
    let command' = record command { acknowledgement = some acknowledgement }
    if leb command.envelope.deadline after_dispatch
        then timeout command' after_dispatch
        else acknowledge_in_time command' after_dispatch

  unfoldable pub fail : CommandAggregate → CommandFailure → Run W B CommandAggregate
  fail command failure = do
    at ← call services.now
    transition (record command { failure = some failure }) failed at

  -- The match of dispatch_committed.
  unfoldable pub answer :
      CommandAggregate → Result AdapterAcknowledgement CommandFailure → Run W B CommandAggregate
  unfolding acknowledge fail
  answer command (ok acknowledgement) = acknowledge command acknowledgement
  answer command (err failure) = fail command failure

  -- CommandService::dispatch_committed
  unfoldable pub dispatch_committed : CommandAggregate → Run W B CommandAggregate
  unfolding answer
  dispatch_committed command w =
      let (r, w') = services.send command.envelope w in answer command r w'
