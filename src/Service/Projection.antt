-- ===== src/Service/Projection.antt =====
-- crates/homemagic-application/src/command_service.rs, DomainEventCommandAuditSink: a published audit
-- becomes a domain event, which is stored and then passed on. The repositories and the sink of the
-- events are an interface over the state W.
use homemagic.Prelude.{Call, Result, Text, ℕ, Option, some, List, [], ◌∷◌}
use homemagic.Capability.{schema}
use homemagic.Command.{CommandAggregate}
use homemagic.Event.{DomainEvent, command_transitioned}
use homemagic.Service.{CommandAuditRecord}
use homemagic.Service.Matter.{◌>>=◌, required, fresh_id}

-- CommandRepository::command, EventId::new, FoundationRepository::apply of a write that holds events
-- only, DomainEventSink::publish, the text of an identity and the error for a missing command.
pub record EventStores (W B : Type 0) : Type 0 where
  pub command : ℕ → W → Result (Option CommandAggregate) B × W
  pub new_event_id : W → ℕ × W
  pub apply_events : List DomainEvent → W → Result (Unit {0}) B × W
  pub publish_events : List DomainEvent → W → Result (Unit {0}) B × W
  pub to_string : ℕ → Text
  pub missing : B

module _ {W B : Type 0} (stores : EventStores W B) where
  unfoldable pub event_of : ℕ → CommandAuditRecord → CommandAggregate → DomainEvent
  unfolding schema
  event_of id entry command = record {
    id = id;
    device_id = some command.envelope.device_id;
    occurred_at = entry.occurred_at;
    causation = record {
      correlation_id = entry.correlation_id;
      causation_event_id = entry.causation_event_id;
      actor = some (stores.to_string entry.actor_id);
      automation = command.envelope.automation_causation;
    };
    kind =
        command_transitioned entry.command_id entry.from entry.to entry.sequence
          (some command.envelope.endpoint_id) (some (schema command.envelope.capability));
  }

  -- CommandAuditSink::publish of the sink.
  unfoldable pub publish_event : CommandAuditRecord → Call W B (Unit {0})
  unfolding event_of
  publish_event entry = do
    command ← required stores.missing (stores.command entry.command_id)
    id ← fresh_id stores.new_event_id
    let event = event_of id entry command
    _ ← stores.apply_events (event ∷ [])
    stores.publish_events (event ∷ [])
