-- ===== src/Command.antt =====
-- crates/homemagic-domain/src/command.rs: idempotency keys, command payloads and envelopes, and the
-- durable command aggregate. Identities are numbers that only are compared, percentages 8-bit,
-- transition times 32-bit, and versions 64-bit numbers.
pub mod Validation
mod Graph
mod Versions
mod Examples
use homemagic.Capability.{CapabilityDescriptor, schema, is_blank}
use homemagic.Policy.{PolicyDecision}
use homemagic.Prelude.{
  ltb, leb, if◌then◌else◌, length, any, Result, ok, err, ◌==◌, nat_eq, Text, text_eq, text, ℕ, ◌+◌,
  min, Bool, true, false, ◌&&◌, ◌||◌, not, Option, none, some,
}

pub data IdempotencyKeyError : Type 0 where
  empty too_long control_character : IdempotencyKeyError

-- char::is_control: the general category Cc.
abbrev pub is_control : ℕ → Bool
is_control c = leb c 0x1F || (leb 0x7F c && leb c 0x9F)

-- IdempotencyKey::new; a key is its text.
unfoldable pub new_key : Text → Result Text IdempotencyKeyError
new_key value =
    if is_blank value
    then err empty
    else if ltb 128 (length value)
    then err too_long
    else if any is_control value
    then err control_character
    else ok value

pub data AccessControlCommand : Type 0 where
  lock unlock : AccessControlCommand

pub data OnOffCommand : Type 0 where
  set : Bool → OnOffCommand
  toggle : OnOffCommand

pub record LevelCommand : Type 0 where
  pub percent : ℕ
  pub transition_ms : Option ℕ

pub data PositionCommand : Type 0 where
  open_fully close_fully stop : PositionCommand
  go_to : ℕ → PositionCommand

pub data CommandPayload : Type 0 where
  on_off : OnOffCommand → CommandPayload
  level : LevelCommand → CommandPayload
  position : PositionCommand → CommandPayload
  access_control : AccessControlCommand → CommandPayload

pub data CommandErrorCode : Type 0 where
  capability_mismatch value_out_of_range transition_too_long deadline_exceeded : CommandErrorCode
  stale_observation unsupported_constraint idempotency_conflict policy_denied : CommandErrorCode
  superseded_before_dispatch rate_limited device_busy adapter_rejected : CommandErrorCode
  transport_failure protection_active obstruction_detected overtemperature : CommandErrorCode
  confirmation_mismatch indeterminate_after_restart : CommandErrorCode

-- CommandPayload::schema
unfoldable pub payload_schema : CommandPayload → Text
payload_schema (on_off _) = text "on_off.v1"
payload_schema (level _) = text "level.v1"
payload_schema (position _) = text "position.v1"
payload_schema (access_control _) = text "access_control.v1"

-- `matches!(transition_ms, Some(value) if *value > 3_600_000)`
abbrev pub too_slow : Option ℕ → Bool
too_slow none = false
too_slow (some value) = ltb 3600000 value

-- CommandPayload::validate
unfoldable pub validate_payload : CommandPayload → Result (Unit {0}) CommandErrorCode
validate_payload (on_off _) = ok tt
validate_payload (access_control _) = ok tt
validate_payload (position open_fully) = ok tt
validate_payload (position close_fully) = ok tt
validate_payload (position stop) = ok tt
validate_payload (position (go_to percent)) =
    if ltb 100 percent then err value_out_of_range else ok tt
validate_payload (level l) =
    if ltb 100 l.percent
    then err value_out_of_range
    else if too_slow l.transition_ms
    then err transition_too_long
    else ok tt

pub record ExpectedObservation : Type 0 where
  pub observed_at : ℕ

-- AutomationCausation of crates/homemagic-domain/src/event.rs
pub record AutomationCausation : Type 0 where
  pub automation_id : ℕ
  pub version : ℕ
  pub run_id : ℕ

pub record CommandEnvelope : Type 0 where
  pub id : ℕ
  pub actor_id : ℕ
  pub device_id : ℕ
  pub endpoint_id : Text
  pub capability : CapabilityDescriptor
  pub payload : CommandPayload
  pub idempotency_key : Text
  pub deadline : ℕ
  pub expected : Option ExpectedObservation
  pub dry_run : Bool
  pub correlation_id : ℕ
  pub causation_event_id : Option ℕ
  pub automation_causation : Option AutomationCausation
  pub received_at : ℕ

-- CommandEnvelope::validate
unfoldable pub validate : CommandEnvelope → ℕ → Result (Unit {0}) CommandErrorCode
validate e now =
    if leb e.deadline now
    then err deadline_exceeded
    else if not (schema e.capability == payload_schema e.payload)
    then err capability_mismatch
    else validate_payload e.payload

pub data CommandState : Type 0 where
  received validated rejected dispatched acknowledged confirmed failed timed_out : CommandState
  cancelled : CommandState

-- CommandState::is_terminal
unfoldable pub is_terminal_state : CommandState → Bool
is_terminal_state rejected = true
is_terminal_state confirmed = true
is_terminal_state failed = true
is_terminal_state timed_out = true
is_terminal_state cancelled = true
is_terminal_state _ = false

-- CommandState::allows_transition_to
unfoldable pub allows_transition_to : CommandState → CommandState → Bool
allows_transition_to received validated = true
allows_transition_to received rejected = true
allows_transition_to received timed_out = true
allows_transition_to received cancelled = true
allows_transition_to validated dispatched = true
allows_transition_to validated rejected = true
allows_transition_to validated timed_out = true
allows_transition_to validated cancelled = true
allows_transition_to dispatched acknowledged = true
allows_transition_to dispatched confirmed = true
allows_transition_to dispatched failed = true
allows_transition_to dispatched timed_out = true
allows_transition_to acknowledged confirmed = true
allows_transition_to acknowledged failed = true
allows_transition_to acknowledged timed_out = true
allows_transition_to _ _ = false

pub record AdapterAcknowledgement : Type 0 where
  pub acknowledged_at : ℕ
  pub code : Text

pub record ObservedConfirmation : Type 0 where
  pub confirmed_at : ℕ
  pub observation_at : ℕ

pub record CommandFailure : Type 0 where
  pub code : CommandErrorCode
  pub detail : Option Text

pub record CommandAggregate : Type 0 where
  pub envelope : CommandEnvelope
  pub state : CommandState
  pub version : ℕ
  pub policy : Option PolicyDecision
  pub acknowledgement : Option AdapterAcknowledgement
  pub confirmation : Option ObservedConfirmation
  pub failure : Option CommandFailure
  pub updated_at : ℕ

pub record CommandTransitionError : Type 0 where
  pub from : CommandState
  pub to : CommandState

-- CommandAggregate::received
unfoldable pub receive : CommandEnvelope → CommandAggregate
receive e = record {
  envelope = e;
  state = received;
  version = 0;
  policy = none;
  acknowledgement = none;
  confirmation = none;
  failure = none;
  updated_at = e.received_at;
}

abbrev pub u64_max : ℕ
u64_max = 0xFFFF_FFFF_FFFF_FFFF

-- u64::saturating_add(1)
abbrev pub saturating_suc : ℕ → ℕ
saturating_suc n = min (n + 1) u64_max

-- CommandAggregate::transition
unfoldable pub transition :
    CommandAggregate → CommandState → ℕ → Result CommandAggregate CommandTransitionError
unfolding allows_transition_to
transition c next at =
    if not (allows_transition_to c.state next)
    then err (record { from = c.state; to = next })
    else ok (record c { state = next; version = saturating_suc c.version; updated_at = at })

abbrev pub is_validated : CommandState → Bool
is_validated validated = true
is_validated _ = false

-- CommandAggregate::is_terminal
unfoldable pub is_terminal : CommandAggregate → Bool
unfolding is_terminal_state
is_terminal c = is_terminal_state c.state || (c.envelope.dry_run && is_validated c.state)
