-- ===== src/Service/Examples.antt =====
-- The service at concrete inputs: the state is a clock that each answer of the adapter and each
-- observation moves, and the store and the audit sink accept everything.
use homemagic.Capability.{comfort, schema, decimal, decimal_digits, permits, rank}
use homemagic.Device.{freshness_at}
use homemagic.Actor.{action_beq}
use homemagic.Freshness.{evaluate as evaluate_freshness, classify, default_policy}
use homemagic.Lifecycle.{availability_state_beq}
use homemagic.Policy.{
  evaluate, denials, in_scope, scope_matches, is_exact, risk_reasons, grant_reasons, insert_if,
  insert,
}
use homemagic.Limits.{
  LimitState, CommandLimitCapacities, admit, pop_expired, update, take_slot, device_semaphore,
  acquire_at, try_acquire, cutoff_at,
}
use homemagic.Limits.History.{left}
use homemagic.Limits.Examples.{counter, counter_laws, two_a_minute, start_state, take_one-none}
use homemagic.Service.Slots.{evaluate-slot}
use homemagic.Service.Request.{policy_input}
use homemagic.Service.Target.{constraint_state}
use homemagic.Service.Household.{lamp, resident, grants, switch_off, in_state}
use homemagic.Command.{
  received, level, CommandEnvelope, CommandAggregate, CommandState, dispatched, confirmed,
  timed_out, allows_transition_to, transition as change_state,
}
use homemagic.Prelude.{
  Result, ok, err, text, ℕ, ◌+◌, ◌≡◌, refl, false, Option, none, some, suc, true,
}
use homemagic.Service.{
  confirmed_by, CommandServiceError, Services, store, transition, timeout, settle, confirm,
  acknowledge_in_time, acknowledge, answer, dispatch_committed,
}
use homemagic.Service.Outcomes.{Gives, Ended, dispatch_committed-Ended}

abbrev dim : CommandEnvelope
dim = record {
  id = 1;
  actor_id = 7;
  device_id = 20;
  endpoint_id = text "main";
  capability = record { name = text "level"; version = 1; risk = comfort };
  payload = level (record { percent = 40; transition_ms = none });
  idempotency_key = text "dim-1";
  deadline = 100;
  expected = none;
  dry_run = false;
  correlation_id = 9;
  causation_event_id = none;
  automation_causation = none;
  received_at = 10;
}

abbrev command_in : CommandState → CommandAggregate
command_in state = record {
  envelope = dim;
  state = state;
  version = 3;
  policy = none;
  acknowledgement = none;
  confirmation = none;
  failure = none;
  updated_at = 12;
}

abbrev prompt : Services ℕ ℕ
prompt = record {
  transition_command = λ c v a w. (ok tt, w);
  publish = λ a w. (ok tt, w);
  send = λ e w. (ok (record { acknowledged_at = w; code = text "ok" }), w + 5);
  observe = λ c w. (ok (confirmed_by (record { confirmed_at = w; observation_at = w })), w + 5);
  now = λ w. (w, w);
  new_audit_id = λ w. (w, w);
}

abbrev state_of :
    {B : Type 0} → Result CommandAggregate (CommandServiceError B) → Option CommandState
state_of (ok c) = some c.state
state_of (err e) = none

in_time : state_of (dispatch_committed prompt (command_in dispatched) 20).0 ≡ some confirmed
unfolding dispatch_committed answer acknowledge acknowledge_in_time confirm settle timeout
    transition store change_state allows_transition_to
in_time = refl

too_late : state_of (dispatch_committed prompt (command_in dispatched) 96).0 ≡ some timed_out
unfolding dispatch_committed answer acknowledge acknowledge_in_time confirm settle timeout
    transition store change_state allows_transition_to
too_late = refl

dispatch_committed-Ended_example :
    Gives (Ended dim) (dispatch_committed prompt (command_in dispatched) 20).0
dispatch_committed-Ended_example = dispatch_committed-Ended prompt (command_in dispatched) 20 refl

abbrev reversal : CommandAggregate
reversal = in_state switch_off received

-- The limits of one command at a time, asked for the lamp.
abbrev lamp_slot : LimitState ℕ × CommandLimitCapacities
unfolding acquire_at device_semaphore take_slot admit pop_expired update
lamp_slot = acquire_at counter two_a_minute start_state 7 20 100 40

evaluate-slot_example :
    (lamp_slot.1.permit ≡ true)
    × (left counter two_a_minute start_state 20 ≡ suc (left counter two_a_minute lamp_slot.0 20))
unfolding try_acquire cutoff_at lamp_slot acquire_at device_semaphore take_slot admit pop_expired
    update policy_input freshness_at evaluate_freshness classify availability_state_beq
    constraint_state schema decimal decimal_digits evaluate denials in_scope scope_matches is_exact
    risk_reasons grant_reasons insert_if insert action_beq permits rank
evaluate-slot_example =
    evaluate-slot counter two_a_minute counter_laws take_one-none start_state lamp_slot.0
      lamp_slot.1 (resident 7) reversal lamp default_policy (grants 7) 100 refl refl
