-- ===== src/Matter/Subscription.antt =====
-- crates/homemagic-application/src/matter_subscription.rs: the recovery of a logical Matter
-- subscription that lost its reports, with the stored data of
-- crates/homemagic-application/src/matter_repository.rs and the requests of
-- crates/homemagic-application/src/matter_controller.rs. Counters are 8-bit, durations 64-bit
-- milliseconds, and instants and identities numbers. What the calendar library adds and the
-- hash of the jitter are parameters.
pub mod Steps
mod Progress
pub mod Status
mod Examples
use homemagic.Prelude.{
  ltb, nat_beq, if◌then◌else◌, Result, ok, err, ℕ, ◌+◌, min, Bool, true, false, ◌||◌, not, Option,
  none, some, List,
}

pub data MatterSubscriptionLossReason : Type 0 where
  session_closed report_gap timed_out descriptor_changed : MatterSubscriptionLossReason
  controller_restarted : MatterSubscriptionLossReason

pub record MatterSubscriptionRecoveryPolicy : Type 0 where
  pub maximum_subscribe_attempts : ℕ
  pub maximum_gap_reads : ℕ
  pub base_delay_millis : ℕ
  pub maximum_delay_millis : ℕ
  pub jitter_millis : ℕ
  pub sleepy_read_interval_millis : ℕ

pub data MatterSubscriptionRecoveryPolicyError : Type 0 where
  recovery_policy_error : MatterSubscriptionRecoveryPolicyError

-- MatterSubscriptionRecoveryPolicy::new
unfoldable pub new_policy :
    ℕ
    → ℕ
    → ℕ
    → ℕ
    → ℕ
    → ℕ
    → Result MatterSubscriptionRecoveryPolicy MatterSubscriptionRecoveryPolicyError
new_policy subscribe_attempts gap_reads base_delay maximum_delay jitter sleepy_read_interval =
    if nat_beq subscribe_attempts 0
      || nat_beq gap_reads 0
      || nat_beq base_delay 0
      || ltb maximum_delay base_delay
      || ltb maximum_delay jitter
      || nat_beq sleepy_read_interval 0
    then err recovery_policy_error
    else ok (record {
      maximum_subscribe_attempts = subscribe_attempts;
      maximum_gap_reads = gap_reads;
      base_delay_millis = base_delay;
      maximum_delay_millis = maximum_delay;
      jitter_millis = jitter;
      sleepy_read_interval_millis = sleepy_read_interval;
    })

pub data StoredMatterSubscriptionState : Type 0 where
  pending established stale repair_required : StoredMatterSubscriptionState

pub record StoredMatterSubscriptionRecovery : Type 0 where
  pub gap_reason : Option MatterSubscriptionLossReason
  pub sleepy : Bool
  pub gap_reads : ℕ
  pub maximum_gap_reads : ℕ
  pub subscribe_attempts : ℕ
  pub maximum_subscribe_attempts : ℕ
  pub retry_at : Option ℕ
  pub last_gap_read_at : Option ℕ
  pub sleepy_read_interval_millis : ℕ

pub record StoredMatterSubscription : Type 0 where
  pub subscription_id : ℕ
  pub fabric_id : ℕ
  pub node_id : ℕ
  pub state : StoredMatterSubscriptionState
  pub report_sequence : ℕ
  pub stale_after : ℕ
  pub recovery : StoredMatterSubscriptionRecovery
  pub revision : ℕ
  pub updated_at : ℕ

pub record MatterReadRequest : Type 0 where
  pub fabric_id : ℕ
  pub node_id : ℕ
  pub selection : List ℕ

pub record MatterSubscriptionRequest : Type 0 where
  pub subscription_id : ℕ
  pub fabric_id : ℕ
  pub node_id : ℕ
  pub selection : List ℕ
  pub minimum_interval_millis : ℕ
  pub maximum_interval_millis : ℕ

-- MatterSubscriptionRequest::new, none for its only error.
unfoldable pub new_request : ℕ → ℕ → ℕ → List ℕ → ℕ → ℕ → Option MatterSubscriptionRequest
new_request subscription_id fabric_id node_id selection minimum maximum =
    if nat_beq maximum 0 || ltb maximum minimum
    then none
    else some (record {
      subscription_id = subscription_id;
      fabric_id = fabric_id;
      node_id = node_id;
      selection = selection;
      minimum_interval_millis = minimum;
      maximum_interval_millis = maximum;
    })

pub data MatterSubscriptionRecoveryAction : Type 0 where
  mark_stale : MatterSubscriptionLossReason → MatterSubscriptionRecoveryAction
  gap_read : MatterReadRequest → MatterSubscriptionRecoveryAction
  resubscribe : MatterSubscriptionRequest → MatterSubscriptionRecoveryAction
  wait_until : ℕ → MatterSubscriptionRecoveryAction
  repair_needed complete : MatterSubscriptionRecoveryAction

pub data MatterSubscriptionRecoveryOutcome : Type 0 where
  stale_persisted gap_read_completed gap_read_failed : MatterSubscriptionRecoveryOutcome
  resubscribed resubscribe_failed : MatterSubscriptionRecoveryOutcome

pub data RecoveryPhase : Type 0 where
  marking reading resubscribing waiting completed broken : RecoveryPhase

pub record MatterSubscriptionRecovery : Type 0 where
  pub subscription_id : ℕ
  pub fabric_id : ℕ
  pub node_id : ℕ
  pub selection : List ℕ
  pub minimum_interval_millis : ℕ
  pub maximum_interval_millis : ℕ
  pub loss_reason : MatterSubscriptionLossReason
  pub sleepy : Bool
  pub last_gap_read_at : Option ℕ
  pub gap_reads : ℕ
  pub subscribe_attempts : ℕ
  pub retry_at : Option ℕ
  pub phase : RecoveryPhase
  pub policy : MatterSubscriptionRecoveryPolicy

pub data MatterSubscriptionRecoveryError : Type 0 where
  unexpected_outcome : MatterSubscriptionRecoveryError

-- MatterSubscriptionRecovery::after_loss
unfoldable pub after_loss :
    ℕ
    → ℕ
    → ℕ
    → List ℕ
    → ℕ
    → ℕ
    → MatterSubscriptionLossReason
    → Bool
    → Option ℕ
    → MatterSubscriptionRecoveryPolicy
    → MatterSubscriptionRecovery
after_loss subscription_id fabric_id node_id selection minimum maximum reason sleepy last policy =
    record {
      subscription_id = subscription_id;
      fabric_id = fabric_id;
      node_id = node_id;
      selection = selection;
      minimum_interval_millis = minimum;
      maximum_interval_millis = maximum;
      loss_reason = reason;
      sleepy = sleepy;
      last_gap_read_at = last;
      gap_reads = 0;
      subscribe_attempts = 0;
      retry_at = none;
      phase = marking;
      policy = policy;
    }

abbrev pub is_some {ℓ} : {A : Type ℓ} → Option A → Bool
is_some none = false
is_some (some a) = true

-- `recovery.gap_reason.unwrap_or_else(…)`
abbrev pub reason_of :
    Option MatterSubscriptionLossReason
    → StoredMatterSubscriptionState
    → MatterSubscriptionLossReason
reason_of (some reason) _ = reason
reason_of none established = controller_restarted
reason_of none _ = report_gap

-- The match on the stored state.
unfoldable pub restored_phase :
    StoredMatterSubscriptionState → StoredMatterSubscriptionRecovery → RecoveryPhase
restored_phase established r = marking
restored_phase repair_required r = broken
restored_phase _ r =
    if is_some r.retry_at
    then waiting
    else if ltb r.gap_reads r.maximum_gap_reads
    then reading
    else resubscribing

-- MatterSubscriptionRecovery::from_stored
unfoldable pub from_stored :
    StoredMatterSubscription
    → List ℕ
    → ℕ
    → ℕ
    → MatterSubscriptionRecoveryPolicy
    → MatterSubscriptionRecovery
unfolding restored_phase
from_stored stored selection minimum maximum policy =
    let recovery = stored.recovery in
    record {
      subscription_id = stored.subscription_id;
      fabric_id = stored.fabric_id;
      node_id = stored.node_id;
      selection = selection;
      minimum_interval_millis = minimum;
      maximum_interval_millis = maximum;
      loss_reason = reason_of recovery.gap_reason stored.state;
      sleepy = recovery.sleepy;
      last_gap_read_at = recovery.last_gap_read_at;
      gap_reads = recovery.gap_reads;
      subscribe_attempts = recovery.subscribe_attempts;
      retry_at = recovery.retry_at;
      phase = restored_phase stored.state recovery;
      policy = record policy {
        maximum_gap_reads = recovery.maximum_gap_reads;
        maximum_subscribe_attempts = recovery.maximum_subscribe_attempts;
        sleepy_read_interval_millis = recovery.sleepy_read_interval_millis;
      };
    }

abbrev pub is_completed : RecoveryPhase → Bool
is_completed completed = true
is_completed _ = false

-- MatterSubscriptionRecovery::checkpoint
unfoldable pub checkpoint : MatterSubscriptionRecovery → StoredMatterSubscriptionRecovery
checkpoint m = record {
  gap_reason = if not (is_completed m.phase) then some m.loss_reason else none;
  sleepy = m.sleepy;
  gap_reads = m.gap_reads;
  maximum_gap_reads = m.policy.maximum_gap_reads;
  subscribe_attempts = m.subscribe_attempts;
  maximum_subscribe_attempts = m.policy.maximum_subscribe_attempts;
  retry_at = m.retry_at;
  last_gap_read_at = m.last_gap_read_at;
  sleepy_read_interval_millis = m.policy.sleepy_read_interval_millis;
}

-- u8::saturating_add(1), u64::saturating_add and u64::saturating_mul
abbrev pub saturating_suc8 : ℕ → ℕ
saturating_suc8 n = min (n + 1) 255

abbrev pub u64_max : ℕ
u64_max = 0xFFFF_FFFF_FFFF_FFFF

abbrev pub i64_max : ℕ
i64_max = 0x7FFF_FFFF_FFFF_FFFF

-- `now < at`, on an optional instant.
abbrev pub is_before : ℕ → Option ℕ → Bool
is_before now none = false
is_before now (some at) = ltb now at
