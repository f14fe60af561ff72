-- ===== src/Scheduler.antt =====
-- crates/homemagic-application/src/automation_scheduler.rs: recovered work of automations, with the
-- runs, occurrences and timers of crates/homemagic-domain/src/automation.rs and the data of the
-- repository of crates/homemagic-application/src/automation_repository.rs. The repository is an
-- interface over a state W, in which each call that is awaited is one step; B is its error.
mod Admission
mod Recovery
mod Settlement
mod Live
mod Capacity
mod Acceptance
mod Exclusion
mod Limited
mod Known
mod Recovered
mod Examples
use homemagic.Prelude.{Result, Text, ℕ, Bool, Option, List}
use homemagic.Automation.{
  AutomationRunState, AutomationOccurrenceState, AutomationTimerState, AutomationTimerKind,
  AutomationRunMode,
}
use homemagic.Evaluation.{AutomationValue}

pub record AutomationCatchUp : Type 0 where
  pub missed_occurrence_id : ℕ
  pub requested_by : ℕ
  pub idempotency_key : Text
  pub requested_at : ℕ

pub record AutomationOccurrence : Type 0 where
  pub id : ℕ
  pub automation_id : ℕ
  pub version : ℕ
  pub occurred_at : ℕ
  pub window_ends_at : ℕ
  pub state : AutomationOccurrenceState
  pub event_cursor : Option ℕ
  pub correlation_id : ℕ
  pub causation_event_id : Option ℕ
  pub catch_up : Option AutomationCatchUp

pub data AutomationConditionDurationPhase : Type 0 where
  pending mature : AutomationConditionDurationPhase

pub record AutomationConditionDuration : Type 0 where
  pub node_id : ℕ
  pub condition_hash : Text
  pub duration_ms : ℕ
  pub ready_at : ℕ
  pub timer_id : ℕ
  pub phase : AutomationConditionDurationPhase

pub data AutomationCommandAttemptPhase : Type 0 where
  awaiting_outcome backoff dispatch : AutomationCommandAttemptPhase

pub record AutomationCommandAttempt : Type 0 where
  pub node_id : ℕ
  pub attempt : ℕ
  pub target_indices : List ℕ
  pub command_ids : List ℕ
  pub phase : AutomationCommandAttemptPhase
  pub retry_ready_at : Option ℕ

pub data AutomationRunContinuationKind : Type 0 where
  parallel race : AutomationRunContinuationKind

pub record AutomationRunContinuation : Type 0 where
  pub group_node_id : ℕ
  pub kind : AutomationRunContinuationKind
  pub join_node_id : ℕ
  pub remaining_branches : List ℕ
  pub current_branch_failed : Bool
  pub maximum_parallel : ℕ

pub record AutomationRun : Type 0 where
  pub id : ℕ
  pub automation_id : ℕ
  pub version : ℕ
  pub occurrence_id : ℕ
  pub actor_id : ℕ
  pub state : AutomationRunState
  pub revision : ℕ
  pub node_id : Option ℕ
  pub variables : List (Text × AutomationValue)
  pub command_ids : List ℕ
  pub command_attempt : Option AutomationCommandAttempt
  pub condition_durations : List AutomationConditionDuration
  pub continuations : List AutomationRunContinuation
  pub correlation_id : ℕ
  pub causation_event_id : Option ℕ
  pub created_at : ℕ
  pub updated_at : ℕ

pub record AutomationTimer : Type 0 where
  pub id : ℕ
  pub run_id : ℕ
  pub node_id : ℕ
  pub kind : AutomationTimerKind
  pub ready_at : ℕ
  pub state : AutomationTimerState

pub data AutomationTraceKind : Type 0 where
  trigger condition branch reduction command timer variable suppression outcome :
      AutomationTraceKind

pub record AutomationTraceStep : Type 0 where
  pub id : ℕ
  pub run_id : ℕ
  pub sequence : ℕ
  pub node_id : Option ℕ
  pub kind : AutomationTraceKind
  pub details : List (Text × AutomationValue)
  pub occurred_at : ℕ
  pub correlation_id : ℕ
  pub causation_event_id : Option ℕ

pub record AutomationStepWrite : Type 0 where
  pub run : AutomationRun
  pub expected_run_revision : ℕ
  pub trace : List AutomationTraceStep
  pub create_timers : List AutomationTimer
  pub transition_timers : List AutomationTimer

pub record AutomationRecovery : Type 0 where
  pub occurrences : List AutomationOccurrence
  pub runs : List AutomationRun
  pub timers : List AutomationTimer

-- Of an active version what the recovery reads: its identity, and of its document and plan the
-- author, the run mode, the entry node and the initial values of the variables.
pub record ActiveAutomationVersion : Type 0 where
  pub automation_id : ℕ
  pub version : ℕ
  pub author_id : ℕ
  pub run_mode : AutomationRunMode
  pub entry : ℕ
  pub variables : List (Text × Option AutomationValue)

pub record AutomationSchedulerTick : Type 0 where
  pub scheduled : ℕ
  pub accepted : ℕ
  pub missed_skipped : ℕ
  pub suppressed : ℕ
  pub runs : ℕ
  pub runs_cancelled : ℕ
  pub timers_ready : ℕ

pub data AutomationSchedulerError (B : Type 0) : Type 0 where
  repository : B → AutomationSchedulerError B
  invalid_schedule invalid_catch_up_instant schedule_not_missed : AutomationSchedulerError B
  automation_not_active duration_overflow : AutomationSchedulerError B

-- The calls of AutomationRepository, the clock, AutomationRunId::from_occurrence and
-- AutomationTraceId::from_run_sequence.
pub record Services (W B : Type 0) : Type 0 where
  pub recoverable_automation_work : ℕ → W → Result AutomationRecovery B × W
  pub transition_automation_timer : AutomationTimer → W → Result (Unit {0}) B × W
  pub transition_automation_occurrence : AutomationOccurrence → W → Result (Unit {0}) B × W
  pub automation_trace : ℕ → ℕ → W → Result (List AutomationTraceStep) B × W
  pub commit_automation_step : AutomationStepWrite → W → Result (Unit {0}) B × W
  pub automation_run : ℕ → W → Result (Option AutomationRun) B × W
  pub create_automation_run : AutomationRun → W → Result (Unit {0}) B × W
  pub now : W → ℕ × W
  pub from_occurrence : ℕ → ℕ
  pub from_run_sequence : ℕ → ℕ → ℕ

abbrev pub recovery_page : ℕ
recovery_page = 1000
