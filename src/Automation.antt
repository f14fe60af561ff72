-- ===== src/Automation.antt =====
-- crates/homemagic-domain/src/automation.rs: the states of automation versions, identities, runs,
-- occurrences, timers and approvals, and which transitions they allow.
use homemagic.Prelude.{nat_beq, ℕ, Bool, true, false, ◌&&◌, ◌||◌, not}

pub data AutomationVersionState : Type 0 where
  draft validated simulated awaiting_approval ready rejected retired : AutomationVersionState

pub data AutomationOperationalState : Type 0 where
  inactive active disabled retired : AutomationOperationalState

pub data AutomationRunState : Type 0 where
  pending running waiting completed failed cancelled suppressed : AutomationRunState

pub data AutomationOccurrenceState : Type 0 where
  scheduled accepted missed_skipped suppressed : AutomationOccurrenceState

pub data AutomationTimerState : Type 0 where
  pending ready consumed cancelled : AutomationTimerState

pub data AutomationTimerKind : Type 0 where
  delay wait_timeout command_retry state_duration : AutomationTimerKind

pub data AutomationApprovalState : Type 0 where
  not_required pending approved rejected : AutomationApprovalState

pub data AutomationRunMode : Type 0 where
  single restart : AutomationRunMode
  queued parallel : ℕ → AutomationRunMode

-- AutomationVersionState::allows_transition_to
unfoldable pub version_allows : AutomationVersionState → AutomationVersionState → Bool
version_allows draft validated = true
version_allows draft retired = true
version_allows validated simulated = true
version_allows validated retired = true
version_allows simulated awaiting_approval = true
version_allows simulated ready = true
version_allows simulated retired = true
version_allows awaiting_approval ready = true
version_allows awaiting_approval rejected = true
version_allows awaiting_approval retired = true
version_allows ready retired = true
version_allows rejected retired = true
version_allows _ _ = false

-- AutomationOperationalState::allows_transition_to
unfoldable pub operational_allows : AutomationOperationalState → AutomationOperationalState → Bool
operational_allows inactive active = true
operational_allows inactive retired = true
operational_allows disabled active = true
operational_allows disabled retired = true
operational_allows active disabled = true
operational_allows active retired = true
operational_allows _ _ = false

-- AutomationRunState::is_terminal
unfoldable pub is_terminal_run : AutomationRunState → Bool
is_terminal_run completed = true
is_terminal_run failed = true
is_terminal_run cancelled = true
is_terminal_run suppressed = true
is_terminal_run _ = false

-- AutomationRunState::allows_transition_to
unfoldable pub run_allows : AutomationRunState → AutomationRunState → Bool
run_allows pending running = true
run_allows pending cancelled = true
run_allows pending suppressed = true
run_allows running waiting = true
run_allows running completed = true
run_allows running failed = true
run_allows running cancelled = true
run_allows waiting running = true
run_allows waiting failed = true
run_allows waiting cancelled = true
run_allows _ _ = false

-- `self as u8`
abbrev pub run_index : AutomationRunState → ℕ
run_index pending = 0
run_index running = 1
run_index waiting = 2
run_index completed = 3
run_index failed = 4
run_index cancelled = 5
run_index suppressed = 6

-- AutomationRunState::allows_revision_to
unfoldable pub allows_revision_to : AutomationRunState → AutomationRunState → Bool
unfolding run_allows is_terminal_run
allows_revision_to s next =
    (nat_beq (run_index s) (run_index next) && not (is_terminal_run s)) || run_allows s next

-- AutomationOccurrenceState::allows_transition_to
unfoldable pub occurrence_allows : AutomationOccurrenceState → AutomationOccurrenceState → Bool
occurrence_allows scheduled accepted = true
occurrence_allows scheduled missed_skipped = true
occurrence_allows scheduled suppressed = true
occurrence_allows _ _ = false

-- AutomationTimerState::allows_transition_to
unfoldable pub timer_allows : AutomationTimerState → AutomationTimerState → Bool
timer_allows pending ready = true
timer_allows pending cancelled = true
timer_allows ready consumed = true
timer_allows ready cancelled = true
timer_allows _ _ = false

-- AutomationApprovalState::allows_transition_to
unfoldable pub approval_allows : AutomationApprovalState → AutomationApprovalState → Bool
approval_allows pending approved = true
approval_allows pending rejected = true
approval_allows _ _ = false
