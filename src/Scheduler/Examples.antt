-- ===== src/Scheduler/Examples.antt =====
-- Recoveries of a version that runs one at a time.
use homemagic.Prelude.{
  Result, ok, err, Gives, ℕ, suc, ◌+◌, ◌*◌, ◌≡◌, refl, ◌≢◌, none, some, List, [], ◌∷◌, arith,
}
use homemagic.Automation.{AutomationRunMode, AutomationOccurrenceState, is_terminal_run}
use homemagic.Scheduler.{
  AutomationOccurrence, AutomationSchedulerError, ActiveAutomationVersion, AutomationSchedulerTick,
  Services,
}
use homemagic.Scheduler.Admission.{admission, key_beq, count, count_runs, find_version}
use homemagic.Scheduler.Recovery.{
  initial_variables, ready_timers, create_new_run, create_missing, create_run,
}
use homemagic.Scheduler.Settlement.{
  Pass, is_new_run, push_run, start_run, make_room, accept_occurrence, admit_as, admit,
  settle_scheduled, settle_in_state, settle_occurrence, settle_occurrences, process_recovery,
}
use homemagic.Scheduler.Live.{live_runs}
use homemagic.Scheduler.Capacity.{run_limit}
use homemagic.Scheduler.Recovered.{IsKept, process_recovery-IsKept}

abbrev lamp : ActiveAutomationVersion
lamp = record {
  automation_id = 5;
  version = 1;
  author_id = 2;
  run_mode = AutomationRunMode.single;
  entry = 0;
  variables = [];
}

abbrev occurrence : ℕ → AutomationOccurrenceState → AutomationOccurrence
occurrence id state = record {
  id = id;
  automation_id = 5;
  version = 1;
  occurred_at = 10;
  window_ends_at = 90;
  state = state;
  event_cursor = none;
  correlation_id = 0;
  causation_event_id = none;
  catch_up = none;
}

-- A repository that hands out the given occurrences and has no runs; its state is the time.
abbrev store_of : List AutomationOccurrence → Services ℕ (Unit {0})
store_of os = record {
  recoverable_automation_work =
      λ n w. (ok (record { occurrences = os; runs = []; timers = [] }), w);
  transition_automation_timer = λ t w. (ok tt, suc w);
  transition_automation_occurrence = λ o w. (ok tt, suc w);
  automation_trace = λ r n w. (ok [], w);
  commit_automation_step = λ s w. (ok tt, suc w);
  automation_run = λ r w. (ok none, w);
  create_automation_run = λ r w. (ok tt, suc w);
  now = λ w. (w, w);
  from_occurrence = λ o. 100 + o;
  from_run_sequence = λ r n. 1000 * r + n;
}

abbrev no_tick : AutomationSchedulerTick
no_tick = record {
  scheduled = 0;
  accepted = 0;
  missed_skipped = 0;
  suppressed = 0;
  runs = 0;
  runs_cancelled = 0;
  timers_ready = 0;
}

abbrev twice : List AutomationOccurrence
twice =
    occurrence 1 AutomationOccurrenceState.scheduled
    ∷ occurrence 2 AutomationOccurrenceState.scheduled
    ∷ []

scheduled≢accepted : AutomationOccurrenceState.scheduled ≢ AutomationOccurrenceState.accepted
scheduled≢accepted e = cc

lamp_found : find_version (5, 1) (lamp ∷ []) ≡ some lamp
unfolding find_version key_beq
lamp_found = refl

no_live_runs : live_runs (5, 1) [] ≡ 0
unfolding live_runs
no_live_runs = refl

abbrev Waiting : Type 0
Waiting =
    (ℕ → Unit {0})
    × (AutomationOccurrenceState.scheduled ≡ AutomationOccurrenceState.accepted → ℕ → ⊥)

waits : Waiting
waits = ((λ w. tt), (λ e. absurd (scheduled≢accepted e)))

process_recovery-IsKept_example :
    Gives
      (IsKept (store_of twice) (5, 1) lamp)
      (process_recovery (store_of twice) (lamp ∷ []) no_tick 20)
unfolding run_limit live_runs
process_recovery-IsKept_example =
    process_recovery-IsKept (store_of twice) (5, 1) lamp (lamp ∷ []) no_tick 20 lamp_found
      (λ w. ((waits, (waits, tt)), omega arith))

-- Accepted and suppressed occurrences, and live runs, of a recovery at time 20.
abbrev summary : Result Pass (AutomationSchedulerError (Unit {0})) × ℕ → ℕ × ℕ × ℕ
summary (ok p, w) = (p.result.accepted, p.result.suppressed, live_runs (5, 1) p.active_runs)
summary (err e, w) = (0, 0, 0)

second_suppressed : summary (process_recovery (store_of twice) (lamp ∷ []) no_tick 20) ≡ (1, 1, 1)
unfolding process_recovery ready_timers settle_occurrences settle_occurrence find_version key_beq
    settle_in_state settle_scheduled admit admission count count_runs admit_as accept_occurrence
    make_room start_run create_run create_missing create_new_run initial_variables push_run
    is_new_run is_terminal_run live_runs
second_suppressed = refl

-- An occurrence that was accepted before its run was stored, and one that is scheduled: both run,
-- although the version runs one at a time.
abbrev interrupted : List AutomationOccurrence
interrupted =
    occurrence 1 AutomationOccurrenceState.accepted
    ∷ occurrence 2 AutomationOccurrenceState.scheduled
    ∷ []

both_run : summary (process_recovery (store_of interrupted) (lamp ∷ []) no_tick 20) ≡ (1, 0, 2)
unfolding process_recovery ready_timers settle_occurrences settle_occurrence find_version key_beq
    settle_in_state settle_scheduled admit admission count count_runs admit_as accept_occurrence
    make_room start_run create_run create_missing create_new_run initial_variables push_run
    is_new_run is_terminal_run live_runs
both_run = refl
