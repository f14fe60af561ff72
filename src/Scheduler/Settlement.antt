-- ===== src/Scheduler/Settlement.antt =====
-- crates/homemagic-application/src/automation_scheduler.rs: process_recovery. The variables of its
-- loop are one state.
use homemagic.Prelude.{
  ltb, nat_beq, if◌then◌else◌, all, ok, give, await, ℕ, Bool, ◌&&◌, not, Option, none, some, List,
  [], ◌∷◌, ◌++◌,
}
use homemagic.Automation.{AutomationOccurrenceState, AutomationRunMode, is_terminal_run}
use homemagic.Repository.{saturating_add}
use homemagic.Scheduler.{
  AutomationOccurrence, AutomationRun, AutomationTimer, ActiveAutomationVersion,
  AutomationSchedulerTick, repository, Services, recovery_page,
}
use homemagic.Scheduler.Admission.{
  Admission, accept, defer, suppress, admission, Key, count, set_count, increment, occurrence_key,
  count_runs, find_version,
}
use homemagic.Scheduler.Recovery.{◌>>=◌, Run, ready_timers, cancel_for_restart, create_run}

-- The variables of the loop over the occurrences.
pub record Pass : Type 0 where
  pub active_runs : List AutomationRun
  pub active_counts : List (Key × ℕ)
  pub queued_counts : List (Key × ℕ)
  pub result : AutomationSchedulerTick

-- `active_runs.iter().all(|item| item.id != run.id)`
unfoldable pub is_new_run : ℕ → List AutomationRun → Bool
is_new_run id runs = all (λ r. not (nat_beq r.id id)) runs

-- The part of the loop for an accepted occurrence.
unfoldable pub push_run : AutomationRun → List AutomationRun → List AutomationRun
unfolding is_new_run
push_run r runs =
    if not (is_terminal_run r.state) && is_new_run r.id runs then runs ++ r ∷ [] else runs

abbrev pub add_run : AutomationRun → Pass → Pass
add_run r p = record p {
  active_runs = push_run r p.active_runs;
  result = record (p.result) { runs = saturating_add p.result.runs 1 };
}

module _ {W B : Type 0} (services : Services W B) where
  unfoldable pub start_run :
      ActiveAutomationVersion → AutomationOccurrence → ℕ → Pass → Run services Pass
  unfolding create_run is_new_run
  start_run v o now p = do r ← create_run services v o now; give (add_run r p)

  -- The restart mode's part of Admission::Accept.
  unfoldable pub make_room :
      AutomationRunMode → List AutomationTimer → AutomationOccurrence → ℕ → Pass → Run services Pass
  unfolding cancel_for_restart
  make_room AutomationRunMode.restart timers o now p = do
    (runs, n) ← cancel_for_restart services timers o now p.active_runs 0
    give (record p {
      active_runs = runs;
      active_counts = set_count (occurrence_key o) 0 p.active_counts;
      result = record (p.result) { runs_cancelled = saturating_add p.result.runs_cancelled n };
    })
  make_room _ timers o now p = give p

  abbrev pub move_occurrence : AutomationOccurrence → Run services (Unit {0})
  move_occurrence o = await repository (services.transition_automation_occurrence o)

  unfoldable pub accept_occurrence :
      ActiveAutomationVersion
      → List AutomationTimer
      → AutomationOccurrence
      → ℕ
      → Pass
      → Run services Pass
  unfolding make_room start_run
  accept_occurrence v timers o now p = do
    p' ← make_room v.run_mode timers o now p
    let o' = record o { state = AutomationOccurrenceState.accepted }
    _ ← move_occurrence o'
    start_run v o' now (record p' {
      active_counts = increment (occurrence_key o) p'.active_counts;
      result = record (p'.result) { accepted = saturating_add p'.result.accepted 1 };
    })

  -- The match on the admission.
  unfoldable pub admit_as :
      Admission
      → ActiveAutomationVersion
      → List AutomationTimer
      → AutomationOccurrence
      → ℕ
      → Pass
      → Run services Pass
  unfolding accept_occurrence
  admit_as defer v timers o now p =
      give (record p { queued_counts = increment (occurrence_key o) p.queued_counts })
  admit_as suppress v timers o now p = do
    _ ← move_occurrence (record o { state = AutomationOccurrenceState.suppressed })
    give (record p {
      result = record (p.result) { suppressed = saturating_add p.result.suppressed 1 };
    })
  admit_as accept v timers o now p = accept_occurrence v timers o now p

  unfoldable pub admit :
      ActiveAutomationVersion
      → List AutomationTimer
      → AutomationOccurrence
      → ℕ
      → Pass
      → Run services Pass
  unfolding admission count admit_as
  admit v timers o now p =
      let active_count = count (occurrence_key o) p.active_counts in
      let queued_count = count (occurrence_key o) p.queued_counts in
      admit_as (admission v.run_mode active_count queued_count) v timers o now p

  -- The part of the loop for a scheduled occurrence.
  unfoldable pub settle_scheduled :
      ActiveAutomationVersion
      → List AutomationTimer
      → AutomationOccurrence
      → ℕ
      → Pass
      → Run services Pass
  unfolding admit
  settle_scheduled v timers o now p =
      if ltb o.window_ends_at now
      then (move_occurrence (record o { state = AutomationOccurrenceState.missed_skipped }) >>= λ _.
          give (record p {
            result = record (p.result) {
              missed_skipped = saturating_add p.result.missed_skipped 1;
            };
          }))
      else if ltb now o.occurred_at
      then give p
      else admit v timers o now p

  unfoldable pub settle_in_state :
      AutomationOccurrenceState
      → ActiveAutomationVersion
      → List AutomationTimer
      → AutomationOccurrence
      → ℕ
      → Pass
      → Run services Pass
  unfolding settle_scheduled start_run
  settle_in_state AutomationOccurrenceState.scheduled v timers o now p =
      settle_scheduled v timers o now p
  settle_in_state AutomationOccurrenceState.accepted v timers o now p = start_run v o now p
  settle_in_state _ v timers o now p = give p

  -- The loop over the occurrences.
  unfoldable pub settle_occurrence :
      Option ActiveAutomationVersion
      → List AutomationTimer
      → AutomationOccurrence
      → ℕ
      → Pass
      → Run services Pass
  unfolding settle_in_state
  settle_occurrence none timers o now p = give p
  settle_occurrence (some v) timers o now p = settle_in_state o.state v timers o now p

  unfoldable pub settle_occurrences :
      List ActiveAutomationVersion
      → List AutomationTimer
      → ℕ
      → List AutomationOccurrence
      → Pass
      → Run services Pass
  unfolding settle_occurrence find_version
  settle_occurrences active timers now [] p = give p
  settle_occurrences active timers now (o ∷ os) p = do
    p' ← settle_occurrence (find_version (occurrence_key o) active) timers o now p
    settle_occurrences active timers now os p'

  -- process_recovery; the variables of its loop are given out with the tick.
  unfoldable pub process_recovery :
      List ActiveAutomationVersion → AutomationSchedulerTick → Run services Pass
  unfolding count_runs ready_timers settle_occurrences
  process_recovery active tick = do
    now ← (λ w. let (at, w') = services.now w in (ok at, w'))
    recovery ← await repository (services.recoverable_automation_work recovery_page)
    (timers, tick') ← ready_timers services now recovery.timers tick
    settle_occurrences active timers now recovery.occurrences (record {
      active_runs = recovery.runs;
      active_counts = count_runs recovery.runs [];
      queued_counts = [];
      result = tick';
    })
