-- ===== src/Scheduler/Recovery.antt =====
-- crates/homemagic-application/src/automation_scheduler.rs: the steps of the recovery that change
-- timers and runs, with cancel_for_restart and create_run.
use homemagic.Prelude.{
  Call, chain, give, await, nat_beq, leb, if◌then◌else◌, length, Text, text, ℕ, Bool, true, false,
  ◌&&◌, not, Option, none, some, List, [], ◌∷◌,
}
use homemagic.Automation.{AutomationRunState, AutomationTimerState, is_terminal_run}
use homemagic.Evaluation.{AutomationValue, string}
use homemagic.Repository.{saturating_add}
use homemagic.Scheduler.{
  AutomationOccurrence, AutomationRun, AutomationTimer, AutomationTraceKind, AutomationStepWrite,
  ActiveAutomationVersion, AutomationSchedulerTick, AutomationSchedulerError, repository, Services,
  recovery_page,
}
use homemagic.Scheduler.Admission.{Key, key_beq, run_key, occurrence_key}

infixl 5 ◌>>=◌
abbrev pub ◌>>=◌ : {W E A C : Type 0} → Call W E A → (A → Call W E C) → Call W E C
m >>= f = chain m f

-- The variables that have an initial value.
unfoldable pub initial_variables :
    List (Text × Option AutomationValue) → List (Text × AutomationValue)
initial_variables [] = []
initial_variables ((name, none) ∷ vs) = initial_variables vs
initial_variables ((name, some value) ∷ vs) = (name, value) ∷ initial_variables vs

-- Timers of a run that are pending or ready, as cancelled.
abbrev pub is_open_timer : AutomationTimerState → Bool
is_open_timer AutomationTimerState.pending = true
is_open_timer AutomationTimerState.ready = true
is_open_timer _ = false

unfoldable pub cancel_timers : ℕ → List AutomationTimer → List AutomationTimer
cancel_timers run_id [] = []
cancel_timers run_id (t ∷ ts) =
    let rest = cancel_timers run_id ts in
    if nat_beq t.run_id run_id && is_open_timer t.state
    then record t { state = AutomationTimerState.cancelled } ∷ rest
    else rest

abbrev pub is_live : Key → AutomationRun → Bool
is_live k r = key_beq (run_key r) k && not (is_terminal_run r.state)

abbrev pub cancelled_run : ℕ → AutomationRun → AutomationRun
cancelled_run now r = record r {
  state = AutomationRunState.cancelled;
  revision = saturating_add r.revision 1;
  updated_at = now;
}

module _ {W B : Type 0} (services : Services W B) where
  abbrev pub Run : Type 0 → Type 0
  Run A = Call W (AutomationSchedulerError B) A

  -- The loop over the timers.
  abbrev pub is_due : ℕ → AutomationTimer → Bool
  is_due now t = elim t.state [ AutomationTimerState.pending ↦ leb t.ready_at now | _ ↦ false ]

  unfoldable pub move_timer :
      AutomationTimer → AutomationSchedulerTick → Run (AutomationTimer × AutomationSchedulerTick)
  move_timer changed tick = do
    _ ← await repository (services.transition_automation_timer changed)
    give (changed, record tick { timers_ready = saturating_add tick.timers_ready 1 })

  unfoldable pub ready_timer :
      ℕ
      → AutomationTimer
      → AutomationSchedulerTick
      → Run (AutomationTimer × AutomationSchedulerTick)
  unfolding move_timer
  ready_timer now t tick =
      if is_due now t
      then move_timer (record t { state = AutomationTimerState.ready }) tick
      else give (t, tick)

  unfoldable pub ready_timers :
      ℕ
      → List AutomationTimer
      → AutomationSchedulerTick
      → Run (List AutomationTimer × AutomationSchedulerTick)
  unfolding ready_timer
  ready_timers now [] tick = give ([], tick)
  ready_timers now (t ∷ ts) tick = do
    (t', tick') ← ready_timer now t tick
    (ts', tick'') ← ready_timers now ts tick'
    give (t' ∷ ts', tick'')

  abbrev pub cancelling_write :
      List AutomationTimer → AutomationOccurrence → ℕ → AutomationRun → ℕ → AutomationStepWrite
  cancelling_write timers o now r sequence = record {
    run = cancelled_run now r;
    expected_run_revision = r.revision;
    trace =
        record {
          id = services.from_run_sequence r.id sequence;
          run_id = r.id;
          sequence = sequence;
          node_id = r.node_id;
          kind = AutomationTraceKind.outcome;
          details = (text "reason", string (text "restart_mode")) ∷ [];
          occurred_at = now;
          correlation_id = r.correlation_id;
          causation_event_id = o.causation_event_id;
        }
        ∷ [];
    create_timers = [];
    transition_timers = cancel_timers r.id timers;
  }

  -- The body of the loop of cancel_for_restart.
  unfoldable pub cancel_run :
      List AutomationTimer → AutomationOccurrence → ℕ → AutomationRun → Run AutomationRun
  unfolding cancel_timers
  cancel_run timers o now r = do
    trace ← await repository (services.automation_trace r.id recovery_page)
    let write = cancelling_write timers o now r (length trace)
    _ ← await repository (services.commit_automation_step write)
    give (cancelled_run now r)

  unfoldable pub cancel_if_live :
      List AutomationTimer → AutomationOccurrence → ℕ → AutomationRun → ℕ → Run (AutomationRun × ℕ)
  unfolding cancel_run
  cancel_if_live timers o now r n =
      if is_live (occurrence_key o) r
      then (cancel_run timers o now r >>= λ next. give (next, saturating_add n 1))
      else give (r, n)

  -- cancel_for_restart, from a number of runs that are cancelled.
  unfoldable pub cancel_for_restart :
      List AutomationTimer
      → AutomationOccurrence
      → ℕ
      → List AutomationRun
      → ℕ
      → Run (List AutomationRun × ℕ)
  unfolding cancel_if_live
  cancel_for_restart timers o now [] n = give ([], n)
  cancel_for_restart timers o now (r ∷ rs) n = do
    (r', n') ← cancel_if_live timers o now r n
    (rs', n'') ← cancel_for_restart timers o now rs n'
    give (r' ∷ rs', n'')

  abbrev pub new_run : ActiveAutomationVersion → AutomationOccurrence → ℕ → AutomationRun
  new_run v o now = record {
    id = services.from_occurrence o.id;
    automation_id = o.automation_id;
    version = o.version;
    occurrence_id = o.id;
    actor_id = v.author_id;
    state = AutomationRunState.pending;
    revision = 0;
    node_id = some v.entry;
    variables = initial_variables v.variables;
    command_ids = [];
    command_attempt = none;
    condition_durations = [];
    continuations = [];
    correlation_id = o.correlation_id;
    causation_event_id = o.causation_event_id;
    created_at = now;
    updated_at = now;
  }

  -- create_run
  unfoldable pub create_new_run :
      ActiveAutomationVersion → AutomationOccurrence → ℕ → Run AutomationRun
  create_new_run v o now = do
    let r = new_run v o now
    _ ← await repository (services.create_automation_run r)
    give r

  unfoldable pub create_missing :
      Option AutomationRun → ActiveAutomationVersion → AutomationOccurrence → ℕ → Run AutomationRun
  unfolding create_new_run
  create_missing (some r) v o now = give r
  create_missing none v o now = create_new_run v o now

  unfoldable pub create_run : ActiveAutomationVersion → AutomationOccurrence → ℕ → Run AutomationRun
  unfolding create_missing
  create_run v o now = do
    found ← await repository (services.automation_run (services.from_occurrence o.id))
    create_missing found v o now
