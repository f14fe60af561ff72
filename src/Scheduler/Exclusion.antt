-- ===== src/Scheduler/Exclusion.antt =====
-- What a recovery leaves of the limits of a version's run mode.
use homemagic.Prelude.{
  ltb, continue_with, give, await, Gives, continue_with-Gives, lift_error-Gives, chain-Gives,
  either-Gives, ℕ, suc, ◌≤◌, ◌≡◌, refl, ap, ◌⊎◌, inl, inr, true, false, Option, none, some, List,
  arith,
}
use homemagic.Automation.{is_terminal_run, AutomationOccurrenceState}
use homemagic.Scheduler.{
  AutomationOccurrence, AutomationRun, AutomationTimer, ActiveAutomationVersion,
  AutomationSchedulerTick, repository, Services,
}
use homemagic.Scheduler.Admission.{
  Admission, accept, defer, suppress, Key, key_beq, count, occurrence_key,
}
use homemagic.Scheduler.Recovery.{create_missing, create_run}
use homemagic.Scheduler.Settlement.{
  Pass, is_new_run, push_run, add_run, start_run, make_room, move_occurrence, accept_occurrence,
  admit_as, admit, settle_scheduled, settle_in_state,
}
use homemagic.Scheduler.Live.{key_beq_iff, live_runs}
use homemagic.Scheduler.Capacity.{room, IsWithin, count-increment, Belongs}
use homemagic.Scheduler.Acceptance.{
  make_room-other, make_room-own, finish, finish-own, finish-other,
}

module _ (known : List AutomationRun) where
  -- A run that is over, or one of the known runs.
  abbrev pub IsCounted : AutomationRun → Type 0
  IsCounted r = (is_terminal_run r.state ≡ true) ⊎ (is_new_run r.id known ≡ false)

  abbrev pub HasCounted : Option AutomationRun → Type 0
  HasCounted none = ⊥
  HasCounted (some r) = IsCounted r

  -- A pass has all known runs among its runs.
  abbrev pub Covers : Pass → Type 0
  Covers p = (id : ℕ) → is_new_run id known ≡ false → is_new_run id p.active_runs ≡ false

  module _ {W B : Type 0} (services : Services W B) where
    abbrev pub IsOver : AutomationOccurrence → Type 0
    IsOver o =
        (w : W) → Gives HasCounted (services.automation_run (services.from_occurrence o.id) w)

    abbrev pub IsReady : AutomationOccurrence → Type 0
    IsReady o = Belongs services o × (o.state ≡ AutomationOccurrenceState.accepted → IsOver o)

module _ {W B : Type 0} (services : Services W B) (timers : List AutomationTimer) (now : ℕ)
    (known : List AutomationRun) where
  module _ (k : Key) (a b : ℕ) (v : ActiveAutomationVersion) (o : AutomationOccurrence) where
    accept-own :
        (p : Pass) (w : W)
        → key_beq (occurrence_key o) k ≡ true
        → Belongs services o
        → IsWithin k a b p
        → suc (room v.run_mode (count k p.active_counts)) ≤ a
        → Gives (IsWithin k a b) (accept_occurrence services v timers o now p w)
    unfolding accept_occurrence
    accept-own p w n h g l =
        let c = room v.run_mode (count k p.active_counts) in
        continue_with-Gives (IsWithin k c b) (IsWithin k a b)
          (make_room services v.run_mode timers o now p w) (finish services timers o now k a b v)
          (make_room-own services timers o now k a b v.run_mode p w n g)
          (λ p' w1 q. finish-own services timers o now k a b v p' w1 c n h q l)

    accept-other :
        (p : Pass) (w : W)
        → key_beq (occurrence_key o) k ≡ false
        → Belongs services o
        → IsWithin k a b p
        → Gives (IsWithin k a b) (accept_occurrence services v timers o now p w)
    unfolding accept_occurrence
    accept-other p w n h g =
        continue_with-Gives (IsWithin k a b) (IsWithin k a b)
          (make_room services v.run_mode timers o now p w) (finish services timers o now k a b v)
          (make_room-other services timers o now k a b v.run_mode p w n g)
          (λ p' w1 q. finish-other services timers o now k a b v p' w1 n h q)

    -- Only the summary of the pass changes.
    IsWithin-result :
        (p : Pass) (t : AutomationSchedulerTick)
        → IsWithin k a b p
        → IsWithin k a b (record p { result = t })
    IsWithin-result p t g = record { live = g.live; active = g.active; waiting = g.waiting }

    pub moved :
        (o' : AutomationOccurrence) (p : Pass) (t : AutomationSchedulerTick) (w : W)
        → IsWithin k a b p
        → Gives
            (IsWithin k a b)
            (continue_with (move_occurrence services o' w) (λ _. give (record p { result = t })))
    moved o' p t w g =
        chain-Gives (IsWithin k a b) (move_occurrence services o' w)
          (λ _. give (record p { result = t })) (λ _ _. IsWithin-result p t g)

    pub admit_as-own :
        (d : Admission) (p : Pass) (w : W)
        → key_beq (occurrence_key o) k ≡ true
        → Belongs services o
        → IsWithin k a b p
        → (d ≡ accept → suc (room v.run_mode (count k p.active_counts)) ≤ a)
        → (d ≡ defer → suc (count k p.queued_counts) ≤ b)
        → Gives (IsWithin k a b) (admit_as services d v timers o now p w)
    unfolding admit_as
    admit_as-own accept p w n h g x y = accept-own p w n h g (x refl)
    admit_as-own suppress p w n h g x y = moved _ p _ w g
    admit_as-own defer p w n h g x y =
        let l = y refl in
        let i =
          count-increment (occurrence_key o) k (suc (count (occurrence_key o) p.queued_counts))
            p.queued_counts in
        let same = ap (λ j. count j p.queued_counts) ((key_beq_iff (occurrence_key o) k).0 n) in
        ground arith

    pub admit_as-other :
        (d : Admission) (p : Pass) (w : W)
        → key_beq (occurrence_key o) k ≡ false
        → Belongs services o
        → IsWithin k a b p
        → Gives (IsWithin k a b) (admit_as services d v timers o now p w)
    unfolding admit_as
    admit_as-other accept p w n h g = accept-other p w n h g
    admit_as-other suppress p w n h g = moved _ p _ w g
    admit_as-other defer p w n h g =
        let i =
          count-increment (occurrence_key o) k (suc (count (occurrence_key o) p.queued_counts))
            p.queued_counts in
        ground arith

    -- An accepted occurrence whose run is over adds no run.
    finished :
        (f : Option AutomationRun) (w : W)
        → HasCounted known f
        → Gives (IsCounted known) (create_missing services f v o now w)
    unfolding create_missing
    finished none w q = absurd q
    finished (some r) w q = q

    create_run-IsCounted :
        (w : W)
        → Gives (HasCounted known) (services.automation_run (services.from_occurrence o.id) w)
        → Gives (IsCounted known) (create_run services v o now w)
    unfolding create_run create_missing
    create_run-IsCounted w h =
        let found = services.automation_run (services.from_occurrence o.id) in
        continue_with-Gives (HasCounted known) (IsCounted known) (await repository found w)
          (λ f. create_missing services f v o now)
          (lift_error-Gives (HasCounted known) repository (found w) h) finished

    push_run-IsCounted :
        (p : Pass) (r : AutomationRun)
        → Covers known p
        → IsCounted known r
        → push_run r p.active_runs ≡ p.active_runs
    unfolding push_run
    push_run-IsCounted p r u (inl t) = ground arith
    push_run-IsCounted p r u (inr n) = let m = u r.id n in ground arith

    pub start_run-IsOver :
        (p : Pass) (w : W)
        → IsOver known services o
        → Covers known p
        → IsWithin k a b p
        → Gives (IsWithin k a b) (start_run services v o now p w)
    unfolding start_run
    start_run-IsOver p w h u g =
        continue_with-Gives (IsCounted known) (IsWithin k a b) (create_run services v o now w)
          (λ r. give (add_run r p)) (create_run-IsCounted w (h w))
          (λ r w1 q.
            let same : push_run r p.active_runs ≡ p.active_runs = push_run-IsCounted p r u q in
            let e = ap (live_runs k) same in ground arith)

    pub settle_scheduled-other :
        (p : Pass) (w : W)
        → key_beq (occurrence_key o) k ≡ false
        → Belongs services o
        → IsWithin k a b p
        → Gives (IsWithin k a b) (settle_scheduled services v timers o now p w)
    unfolding settle_scheduled admit
    settle_scheduled-other p w n h g =
        either-Gives (IsWithin k a b) (ltb o.window_ends_at now) _ _ w (λ _. moved _ p _ w g)
          (λ _.
            either-Gives (IsWithin k a b) (ltb now o.occurred_at) (give p) _ w (λ _. g)
              (λ _. admit_as-other _ p w n h g))

    pub settle_in_state-other :
        (s : AutomationOccurrenceState) (p : Pass) (w : W)
        → (s ≡ AutomationOccurrenceState.accepted → IsOver known services o)
        → Covers known p
        → key_beq (occurrence_key o) k ≡ false
        → Belongs services o
        → IsWithin k a b p
        → Gives (IsWithin k a b) (settle_in_state services s v timers o now p w)
    unfolding settle_in_state
    settle_in_state-other AutomationOccurrenceState.scheduled p w x u n h g =
        settle_scheduled-other p w n h g
    settle_in_state-other AutomationOccurrenceState.accepted p w x u n h g =
        start_run-IsOver p w (x refl) u g
    settle_in_state-other AutomationOccurrenceState.missed_skipped p w x u n h g = g
    settle_in_state-other AutomationOccurrenceState.suppressed p w x u n h g = g
