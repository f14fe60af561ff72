-- ===== src/Scheduler/Known.antt =====
-- The recovery forgets none of the runs that it has found.
use homemagic.Prelude.{
  ltb, nat_beq, Bool-cases, length, continue_with, give, await, Gives, continue_with-Gives,
  chain-Gives, either-Gives, ℕ, ◌≡◌, refl, ap, ◌∙◌, ◌≢◌, inl, inr, false, ◌&&◌, not, Option, none,
  some, List, [], ◌∷◌, ◌++◌, arith,
}
use homemagic.Repository.{saturating_add}
use homemagic.Automation.{
  is_terminal_run, AutomationRunMode, single, restart, queued, parallel, AutomationOccurrenceState,
}
use homemagic.Scheduler.{
  AutomationOccurrence, AutomationRun, AutomationTimer, repository, Services, recovery_page,
  ActiveAutomationVersion,
}
use homemagic.Scheduler.Admission.{Admission, accept, defer, suppress, increment, occurrence_key}
use homemagic.Scheduler.Recovery.{
  is_live, cancelled_run, cancelling_write, cancel_run, cancel_if_live, cancel_for_restart,
  create_run,
}
use homemagic.Scheduler.Settlement.{
  Pass, is_new_run, push_run, add_run, start_run, make_room, move_occurrence, accept_occurrence,
  admit_as, admit, settle_scheduled, settle_in_state, settle_occurrence,
}

module _ {W B : Type 0} (services : Services W B) (timers : List AutomationTimer) (now : ℕ)
    (id : ℕ) where
  -- A run with the identity is among the runs, or in a pass.
  abbrev pub Has : List AutomationRun → Type 0
  Has rs = is_new_run id rs ≡ false

  abbrev pub Knows : Pass → Type 0
  Knows p = Has p.active_runs

  is_new_run-cons :
      (r : AutomationRun) (rs : List AutomationRun)
      → is_new_run id (r ∷ rs) ≡ (not (nat_beq r.id id) && is_new_run id rs)
  unfolding is_new_run
  is_new_run-cons r rs = refl

  is_new_run-empty : is_new_run id [] ≢ false
  unfolding is_new_run
  is_new_run-empty e = cc

  is_new_run-append : (rs : List AutomationRun) (r : AutomationRun) → Has rs → Has (rs ++ r ∷ [])
  is_new_run-append [] r h = absurd (is_new_run-empty h)
  is_new_run-append (q ∷ rs) r h =
      let a = is_new_run-cons q rs in
      let b = is_new_run-cons q (rs ++ r ∷ []) in
      let i = is_new_run-append rs r in
      elim (Bool-cases (is_new_run id rs)) [
        | inl x ↦ ground arith
        | inr x ↦ let y = i x in ground arith
      ]

  push_run-Has : (rs : List AutomationRun) (r : AutomationRun) → Has rs → Has (push_run r rs)
  unfolding push_run
  push_run-Has rs r h = elim (Bool-cases (not (is_terminal_run r.state) && is_new_run r.id rs)) [
    | inl x ↦ let y = is_new_run-append rs r h in ground arith
    | inr x ↦ ground arith
  ]

  module _ (o : AutomationOccurrence) where
    abbrev Same : AutomationRun → AutomationRun → Type 0
    Same r r' = r'.id ≡ r.id

    cancel_run-Same :
        (r : AutomationRun) (w : W) → Gives (Same r) (cancel_run services timers o now r w)
    unfolding cancel_run
    cancel_run-Same r w =
        chain-Gives (Same r) (await repository (services.automation_trace r.id recovery_page) w) _
          (λ trace w1.
            let write = cancelling_write services timers o now r (length trace) in
            chain-Gives (Same r) (await repository (services.commit_automation_step write) w1)
              (λ _. give (cancelled_run now r)) (λ _ w2. refl))

    cancel_if_live-Same :
        (r : AutomationRun) (n : ℕ) (w : W)
        → Gives (λ e. Same r e.0) (cancel_if_live services timers o now r n w)
    unfolding cancel_if_live
    cancel_if_live-Same r n w =
        let P : AutomationRun × ℕ → Type 0 = λ e. Same r e.0 in
        either-Gives P (is_live (occurrence_key o) r) _ _ w
          (λ b.
            continue_with-Gives (Same r) P (cancel_run services timers o now r w) _
              (cancel_run-Same r w) (λ r' w1 q. q))
          (λ b. refl)

    abbrev SameRuns : List AutomationRun → List AutomationRun × ℕ → Type 0
    SameRuns rs e = is_new_run id e.0 ≡ is_new_run id rs

    cancel_for_restart-Same :
        (rs : List AutomationRun) (n : ℕ) (w : W)
        → Gives (SameRuns rs) (cancel_for_restart services timers o now rs n w)
    unfolding cancel_for_restart
    cancel_for_restart-Same [] n w = refl
    cancel_for_restart-Same (r ∷ rs) n w =
        continue_with-Gives (λ e. Same r e.0) (SameRuns (r ∷ rs))
          (cancel_if_live services timers o now r n w) _ (cancel_if_live-Same r n w)
          (λ (r', n') w1 q.
            continue_with-Gives (SameRuns rs) (SameRuns (r ∷ rs))
              (cancel_for_restart services timers o now rs n' w1) _
              (cancel_for_restart-Same rs n' w1)
              (λ (rs', n'') w2 s.
                let a = is_new_run-cons r rs in
                let b = is_new_run-cons r' rs' in let e = ap (λ i. nat_beq i id) q in ground arith))

    module _ (v : ActiveAutomationVersion) where
      start_run-Knows : (p : Pass) (w : W) → Knows p → Gives Knows (start_run services v o now p w)
      unfolding start_run
      start_run-Knows p w h =
          chain-Gives Knows (create_run services v o now w) (λ r. give (add_run r p))
            (λ r w1. push_run-Has p.active_runs r h)

      make_room-Knows :
          (m : AutomationRunMode) (p : Pass) (w : W)
          → Knows p
          → Gives Knows (make_room services m timers o now p w)
      unfolding make_room
      make_room-Knows restart p w h =
          continue_with-Gives (SameRuns p.active_runs) Knows
            (cancel_for_restart services timers o now p.active_runs 0 w) _
            (cancel_for_restart-Same p.active_runs 0 w) (λ e w1 q. q ∙ h)
      make_room-Knows single p w h = h
      make_room-Knows (queued c) p w h = h
      make_room-Knows (parallel c) p w h = h

    moved-Knows :
        (o' : AutomationOccurrence) (p' : Pass) (w : W)
        → Knows p'
        → Gives Knows (continue_with (move_occurrence services o' w) (λ _. give p'))
    moved-Knows o' p' w h =
        chain-Gives Knows (move_occurrence services o' w) (λ _. give p') (λ _ _. h)

  module _ (o : AutomationOccurrence) (v : ActiveAutomationVersion) where
    accept_occurrence-Knows :
        (p : Pass) (w : W) → Knows p → Gives Knows (accept_occurrence services v timers o now p w)
    unfolding accept_occurrence
    accept_occurrence-Knows p w h =
        continue_with-Gives Knows Knows (make_room services v.run_mode timers o now p w) _
          (make_room-Knows o v v.run_mode p w h)
          (λ p' w1 q.
            let o' = record o { state = AutomationOccurrenceState.accepted } in
            let p'' = record p' {
              active_counts = increment (occurrence_key o) p'.active_counts;
              result = record (p'.result) { accepted = saturating_add p'.result.accepted 1 };
            } in
            chain-Gives Knows (move_occurrence services o' w1)
              (λ _. start_run services v o' now p'') (λ _ w2. start_run-Knows o' v p'' w2 q))

    admit_as-Knows :
        (d : Admission) (p : Pass) (w : W)
        → Knows p
        → Gives Knows (admit_as services d v timers o now p w)
    unfolding admit_as
    admit_as-Knows accept p w h = accept_occurrence-Knows p w h
    admit_as-Knows defer p w h = h
    admit_as-Knows suppress p w h = moved-Knows o _ _ w h

    settle_scheduled-Knows :
        (p : Pass) (w : W) → Knows p → Gives Knows (settle_scheduled services v timers o now p w)
    unfolding settle_scheduled admit
    settle_scheduled-Knows p w h =
        either-Gives Knows (ltb o.window_ends_at now) _ _ w (λ _. moved-Knows o _ _ w h)
          (λ _.
            either-Gives Knows (ltb now o.occurred_at) (give p) _ w (λ _. h)
              (λ _. admit_as-Knows _ p w h))

    settle_in_state-Knows :
        (s : AutomationOccurrenceState) (p : Pass) (w : W)
        → Knows p
        → Gives Knows (settle_in_state services s v timers o now p w)
    unfolding settle_in_state
    settle_in_state-Knows AutomationOccurrenceState.scheduled p w h = settle_scheduled-Knows p w h
    settle_in_state-Knows AutomationOccurrenceState.accepted p w h = start_run-Knows o v p w h
    settle_in_state-Knows AutomationOccurrenceState.missed_skipped p w h = h
    settle_in_state-Knows AutomationOccurrenceState.suppressed p w h = h

  pub settle_occurrence-Knows :
      (o : AutomationOccurrence) (f : Option ActiveAutomationVersion) (p : Pass) (w : W)
      → Knows p
      → Gives Knows (settle_occurrence services f timers o now p w)
  unfolding settle_occurrence
  settle_occurrence-Knows o none p w h = h
  settle_occurrence-Knows o (some v) p w h = settle_in_state-Knows o v o.state p w h
