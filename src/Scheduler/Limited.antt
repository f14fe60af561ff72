-- ===== src/Scheduler/Limited.antt =====
-- An occurrence of a version, or of another one, under the limits of the version.
use homemagic.Prelude.{
  ltb, give, Gives, either-Gives, ℕ, suc, ◌≤◌, ◌≡◌, refl, sym, ap, ◌∙◌, subst, true, false, Option,
  none, some, List,
}
use homemagic.Automation.{AutomationOccurrenceState}
use homemagic.Scheduler.{
  AutomationOccurrence, AutomationRun, AutomationTimer, ActiveAutomationVersion, Services,
}
use homemagic.Scheduler.Admission.{admission, Key, key_beq, count, occurrence_key, find_version}
use homemagic.Scheduler.Settlement.{
  Pass, admit, settle_scheduled, settle_in_state, settle_occurrence,
}
use homemagic.Scheduler.Live.{key_beq_iff}
use homemagic.Scheduler.Capacity.{
  run_limit, waiting_limit, room, admission_accept, admission_defer, IsWithin, Belongs,
}
use homemagic.Scheduler.Exclusion.{
  Covers, IsOver, moved, admit_as-own, start_run-IsOver, settle_in_state-other,
}

module _ {W B : Type 0} (services : Services W B) (timers : List AutomationTimer) (now : ℕ)
    (known : List AutomationRun) where
  module _ (k : Key) (v : ActiveAutomationVersion) (o : AutomationOccurrence) where
    abbrev pub IsLimited : Pass → Type 0
    IsLimited p = IsWithin k (run_limit v.run_mode) (waiting_limit v.run_mode) p

    admit-own :
        (p : Pass) (w : W)
        → key_beq (occurrence_key o) k ≡ true
        → Belongs services o
        → IsLimited p
        → Gives IsLimited (admit services v timers o now p w)
    unfolding admit
    admit-own p w n h g =
        let key = (key_beq_iff (occurrence_key o) k).0 n in
        let x = ap (λ j. count j p.active_counts) key in
        let y = ap (λ j. count j p.queued_counts) key in
        let l : count (occurrence_key o) p.active_counts ≤ run_limit v.run_mode =
          subst (λ c. c ≤ run_limit v.run_mode) (sym x) g.active in
        admit_as-own services timers now known k (run_limit v.run_mode) (waiting_limit v.run_mode) v
          o
          (admission v.run_mode (count (occurrence_key o) p.active_counts)
            (count (occurrence_key o) p.queued_counts))
          p w n h g
          (λ e.
            subst (λ c. suc (room v.run_mode c) ≤ run_limit v.run_mode) x
              (admission_accept v.run_mode (count (occurrence_key o) p.active_counts)
                (count (occurrence_key o) p.queued_counts) e l))
          (λ e.
            subst (λ c. suc c ≤ waiting_limit v.run_mode) y
              (admission_defer v.run_mode (count (occurrence_key o) p.active_counts)
                (count (occurrence_key o) p.queued_counts) e))

    settle_scheduled-own :
        (p : Pass) (w : W)
        → key_beq (occurrence_key o) k ≡ true
        → Belongs services o
        → IsLimited p
        → Gives IsLimited (settle_scheduled services v timers o now p w)
    unfolding settle_scheduled
    settle_scheduled-own p w n h g =
        either-Gives IsLimited (ltb o.window_ends_at now) _ _ w
          (λ _. moved services timers now known k _ _ v o _ p _ w g)
          (λ _.
            either-Gives IsLimited (ltb now o.occurred_at) (give p) _ w (λ _. g)
              (λ _. admit-own p w n h g))

    settle_in_state-own :
        (s : AutomationOccurrenceState) (p : Pass) (w : W)
        → (s ≡ AutomationOccurrenceState.accepted → IsOver known services o)
        → Covers known p
        → key_beq (occurrence_key o) k ≡ true
        → Belongs services o
        → IsLimited p
        → Gives IsLimited (settle_in_state services s v timers o now p w)
    unfolding settle_in_state
    settle_in_state-own AutomationOccurrenceState.scheduled p w x u n h g =
        settle_scheduled-own p w n h g
    settle_in_state-own AutomationOccurrenceState.accepted p w x u n h g =
        start_run-IsOver services timers now known k (run_limit v.run_mode)
          (waiting_limit v.run_mode) v o p w (x refl) u g
    settle_in_state-own AutomationOccurrenceState.missed_skipped p w x u n h g = g
    settle_in_state-own AutomationOccurrenceState.suppressed p w x u n h g = g

    pub settle_occurrence-other :
        (f : Option ActiveAutomationVersion) (p : Pass) (w : W)
        → (o.state ≡ AutomationOccurrenceState.accepted → IsOver known services o)
        → Covers known p
        → key_beq (occurrence_key o) k ≡ false
        → Belongs services o
        → IsLimited p
        → Gives IsLimited (settle_occurrence services f timers o now p w)
    unfolding settle_occurrence
    settle_occurrence-other none p w x u n h g = g
    settle_occurrence-other (some other) p w x u n h g =
        settle_in_state-other services timers now known k (run_limit v.run_mode)
          (waiting_limit v.run_mode) other o o.state p w x u n h g

    pub settle_occurrence-own :
        (active : List ActiveAutomationVersion) (p : Pass) (w : W)
        → find_version k active ≡ some v
        → (o.state ≡ AutomationOccurrenceState.accepted → IsOver known services o)
        → Covers known p
        → key_beq (occurrence_key o) k ≡ true
        → Belongs services o
        → IsLimited p
        → Gives IsLimited
            (settle_occurrence services (find_version (occurrence_key o) active) timers o now p w)
    unfolding settle_occurrence
    settle_occurrence-own active p w e x u n h g =
        let found = ap (λ j. find_version j active) ((key_beq_iff (occurrence_key o) k).0 n) ∙ e in
        subst (λ f. Gives IsLimited (settle_occurrence services f timers o now p w)) (sym found)
          (settle_in_state-own o.state p w x u n h g)
