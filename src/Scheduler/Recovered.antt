-- ===== src/Scheduler/Recovered.antt =====
-- What a whole recovery leaves of the limits of a version's run mode.
use homemagic.Prelude.{
  Bool-cases, All, await, Gives, continue_with-Gives, lift_error-Gives, chain-Gives, Gives-map,
  Gives-and, Gives-forall, Gives-assuming, ℕ, ◌≤◌, ◌≡◌, inl, inr, false, some, List, [], ◌∷◌, arith,
}
use homemagic.Scheduler.{
  AutomationOccurrence, AutomationTimer, ActiveAutomationVersion, AutomationRecovery,
  AutomationSchedulerTick, repository, Services, recovery_page, AutomationRun,
}
use homemagic.Scheduler.Admission.{Key, key_beq, count, occurrence_key, count_runs, find_version}
use homemagic.Scheduler.Recovery.{ready_timers}
use homemagic.Scheduler.Settlement.{
  Pass, is_new_run, settle_occurrence, settle_occurrences, process_recovery,
}
use homemagic.Scheduler.Live.{live_runs, count-count_runs}
use homemagic.Scheduler.Capacity.{run_limit, waiting_limit, IsWithin}
use homemagic.Scheduler.Known.{settle_occurrence-Knows}
use homemagic.Scheduler.Exclusion.{Covers, IsReady}
use homemagic.Scheduler.Limited.{settle_occurrence-other, settle_occurrence-own}

module _ {W B : Type 0} (services : Services W B) (k : Key) (v : ActiveAutomationVersion) where
  -- The bounds of the version, and the runs that are found at first.
  abbrev IsLimitedWith : List AutomationRun → Pass → Type 0
  IsLimitedWith known p =
      IsWithin k (run_limit v.run_mode) (waiting_limit v.run_mode) p × Covers known p

  module _ (known : List AutomationRun) (active : List ActiveAutomationVersion) where
    settle_occurrence-IsLimited :
        (timers : List AutomationTimer) (now : ℕ) (o : AutomationOccurrence) (p : Pass) (w : W)
        → find_version k active ≡ some v
        → IsReady known services o
        → IsLimitedWith known p
        → Gives
            (IsLimitedWith known)
            (settle_occurrence services (find_version (occurrence_key o) active) timers o now p w)
    settle_occurrence-IsLimited timers now o p w e (b, x) (g, u) =
        let Q = IsWithin k (run_limit v.run_mode) (waiting_limit v.run_mode) in
        let found = find_version (occurrence_key o) active in
        Gives-and Q (Covers known) (settle_occurrence services found timers o now p w)
          (elim (Bool-cases (key_beq (occurrence_key o) k)) [
            | inl n ↦ settle_occurrence-own services timers now known k v o active p w e x u n b g
            | inr n ↦ settle_occurrence-other services timers now known k v o found p w x u n b g
          ])
          (Gives-forall
            (λ id p'. is_new_run id known ≡ false → is_new_run id p'.active_runs ≡ false)
            (settle_occurrence services found timers o now p w)
            (λ id.
              Gives-assuming (λ p'. is_new_run id p'.active_runs ≡ false)
                (settle_occurrence services found timers o now p w)
                (λ n. settle_occurrence-Knows services timers now id o found p w (u id n))))

    settle_occurrences-IsLimited :
        (timers : List AutomationTimer) (now : ℕ) (os : List AutomationOccurrence) (p : Pass)
        (w : W)
        → find_version k active ≡ some v
        → All (IsReady known services) os
        → IsLimitedWith known p
        → Gives (IsLimitedWith known) (settle_occurrences services active timers now os p w)
    unfolding settle_occurrences
    settle_occurrences-IsLimited timers now [] p w e h g = g
    settle_occurrences-IsLimited timers now (o ∷ os) p w e (h, hs) g =
        continue_with-Gives (IsLimitedWith known) (IsLimitedWith known)
          (settle_occurrence services (find_version (occurrence_key o) active) timers o now p w)
          (settle_occurrences services active timers now os)
          (settle_occurrence-IsLimited timers now o p w e h g)
          (λ p' w1 q. settle_occurrences-IsLimited timers now os p' w1 e hs q)

  -- What the repository hands out: stored runs belong to the versions of their occurrences, accepted
  -- occurrences have runs that are over or among the runs that it hands out, and the live runs of the
  -- version are within its limit.
  abbrev pub IsOrderly : AutomationRecovery → Type 0
  IsOrderly recovery =
      All (IsReady recovery.runs services) recovery.occurrences
      × (live_runs k recovery.runs ≤ run_limit v.run_mode)

  abbrev pub IsKept : Pass → Type 0
  IsKept p =
      (live_runs k p.active_runs ≤ run_limit v.run_mode)
      × (count k p.queued_counts ≤ waiting_limit v.run_mode)

  abbrev first_pass : AutomationRecovery → AutomationSchedulerTick → Pass
  first_pass recovery tick = record {
    active_runs = recovery.runs;
    active_counts = count_runs recovery.runs [];
    queued_counts = [];
    result = tick;
  }

  first_pass-IsWithin :
      (recovery : AutomationRecovery) (tick : AutomationSchedulerTick)
      → live_runs k recovery.runs ≤ run_limit v.run_mode
      → IsWithin k (run_limit v.run_mode) (waiting_limit v.run_mode) (first_pass recovery tick)
  unfolding count
  first_pass-IsWithin recovery tick l = ground (arith, count-count_runs k recovery.runs [])

  -- Let the repository hand out stored runs that belong to the versions of their occurrences,
  -- accepted occurrences whose runs are over or handed out with them, and no more live runs of an
  -- active version than its run mode allows: one, or with parallel runs their maximum. Then, after a
  -- recovery that succeeds and whatever other versions it serves, the runs that it found and those
  -- that it started have no more live ones of the version than that, and it has deferred at most as
  -- many occurrences of the version as its queue has places.
  pub process_recovery-IsKept :
      (active : List ActiveAutomationVersion) (tick : AutomationSchedulerTick) (w : W)
      → find_version k active ≡ some v
      → ((w : W) → Gives IsOrderly (services.recoverable_automation_work recovery_page w))
      → Gives IsKept (process_recovery services active tick w)
  unfolding process_recovery
  process_recovery-IsKept active tick w e h =
      let (now, w1) = services.now w in
      let work = services.recoverable_automation_work recovery_page in
      let Q = IsWithin k (run_limit v.run_mode) (waiting_limit v.run_mode) in
      continue_with-Gives IsOrderly IsKept (await repository work w1) _
        (lift_error-Gives IsOrderly repository (work w1) (h w1))
        (λ recovery w2 (hs, l).
          chain-Gives IsKept (ready_timers services now recovery.timers tick w2)
            (λ (timers, t).
              settle_occurrences services active timers now recovery.occurrences
                (first_pass recovery t))
            (λ (timers, t) w3.
              Gives-map (IsLimitedWith recovery.runs) IsKept
                (settle_occurrences services active timers now recovery.occurrences
                  (first_pass recovery t) w3)
                (λ p (q, _). (omega (arith, q.live, q.active), q.waiting))
                (settle_occurrences-IsLimited recovery.runs active timers now recovery.occurrences
                  (first_pass recovery t) w3 e hs (first_pass-IsWithin recovery t l, λ id n. n))))
